-- ===== src/Barrier/Acyclic.antt =====
-- The packets of the barrier on a square of chips: `barrier_setup` (spin_emu_api.c) and `route_mc`
-- (spin_emu_dispatcher.c).
use native.Mathlib.Nat.{pow-le-pow_right}
use mathlib.Core.Bool.{false≢true}
use mathlib.Core.Path.{subst}
use spi_nnaker_emulator.Base.{
  ℕ, zero, suc, ◌+◌, ◌-◌, ◌*◌, ◌/◌, ◌%◌, ◌^◌, ◌<◌, ◌≤◌, ◌≡◌, ◌≢◌, refl, ap, ◌∙◌, sym, arith, ◌==◌,
  ==_iff, ==_ne, Bool, true, false, not, ◌&&◌, ◌||◌, List, if◌then◌else◌, has_bit, bit_and,
  Bool-cases, ◌⊎◌, inl, inr, some, get_or,
}
use spi_nnaker_emulator.Base.Int.{pos}
use spi_nnaker_emulator.Grid.{Dims, num_chips, num_links, num_cpus, channel_target}
use spi_nnaker_emulator.Grid.Coordinates.{coords-lt}
use spi_nnaker_emulator.Grid.Links.{channel_target_away, channel_target_back}
use spi_nnaker_emulator.McQueue.{Mc, queue_size, contents}
use spi_nnaker_emulator.Wire.{Route}
use spi_nnaker_emulator.Router.{Net, State, matches, flush_mc_queues}
use spi_nnaker_emulator.Router.Forward.{HasLinks}
use spi_nnaker_emulator.Router.Flush.{IsFlushed, flush_mc_queues-IsFlushed}
use spi_nnaker_emulator.Router.Keep.{IsReady, Noticed}
use spi_nnaker_emulator.Board.{empty_route}
use spi_nnaker_emulator.Board.Setup.{matches-empty_route}
use spi_nnaker_emulator.Core.Packets.{go_key, rdygo_key, rdy1_key, rdy2_key}
use spi_nnaker_emulator.Barrier.{Barrier, barrier_mask, barrier_entry, core_route, app_cores}
use spi_nnaker_emulator.Barrier.Routes.{tree_links, core_bits}
use spi_nnaker_emulator.Barrier.Branches.{no_link}
use spi_nnaker_emulator.Barrier.Setup.{IsSetUp}
use spi_nnaker_emulator.Barrier.Square.{core_route-bit, parent_link}
use spi_nnaker_emulator.Dispatcher.Rounds.{IsAcyclic, All-always}

-- A routing table with the entries that the root core of the chip at (x, y) sent, and no others.
pub record IsBarrierTable (core_map : List ℕ) (k x y : ℕ) (routes : ℕ → Route) : Type 0 where
  pub core : ℕ
  pub is_core : core < num_cpus
  pub before : Barrier
  pub after : Barrier
  pub set_up : IsSetUp core_map k x y core before after
  pub go : routes 0 ≡ (barrier_entry 0 go_key set_up.go_route).1
  pub rdygo : routes 1 ≡ (barrier_entry 1 rdygo_key set_up.rdygo_route).1
  pub rdy1 : routes 2 ≡ (barrier_entry 2 rdy1_key (core_route core)).1
  pub rdy2 : routes 3 ≡ (barrier_entry 3 rdy2_key set_up.rdy2_route).1
  pub rest : (i : ℕ) → routes (i + 4) ≡ empty_route

-- What a link of a matching entry can be: away from the root, or towards it for RDY2 packets.
abbrev Goes : ℕ → ℕ → Type 0
Goes key j = ((key ≢ rdy2_key) × (j < 3)) ⊎ ((key ≡ rdy2_key) × (3 ≤ j))

pub core_bits-link : (n v cores j : ℕ) → j < num_links → core_bits n v cores j ≡ false
core_bits-link zero v cores j h = refl
core_bits-link (suc n) v cores j h =
    rw (==_ne (v + num_links) j (λ e. omega arith), core_bits-link n (v + 1) cores j h)
      (nothing (has_bit cores v))
  where
    nothing : (b : Bool) → (b && false || false) ≡ false
    nothing true = refl
    nothing false = refl

tree_links-low :
    (core_map : List ℕ) (side at x y j : ℕ) → tree_links core_map side at x y j ≡ true → j < 3
tree_links-low core_map side at x y zero h = omega arith
tree_links-low core_map side at x y (suc zero) h = omega arith
tree_links-low core_map side at x y (suc (suc zero)) h = omega arith
tree_links-low core_map side at x y (suc (suc (suc j))) h = absurd (
    false≢true (
      sym (
        no_link _ _ _ _ _ _ (==_ne 2 (suc (suc (suc j))) (λ e. omega arith))
          (==_ne 0 (suc (suc (suc j))) (λ e. omega arith))
          (==_ne 1 (suc (suc (suc j))) (λ e. omega arith)))
      ∙ h))

parent_link-high : (x y j : ℕ) → (x == 0 && y == 0) ≡ false → (parent_link x y == j) ≡ true → 3 ≤ j
parent_link-high x y j inner h = ground arith

-- The key of an entry that matches.
hit_key : (r s : Route) (mc : Mc) → r ≡ s → matches r mc ≡ true → s.key ≡ bit_and mc.key s.mask
hit_key r s mc e h = (==_iff s.key (bit_and mc.key s.mask)).0 (sym (ap (λ r. matches r mc) e) ∙ h)

and_nothing : (a b : Bool) → b ≡ false → (a && b) ≡ false
and_nothing true b e = e
and_nothing false b e = refl

-- What matches another key of the barrier is no RDY2 packet.
other_key : (key key' w : ℕ) → key ≡ w → key ≢ key' → w ≢ key'
other_key key key' w e ne e' = ne (e ∙ e')

module _ (core_map : List ℕ) (k x y : ℕ) (small : k ≤ 4) (hy : y < 2 ^ k) (routes : ℕ → Route)
    (t : IsBarrierTable core_map k x y routes) (mc : Mc) (j : ℕ) (hj : j < num_links) where
  go_link : has_bit (t.set_up.go_route) j ≡ true → j < 3
  go_link h = tree_links-low core_map (2 ^ k) (x * 2 ^ k + y) x y j (
      sym (
        ap (λ b. b || tree_links core_map (2 ^ k) (x * 2 ^ k + y) x y j)
          (core_bits-link 7 1 (app_cores (get_or core_map (x * 2 ^ k + y) 0)) j hj))
      ∙ sym (t.set_up.go_bits j)
      ∙ h)

  rdygo_link : has_bit (t.set_up.rdygo_route) j ≡ true → j < 3
  rdygo_link h =
      let side : 2 ^ k ≤ 16 = pow-le-pow_right {n = 2} (omega arith) {i = k} {j = 4} small in
      let p = (y + num_links) % 32 in
      tree_links-low core_map (2 ^ k) (x * 2 ^ k + y) x y j (
        sym (
          ap (λ b. b || tree_links core_map (2 ^ k) (x * 2 ^ k + y) x y j)
            (and_nothing (not (x == 0 && y == 0)) (p == j) (==_ne p j (λ e. omega arith))))
        ∙ sym (t.set_up.rdygo_bits j)
        ∙ h)

  rdy2_link : has_bit (t.set_up.rdy2_route) j ≡ true → 3 ≤ j
  rdy2_link h = elim (Bool-cases (x == 0 && y == 0)) [
    | inl root ↦ absurd (
        omega (
          arith,
          (==_iff (t.core + num_links) j).0 (
              sym (ap (λ c. if c then t.core + num_links == j else parent_link x y == j) root)
              ∙ sym (t.set_up.rdy2_bits j)
              ∙ h),
        ))
    | inr inner ↦ parent_link-high x y j inner (
        sym (ap (λ c. if c then t.core + num_links == j else parent_link x y == j) inner)
        ∙ sym (t.set_up.rdy2_bits j)
        ∙ h)
  ]

  goes :
      (i : ℕ)
      → matches (routes i) mc ≡ true
      → has_bit ((routes i).route) j ≡ true
      → Goes (bit_and mc.key barrier_mask) j
  goes zero hit bit = inl (
    other_key go_key rdy2_key _ (hit_key _ _ mc t.go hit) (λ e. omega arith),
    go_link (sym (ap (λ r. has_bit (r.route) j) t.go) ∙ bit),
  )
  goes (suc zero) hit bit = inl (
    other_key rdygo_key rdy2_key _ (hit_key _ _ mc t.rdygo hit) (λ e. omega arith),
    rdygo_link (sym (ap (λ r. has_bit (r.route) j) t.rdygo) ∙ bit),
  )
  goes (suc (suc zero)) hit bit =
      let set = sym (ap (λ r. has_bit (r.route) j) t.rdy1) ∙ bit in
      let same = core_route-bit t.core (t.core + num_links) j (omega (arith, t.is_core)) in
      absurd (omega (arith, (==_iff (t.core + num_links) j).0 (sym same ∙ set)))
  goes (suc (suc (suc zero))) hit bit = inr (
    sym (hit_key _ _ mc t.rdy2 hit),
    rdy2_link (sym (ap (λ r. has_bit (r.route) j) t.rdy2) ∙ bit),
  )
  goes (suc (suc (suc (suc i)))) hit bit =
      let same : routes (suc (suc (suc (suc i)))) ≡ empty_route =
        ap routes (omega arith) ∙ t.rest i in
      absurd (false≢true (sym (matches-empty_route mc) ∙ sym (ap (λ r. matches r mc) same) ∙ hit))

-- The hops that a packet of the barrier has to go at most, from chip `c`.
abbrev barrier_hops : ℕ → ℕ → Mc → ℕ
barrier_hops side c mc =
    if bit_and mc.key barrier_mask == rdy2_key
    then c / side + c % side
    else side + side - (c / side + c % side)

hops_fall :
    (d : Dims) (c t j : ℕ) (mc : Mc)
    → c / d.chips_y + c % d.chips_y < d.chips_y + d.chips_y
    → j < num_links
    → Goes (bit_and mc.key barrier_mask) j
    → channel_target d c j ≡ some (pos t)
    → barrier_hops (d.chips_y) t mc < barrier_hops (d.chips_y) c mc
hops_fall d c t j mc lc hj (inl (other, low)) to =
    let away = channel_target_away d j c t low to in rw (==_ne _ _ other) (omega arith)
hops_fall d c t j mc lc hj (inr (rdy2, high)) to =
    let back = channel_target_back d j c t high hj to in rw rdy2 back

hops_few :
    (side c : ℕ) (mc : Mc)
    → c / side + c % side < side + side
    → barrier_hops side c mc < side + side + 1
hops_few side c mc h = elim (Bool-cases (bit_and mc.key barrier_mask == rdy2_key)) [
  | inl e ↦ rw e (omega arith)
  | inr e ↦ rw e (omega arith)
]

on_square : (c side : ℕ) → c < side * side → c / side + c % side < side + side
on_square c side h = let (x, y, e) = coords-lt c side side h in omega arith

pub barrier-IsAcyclic :
    (core_map : List ℕ) (k : ℕ) (net : Net)
    → k ≤ 4
    → net.dims ≡ record { chips_x = 2 ^ k; chips_y = 2 ^ k }
    → HasLinks net
    → ((c : ℕ)
        → c < num_chips net.dims
        → IsBarrierTable core_map k (c / 2 ^ k) (c % 2 ^ k) (net.routes c))
    → IsAcyclic net (2 ^ k + 2 ^ k + 1)
barrier-IsAcyclic core_map k net small square links tables =
    let side : net.dims.chips_y ≡ 2 ^ k = ap (λ d. d.chips_y) square in
    let area : num_chips net.dims ≡ 2 ^ k * 2 ^ k = ap num_chips square in
    let spread : (c : ℕ) → c < num_chips net.dims → c / 2 ^ k + c % 2 ^ k < 2 ^ k + 2 ^ k =
      λ c h. on_square c (2 ^ k) (rw area at h) in
    let row : (c : ℕ) → c < num_chips net.dims → c % 2 ^ k < 2 ^ k =
      λ c h. (coords-lt c (2 ^ k) (2 ^ k) (rw area at h)).1 in
    record {
      hops = barrier_hops (2 ^ k);
      falls = λ c mc i j t hc hi first hj l.
          subst (λ n. c / n + c % n < n + n → barrier_hops n t mc < barrier_hops n c mc) side
            (λ lc.
              hops_fall net.dims c t j mc lc hj
                (goes core_map k (c / 2 ^ k) (c % 2 ^ k) small (row c hc) (net.routes c)
                  (tables c hc) mc j hj i (first.hit) (l.0))
                (links c j hc hj ∙ ap some (l.1)))
            (spread c hc);
      few = λ t mc lt. hops_few (2 ^ k) t mc (spread t lt);
    }

-- On a square board of 2^k by 2^k chips, k at most 4, with the computed link table, where each
-- chip's routing table holds the entries that `barrier_setup` and `rts_init` of its root core send
-- and no others, no packet goes round in a circle: from queues that hold at most 1024 packets, all
-- of them in the queues with index 0 and noticed by `mc_pending`, `flush_mc_queues` ends with
-- every queue of the board empty, with fuel that exceeds the 1024 packets of a queue.
pub barrier-IsFlushed :
    (core_map : List ℕ) (k fuel : ℕ) (net : Net) (s : State)
    → k ≤ 4
    → net.dims ≡ record { chips_x = 2 ^ k; chips_y = 2 ^ k }
    → HasLinks net
    → ((c : ℕ)
        → c < num_chips net.dims
        → IsBarrierTable core_map k (c / 2 ^ k) (c % 2 ^ k) (net.routes c))
    → IsReady s.queues
    → Noticed (num_chips net.dims) s.queues s.mc_pending
    → queue_size < fuel
    → IsFlushed net (flush_mc_queues net fuel s)
barrier-IsFlushed core_map k fuel net s small square links tables ready noticed big =
    let side : 2 ^ k ≤ 16 = pow-le-pow_right {n = 2} (omega arith) {i = k} {j = 4} small in
    let a = barrier-IsAcyclic core_map k net small square links tables in
    flush_mc_queues-IsFlushed net a.hops (2 ^ k + 2 ^ k + 1) fuel s links a.falls big (omega arith)
      ready (λ t. All-always _ (λ mc. a.few t mc) (contents (s.queues t 0))) noticed
