-- ===== src/Barrier/Release.antt =====
-- The release of the application cores by the GO packet (`barrier_wait` and `barrier_setup`,
-- spin_emu_api.c; `flush_mc_queues`, spin_emu_dispatcher.c).
use native.Mathlib.Nat.{pow-le-pow_right}
use spi_nnaker_emulator.Base.{
  ℕ, zero, suc, ◌+◌, ◌*◌, ◌/◌, ◌%◌, ◌^◌, ◌<◌, ◌≤◌, ◌≡◌, refl, ap, ◌∙◌, sym, arith, ◌==◌, ==_ne,
  ==_refl, lt→ltb, Option, none, eq-cases, Bool, true, false, ◌&&◌, ◌||◌, List, [], ◌∷◌, ◌++◌,
  if◌then◌else◌, has_bit, bit_and, ltb, inl, inr, some, get_or, All,
}
use spi_nnaker_emulator.Base.Int.{ℤ, pos}
use spi_nnaker_emulator.Grid.{num_chips, num_links, num_cpus, channel_target}
use spi_nnaker_emulator.McQueue.{Mc, queue_size, contents}
use spi_nnaker_emulator.Router.{Net, State, Datagram, matches, forward, route_mc, flush_mc_queues}
use spi_nnaker_emulator.Router.Forward.{HasLinks}
use spi_nnaker_emulator.Router.Keep.{IsReady, Noticed}
use spi_nnaker_emulator.Router.Match.{route_mc_cases}
use spi_nnaker_emulator.Grid.Coordinates.{coords-lt, index-lt}
use spi_nnaker_emulator.Router.Broadcast.{count, IsTree}
use spi_nnaker_emulator.Router.Wave.{Carries}
use spi_nnaker_emulator.Router.Reached.{broadcast}
use spi_nnaker_emulator.Core.Packets.{go_key}
use spi_nnaker_emulator.Barrier.{barrier_mask, app_cores}
use spi_nnaker_emulator.Barrier.Routes.{has_cores, tree_links, core_bits}
use spi_nnaker_emulator.Barrier.Branches.{no_link}
use spi_nnaker_emulator.Barrier.Acyclic.{IsBarrierTable, core_bits-link, barrier-IsFlushed}
use spi_nnaker_emulator.Barrier.Go.{parent, square_dims, parent-of_link, link-of_parent}

-- The core map has core `i` of chip `c` for the application.
abbrev pub is_app : List ℕ → ℕ → ℕ → Bool
is_app core_map c i = ltb 0 i && has_bit (app_cores (get_or core_map c 0)) i

last_or : (b : Bool) → (b && true || false) ≡ b
last_or true = refl
last_or false = refl

skip_or : (b c : Bool) → (b && false || c) ≡ c
skip_or true c = refl
skip_or false c = refl

core_bits_before : (n v w i : ℕ) → i < v → core_bits n v w (i + num_links) ≡ false
core_bits_before zero v w i lt = refl
core_bits_before (suc n) v w i lt =
    rw (==_ne (v + num_links) (i + num_links) (λ e. omega arith))
      (skip_or (has_bit w v) _ ∙ core_bits_before n (v + 1) w i (omega arith))

core_bits_core : (n v w i : ℕ) → v ≤ i → i < v + n → core_bits n v w (i + num_links) ≡ has_bit w i
core_bits_core zero v w i le lt = absurd (omega arith)
core_bits_core (suc n) v w i le lt = elim (eq-cases v i) [
  | inl e ↦ rw (← e) (
      rw (==_refl (v + num_links), core_bits_before n (v + 1) w v (omega arith))
        (last_or (has_bit w v)))
  | inr ne ↦
      rw (==_ne (v + num_links) (i + num_links) (λ e. ne (omega arith)))
        (skip_or (has_bit w v) _ ∙ core_bits_core n (v + 1) w i (omega arith) (omega arith))
]

core_bits-is_app :
    (core_map : List ℕ) (c i : ℕ)
    → i < num_cpus
    → core_bits 7 1 (app_cores (get_or core_map c 0)) (i + num_links) ≡ is_app core_map c i
core_bits-is_app core_map c zero lt =
    core_bits_before 7 1 (app_cores (get_or core_map c 0)) 0 (omega arith)
core_bits-is_app core_map c (suc i) lt =
    core_bits_core 7 1 (app_cores (get_or core_map c 0)) (suc i) (omega arith) (omega arith)
    ∙ sym (
        ap (λ b. b && has_bit (app_cores (get_or core_map c 0)) (suc i))
          (lt→ltb 0 (suc i) (omega arith)))

no_tree_link :
    (core_map : List ℕ) (side at x y j : ℕ) → 3 ≤ j → tree_links core_map side at x y j ≡ false
no_tree_link core_map side at x y j high =
    no_link _ _ _ _ _ _ (==_ne 2 j (λ e. omega arith)) (==_ne 0 j (λ e. omega arith))
      (==_ne 1 j (λ e. omega arith))

or_right : (b c : Bool) → b ≡ false → (b || c) ≡ c
or_right b c e = ap (λ a. a || c) e

or_left : (b c : Bool) → c ≡ false → (b || c) ≡ b
or_left true c e = refl
or_left false c e = e

abbrev value_or : Option ℤ → ℤ
value_or none = pos 0
value_or (some v) = v

-- A square board whose chips all have application cores and the entries of the barrier.
module _ (core_map : List ℕ) (k : ℕ) (net : Net) (mc : Mc) (square : net.dims ≡ square_dims (2 ^ k))
    (links : HasLinks net)
    (tables : (c : ℕ)
      → c < num_chips net.dims
      → IsBarrierTable core_map k (c / 2 ^ k) (c % 2 ^ k) (net.routes c))
    (busy : (c : ℕ) → c < num_chips net.dims → has_cores core_map c ≡ true)
    (key : mc.key ≡ go_key) where
  side_pos : 0 < 2 ^ k
  side_pos = pow-le-pow_right {n = 2} (omega arith) {i = 0} {j = k} (omega arith)

  area : num_chips net.dims ≡ 2 ^ k * 2 ^ k
  area = ap num_chips square

  matches_go : (c : ℕ) → c < num_chips net.dims → matches (net.routes c 0) mc ≡ true
  matches_go c hc =
      ap (λ r. matches r mc) ((tables c hc).go) ∙ ap (λ w. go_key == bit_and w barrier_mask) key

  -- The packet takes the first entry.
  route_mc_go :
      (c : ℕ) (s : State)
      → c < num_chips net.dims
      → route_mc net c mc s ≡ forward net c (net.routes c 0) mc s
  route_mc_go c s hc = elim (route_mc_cases net c mc s) [
    | inl (zero, lt, first, e) ↦ e
    | inl (suc i, lt, first, e) ↦
        absurd (first.before 0 (omega arith) (omega arith) (matches_go c hc))
    | inr (none_hits, e) ↦ absurd (none_hits 0 (omega arith) (omega arith) (matches_go c hc))
  ]

  go_bits :
      (c : ℕ) (hc : c < num_chips net.dims) (j : ℕ)
      → has_bit ((net.routes c 0).route) j ≡ (
          core_bits 7 1 (app_cores (get_or core_map (c / 2 ^ k * 2 ^ k + c % 2 ^ k) 0)) j
          || tree_links core_map (2 ^ k) (c / 2 ^ k * 2 ^ k + c % 2 ^ k) (c / 2 ^ k) (c % 2 ^ k) j)
  go_bits c hc j = ap (λ r. has_bit (r.route) j) ((tables c hc).go) ∙ (tables c hc).set_up.go_bits j

  link_bits :
      (c : ℕ) (hc : c < num_chips net.dims) (j : ℕ)
      → j < num_links
      → has_bit ((net.routes c 0).route) j
        ≡ tree_links core_map (2 ^ k) (c / 2 ^ k * 2 ^ k + c % 2 ^ k) (c / 2 ^ k) (c % 2 ^ k) j
  link_bits c hc j hj =
      go_bits c hc j
      ∙ or_right _ _
          (core_bits-link 7 1 (app_cores (get_or core_map (c / 2 ^ k * 2 ^ k + c % 2 ^ k) 0)) j hj)

  app_bits :
      (c i : ℕ)
      → c < num_chips net.dims
      → i < num_cpus
      → has_bit ((net.routes c 0).route) (i + num_links) ≡ is_app core_map c i
  app_bits c i hc hi =
      go_bits c hc (i + num_links)
      ∙ or_left _ _ (
          no_tree_link core_map (2 ^ k) (c / 2 ^ k * 2 ^ k + c % 2 ^ k) (c / 2 ^ k) (c % 2 ^ k)
            (i + num_links) (omega arith))
      ∙ core_bits-is_app core_map (c / 2 ^ k * 2 ^ k + c % 2 ^ k) i hi
      ∙ ap (λ n. is_app core_map n i) ((coords-lt c (2 ^ k) (2 ^ k) (rw area at hc)).2)

  go-IsTree : IsTree net mc 0 (parent (2 ^ k)) (λ c. net.routes c 0)
  go-IsTree = record {
    is_root = rw area (omega (arith, index-lt 0 0 (2 ^ k) (2 ^ k) side_pos side_pos));
    routed = λ c s hc. route_mc_go c s hc;
    down = λ c j t hc hj l.
        parent-of_link core_map (2 ^ k) c j t
          (ap (λ d. channel_target d c j) (sym square) ∙ links c j hc hj ∙ ap some (l.1))
          (sym (link_bits c hc j hj) ∙ l.0);
    linked = λ t ht ne.
        let (lt, near, (j, low, set, to)) =
          link-of_parent core_map (2 ^ k) t (rw area at ht) ne (busy t ht) in
        let hp : parent (2 ^ k) t < num_chips net.dims = rw area lt in
        (
          hp,
          (
            j,
            omega arith,
            (
              link_bits (parent (2 ^ k) t) hp j (omega arith) ∙ set,
              ap value_or (
                  sym (links (parent (2 ^ k) t) j hp (omega arith))
                  ∙ ap (λ d. channel_target d (parent (2 ^ k) t) j) square
                  ∙ to),
            ),
          ),
        );
    depth = λ c. c / 2 ^ k + c % 2 ^ k;
    deeper = λ t ht ne. (link-of_parent core_map (2 ^ k) t (rw area at ht) ne (busy t ht)).1;
  }

-- What the GO packet does: each application core gets it once, nothing else is sent, and no packet
-- waits any more.
pub record IsReleased (core_map : List ℕ) (net : Net) (mc : Mc) (s : State) (result : Option State)
    : Type 0 where
  pub state : State
  pub news : List Datagram
  pub returns : result ≡ some state
  pub sent : state.sent ≡ s.sent ++ news
  pub once :
      (c i : ℕ)
      → c < num_chips net.dims
      → i < num_cpus
      → count c i news ≡ (if is_app core_map c i then 1 else 0)
  pub carried : All (Carries net mc) news
  pub empty : (c : ℕ) → c < num_chips net.dims → (state.queues c 0).len ≡ 0

-- On a square board of 2^k by 2^k chips, k at most 4, with the computed link table, where every
-- chip has application cores in the core map and its routing table holds the entries that
-- `barrier_setup` and `rts_init` of its root core send and no others, and where one GO packet
-- waits on the root chip and nothing else on any chip, with fuel that exceeds the 1024 packets of
-- a queue and `mc_pending` raised where packets wait, `flush_mc_queues` ends with every queue
-- empty: it sends the packet to each application core of each chip exactly once, and nothing else
-- to any core.
pub flush_mc_queues-IsReleased :
    (core_map : List ℕ) (k fuel : ℕ) (net : Net) (mc : Mc) (s : State)
    → k ≤ 4
    → net.dims ≡ record { chips_x = 2 ^ k; chips_y = 2 ^ k }
    → HasLinks net
    → ((c : ℕ)
        → c < num_chips net.dims
        → IsBarrierTable core_map k (c / 2 ^ k) (c % 2 ^ k) (net.routes c))
    → ((c : ℕ) → c < num_chips net.dims → has_cores core_map c ≡ true)
    → mc.key ≡ go_key
    → IsReady s.queues
    → Noticed (num_chips net.dims) s.queues s.mc_pending
    → ((c : ℕ)
        → c < num_chips net.dims
        → contents (s.queues c 0) ≡ (if c == 0 then mc ∷ [] else []))
    → queue_size < fuel
    → IsReleased core_map net mc s (flush_mc_queues net fuel s)
flush_mc_queues-IsReleased core_map k fuel net mc s small square links tables busy key ready noticed
      alone big =
    let f = barrier-IsFlushed core_map k fuel net s small square links tables ready noticed big in
    let t = go-IsTree core_map k net mc square links tables busy key in
    let (news, sent, b) =
      broadcast net mc 0 (parent (2 ^ k)) (λ c. net.routes c 0) t links s.sent fuel s f.state ready
        refl alone f.returns f.empty in
    record {
      state = f.state;
      news = news;
      returns = f.returns;
      sent = sent;
      once = λ c i hc hi.
          b.once c i hc hi
          ∙ ap (λ a. if a then 1 else 0)
              (app_bits core_map k net mc square links tables busy key c i hc hi);
      carried = b.carried;
      empty = f.empty;
    }
