-- ===== src/Router/Broadcast.antt =====
-- A packet that the routing entries send along a tree of chips, in `flush_mc_queues`
-- (spin_emu_dispatcher.c).
use spi_nnaker_emulator.Base.{
  ℕ, zero, suc, ◌+◌, ◌<◌, ◌≤◌, ◌≡◌, ◌≢◌, ◌⊎◌, inl, inr, refl, ap, ◌∙◌, arith, Bool-cases, eq-cases,
  has_bit, List, [], ◌∷◌, ◌++◌, if◌then◌else◌, ◌==◌, ◌&&◌, ==_ne, ==_refl,
}
use mathlib.Core.Path.{subst}
use spi_nnaker_emulator.Grid.{num_links, num_cpus, num_chips}
use spi_nnaker_emulator.McQueue.{Mc, contents, front}
use spi_nnaker_emulator.McQueue.Fifo.{enqueue}
use spi_nnaker_emulator.Wire.{Route}
use spi_nnaker_emulator.Router.{Net, State, Datagram, forward, route_mc, route_next, pop_at}
use spi_nnaker_emulator.Router.Forward.{
  HasLinks, Leads, core_datagrams, forward_reached, forward_other, forward_sent,
}
use spi_nnaker_emulator.Router.Drain.{route_next_other}

-- The datagrams for core `i` of chip `c`.
abbrev pub count : ℕ → ℕ → List Datagram → ℕ
count c i [] = 0
count c i (d ∷ ds) = (if d.chip == c && d.core == i then 1 else 0) + count c i ds

pub count-append :
    (c i : ℕ) (ds ds' : List Datagram) → count c i (ds ++ ds') ≡ count c i ds + count c i ds'
count-append c i [] ds' = omega arith
count-append c i (d ∷ ds) ds' = omega (arith, count-append c i ds ds')

module _ (net : Net) (chip : ℕ) (r : Route) (mc : Mc) where
  pub count_other : (n i₀ c i : ℕ) → chip ≢ c → count c i (core_datagrams net chip r mc n i₀) ≡ 0
  count_other zero i₀ c i ne = refl
  count_other (suc n) i₀ c i ne = elim (Bool-cases (has_bit r.route (i₀ + num_links))) [
    | inl bit ↦ rw (bit, ==_ne chip c ne) (omega (arith, count_other n (i₀ + 1) c i ne))
    | inr off ↦ rw off (count_other n (i₀ + 1) c i ne)
  ]

  count_before : (n i₀ i : ℕ) → i < i₀ → count chip i (core_datagrams net chip r mc n i₀) ≡ 0
  count_before zero i₀ i lt = refl
  count_before (suc n) i₀ i lt = elim (Bool-cases (has_bit r.route (i₀ + num_links))) [
    | inl bit ↦
        rw (bit, ==_refl chip, ==_ne i₀ i (λ e. omega arith))
          (omega (arith, count_before n (i₀ + 1) i (omega arith)))
    | inr off ↦ rw off (count_before n (i₀ + 1) i (omega arith))
  ]

  -- One datagram for each core of the route.
  pub count_hit :
      (n i₀ i : ℕ)
      → i₀ ≤ i
      → i < i₀ + n
      → count chip i (core_datagrams net chip r mc n i₀)
        ≡ (if has_bit r.route (i + num_links) then 1 else 0)
  count_hit zero i₀ i le lt = absurd (omega arith)
  count_hit (suc n) i₀ i le lt = elim (eq-cases i₀ i) [
    | inl e ↦ rw (← e) (elim (Bool-cases (has_bit r.route (i₀ + num_links))) [
      | inl bit ↦
          rw (bit, ==_refl chip, ==_refl i₀)
            (omega (arith, count_before n (i₀ + 1) i₀ (omega arith)))
      | inr off ↦ rw off (count_before n (i₀ + 1) i₀ (omega arith))
    ])
    | inr ne ↦ elim (Bool-cases (has_bit r.route (i₀ + num_links))) [
      | inl bit ↦
          rw (bit, ==_refl chip, ==_ne i₀ i ne)
            (omega (arith, count_hit n (i₀ + 1) i (omega arith) (omega arith)))
      | inr off ↦ rw off (count_hit n (i₀ + 1) i (omega arith) (omega arith))
    ]
  ]

-- The entries of the board send the packet `g` along a tree: chip `c` forwards it by `entry c`,
-- whose links lead to the chips that have `c` as parent, and to no others.
pub record IsTree (net : Net) (g : Mc) (root : ℕ) (par : ℕ → ℕ) (entry : ℕ → Route) : Type 0 where
  pub is_root : root < num_chips net.dims
  pub routed :
      (c : ℕ) (s : State)
      → c < num_chips net.dims
      → route_mc net c g s ≡ forward net c (entry c) g s
  pub down :
      (c j t : ℕ)
      → c < num_chips net.dims
      → j < num_links
      → Leads net c (entry c) g j t
      → (t ≢ root) × (par t ≡ c)
  pub linked :
      (t : ℕ)
      → t < num_chips net.dims
      → t ≢ root
      → (par t < num_chips net.dims)
        × ((j : ℕ) × (j < num_links) × Leads net (par t) (entry (par t)) g j t)
  pub depth : ℕ → ℕ
  pub deeper : (t : ℕ) → t < num_chips net.dims → t ≢ root → depth (par t) < depth t

-- What `route_next` does with the packet that waits first on `chip`.
module _ (net : Net) (g : Mc) (root : ℕ) (par : ℕ → ℕ) (entry : ℕ → Route)
    (t : IsTree net g root par entry) (w : HasLinks net) (chip : ℕ) (h : chip < num_chips net.dims)
    (s : State) where
  abbrev routed_by : State
  routed_by = forward net chip (entry chip) g s

  route_next_forward : front (s.queues chip 0) ≡ g → route_next net chip s ≡ pop_at chip 0 routed_by
  unfolding route_next
  route_next_forward e =
      ap (λ mc. pop_at chip 0 (route_mc net chip mc s)) e ∙ ap (pop_at chip 0) (t.routed chip s h)

  pub route_next_sent :
      front (s.queues chip 0) ≡ g
      → (route_next net chip s).sent ≡ s.sent ++ core_datagrams net chip (entry chip) g num_cpus 0
  unfolding pop_at
  route_next_sent e =
      ap (λ (x : State). x.sent) (route_next_forward e) ∙ forward_sent net chip (entry chip) g s

  route_next_queue :
      (c : ℕ)
      → front (s.queues chip 0) ≡ g
      → chip ≢ c
      → contents ((route_next net chip s).queues c 0) ≡ contents (routed_by.queues c 0)
  route_next_queue c e ne =
      ap contents (route_next_other net chip w h s c 0 (inl ne))
      ∙ ap (λ mc. contents ((route_mc net chip mc s).queues c 0)) e
      ∙ ap (λ (x : State). contents (x.queues c 0)) (t.routed chip s h)

  -- A chip below gets the packet, the others keep theirs.
  pub route_next_below :
      (c : ℕ)
      → front (s.queues chip 0) ≡ g
      → chip ≢ c
      → c < num_chips net.dims
      → c ≢ root
      → par c ≡ chip
      → contents ((route_next net chip s).queues c 0) ≡ enqueue (contents (s.queues c 0)) g
  route_next_below c e ne hc inner up =
      let (above, (j, lt, leads)) = t.linked c hc inner in
      route_next_queue c e ne
      ∙ forward_reached net chip (entry chip) g j c s w h lt
          (subst (λ p. Leads net p (entry p) g j c) up leads)

  pub route_next_beside :
      (c : ℕ)
      → front (s.queues chip 0) ≡ g
      → chip ≢ c
      → (c ≡ root) ⊎ (par c ≢ chip)
      → contents ((route_next net chip s).queues c 0) ≡ contents (s.queues c 0)
  route_next_beside c e ne away =
      route_next_queue c e ne
      ∙ ap contents (
          forward_other net chip (entry chip) g c 0 s (λ j lt. inl (λ l. elim away [
            | inl same ↦ (t.down chip j c h lt l).0 same
            | inr off ↦ off ((t.down chip j c h lt l).1)
          ])))
