-- ===== src/Dispatcher/Start.antt =====
-- The queues and the running cores after `dispatch_as` (spin_emu_dispatcher.c).
use spi_nnaker_emulator.Base.{
  ℕ, ◌+◌, ◌<◌, ◌≤◌, ◌≡◌, ◌⊎◌, inl, inr, refl, ◌∙◌, arith, Bool, ◌&&◌, Bool-cases, eq-cases, [], ◌∷◌,
  ◌++◌, ltb, if◌then◌else◌, has_bit, ntohl, update, count_up_ok, count_up_ok_inv, ◌==◌, ==_refl,
  ==_ne,
}
use spi_nnaker_emulator.Base.Int.{inc}
use spi_nnaker_emulator.Base.Outcome.{Outcome, ok}
use spi_nnaker_emulator.Grid.{num_chips, num_cpus}
use spi_nnaker_emulator.Sdp.Message.{Msg}
use spi_nnaker_emulator.Dispatcher.State.{Dispatcher}
use spi_nnaker_emulator.Dispatcher.Commands.{
  packet_as, dest_chip, start_core, start_masked, dispatch_as,
}
use spi_nnaker_emulator.Dispatcher.Delivery.{
  Waiting, Holds, Holds-ext, queue_for-IsDelivered, dest_chip-lt,
}

-- The start message that a core gets.
abbrev pub start_message : Msg → Msg
start_message m = record m { cmd_rc = packet_as }

module _ (mask : ℕ) (m : Msg) (id : ℕ) (s : Dispatcher) (waiting : Waiting) where
  -- Core `j` of chip `k` is one of those below `n` that the mask names, on chip `id`.
  abbrev pub named : ℕ → ℕ → ℕ → Bool
  named n k j = k == id && (ltb j n && has_bit mask j)

  -- The cores below `n` that the mask names have their start message behind what waited for them
  -- and count as running; nothing else has changed but the number of running cores.
  pub record IsStarted (n : ℕ) (s' : Dispatcher) : Type 0 where
    pub holds :
        Holds s' (λ k j. if named n k j then waiting k j ++ start_message m ∷ [] else waiting k j)
    pub running : (k j : ℕ) → s'.running k j ≡ (if named n k j then 1 else s.running k j)
    pub same_net : s'.net ≡ s.net
    pub same_router : s'.router ≡ s.router
    pub same_tags : s'.tags ≡ s.tags
    pub same_ether : s'.ether ≡ s.ether

  start : Holds s waiting → IsStarted 0 s
  start h = record {
    holds = Holds-ext s _ _ (λ k j. ground arith) h;
    running = λ k j. ground arith;
    same_net = refl;
    same_router = refl;
    same_tags = refl;
    same_ether = refl;
  }

  start_next :
      (j : ℕ) (s' : Dispatcher)
      → j < num_cpus
      → IsStarted j s'
      → (s'' : Dispatcher) × (start_masked mask m id j s' ≡ ok s'') × IsStarted (j + 1) s''
  unfolding start_masked start_core
  start_next j s' lt h = elim (Bool-cases (has_bit mask j)) [
    | inl bit ↦
        let d = queue_for-IsDelivered (start_message m) id j s' _ lt h.holds in
        (
          record s' {
            sdp = d.store;
            running = update s'.running id j 1;
            running_count = inc s'.running_count;
          },
          rw (bit, d.returns),
          record {
            holds = record {
              cells = d.now.cells;
              is_store = d.now.is_store;
              holds = λ k i. d.now.holds k i ∙ ground arith;
            };
            running = λ k i. ground (arith, h.running k i);
            same_net = h.same_net;
            same_router = h.same_router;
            same_tags = h.same_tags;
            same_ether = h.same_ether;
          },
        )
    | inr off ↦ (
      s',
      rw off,
      record {
        holds = Holds-ext s' _ _ (λ k i. ground arith) h.holds;
        running = λ k i. h.running k i ∙ ground arith;
        same_net = h.same_net;
        same_router = h.same_router;
        same_tags = h.same_tags;
        same_ether = h.same_ether;
      },
    )
  ]

  start_all :
      Holds s waiting
      → (s' : Dispatcher) × (count_up_ok num_cpus 0 (start_masked mask m id) s ≡ ok s')
        × IsStarted num_cpus s'
  start_all h =
      count_up_ok_inv IsStarted (start_masked mask m id) num_cpus 0 num_cpus s (omega arith)
        (λ j s' p q st. start_next j s' q st) (start h)

-- On well-formed queues `dispatch_as` of a message to a chip of the board starts the cores that
-- its mask names: each gets the start message behind the messages that waited for it and counts as
-- running. Every other core keeps its messages and its state, and the board, the router, the tags
-- and the ethernet are as before.
pub dispatch_as-IsStarted :
    (m : Msg) (id : ℕ) (s : Dispatcher) (waiting : Waiting)
    → dest_chip m s ≡ ok id
    → Holds s waiting
    → (s' : Dispatcher) × (dispatch_as m s ≡ ok s')
      × IsStarted (ntohl m.arg2) m id s waiting num_cpus s'
unfolding dispatch_as
dispatch_as-IsStarted m id s waiting at h =
    let on_board = dest_chip-lt m id s at in
    let (s', run, done) =
      count_up_ok_inv Stage body (num_chips s.net.dims) 0 (num_chips s.net.dims) s (omega arith)
        (λ c s' p q st. step c s' st) (inl (omega arith, refl)) in
    elim done [ inl (le, e) ↦ absurd (omega arith) | inr (lt, started) ↦ (s', rw at run, started) ]
  where
    body : ℕ → Dispatcher → Outcome Dispatcher
    body c s = if c == id then count_up_ok num_cpus 0 (start_masked (ntohl m.arg2) m c) s else ok s

    Stage : ℕ → Dispatcher → Type 0
    Stage c s' =
        ((c ≤ id) × (s' ≡ s)) ⊎ ((id < c) × IsStarted (ntohl m.arg2) m id s waiting num_cpus s')

    step :
        (c : ℕ) (s' : Dispatcher)
        → Stage c s'
        → (s'' : Dispatcher) × (body c s' ≡ ok s'') × Stage (c + 1) s''
    step c s' (inr (lt, st)) = (s', rw (==_ne c id (λ x. omega arith)), inr (omega arith, st))
    step c s' (inl (le, e)) = elim (eq-cases c id) [
      | inl x ↦
          let (s'', run, started) = start_all (ntohl m.arg2) m id s waiting h in
          (s'', rw (x, e, ==_refl id) run, inr (omega arith, started))
      | inr ne ↦ (s', rw (==_ne c id ne), inl (omega arith, e))
    ]
