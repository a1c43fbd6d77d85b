-- ===== src/Dispatcher/Delivery.antt =====
-- The queues after `queue_sdp` and `cmd_floodfill` (spin_emu_dispatcher.c).
use spi_nnaker_emulator.Base.{
  ℕ, ◌+◌, ◌<◌, ◌≤◌, ◌≡◌, inl, inr, refl, sym, ap, ◌∙◌, arith, pair-cases, List, [], ◌∷◌, ◌++◌,
  Option, none, some, ltb, lt→ltb, le→ltb, if◌then◌else◌, shr, low_bits, Table, update, update_self,
  update_ne, count_up_ok_inv,
}
use mathlib.Core.List.{map-append}
use spi_nnaker_emulator.Base.Int.{pos}
use spi_nnaker_emulator.Base.Outcome.{Outcome, ok, fault}
use spi_nnaker_emulator.Grid.{num_chips, num_cpus}
use spi_nnaker_emulator.Grid.Coordinates.{chip_id-lt}
use spi_nnaker_emulator.Sdp.Message.{Msg}
use spi_nnaker_emulator.Sdp.Store.{Store}
use spi_nnaker_emulator.Sdp.Chain.{Cell}
use spi_nnaker_emulator.Sdp.Invariant.{IsStore, messages}
use spi_nnaker_emulator.Sdp.Fifo.{queue_sdp_xy-IsStore}
use spi_nnaker_emulator.Dispatcher.State.{Dispatcher}
use spi_nnaker_emulator.Dispatcher.Commands.{
  asserted, dest_chip, queue_for, queue_sdp, write_request, cmd_floodfill,
}

-- The messages that wait for each core of each chip, oldest first.
abbrev pub Waiting : Type 0
Waiting = Table (List Msg)

-- The queues of the dispatcher are well formed and hold these messages.
pub record Holds (s : Dispatcher) (waiting : Waiting) : Type 0 where
  pub cells : Table (List Cell)
  pub is_store : IsStore s.sdp cells
  pub holds : (id c : ℕ) → messages (cells id c) ≡ waiting id c

-- One more message for one core.
abbrev pub deliver : Waiting → ℕ → ℕ → Msg → Waiting
deliver waiting id c m = update waiting id c (waiting id c ++ m ∷ [])

-- What a call that delivers ends with: the queues hold `waiting`, and only they changed.
pub record IsDelivered (s : Dispatcher) (waiting : Waiting) (result : Outcome Dispatcher)
    : Type 0 where
  pub store : Store
  pub returns : result ≡ ok (record s { sdp = store })
  pub now : Holds (record s { sdp = store }) waiting

pub queue_for-IsDelivered :
    (m : Msg) (id c : ℕ) (s : Dispatcher) (waiting : Waiting)
    → c < num_cpus
    → Holds s waiting
    → IsDelivered s (deliver waiting id c m) (queue_for m id c s)
unfolding queue_for
queue_for-IsDelivered m id c s waiting hc h =
    let (st, run, v) = queue_sdp_xy-IsStore m id c s.sdp h.cells h.is_store in
    record {
      store = st;
      returns = rw (lt→ltb c num_cpus hc, run);
      now = record {
        cells = update h.cells id c (h.cells id c ++ (s.sdp.fresh, m) ∷ []);
        is_store = v;
        holds = λ id' c'. elim (pair-cases id c id' c') [
          | inl (e, e') ↦
              rw (← e, ← e')
                (ap messages (update_self h.cells id c _)
                  ∙ map-append _ (h.cells id c) _
                  ∙ ap (λ l. l ++ m ∷ []) (h.holds id c)
                  ∙ sym (update_self waiting id c (waiting id c ++ m ∷ [])))
          | inr ne ↦
              ap messages (update_ne h.cells id c id' c' _ ne)
              ∙ h.holds id' c'
              ∙ sym (update_ne waiting id c id' c' (waiting id c ++ m ∷ []) ne)
        ];
      };
    }

asserted-eq-ok : (o : Option ℕ) (a : ℕ) → asserted o ≡ ok a → o ≡ some a
asserted-eq-ok none a e = cc
asserted-eq-ok (some b) a e = cc

pub dest_chip-lt :
    (m : Msg) (id : ℕ) (s : Dispatcher) → dest_chip m s ≡ ok id → id < num_chips s.net.dims
unfolding dest_chip
dest_chip-lt m id s at =
    chip_id-lt s.net.dims (pos (shr m.dest_addr 8)) (pos (low_bits m.dest_addr 8)) id
      (asserted-eq-ok _ id at)

-- On well-formed queues `queue_sdp` of a message to a core below 8 of a chip on the board appends
-- it to the queue of that core, and changes no other queue and nothing else.
pub queue_sdp-IsDelivered :
    (m : Msg) (id : ℕ) (s : Dispatcher) (waiting : Waiting)
    → dest_chip m s ≡ ok id
    → low_bits m.dest_port 5 < num_cpus
    → Holds s waiting
    → IsDelivered s (deliver waiting id (low_bits m.dest_port 5) m) (queue_sdp m s)
unfolding queue_sdp
queue_sdp-IsDelivered m id s waiting at hc h =
    rw at (queue_for-IsDelivered m id (low_bits m.dest_port 5) s waiting hc h)

-- A message to core 8 or above of a chip on the board makes `queue_sdp` access the queues out of
-- bounds, whatever they hold.
pub queue_sdp_fault :
    (m : Msg) (id : ℕ) (s : Dispatcher)
    → dest_chip m s ≡ ok id
    → num_cpus ≤ low_bits m.dest_port 5
    → queue_sdp m s ≡ fault
unfolding queue_sdp queue_for
queue_sdp_fault m id s at hc = rw (at, le→ltb (low_bits m.dest_port 5) num_cpus hc)

-- A message to core 1 of every chip before `c`.
abbrev pub flooded : ℕ → Msg → Waiting → Waiting
flooded c m waiting id core = if ltb id c then deliver waiting id 1 m id core else waiting id core

pub Holds-ext :
    (s : Dispatcher) (waiting waiting' : Waiting)
    → ((id c : ℕ) → waiting id c ≡ waiting' id c)
    → Holds s waiting
    → Holds s waiting'
Holds-ext s waiting waiting' e h = record {
  cells = h.cells;
  is_store = h.is_store;
  holds = λ id c. h.holds id c ∙ e id c;
}

flooded-next :
    (c : ℕ) (m : Msg) (waiting : Waiting) (id core : ℕ)
    → deliver (flooded c m waiting) c 1 m id core ≡ flooded (c + 1) m waiting id core
flooded-next c m waiting id core = ground arith

-- On well-formed queues `cmd_floodfill` appends its write request to the queue of core 1 of every
-- chip of the board, and changes no other queue and nothing else.
pub cmd_floodfill-IsDelivered :
    (m : Msg) (s : Dispatcher) (waiting : Waiting)
    → Holds s waiting
    → IsDelivered s (flooded (num_chips s.net.dims) (write_request m) waiting) (cmd_floodfill m s)
unfolding cmd_floodfill
cmd_floodfill-IsDelivered m s waiting h =
    let (s', run, (store, e, now)) =
      count_up_ok_inv Now (λ c s. queue_for (write_request m) c 1 s) (num_chips s.net.dims) 0
        (num_chips s.net.dims) s (omega arith) (λ c s' p q n. step c s' n)
        (
          s.sdp,
          refl,
          Holds-ext s waiting (flooded 0 (write_request m) waiting) (λ id c. ground arith) h,
        ) in
    record { store = store; returns = run ∙ ap ok e; now = rw e at now }
  where
    Now : ℕ → Dispatcher → Type 0
    Now c s' =
        (store : Store) × (s' ≡ record s { sdp = store })
        × Holds s' (flooded c (write_request m) waiting)

    step :
        (c : ℕ) (s' : Dispatcher)
        → Now c s'
        → (s'' : Dispatcher) × (queue_for (write_request m) c 1 s' ≡ ok s'') × Now (c + 1) s''
    step c s' (store, e, now) =
        let d =
          queue_for-IsDelivered (write_request m) c 1 s' (flooded c (write_request m) waiting)
            (omega arith) now in
        (
          record s' { sdp = d.store },
          d.returns,
          (
            d.store,
            ap (λ (x : Dispatcher). record x { sdp = d.store }) e,
            Holds-ext (record s' { sdp = d.store }) _ _ (flooded-next c (write_request m) waiting)
                d.now,
          ),
        )
