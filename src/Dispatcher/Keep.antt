-- ===== src/Dispatcher/Keep.antt =====
-- The message queues after `process_message` (spin_emu_dispatcher.c).
use spi_nnaker_emulator.Base.{
  ℕ, zero, suc, ◌+◌, ◌≡◌, inl, inr, refl, sym, ◌∙◌, arith, Bool, true, false, Bool-cases, ltb, leb,
  ltb→lt, if◌then◌else◌, has_bit, shr, low_bits, u16, ntohl, count_up_ok, ◌==◌,
}
use mathlib.Core.Bool.{true≢false}
use spi_nnaker_emulator.Base.Outcome.{
  Ensures, Outcome, ok, died, fault, spent, ◌>>=◌, assert, in_bounds,
}
use spi_nnaker_emulator.Grid.{num_chips, num_cpus}
use spi_nnaker_emulator.Sdp.Message.{Msg}
use spi_nnaker_emulator.Dispatcher.State.{Dispatcher, Memory}
use spi_nnaker_emulator.Dispatcher.Commands.{
  dest_chip, queue_for, queue_sdp, start_core, start_masked, dispatch_as, flood_as, cmd_floodfill,
  dispatch_sdp_to_ether, packet_ver, packet_read, packet_write, cmd_p2pc,
}
use spi_nnaker_emulator.Dispatcher.Process.{
  process_nnp, process_iptag, process_p2pc, process_message,
}
use spi_nnaker_emulator.IpTag.{cmd_iptag}
use spi_nnaker_emulator.Dispatcher.Delivery.{Waiting, Holds, deliver, queue_for-IsDelivered}

-- The message queues of `s` are well formed, and its board, its router and the mark that it is
-- initialised are those of `base`.
pub record Kept (base s : Dispatcher) : Type 0 where
  pub waiting : Waiting
  pub holds : Holds s waiting
  pub same_net : s.net ≡ base.net
  pub same_router : s.router ≡ base.router
  pub same_initialised : s.initialised ≡ base.initialised

module _ (base : Dispatcher) where
  -- If the call returns, then in such a state.
  abbrev pub AfterOk : Outcome Dispatcher → Type 0
  AfterOk = Ensures (Kept base)

  pub AfterOk-bind :
      {A : Type 0} (o : Outcome A) (k : A → Outcome Dispatcher)
      → ((a : A) → AfterOk (k a))
      → AfterOk (o >>= k)
  AfterOk-bind (ok a) k h = h a
  AfterOk-bind died k h = tt
  AfterOk-bind fault k h = tt
  AfterOk-bind spent k h = tt

  pub AfterOk-then :
      (o : Outcome Dispatcher) (k : Dispatcher → Outcome Dispatcher)
      → AfterOk o
      → ((s : Dispatcher) → Kept base s → AfterOk (k s))
      → AfterOk (o >>= k)
  AfterOk-then (ok s) k w h = h s w
  AfterOk-then died k w h = tt
  AfterOk-then fault k w h = tt
  AfterOk-then spent k w h = tt

  AfterOk-loop :
      (n i : ℕ) (body : ℕ → Dispatcher → Outcome Dispatcher) (s : Dispatcher)
      → ((j : ℕ) (s : Dispatcher) → Kept base s → AfterOk (body j s))
      → Kept base s
      → AfterOk (count_up_ok n i body s)
  unfolding count_up_ok
  AfterOk-loop zero i body s h w = w
  AfterOk-loop (suc n) i body s h w =
      AfterOk-then (body i s) (count_up_ok n (i + 1) body) (h i s w)
        (λ s' w'. AfterOk-loop n (i + 1) body s' h w')

  queue_for_off :
      (m : Msg) (id c : ℕ) (s : Dispatcher) → ltb c num_cpus ≡ false → queue_for m id c s ≡ fault
  unfolding queue_for
  queue_for_off m id c s off = rw off refl

  pub queue_for-AfterOk :
      (m : Msg) (id c : ℕ) (s : Dispatcher) → Kept base s → AfterOk (queue_for m id c s)
  queue_for-AfterOk m id c s w = elim (Bool-cases (ltb c num_cpus)) [
    | inl fits ↦
        let d = queue_for-IsDelivered m id c s w.waiting (ltb→lt c num_cpus fits) w.holds in
        rw (d.returns) (record {
          waiting = deliver w.waiting id c m;
          holds = d.now;
          same_net = w.same_net;
          same_router = w.same_router;
          same_initialised = w.same_initialised;
        })
    | inr off ↦ rw (queue_for_off m id c s off) tt
  ]

  pub Kept-store :
      (s s' : Dispatcher)
      → (s'.sdp ≡ s.sdp)
        × (s'.net ≡ s.net)
        × (s'.router ≡ s.router)
        × (s'.initialised ≡ s.initialised)
      → Kept base s
      → Kept base s'
  Kept-store s s' (e, n, r, b) w = record {
    waiting = w.waiting;
    holds = record {
      cells = w.holds.cells;
      is_store = rw e (w.holds.is_store);
      holds = w.holds.holds;
    };
    same_net = n ∙ w.same_net;
    same_router = r ∙ w.same_router;
    same_initialised = b ∙ w.same_initialised;
  }

  start_masked-AfterOk :
      (mask : ℕ) (m : Msg) (c i : ℕ) (s : Dispatcher)
      → Kept base s
      → AfterOk (start_masked mask m c i s)
  unfolding start_masked start_core
  start_masked-AfterOk mask m c i s w = elim (Bool-cases (has_bit mask i)) [
    | inl bit ↦ rw bit (
        AfterOk-then (queue_for _ c i s) _ (queue_for-AfterOk _ c i s w)
          (λ s' w'. Kept-store s' _ (refl, refl, refl, refl) w'))
    | inr off ↦ rw off w
  ]

  pub queue_sdp-AfterOk : (m : Msg) (s : Dispatcher) → Kept base s → AfterOk (queue_sdp m s)
  unfolding queue_sdp
  queue_sdp-AfterOk m s w =
      AfterOk-bind (dest_chip m s) _ (λ id. queue_for-AfterOk m id (low_bits m.dest_port 5) s w)

  dispatch_as-AfterOk : (m : Msg) (s : Dispatcher) → Kept base s → AfterOk (dispatch_as m s)
  unfolding dispatch_as
  dispatch_as-AfterOk m s w =
      AfterOk-bind (dest_chip m s) _
        (λ id. AfterOk-loop (num_chips s.net.dims) 0 _ s (λ c s' w'. on_chip id c s' w') w)
    where
      on_chip :
          (id c : ℕ) (s' : Dispatcher)
          → Kept base s'
          → AfterOk (
              if c == id
              then count_up_ok num_cpus 0 (start_masked (ntohl m.arg2) m c) s'
              else ok s')
      on_chip id c s' w' = elim (Bool-cases (c == id)) [
        | inl e ↦ rw e (
            AfterOk-loop num_cpus 0 (start_masked (ntohl m.arg2) m c) s'
              (λ i s'' w''. start_masked-AfterOk (ntohl m.arg2) m c i s'' w'') w')
        | inr ne ↦ rw ne w'
      ]

  flood_as-AfterOk : (m : Msg) (s : Dispatcher) → Kept base s → AfterOk (flood_as m s)
  unfolding flood_as
  flood_as-AfterOk m s w =
      AfterOk-loop (num_chips s.net.dims) 0 _ s
        (λ c s' w'.
          let located : Msg = record m { arg1 = s'.floodfill } in
          AfterOk-loop num_cpus 0 (start_masked m.arg2 located c) s'
            (λ i s'' w''. start_masked-AfterOk m.arg2 located c i s'' w'') w')
        w

  cmd_floodfill-AfterOk : (m : Msg) (s : Dispatcher) → Kept base s → AfterOk (cmd_floodfill m s)
  unfolding cmd_floodfill
  cmd_floodfill-AfterOk m s w =
      AfterOk-loop (num_chips s.net.dims) 0 _ s (λ c s' w'. queue_for-AfterOk _ c 1 s' w') w

  pub ether-AfterOk : (m : Msg) (s : Dispatcher) → Kept base s → AfterOk (dispatch_sdp_to_ether m s)
  unfolding dispatch_sdp_to_ether
  ether-AfterOk m s w = AfterOk-bind (assert (leb m.length 288)) _ (λ _.
      AfterOk-bind (in_bounds (leb m.length 284)) _
        (λ _. Kept-store s _ (refl, refl, refl, refl) w))

  iptag-AfterOk : (m : Msg) (s : Dispatcher) → Kept base s → AfterOk (process_iptag m s)
  unfolding process_iptag
  iptag-AfterOk m s w = AfterOk-bind (cmd_iptag m s.tags) _ (λ r.
      let s' : Dispatcher = record s { tags = r.2 } in
      ether-AfterOk (record (r.1) { cmd_rc = 128; length = u16 (r.0 + 28) }) s'
        (Kept-store s s' (refl, refl, refl, refl) w))

  nnp-AfterOk : (m : Msg) (s : Dispatcher) → Kept base s → AfterOk (process_nnp m s)
  unfolding process_nnp
  nnp-AfterOk m s w = elim (Bool-cases (shr m.arg1 24 == 6)) [
    | inl e ↦ rw e (Kept-store s _ (refl, refl, refl, refl) w)
    | inr ne ↦ elim (Bool-cases (shr m.arg1 24 == 15)) [
      | inl e ↦ rw (ne, e) (flood_as-AfterOk m s w)
      | inr ne' ↦ rw (ne, ne') w
    ]
  ]

  AfterOk-if_true :
      (b : Bool) (x y : Outcome Dispatcher) → b ≡ true → AfterOk x → AfterOk (if b then x else y)
  AfterOk-if_true true x y e h = h
  AfterOk-if_true false x y e h = absurd (true≢false (sym e))

  p2pc-AfterOk :
      (mem : Memory) (m : Msg) (s : Dispatcher)
      → s.initialised ≡ true
      → Kept base s
      → AfterOk (process_p2pc mem m s)
  unfolding process_p2pc
  p2pc-AfterOk mem m s running w =
      AfterOk-if_true s.initialised (ok s)
        (cmd_p2pc mem (low_bits (ntohl m.arg2) 8) (low_bits (shr (ntohl m.arg2) 8) 8) s) running w

pub unchanged : (s : Dispatcher) (waiting : Waiting) → Holds s waiting → Kept s s
unchanged s waiting h = record {
  waiting = waiting;
  holds = h;
  same_net = refl;
  same_router = refl;
  same_initialised = refl;
}

-- On an initialised board whose message queues are well formed, `process_message` of any message
-- ends the process, faults, or leaves the message queues well formed and the board, the router and
-- the mark that the board is initialised as they were.
pub process_message-AfterOk :
    (mem : Memory) (m : Msg) (s : Dispatcher) (waiting : Waiting)
    → s.initialised ≡ true
    → Holds s waiting
    → AfterOk s (process_message mem m s)
unfolding process_message
process_message-AfterOk mem m s waiting running h =
    let w = unchanged s waiting h in
    ground (
      arith,
      queue_sdp-AfterOk s (record m { cmd_rc = packet_ver }) s w,
      queue_sdp-AfterOk s (record m { cmd_rc = packet_read }) s w,
      queue_sdp-AfterOk s (record m { cmd_rc = packet_write }) s w,
      nnp-AfterOk s m s w,
      p2pc-AfterOk s mem m s running w,
      cmd_floodfill-AfterOk s m s w,
      dispatch_as-AfterOk s m s w,
      iptag-AfterOk s m s w,
      queue_sdp-AfterOk s m s w,
    )
