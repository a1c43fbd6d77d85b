-- ===== src/Core/Later.antt =====
-- The switch of `read_mc` (spin_emu_api.c) for a core whose application is only called later.
use spi_nnaker_emulator.Base.{ℕ, ◌+◌, ◌≡◌, refl, ap, arith, true, u32, false, ◌==◌, if◌then◌else◌}
use spi_nnaker_emulator.Base.Int.{pos}
use spi_nnaker_emulator.McQueue.{Mc}
use spi_nnaker_emulator.Events.{EventInfo, queue_event, is_direct, gtz}
use spi_nnaker_emulator.Core.Packets.{
  Core, Callbacks, mc_packet_received, go_key, rdygo_key, rdy1_key, rdy2_key, notify, take_mc,
}

notify-later :
    (cback : Callbacks) (id arg1 arg2 : ℕ) (s : Core)
    → is_direct (s.events.evinfo id) ≡ false
    → notify cback id arg1 arg2 s
      ≡ record s { events = queue_event id arg1 arg2 (s.events.evinfo id).cback s.events }
unfolding notify
notify-later cback id arg1 arg2 s later = rw later refl

-- The switch of `read_mc` where no callback is called at once.
unfoldable pub keep_mc : Mc → Core → Core
unfolding queue_event
keep_mc mc s =
    if mc.key == rdygo_key
    then record s { barrier_rdygo = true }
    else if mc.key == go_key
    then record s { barrier_go = true }
    else if mc.key == rdy1_key
    then record s { barrier_rdy1_cnt = u32 (s.barrier_rdy1_cnt + 1) }
    else if mc.key == rdy2_key
    then record s { barrier_rdy2_cnt = u32 (s.barrier_rdy2_cnt + 1) }
    else record s {
      events =
          queue_event mc_packet_received mc.key mc.payload
            (s.events.evinfo mc_packet_received).cback s.events;
    }

pub take_mc-keep_mc :
    (cback : Callbacks) (mc : Mc) (s : Core)
    → is_direct (s.events.evinfo mc_packet_received) ≡ false
    → take_mc cback mc s ≡ keep_mc mc s
unfolding take_mc keep_mc
take_mc-keep_mc cback mc s later =
    ap
      (λ last.
        if mc.key == rdygo_key
        then record s { barrier_rdygo = true }
        else if mc.key == go_key
        then record s { barrier_go = true }
        else if mc.key == rdy1_key
        then record s { barrier_rdy1_cnt = u32 (s.barrier_rdy1_cnt + 1) }
        else if mc.key == rdy2_key
        then record s { barrier_rdy2_cnt = u32 (s.barrier_rdy2_cnt + 1) }
        else last)
      (notify-later cback mc_packet_received mc.key mc.payload s later)

pub later-direct : (e : EventInfo) → gtz e.priority (pos 0) ≡ true → is_direct e ≡ false
later-direct e later = ground arith
