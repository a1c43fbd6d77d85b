-- ===== src/Core/Runtime.antt =====
-- Calls of an application to its core (spin_emu_api.c): `spin1_dma_transfer`, `spin1_memcpy`, the
-- interrupt modes, the timer, and the end of an application. Where the regions of a copy overlap, C
-- leaves `memcpy` undefined.
use spi_nnaker_emulator.Base.{
  ℕ, ◌+◌, ◌-◌, ◌*◌, ◌/◌, ◌%◌, ◌==◌, Bool, true, not, ◌||◌, ◌&&◌, List, [], ◌∷◌, ◌++◌, Option, some,
  ltb, leb, if◌then◌else◌, u32,
}
use spi_nnaker_emulator.Base.Outcome.{Outcome, ok, died, ◌>>=◌, ◌>>◌, in_bounds}
use spi_nnaker_emulator.Wire.{send_mc, packet_finished}
use spi_nnaker_emulator.Events.{Event, Scheduler, queue_event, is_direct, is_empty}
use spi_nnaker_emulator.Core.Memory.{Bytes, Maps, all_mapped}

abbrev pub dma_read : ℕ
dma_read = 0

abbrev pub dma_write : ℕ
dma_write = 1

abbrev pub timer_tick : ℕ
timer_tick = 2

abbrev pub dma_transfer_done : ℕ
dma_transfer_done = 1

-- What the process can access, and the variables that these calls change; `sent` are the datagrams to the
-- dispatcher, `alarm` the seconds and microseconds of the last `setitimer`.
pub record Runtime : Type 0 where
  pub maps : Maps
  pub mem : Bytes
  pub events : Scheduler
  pub dma_id : ℕ
  pub flip : ℕ
  pub interrupt_mode : ℕ
  pub alarms_blocked : Bool
  pub sim_time : ℕ
  pub tick : ℕ
  pub warning : ℕ
  pub slow_down : ℕ
  pub alarm : Option (ℕ × ℕ)
  pub emu_quit : Bool
  pub retval : ℕ
  pub sent : List (List ℕ)

-- The two regions have a byte in common.
abbrev pub overlap : ℕ → ℕ → ℕ → Bool
overlap dst src len = not (leb (dst + len) src || leb (src + len) dst)

-- `memcpy(dst, src, len)`, and `spin1_memcpy`.
unfoldable pub spin1_memcpy : Maps → ℕ → ℕ → ℕ → Bytes → Outcome Bytes
spin1_memcpy maps dst src len mem =
    in_bounds (not (overlap dst src len) && (all_mapped maps dst len && all_mapped maps src len))
    >> ok (λ a. if leb dst a && ltb a (dst + len) then mem (src + (a - dst)) else mem a)

-- What the call of a callback of the application does.
abbrev pub Callbacks : Type 0
Callbacks = Event → Runtime → Runtime

-- `queue_event`, with the call of the callback `cbacktoq` where it is called at once.
unfoldable pub queue_or_call : Callbacks → ℕ → ℕ → ℕ → ℕ → Runtime → Runtime
unfolding queue_event
queue_or_call cback id arg1 arg2 cbacktoq s =
    let s' : Runtime = record s { events = queue_event id arg1 arg2 cbacktoq s.events } in
    if is_direct (s.events.evinfo id)
    then cback (record { arg1 = arg1; arg2 = arg2; cback = cbacktoq }) s'
    else s'

-- `spin1_schedule_callback`, which does not use its priority, and `spin1_trigger_user_event`.
abbrev user_event : ℕ
user_event = 4

unfoldable pub schedule_callback : Callbacks → ℕ → ℕ → ℕ → ℕ → Runtime → ℕ × Runtime
unfolding queue_or_call
schedule_callback cback cbacktoq arg0 arg1 priority s =
    (1, queue_or_call cback user_event arg0 arg1 cbacktoq s)

unfoldable pub trigger_user_event : Callbacks → ℕ → ℕ → Runtime → ℕ × Runtime
unfolding queue_or_call
trigger_user_event cback arg0 arg1 s =
    (1, queue_or_call cback user_event arg0 arg1 (s.events.evinfo user_event).cback s)

-- What `spin1_dma_transfer` does behind the copy: its result and the state.
unfoldable pub dma_done : Callbacks → ℕ → Bytes → Runtime → ℕ × Runtime
unfolding queue_or_call
dma_done cback tag mem s =
    let s' =
      queue_or_call cback dma_transfer_done s.dma_id tag (s.events.evinfo dma_transfer_done).cback
        (record s { mem = mem; flip = if s.flip % 2 == 0 then s.flip + 1 else s.flip - 1 }) in
    (s'.dma_id, record s' { dma_id = u32 (s'.dma_id + 1) })

-- `spin1_dma_transfer`.
unfoldable pub spin1_dma_transfer : Callbacks → ℕ → ℕ → ℕ → ℕ → ℕ → Runtime → Outcome (ℕ × Runtime)
unfolding spin1_memcpy dma_done
spin1_dma_transfer cback tag system tcm direction length s =
    if direction == dma_read
    then (spin1_memcpy s.maps tcm system length s.mem >>= λ mem. ok (dma_done cback tag mem s))
    else if direction == dma_write
    then (spin1_memcpy s.maps system tcm length s.mem >>= λ mem. ok (dma_done cback tag mem s))
    else died

-- `set_interrupt_mode`, where `sigprocmask` succeeds: the old mode and the state. The alarms that
-- mode 0 lets through are those of the timer and of new events.
unfoldable pub set_interrupt_mode : ℕ → Runtime → ℕ × Runtime
set_interrupt_mode mode s =
    (s.interrupt_mode, record s { alarms_blocked = not (mode == 0); interrupt_mode = mode })

-- `spin1_irq_disable`, `spin1_fiq_disable` and `spin1_int_disable`.
unfoldable pub int_disable : Runtime → ℕ × Runtime
unfolding set_interrupt_mode
int_disable s = set_interrupt_mode 1 s

-- `spin1_mode_restore`.
unfoldable pub mode_restore : ℕ → Runtime → Runtime
unfolding set_interrupt_mode
mode_restore sr s = (set_interrupt_mode sr s).1

-- The value that both timer functions give to `setitimer`.
abbrev pub alarm_at : ℕ → ℕ → ℕ × ℕ
alarm_at tick slow_down = (u32 (tick * slow_down) / 1000000, u32 (tick * slow_down) % 1000000)

-- `spin1_set_timer_tick`.
unfoldable pub set_timer_tick : ℕ → Runtime → Runtime
set_timer_tick time s = record s { tick = time; alarm = some (alarm_at time s.slow_down) }

-- `handle_timer_tick`, for the signal of the timer.
unfoldable pub handle_timer_tick : Callbacks → Runtime → Runtime
unfolding queue_or_call
handle_timer_tick cback s =
    let now = u32 (s.sim_time + 1) in
    let info = s.events.evinfo timer_tick in
    let s' = queue_or_call cback timer_tick now 0 info.cback (record s {
      sim_time = now;
      warning = if is_empty info.queue then 0 else u32 (s.warning + 1);
    }) in
    if s'.emu_quit then s' else record s' { alarm = some (alarm_at s'.tick s'.slow_down) }

-- `spin1_stop` and `spin1_kill`.
unfoldable pub spin1_stop : Runtime → Runtime
spin1_stop s = record s { sent = s.sent ++ (packet_finished ∷ []) ∷ []; emu_quit = true }

unfoldable pub spin1_kill : ℕ → Runtime → Runtime
spin1_kill error s = record s { emu_quit = true; retval = error }

-- `spin1_send_mc_packet`.
unfoldable pub send_mc_packet : ℕ → ℕ → ℕ → Runtime → ℕ × Runtime
unfolding send_mc
send_mc_packet key payload load s = (
  1,
  record s {
    sent = s.sent ++ send_mc (record { key = key; payload = payload; has_payload = load }) ∷ [];
  },
)
