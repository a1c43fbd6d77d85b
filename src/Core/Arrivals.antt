-- ===== src/Core/Arrivals.antt =====
-- Datagrams from the dispatcher in the receiver thread of a core (spin_emu_api.c).
use spi_nnaker_emulator.Base.{
  ℕ, ◌+◌, ◌≤◌, ◌<◌, ◌≡◌, ◌≢◌, ◌⊎◌, refl, ap, ◌∙◌, arith, List, [], ◌∷◌, ◌++◌, map, length, take_all,
  take, drop, All, append_assoc, append-nil, true, put_ne, sym,
}
use spi_nnaker_emulator.Base.Int.{pos}
use spi_nnaker_emulator.Base.Outcome.{Outcome, ok, died, fault, spent, ◌>>=◌}
use spi_nnaker_emulator.McQueue.{Mc}
use spi_nnaker_emulator.Wire.{send_mc, packet_mc, packet_sdp}
use spi_nnaker_emulator.Wire.RoundTrip.{IsWord, received, parse_mc-send_mc}
use spi_nnaker_emulator.Events.{Event, Scheduler, queue_event, add_event, gtz}
use spi_nnaker_emulator.Sdp.Message.{Msg, struct_bytes}
use spi_nnaker_emulator.Sdp.RoundTrip.{IsMsg}
use spi_nnaker_emulator.Core.Packets.{
  Core, Callbacks, mc_packet_received, go_key, take_mc, read_mc, take_sdp, read_sdp, send_sdp_msg,
}
use spi_nnaker_emulator.Core.Later.{keep_mc, take_mc-keep_mc, later-direct}
use spi_nnaker_emulator.Core.Transport.{length-struct_bytes, read_sdp-struct_bytes}
use spi_nnaker_emulator.Core.Receive.{recv_buf_size, Arrival, read_packet, read_then, read_packets}

-- What the dispatcher sends to a core: a multicast packet, or a message whose field `next` has
-- some value; with the time and the address of `Arrival`.
pub data Parcel : Type 0 where
  packet : Mc → Parcel
  message : (next now at : ℕ) → Msg → Parcel

-- The words and fields have their widths.
abbrev pub Fits : Parcel → Type 0
Fits (packet mc) = IsWord mc
Fits (message next now at m) = IsMsg m

abbrev pub arrival : Parcel → Arrival
arrival (packet mc) = record { bytes = send_mc mc; now = 0; at = 0 }
arrival (message next now at m) = record { bytes = send_sdp_msg next m; now = now; at = at }

-- What a core does with a parcel.
abbrev pub handle : Callbacks → Parcel → Core → Outcome Core
handle cback (packet mc) s = ok (take_mc cback (received mc) s)
handle cback (message next now at m) s = take_sdp cback now at m s

abbrev pub handle_all : Callbacks → List Parcel → Core → Outcome Core
handle_all cback [] s = ok s
handle_all cback (p ∷ ps) s = handle cback p s >>= handle_all cback ps

module _ (cback : Callbacks) (now at : ℕ) (buf : List ℕ) (rest : Core → Outcome Core) (s : Core)
    (fits : length buf ≤ 1023) where
  read_then-mc :
      read_then cback now at (take recv_buf_size (packet_mc ∷ buf)) rest s
      ≡ (read_mc cback buf s >>= rest)
  unfolding read_then read_packet
  read_then-mc = ap (λ b. read_mc cback b s >>= rest) (take_all 1023 buf fits)

  read_then-sdp :
      read_then cback now at (take recv_buf_size (packet_sdp ∷ buf)) rest s
      ≡ (read_sdp cback now at buf s >>= rest)
  unfolding read_then read_packet
  read_then-sdp = ap (λ b. read_sdp cback now at b s >>= rest) (take_all 1023 buf fits)

read_mc-received :
    (cback : Callbacks) (mc : Mc) (s : Core)
    → IsWord mc
    → read_mc cback (drop 1 (send_mc mc)) s ≡ ok (take_mc cback (received mc) s)
unfolding read_mc
read_mc-received cback mc s w = rw (parse_mc-send_mc mc w) refl

send_mc_short : (mc : Mc) → length (drop 1 (send_mc mc)) ≤ 1023
unfolding send_mc
send_mc_short mc = ground arith

read_then-packet :
    (cback : Callbacks) (mc : Mc) (rest : Core → Outcome Core) (s : Core)
    → IsWord mc
    → read_then cback 0 0 (take recv_buf_size (send_mc mc)) rest s
      ≡ rest (take_mc cback (received mc) s)
unfolding send_mc
read_then-packet cback mc rest s w =
    read_then-mc cback 0 0 (drop 1 (send_mc mc)) rest s (send_mc_short mc)
    ∙ ap (λ o. o >>= rest) (read_mc-received cback mc s w)

read_then-message :
    (cback : Callbacks) (next now at : ℕ) (m : Msg) (rest : Core → Outcome Core) (s : Core)
    → IsMsg m
    → read_then cback now at (take recv_buf_size (send_sdp_msg next m)) rest s
      ≡ (take_sdp cback now at m s >>= rest)
unfolding send_sdp_msg
read_then-message cback next now at m rest s v =
    read_then-sdp cback now at (struct_bytes next m) rest s
      (omega (arith, length-struct_bytes next m v))
    ∙ ap (λ o. o >>= rest) (read_sdp-struct_bytes cback next now at m s v)

-- `read_packets` handles the datagrams of any sequence of packets and messages from the
-- dispatcher, of words and fields of their widths, one after the other as what was sent: each
-- packet by the switch of `read_mc`, each message by that of `read_sdp`, until a message ends the
-- process or the sequence ends.
pub read_packets-handle_all :
    (cback : Callbacks) (ps : List Parcel) (s : Core)
    → All Fits ps
    → read_packets cback (map arrival ps) s ≡ handle_all cback ps s
unfolding read_packets
read_packets-handle_all cback [] s f = refl
read_packets-handle_all cback (packet mc ∷ ps) s (w, f) =
    read_then-packet cback mc (read_packets cback (map arrival ps)) s w
    ∙ read_packets-handle_all cback ps (take_mc cback (received mc) s) f
read_packets-handle_all cback (message next now at m ∷ ps) s (v, f) =
    read_then-message cback next now at m (read_packets cback (map arrival ps)) s v
    ∙ bind_ext (take_sdp cback now at m s) (λ s'. read_packets-handle_all cback ps s' f)
  where
    bind_ext :
        {f g : Core → Outcome Core} (o : Outcome Core)
        → ((s : Core) → f s ≡ g s)
        → (o >>= f) ≡ (o >>= g)
    bind_ext (ok s) h = h s
    bind_ext died h = refl
    bind_ext fault h = refl
    bind_ext spent h = refl

-- The event that a packet is for the application.
abbrev pub event_of : ℕ → Mc → Event
event_of cback mc = record { arg1 = mc.key; arg2 = (received mc).payload; cback = cback }

-- Its key is none of the four keys of the barrier.
abbrev pub IsPlain : Mc → Type 0
IsPlain mc = (mc.key < go_key) ⊎ (go_key + 3 < mc.key)

-- The core `s'` is `s` with the events of `mcs` behind those that waited.
pub record IsQueued (mcs : List Mc) (s s' : Core) : Type 0 where
  pub queue :
      (s'.events.evinfo mc_packet_received).queue
      ≡ (s.events.evinfo mc_packet_received).queue
        ++ map (event_of (s.events.evinfo mc_packet_received).cback) mcs
  pub cback :
      (s'.events.evinfo mc_packet_received).cback ≡ (s.events.evinfo mc_packet_received).cback
  pub priority :
      (s'.events.evinfo mc_packet_received).priority ≡ (s.events.evinfo mc_packet_received).priority
  pub others : (j : ℕ) → j ≢ mc_packet_received → s'.events.evinfo j ≡ s.events.evinfo j
  pub calls : s'.events.calls ≡ s.events.calls
  pub same : s' ≡ record s { events = s'.events }

queue_event-positive :
    (id arg1 arg2 c : ℕ) (s : Scheduler)
    → (s.evinfo id).cback ≢ 0
    → gtz (s.evinfo id).priority (pos 0) ≡ true
    → queue_event id arg1 arg2 c s ≡ add_event id (record { arg1 = arg1; arg2 = arg2; cback = c }) s
unfolding queue_event
queue_event-positive id arg1 arg2 c s some_cback later = ground arith

keep_mc-plain :
    (mc : Mc) (s : Core)
    → IsPlain mc
    → keep_mc (received mc) s ≡ record s {
      events =
          queue_event mc_packet_received mc.key
            ((received mc).payload)
            (s.events.evinfo mc_packet_received).cback
            s.events;
    }
unfolding keep_mc
keep_mc-plain mc s plain = ground arith

take_mc-plain :
    (cback : Callbacks) (mc : Mc) (s : Core)
    → IsPlain mc
    → (s.events.evinfo mc_packet_received).cback ≢ 0
    → gtz (s.events.evinfo mc_packet_received).priority (pos 0) ≡ true
    → take_mc cback (received mc) s ≡ record s {
      events =
          add_event mc_packet_received
            (event_of (s.events.evinfo mc_packet_received).cback mc)
            s.events;
    }
take_mc-plain cback mc s plain some_cback later =
    take_mc-keep_mc cback (received mc) s (later-direct (s.events.evinfo mc_packet_received) later)
    ∙ keep_mc-plain mc s plain
    ∙ ap (λ e. record s { events = e })
        (queue_event-positive mc_packet_received mc.key ((received mc).payload) _ s.events
          some_cback later)

handle_all-IsQueued :
    (cback : Callbacks) (mcs : List Mc) (s : Core)
    → All IsPlain mcs
    → (s.events.evinfo mc_packet_received).cback ≢ 0
    → gtz (s.events.evinfo mc_packet_received).priority (pos 0) ≡ true
    → (s' : Core) × (handle_all cback (map packet mcs) s ≡ ok s') × IsQueued mcs s s'
handle_all-IsQueued cback [] s f c g = (
  s,
  refl,
  record {
    queue = sym (append-nil _);
    cback = refl;
    priority = refl;
    others = λ j ne. refl;
    calls = refl;
    same = refl;
  },
)
handle_all-IsQueued cback (mc ∷ mcs) s (p, f) c g =
    let s₁ : Core = record s {
      events =
          add_event mc_packet_received (event_of (s.events.evinfo mc_packet_received).cback mc)
            s.events;
    } in
    let (s₂, run, q) = handle_all-IsQueued cback mcs s₁ f c g in
    (
      s₂,
      ap (λ t. ok t >>= handle_all cback (map packet mcs)) (take_mc-plain cback mc s p c g) ∙ run,
      record {
        queue = q.queue ∙ append_assoc (s.events.evinfo mc_packet_received).queue _ _;
        cback = q.cback;
        priority = q.priority;
        others =
            λ j ne. q.others j ne ∙ put_ne s.events.evinfo mc_packet_received j _ (λ e. ne (sym e));
        calls = q.calls;
        same = q.same;
      },
    )

pub All-Fits : (mcs : List Mc) → All IsWord mcs → All Fits (map packet mcs)
All-Fits [] w = tt
All-Fits (mc ∷ mcs) (w, ws) = (w, All-Fits mcs ws)

-- The multicast packets that the dispatcher sends to a core, of words of 32 bits and with keys
-- other than the four of the barrier, wait for its application after `read_packets` in the order
-- in which they were sent, behind the packets that waited before, where the application has a
-- callback of a priority above 0 for them; nothing else of the core changes.
pub read_packets-IsQueued :
    (cback : Callbacks) (mcs : List Mc) (s : Core)
    → All IsWord mcs
    → All IsPlain mcs
    → (s.events.evinfo mc_packet_received).cback ≢ 0
    → gtz (s.events.evinfo mc_packet_received).priority (pos 0) ≡ true
    → (s' : Core) × (read_packets cback (map arrival (map packet mcs)) s ≡ ok s')
      × IsQueued mcs s s'
read_packets-IsQueued cback mcs s w f c g =
    let (s', run, q) = handle_all-IsQueued cback mcs s f c g in
    (s', read_packets-handle_all cback (map packet mcs) s (All-Fits mcs w) ∙ run, q)
