-- ===== src/Core/Transport.antt =====
-- Messages between a core and the dispatcher: `spin1_send_sdp_msg` and `read_sdp` (spin_emu_api.c),
-- `dispatch_sdp` and the datagrams of `flush_sdp_queues` (spin_emu_dispatcher.c).
use spi_nnaker_emulator.Base.{ℕ, ◌≡◌, ap, ◌∙◌, arith, List, length, length-append, drop, leb, ◌==◌}
use spi_nnaker_emulator.Base.Outcome.{assert, ◌>>◌}
use spi_nnaker_emulator.Sdp.Message.{Msg, msg_size, msg_bytes, struct_bytes, msg_of_bytes}
use spi_nnaker_emulator.Sdp.RoundTrip.{IsMsg, msg_of_bytes-struct_bytes}
use spi_nnaker_emulator.Dispatcher.State.{Dispatcher}
use spi_nnaker_emulator.Dispatcher.Process.{dispatch_sdp_one, dispatch_sdp}
use spi_nnaker_emulator.Core.Packets.{Core, Callbacks, take_sdp, read_sdp, send_sdp_msg}

pub length-struct_bytes : (next : ℕ) (m : Msg) → IsMsg m → length (struct_bytes next m) ≡ msg_size
unfolding struct_bytes msg_bytes
length-struct_bytes next m v = omega (arith, length-append m.body)

dispatch_sdp_whole :
    (buf : List ℕ) (m : Msg) (s : Dispatcher)
    → length buf ≡ msg_size
    → msg_of_bytes buf ≡ m
    → dispatch_sdp buf s ≡ dispatch_sdp_one m s
unfolding dispatch_sdp
dispatch_sdp_whole buf m s size whole =
    ap (λ n. assert (leb n msg_size) >> dispatch_sdp_one (msg_of_bytes buf) s) size
    ∙ ap (λ m'. dispatch_sdp_one m' s) whole

read_sdp_whole :
    (cback : Callbacks) (buf : List ℕ) (now at : ℕ) (m : Msg) (c : Core)
    → length buf ≡ msg_size
    → msg_of_bytes buf ≡ m
    → read_sdp cback now at buf c ≡ take_sdp cback now at m c
unfolding read_sdp
read_sdp_whole cback buf now at m c size whole =
    ap (λ n. assert (n == msg_size) >> take_sdp cback now at (msg_of_bytes buf) c) size
    ∙ ap (λ m'. take_sdp cback now at m' c) whole

pub read_sdp-struct_bytes :
    (cback : Callbacks) (next now at : ℕ) (m : Msg) (c : Core)
    → IsMsg m
    → read_sdp cback now at (struct_bytes next m) c ≡ take_sdp cback now at m c
read_sdp-struct_bytes cback next now at m c v =
    read_sdp_whole cback (struct_bytes next m) now at m c (length-struct_bytes next m v)
      (msg_of_bytes-struct_bytes next m v)

-- The datagram that `spin1_send_sdp_msg` sends for a message whose fields fit the struct is
-- handled as that message, whole and without a failed assertion: by the dispatcher that receives
-- it from a core and by the core that receives it from the dispatcher.
pub sdp_arrives :
    (cback : Callbacks) (next now at : ℕ) (m : Msg) (s : Dispatcher) (c : Core)
    → IsMsg m
    → (dispatch_sdp (drop 1 (send_sdp_msg next m)) s ≡ dispatch_sdp_one m s)
      × (read_sdp cback now at (drop 1 (send_sdp_msg next m)) c ≡ take_sdp cback now at m c)
unfolding send_sdp_msg
sdp_arrives cback next now at m s c v =
    let size = length-struct_bytes next m v in
    let whole = msg_of_bytes-struct_bytes next m v in
    (
      dispatch_sdp_whole (struct_bytes next m) m s size whole,
      read_sdp-struct_bytes cback next now at m c v,
    )
