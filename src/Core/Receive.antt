-- ===== src/Core/Receive.antt =====
-- The receiver thread of a core: `read_packets` and `spin_emu_controller` (spin_emu_api.c). What
-- `recv` gives is an argument: the datagrams that wait on the socket. Errors of `select` and the
-- text that is printed for one of `recv` are left out.
use spi_nnaker_emulator.Base.{ℕ, ◌==◌, List, [], ◌∷◌, if◌then◌else◌, take}
use spi_nnaker_emulator.Base.Outcome.{Outcome, ok, died, ◌>>=◌}
use spi_nnaker_emulator.Wire.{packet_mc, packet_sdp}
use spi_nnaker_emulator.Core.Packets.{Core, Callbacks, read_mc, read_sdp}

-- RECVBUFSIZE; what a datagram has beyond it is lost.
abbrev pub recv_buf_size : ℕ
recv_buf_size = 1024

-- A datagram, with the time at which it is handled and the address that `xmalloc` gives then.
pub record Arrival : Type 0 where
  pub bytes : List ℕ
  pub now : ℕ
  pub at : ℕ

-- The switch of `read_packets`.
unfoldable pub read_packet : Callbacks → ℕ → ℕ → ℕ → List ℕ → Core → Outcome Core
unfolding read_mc read_sdp
read_packet cback now at type buf s =
    if type == packet_mc
    then read_mc cback buf s
    else if type == packet_sdp
    then read_sdp cback now at buf s
    else died

-- The body of its loop with the rest of the loop; an empty datagram ends it.
unfoldable pub read_then : Callbacks → ℕ → ℕ → List ℕ → (Core → Outcome Core) → Core → Outcome Core
unfolding read_packet
read_then cback now at [] next s = ok s
read_then cback now at (type ∷ buf) next s = read_packet cback now at type buf s >>= next

-- `read_packets`.
unfoldable pub read_packets : Callbacks → List Arrival → Core → Outcome Core
unfolding read_then
read_packets cback [] s = ok s
read_packets cback (a ∷ rest) s =
    read_then cback a.now a.at (take recv_buf_size a.bytes) (read_packets cback rest) s

-- The rounds of the loop of `spin_emu_controller`, with what each finds on the socket.
unfoldable pub controller : Callbacks → List (List Arrival) → Core → Outcome Core
unfolding read_packets
controller cback [] s = ok s
controller cback (arrivals ∷ rest) s = read_packets cback arrivals s >>= controller cback rest
