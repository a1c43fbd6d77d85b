-- ===== src/Dispatcher/State.antt =====
-- The global variables of the dispatcher.
use spi_nnaker_emulator.Base.{ℕ, Bool, List, Table}
use spi_nnaker_emulator.Base.Int.{ℤ}
use spi_nnaker_emulator.Wire.{Route}
use spi_nnaker_emulator.McQueue.{Queue}
use spi_nnaker_emulator.Router
use spi_nnaker_emulator.Router.{Net}
use spi_nnaker_emulator.Sdp.Store.{Store}
use spi_nnaker_emulator.IpTag.{Tags}
use spi_nnaker_emulator.Spawn.{Sockets, Children, Calls}

-- A datagram sent over the ethernet socket: its bytes, `sin_port` as stored, and the four bytes of
-- `sin_addr`.
pub record EtherPacket : Type 0 where
  pub bytes : List ℕ
  pub to_port : ℕ
  pub to_ip : List ℕ

-- `sendersip`, `sendersport` and `senderseq`, the source of the last request that waits for a reply.
pub record Sender : Type 0 where
  pub ip : ℕ
  pub port : ℕ
  pub seq : ℕ

pub record Dispatcher : Type 0 where
  pub initialised : Bool
  pub net : Net
  pub router : Router.State
  pub sdp : Store
  pub running : Table ℕ
  pub running_count : ℤ
  pub floodfill : ℕ
  pub tags : Tags
  pub sender : Sender
  pub ether : List EtherPacket
  pub sockets : Sockets
  pub children : Children

-- What the memory that `cmd_p2pc` gets from `malloc` holds: nothing initialises the queues. And what
-- its calls of the operating system answer.
pub record Memory : Type 0 where
  pub queues : Table Queue
  pub head : Table ℕ
  pub tail : Table ℕ
  pub routes : Table Route
  pub targets : Table ℤ
  pub running : Table ℕ
  pub calls : Calls
