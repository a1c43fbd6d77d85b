-- ===== src/Sdp/Message.antt =====
-- `sdp_msg_t`, and its bytes in memory from `flags` on, as the packed struct lays them out.
use spi_nnaker_emulator.Base.{
  ℕ, ◌*◌, ◌+◌, ◌/◌, ◌%◌, ◌^◌, List, [], ◌∷◌, ◌++◌, le_bytes, from_le, drop, take, replicate, get_or,
  length,
}

-- The struct but for `next`, which the queues keep; `body` is the field `data`, `pad` is `__PAD1`.
pub record Msg : Type 0 where
  pub length : ℕ
  pub checksum : ℕ
  pub flags : ℕ
  pub tag : ℕ
  pub dest_port : ℕ
  pub srce_port : ℕ
  pub dest_addr : ℕ
  pub srce_addr : ℕ
  pub cmd_rc : ℕ
  pub seq : ℕ
  pub arg1 : ℕ
  pub arg2 : ℕ
  pub arg3 : ℕ
  pub body : List ℕ
  pub pad : ℕ

-- SDP_BUF_SIZE.
abbrev pub buf_size : ℕ
buf_size = 256

-- The two bytes of a ushort.
abbrev pub short_bytes : ℕ → List ℕ
short_bytes w = (w % 256) ∷ (w / 256 % 256) ∷ []

-- The bytes from `arg1` to the end of the data.
abbrev pub arg_bytes : Msg → List ℕ
arg_bytes m = le_bytes m.arg1 ++ (le_bytes m.arg2 ++ (le_bytes m.arg3 ++ m.body))

-- The 284 bytes from `flags` to the end of the struct.
unfoldable pub msg_bytes : Msg → List ℕ
msg_bytes m =
    m.flags
    ∷ m.tag
    ∷ m.dest_port
    ∷ m.srce_port
    ∷ (short_bytes m.dest_addr
        ++ (short_bytes m.srce_addr
            ++ (short_bytes m.cmd_rc ++ (short_bytes m.seq ++ (arg_bytes m ++ le_bytes m.pad)))))

-- The 292 bytes of the struct, with the pointer `next` in front.
unfoldable pub struct_bytes : ℕ → Msg → List ℕ
unfolding msg_bytes
struct_bytes next m =
    le_bytes next ++ (short_bytes m.length ++ (short_bytes m.checksum ++ msg_bytes m))

-- The words at a position in a list of bytes.
abbrev pub short_at : List ℕ → ℕ → ℕ
short_at bs i = get_or bs i 0 + get_or bs (i + 1) 0 * 2 ^ 8

abbrev pub word_at : List ℕ → ℕ → ℕ
word_at bs i =
    from_le (get_or bs i 0) (get_or bs (i + 1) 0) (get_or bs (i + 2) 0) (get_or bs (i + 3) 0)

-- `memcpy(&msg->arg1, bs, n)` where `bs` has `n` bytes, at most those up to the end of the data.
unfoldable pub overlay : List ℕ → Msg → Msg
overlay bs m =
    let raw = bs ++ drop (length bs) (arg_bytes m) in
    record m {
      arg1 = word_at raw 0;
      arg2 = word_at raw 4;
      arg3 = word_at raw 8;
      body = drop 12 raw;
    }

-- sizeof(sdp_msg_t), and the offset of `flags` in it.
abbrev pub msg_size : ℕ
msg_size = 292

abbrev pub flags_offset : ℕ
flags_offset = 8

-- The message whose struct holds the bytes `bs`, and zeros behind them.
unfoldable pub msg_of_bytes : List ℕ → Msg
msg_of_bytes bs = record {
  length = short_at bs 4;
  checksum = short_at bs 6;
  flags = get_or bs 8 0;
  tag = get_or bs 9 0;
  dest_port = get_or bs 10 0;
  srce_port = get_or bs 11 0;
  dest_addr = short_at bs 12;
  srce_addr = short_at bs 14;
  cmd_rc = short_at bs 16;
  seq = short_at bs 18;
  arg1 = word_at bs 20;
  arg2 = word_at bs 24;
  arg3 = word_at bs 28;
  body = take buf_size (drop 32 bs ++ replicate buf_size 0);
  pad = word_at bs 288;
}
