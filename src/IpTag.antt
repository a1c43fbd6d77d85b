-- ===== src/IpTag.antt =====
-- The IP tag table (`iptag_t`, spin_emu.h; `iptag_init`, `iptag_new`, `copy_ip` and `cmd_iptag`,
-- spin_emu_dispatcher.c).
pub mod Alloc
pub mod Entry
use spi_nnaker_emulator.Base.{
  ℕ, zero, suc, ◌+◌, ◌-◌, ◌*◌, ◌/◌, ◌%◌, ◌^◌, ◌==◌, Bool, true, false, not, ◌||◌, List, [], ◌∷◌,
  ◌++◌, ltb, leb, if◌then◌else◌, shr, low_bits, shl, u32, le_bytes, take, put, count_up,
}
use spi_nnaker_emulator.Base.Outcome.{Outcome, ok, died, fault, ◌>>=◌, ◌>>◌, in_bounds}
use spi_nnaker_emulator.Sdp.Message.{Msg, buf_size, short_bytes, overlay}

-- `iptag_t`, of 24 bytes. `ip` and `mac` are their bytes.
pub record IpTag : Type 0 where
  pub ip : List ℕ
  pub mac : List ℕ
  pub port : ℕ
  pub timeout : ℕ
  pub flags : ℕ
  pub count : ℕ
  pub padding : ℕ

abbrev pub tag_bytes : IpTag → List ℕ
tag_bytes t =
    t.ip
    ++ (t.mac
        ++ (short_bytes t.port
            ++ (short_bytes t.timeout
                ++ (short_bytes t.flags ++ (le_bytes t.count ++ le_bytes t.padding)))))

-- `iptags` and `tag_tto`.
pub record Tags : Type 0 where
  pub table : ℕ → IpTag
  pub tag_tto : ℕ

abbrev pub tag_table_size : ℕ
tag_table_size = 16

abbrev pub first_pool_tag : ℕ
first_pool_tag = 4

abbrev pub tag_pool_size : ℕ
tag_pool_size = 12

abbrev pub tag_none : ℕ
tag_none = 255

abbrev pub rc_arg : ℕ
rc_arg = 0x84

-- The operations of `enum scamp_iptag_commands`.
abbrev pub iptag_new_op : ℕ
iptag_new_op = 0

abbrev pub iptag_set_op : ℕ
iptag_set_op = 1

abbrev pub iptag_get_op : ℕ
iptag_get_op = 2

abbrev pub iptag_tto_op : ℕ
iptag_tto_op = 4

abbrev pub iptag_max : ℕ
iptag_max = 4

-- `tag->flags = 0;`
abbrev pub clear_flags : ℕ → (ℕ → IpTag) → ℕ → IpTag
clear_flags i table = put table i (record (table i) { flags = 0 })

-- The loop of `iptag_init`.
unfoldable pub clear_all : (ℕ → IpTag) → ℕ → IpTag
unfolding count_up
clear_all table = count_up tag_table_size 0 clear_flags table

-- `iptag_init`: all flags cleared, and tag 1 set up for 127.0.0.1.
unfoldable pub iptag_init : (ℕ → IpTag) → ℕ → IpTag
unfolding clear_all
iptag_init table =
    let cleared = clear_all table in
    put cleared 1 (record (cleared 1) { timeout = 100; port = 17892; ip = 127 ∷ 0 ∷ 0 ∷ 1 ∷ [] })

-- The loop of `iptag_new`, with `n` tags left from tag `i` on.
unfoldable pub free_from : ℕ → ℕ → (ℕ → IpTag) → ℕ
free_from zero i table = tag_none
free_from (suc n) i table =
    let rest = free_from n (i + 1) table in if (table i).flags == 0 then i else rest

unfoldable pub iptag_new : (ℕ → IpTag) → ℕ
unfolding free_from
iptag_new table = free_from tag_pool_size first_pool_tag table

-- The timeout field that an argument stands for: 0, or a power of two.
abbrev pub timeout_of : ℕ → ℕ
timeout_of arg2 =
    let timeout = low_bits (shr arg2 16) 4 in
    if not (timeout == 0) then shl 1 (timeout - 1) else timeout

-- What NEW and SET write into an entry. `copy_ip` copies the bytes of the third argument.
abbrev pub configured : Msg → IpTag → IpTag
configured m t = record t {
  timeout = timeout_of m.arg2;
  port = low_bits m.arg2 16;
  ip = le_bytes m.arg3;
}

-- The bytes of `n` entries from tag `i` on.
abbrev pub table_bytes : ℕ → ℕ → (ℕ → IpTag) → List ℕ
table_bytes zero i table = []
table_bytes (suc n) i table = tag_bytes (table i) ++ table_bytes n (i + 1) table

-- The reply's length, the message and the table after `cmd_iptag`.
abbrev pub Reply : Type 0
Reply = ℕ × Msg × Tags

-- The branch of NEW and SET.
unfoldable pub set_tag : ℕ → Msg → Tags → Reply
set_tag tag m t = (
  4,
  record m { arg1 = tag },
  if not (tag == tag_none)
      then record t { table = put t.table tag (configured m (t.table tag)) }
      else t,
)

-- The branch of GET. A copy past the end of the table reads foreign memory.
unfoldable pub get_tag : ℕ → Msg → Tags → Outcome Reply
get_tag tag m t =
    let size = u32 (m.arg2 * 24) in
    if ltb buf_size size
    then ok (0, record m { cmd_rc = rc_arg }, t)
    else (in_bounds (leb (tag * 24 + size) (tag_table_size * 24))
        >> ok (size, overlay (take size (table_bytes (tag_table_size - tag) tag t.table)) m, t))

-- The branch of TTO.
unfoldable pub tto_tag : Msg → Tags → Reply
tto_tag m t = (
  4,
  record m { arg1 = u32 (shl 4 24 + shl tag_pool_size 16 + t.tag_tto) },
  if ltb m.arg2 16 then record t { tag_tto = m.arg2 } else t,
)

-- `cmd_iptag`; the last branch is CLR.
unfoldable pub cmd_iptag : Msg → Tags → Outcome Reply
unfolding iptag_new set_tag get_tag tto_tag
cmd_iptag m t =
    let op = shr m.arg1 16 in
    let tag = low_bits m.arg1 8 in
    if ltb iptag_max op || leb tag_table_size tag
    then ok (0, record m { cmd_rc = rc_arg }, t)
    else if op == iptag_new_op
    then ok (set_tag (iptag_new t.table) m t)
    else if op == iptag_set_op
    then ok (set_tag tag m t)
    else if op == iptag_get_op
    then get_tag tag m t
    else if op == iptag_tto_op
    then ok (tto_tag m t)
    else ok (0, m, record t { table = clear_flags tag t.table })
