-- ===== src/Examples/Tags.antt =====
-- An IP tag set and read back, and the tags that IPTAG_NEW hands out.
use spi_nnaker_emulator.Base.{ℕ, ◌+◌, ◌*◌, ◌^◌, ◌≡◌, refl, arith, [], ◌∷◌, put, replicate}
use spi_nnaker_emulator.Base.Outcome.{ok}
use spi_nnaker_emulator.Sdp.Message.{Msg}
use spi_nnaker_emulator.IpTag.{
  IpTag, Tags, Reply, iptag_set_op, iptag_get_op, configured, cmd_iptag,
}
use spi_nnaker_emulator.IpTag.Alloc.{AllFree, cmd_iptag-AllFree}
use spi_nnaker_emulator.IpTag.Entry.{Asks, Tells, cmd_iptag_set, cmd_iptag_get-set}

abbrev pub request : ℕ → ℕ → ℕ → Msg
request a b c = record {
  length = 24;
  checksum = 0;
  flags = 0;
  tag = 0;
  dest_port = 0;
  srce_port = 255;
  dest_addr = 0;
  srce_addr = 0;
  cmd_rc = 0;
  seq = 1;
  arg1 = a;
  arg2 = b;
  arg3 = c;
  body = replicate 256 0;
  pad = 0;
}

abbrev unset : IpTag
unset = record {
  ip = 0 ∷ 0 ∷ 0 ∷ 0 ∷ [];
  mac = 0 ∷ 0 ∷ 0 ∷ 0 ∷ 0 ∷ 0 ∷ [];
  port = 0;
  timeout = 0;
  flags = 0;
  count = 0;
  padding = 0;
}

abbrev pub tags : Tags
tags = record { table = λ i. unset; tag_tto = 9 }

tags-AllFree : AllFree tags.table
tags-AllFree i lt = refl

-- IPTAG_SET, IPTAG_GET and IPTAG_NEW for tag 6; port 17893, timeout code 3.
abbrev set_six : Msg
set_six = request (1 * 2 ^ 16 + 6) (3 * 2 ^ 16 + 17893) 0x0100a8c0

abbrev get_six : Msg
get_six = request (2 * 2 ^ 16 + 6) 1 0

set_six-Asks : Asks iptag_set_op 6 set_six
set_six-Asks = (omega arith, omega arith, omega arith)

get_six-Asks : Asks iptag_get_op 6 get_six
get_six-Asks = (omega arith, omega arith, omega arith)

cmd_iptag_set_example :
    cmd_iptag set_six tags
    ≡ ok (
      4,
      record set_six { arg1 = 6 },
      record tags { table = put tags.table 6 (configured set_six unset) },
    )
cmd_iptag_set_example = cmd_iptag_set 6 set_six tags set_six-Asks

cmd_iptag_get-set_example :
    (s r : Reply) × (cmd_iptag set_six tags ≡ ok s)
    × (cmd_iptag get_six (s.2) ≡ ok r)
    × Tells set_six r
    × (r.2 ≡ s.2)
cmd_iptag_get-set_example =
    cmd_iptag_get-set 6 set_six get_six tags 0 0 0 0 0 0 set_six-Asks get_six-Asks refl
      (omega arith) refl (omega arith) (omega arith)

cmd_iptag-AllFree_example : AllFree (put tags.table 6 (configured set_six unset))
cmd_iptag-AllFree_example = cmd_iptag-AllFree set_six tags tags-AllFree cmd_iptag_set_example
