-- ===== src/IpTag/Entry.antt =====
-- The entry of a tag under IPTAG_SET and IPTAG_GET (`cmd_iptag`, spin_emu_dispatcher.c).
use spi_nnaker_emulator.Base.{
  ℕ, zero, suc, ◌+◌, ◌-◌, ◌/◌, ◌^◌, ◌<◌, ◌≤◌, ◌≡◌, refl, ap, ◌∙◌, arith, put, put_self, shr,
  low_bits, [], ◌∷◌, ◌++◌, take, le_bytes,
}
use native.Mathlib.Nat.{pow-le-pow_right}
use spi_nnaker_emulator.Base.Outcome.{ok}
use spi_nnaker_emulator.Sdp.Message.{Msg, overlay, short_at}
use spi_nnaker_emulator.IpTag.{
  IpTag, Tags, Reply, tag_table_size, iptag_set_op, iptag_get_op, configured, timeout_of, set_tag,
  get_tag, cmd_iptag, table_bytes, tag_bytes,
}

-- A request for an operation on a tag of the table.
abbrev pub Asks : ℕ → ℕ → Msg → Type 0
Asks op tag m = (shr m.arg1 16 ≡ op) × (low_bits m.arg1 8 ≡ tag) × (tag < tag_table_size)

-- IPTAG_SET writes the entry of its tag, no other, and answers 4 bytes with the tag.
pub cmd_iptag_set :
    (tag : ℕ) (m : Msg) (t : Tags)
    → Asks iptag_set_op tag m
    → cmd_iptag m t
      ≡ ok (
        4,
        record m { arg1 = tag },
        record t { table = put t.table tag (configured m (t.table tag)) },
      )
unfolding cmd_iptag set_tag
cmd_iptag_set tag m t (op, low, lt) = rw (op, low) (ground arith)

-- IPTAG_GET of one entry.
cmd_iptag_get :
    (tag : ℕ) (g : Msg) (t : Tags)
    → Asks iptag_get_op tag g
    → g.arg2 ≡ 1
    → cmd_iptag g t
      ≡ ok (24, overlay (take 24 (table_bytes (tag_table_size - tag) tag t.table)) g, t)
unfolding cmd_iptag get_tag
cmd_iptag_get tag g t (op, low, lt) one = rw (op, low, one) (ground arith)

table_bytes_pos :
    (n i : ℕ) (table : ℕ → IpTag)
    → 0 < n
    → table_bytes n i table ≡ tag_bytes (table i) ++ table_bytes (n - 1) (i + 1) table
table_bytes_pos zero i table h = absurd (omega arith)
table_bytes_pos (suc n) i table h =
    ap (λ k. tag_bytes (table i) ++ table_bytes k (i + 1) table) (omega arith)

-- What the reply to an IPTAG_GET of one entry holds: the address in the first argument, the port in
-- the upper half of the third, and the timeout in the first two bytes of the data.
get_fields :
    (tag : ℕ) (g : Msg) (table : ℕ → IpTag) (ip a b c d e f : ℕ)
    → tag < tag_table_size
    → ip < 2 ^ 32
    → (table tag).ip ≡ le_bytes ip
    → (table tag).mac ≡ a ∷ b ∷ c ∷ d ∷ e ∷ f ∷ []
    → e < 256
    → f < 256
    → (table tag).port < 2 ^ 16
    → (table tag).timeout < 2 ^ 16
    → let r = overlay (take 24 (table_bytes (tag_table_size - tag) tag table)) g in
      (r.arg1 ≡ ip)
      × (r.arg3 / 2 ^ 16 ≡ (table tag).port)
      × (short_at r.body 0 ≡ (table tag).timeout)
unfolding overlay
get_fields tag g table ip a b c d e f lt wi hip hmac le lf hp ht =
    rw (table_bytes_pos (tag_table_size - tag) tag table (omega arith), hip, hmac)
      (omega arith, omega arith, omega arith)

pow_small : (k : ℕ) → k ≤ 15 → 2 ^ k ≤ 2 ^ 15
pow_small k h = pow-le-pow_right {n = 2} (omega arith) h

timeout_of-lt : (arg2 : ℕ) → timeout_of arg2 < 2 ^ 16
timeout_of-lt arg2 = ground (arith, pow_small (low_bits (shr arg2 16) 4 - 1) (omega arith))

-- What a reply tells of the entry that an IPTAG_SET message asked for.
pub record Tells (m : Msg) (r : Reply) : Type 0 where
  pub length : r.0 ≡ 24
  pub address : (r.1).arg1 ≡ m.arg3
  pub port : (r.1).arg3 / 2 ^ 16 ≡ low_bits m.arg2 16
  pub timeout : short_at (r.1).body 0 ≡ timeout_of m.arg2

-- IPTAG_GET of one entry after IPTAG_SET of the same tag answers 24 bytes with the address, the
-- port and the timeout that were set, and changes nothing, for an address of 32 bits, if the
-- entry's MAC address is six bytes.
pub cmd_iptag_get-set :
    (tag : ℕ) (m g : Msg) (t : Tags) (a b c d e f : ℕ)
    → Asks iptag_set_op tag m
    → Asks iptag_get_op tag g
    → g.arg2 ≡ 1
    → m.arg3 < 2 ^ 32
    → (t.table tag).mac ≡ a ∷ b ∷ c ∷ d ∷ e ∷ f ∷ []
    → e < 256
    → f < 256
    → (s r : Reply) × (cmd_iptag m t ≡ ok s) × (cmd_iptag g (s.2) ≡ ok r) × Tells m r × (r.2 ≡ s.2)
cmd_iptag_get-set tag m g t a b c d e f sets gets one fits hmac le lf =
    let entry : IpTag = configured m (t.table tag) in
    let t' : Tags = record t { table = put t.table tag entry } in
    let at : t'.table tag ≡ entry = put_self t.table tag entry in
    let fields =
      get_fields tag g t'.table (m.arg3) a b c d e f (sets.2) fits (ap (λ (x : IpTag). x.ip) at)
        (ap (λ (x : IpTag). x.mac) at ∙ hmac) le lf (rw at (omega arith))
        (rw at (timeout_of-lt (m.arg2))) in
    (
      (4, record m { arg1 = tag }, t'),
      (24, overlay (take 24 (table_bytes (tag_table_size - tag) tag t'.table)) g, t'),
      cmd_iptag_set tag m t sets,
      cmd_iptag_get tag g t' gets one,
      record {
        length = refl;
        address = fields.0;
        port = fields.1 ∙ ap (λ (x : IpTag). x.port) at;
        timeout = fields.2 ∙ ap (λ (x : IpTag). x.timeout) at;
      },
      refl,
    )
