-- ===== src/IpTag/Alloc.antt =====
-- The tags that IPTAG_NEW hands out (`iptag_init`, `iptag_new`, `cmd_iptag`,
-- spin_emu_dispatcher.c).
use spi_nnaker_emulator.Base.{
  ℕ, zero, suc, ◌+◌, ◌<◌, ◌≤◌, ◌≡◌, ◌≢◌, ◌⊎◌, inl, inr, refl, ◌∙◌, arith, eq-cases, put, shr,
  low_bits, count_up_inv,
}
use spi_nnaker_emulator.Base.Outcome.{ok}
use spi_nnaker_emulator.Sdp.Message.{Msg}
use spi_nnaker_emulator.IpTag.{
  IpTag, Tags, Reply, iptag_new_op, tag_table_size, first_pool_tag, tag_pool_size, tag_none,
  clear_flags, clear_all, iptag_init, free_from, iptag_new, configured, set_tag, get_tag, tto_tag,
  cmd_iptag,
}

-- Every tag of the table is free.
abbrev pub AllFree : (ℕ → IpTag) → Type 0
AllFree table = (i : ℕ) → i < tag_table_size → (table i).flags ≡ 0

clear_all-AllFree : (table : ℕ → IpTag) → AllFree (clear_all table)
unfolding clear_all
clear_all-AllFree table =
    count_up_inv (λ i (t : ℕ → IpTag). (j : ℕ) → j < i → (t j).flags ≡ 0) clear_flags tag_table_size
      0 tag_table_size table (omega arith) (λ i t p q h j lt. one i t j h lt)
      (λ j lt. absurd (omega arith))
  where
    one :
        (i : ℕ) (t : ℕ → IpTag) (j : ℕ)
        → ((j : ℕ) → j < i → (t j).flags ≡ 0)
        → j < i + 1
        → (clear_flags i t j).flags ≡ 0
    one i t j h lt = ground (arith, h j)

-- After `iptag_init` every tag is free.
pub iptag_init-AllFree : (table : ℕ → IpTag) → AllFree (iptag_init table)
unfolding iptag_init
iptag_init-AllFree table i lt =
    ground (arith, clear_all-AllFree table i lt, clear_all-AllFree table 1 (omega arith))

free_from_cases :
    (n i e : ℕ) (table : ℕ → IpTag)
    → i + n ≡ e
    → ((k : ℕ) × (free_from n i table ≡ k)
        × (i ≤ k)
        × (k < e)
        × ((table k).flags ≡ 0)
        × ((j : ℕ) → i ≤ j → j < k → (table j).flags ≢ 0))
      ⊎ ((free_from n i table ≡ tag_none) × ((j : ℕ) → i ≤ j → j < e → (table j).flags ≢ 0))
unfolding free_from
free_from_cases zero i e table eq = inr (refl, λ j p q. absurd (omega arith))
free_from_cases (suc n) i e table eq = elim (eq-cases ((table i).flags) 0) [
  | inl free ↦ inl (i, ground arith, omega arith, omega arith, free, λ j p q. absurd (omega arith))
  | inr used ↦ elim (free_from_cases n (i + 1) e table (omega arith)) [
    | inl (k, r, le, lt, f, before) ↦ inl (
      k,
      ground (arith),
      omega arith,
      lt,
      f,
      λ j p q. elim (eq-cases i j) [ inl x ↦ rw (← x) used | inr ne ↦ before j (omega arith) q ],
    )
    | inr (r, before) ↦ inr (
      ground arith,
      λ j p q. elim (eq-cases i j) [ inl x ↦ rw (← x) used | inr ne ↦ before j (omega arith) q ],
    )
  ]
]

-- The tags of the pool below `e` are used.
abbrev pub UsedBelow : (ℕ → IpTag) → ℕ → Type 0
UsedBelow table e = (j : ℕ) → first_pool_tag ≤ j → j < e → (table j).flags ≢ 0

-- `iptag_new` returns the lowest free tag of the pool, 4 to 15, or 255 if none is free.
pub iptag_new_cases :
    (table : ℕ → IpTag)
    → ((k : ℕ) × (iptag_new table ≡ k)
        × (first_pool_tag ≤ k)
        × (k < tag_table_size)
        × ((table k).flags ≡ 0)
        × UsedBelow table k)
      ⊎ ((iptag_new table ≡ tag_none) × UsedBelow table tag_table_size)
unfolding iptag_new
iptag_new_cases table =
    free_from_cases tag_pool_size first_pool_tag tag_table_size table (omega arith)

set_tag-flags :
    (tag : ℕ) (m : Msg) (t : Tags) (i : ℕ)
    → (((set_tag tag m t).2).table i).flags ≡ (t.table i).flags
unfolding set_tag
set_tag-flags tag m t i = ground arith

tto_tag-flags : (m : Msg) (t : Tags) (i : ℕ) → (((tto_tag m t).2).table i).flags ≡ (t.table i).flags
unfolding tto_tag
tto_tag-flags m t i = ground arith

clear_flags-flags :
    (tag : ℕ) (table : ℕ → IpTag) (i : ℕ)
    → (table i).flags ≡ 0
    → (clear_flags tag table i).flags ≡ 0
clear_flags-flags tag table i h = ground arith

get_tag_same : (tag : ℕ) (m : Msg) (t : Tags) {r : Reply} → get_tag tag m t ≡ ok r → r.2 ≡ t
unfolding get_tag
get_tag_same tag m t e = ground arith

-- `cmd_iptag` never marks a tag as used: if every tag is free before a command that returns, then
-- after it.
pub cmd_iptag-AllFree :
    (m : Msg) (t : Tags) {r : Reply} → AllFree t.table → cmd_iptag m t ≡ ok r → AllFree (r.2).table
unfolding cmd_iptag
cmd_iptag-AllFree m t free e i lt = ground (
  arith,
  free i lt,
  set_tag-flags (iptag_new t.table) m t i,
  set_tag-flags (low_bits m.arg1 8) m t i,
  tto_tag-flags m t i,
  clear_flags-flags (low_bits m.arg1 8) t.table i,
  get_tag_same (low_bits m.arg1 8) m t,
)

-- With every tag free IPTAG_NEW with a tag below 16 in its argument answers tag 4 and overwrites
-- its entry.
pub cmd_iptag_new :
    (m : Msg) (t : Tags)
    → AllFree t.table
    → shr m.arg1 16 ≡ iptag_new_op
    → low_bits m.arg1 8 < tag_table_size
    → cmd_iptag m t
      ≡ ok (4, record m { arg1 = 4 }, record t { table = put t.table 4 (configured m (t.table 4)) })
unfolding cmd_iptag set_tag
cmd_iptag_new m t free op small = rw new (ground arith)
  where
    new : iptag_new t.table ≡ 4
    new = elim (iptag_new_cases t.table) [
      | inl (k, e, le, lt, f, before) ↦ elim (eq-cases k 4) [
        | inl x ↦ e ∙ x
        | inr ne ↦ absurd (before 4 (omega arith) (omega arith) (free 4 (omega arith)))
      ]
      | inr (e, used) ↦ absurd (used 4 (omega arith) (omega arith) (free 4 (omega arith)))
    ]
