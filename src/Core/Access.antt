-- ===== src/Core/Access.antt =====
-- The memory before and after `cmd_write` and `cmd_read` (scamp_emu.c).
use spi_nnaker_emulator.Base.{
  ℕ, zero, suc, ◌+◌, ◌-◌, ◌*◌, ◌/◌, ◌<◌, ◌≤◌, ◌≡◌, refl, ap, ap₂, ◌∙◌, eq-cases, put_self, put_ne,
  inl, inr, arith, false, true, ◌&&◌, List, [], ◌∷◌, ltb, leb, if◌then◌else◌, put, get_or, count_up,
  count_up_inv, length, take, drop,
}
use spi_nnaker_emulator.Base.Outcome.{ok, fault}
use spi_nnaker_emulator.Sdp.Message.{Msg, overlay}
use spi_nnaker_emulator.Core.Memory.{
  Bytes, Maps, all_mapped, width, emu_addr, bad_access, store_element, core_write, bytes_from,
  core_read,
}

-- The first `n` bytes of the list stand at the address, and every other byte is as before.
abbrev pub Written : ℕ → ℕ → List ℕ → Bytes → Bytes → Type 0
Written addr n body mem mem' =
    (a : ℕ) → mem' a ≡ (if leb addr a && ltb a (addr + n) then get_or body (a - addr) 0 else mem a)

Written-put :
    (addr n : ℕ) (body : List ℕ) (mem mem' : Bytes)
    → Written addr n body mem mem'
    → Written addr (n + 1) body mem (put mem' (addr + n) (get_or body n 0))
Written-put addr n body mem mem' h a = elim (eq-cases (addr + n) a) [
  | inl e ↦
      let back : addr + n - addr ≡ n = omega arith in
      rw (← e) (
        put_self mem' (addr + n) (get_or body n 0) ∙ ground (arith, ap (λ k. get_or body k 0) back))
  | inr ne ↦ put_ne mem' (addr + n) a (get_or body n 0) ne ∙ h a ∙ ground arith
]

store_element-Written :
    (w addr i : ℕ) (body : List ℕ) (mem mem' : Bytes)
    → Written addr (w * i) body mem mem'
    → Written addr (w * (i + 1)) body mem (store_element w addr body i mem')
unfolding store_element
store_element-Written w addr i body mem mem' h =
    let e : w * (i + 1) ≡ w * i + w = grind arith in
    rw e (
      count_up_inv (λ b mem'. Written addr (w * i + b) body mem mem') _ w 0 w mem' (omega arith)
        (λ b mem' p q h.
          let next : w * i + (b + 1) ≡ w * i + b + 1 = omega arith in
          rw next (Written-put addr (w * i + b) body mem mem' h))
        (let none : w * i + 0 ≡ w * i = omega arith in rw none h))

-- The bytes that an access of `m` covers: its length rounded down to whole elements.
abbrev pub covered : Msg → ℕ
covered m = width m.arg3 * (m.arg2 / width m.arg3)

Written-none : (w addr : ℕ) (body : List ℕ) (mem : Bytes) → Written addr (w * 0) body mem mem
Written-none w addr body mem a = ground arith

-- With a length of at most 256, a known access type and bytes that are mapped `cmd_write` returns the length, stores the
-- first bytes of the message's data, their number rounded down to whole elements, at the
-- translated address, and changes no other byte of memory.
pub core_write_lem :
    (maps : Maps) (m : Msg) (mem : Bytes)
    → bad_access m ≡ false
    → all_mapped maps (emu_addr m.arg1) (covered m) ≡ true
    → (mem' : Bytes) × (core_write maps m mem
        ≡ ok (m.arg2, record m { arg1 = emu_addr m.arg1 }, mem'))
      × Written (emu_addr m.arg1) (covered m) m.body mem mem'
unfolding core_write
core_write_lem maps m mem good mapped =
    let w = width m.arg3 in
    let addr = emu_addr m.arg1 in
    (
      count_up (m.arg2 / w) 0 (store_element w addr m.body) mem,
      rw (good, mapped) refl,
      count_up_inv (λ i mem'. Written addr (w * i) m.body mem mem') (store_element w addr m.body)
          (m.arg2 / w) 0 (m.arg2 / w) mem (omega arith)
          (λ i mem' p q h. store_element-Written w addr i m.body mem mem' h)
          (Written-none w addr m.body mem),
    )

drop-get_or : (xs : List ℕ) (i : ℕ) → i < length xs → drop i xs ≡ get_or xs i 0 ∷ drop (suc i) xs
drop-get_or [] i h = elim h [ ]
drop-get_or (x ∷ xs) zero h = refl
drop-get_or (x ∷ xs) (suc i) h = drop-get_or xs i (omega arith)

bytes_from-Written :
    (n i k addr : ℕ) (body : List ℕ) (mem mem' : Bytes)
    → i + n ≡ k
    → k ≤ length body
    → Written addr k body mem mem'
    → bytes_from n (addr + i) mem' ≡ take n (drop i body)
bytes_from-Written zero i k addr body mem mem' e le h = refl
bytes_from-Written (suc n) i k addr body mem mem' e le h =
    let next : addr + i + 1 ≡ addr + suc i = omega arith in
    let back : addr + i - addr ≡ i = omega arith in
    rw (drop-get_or body i (omega arith), next)
      (ap₂ ◌∷◌ (h (addr + i) ∙ ground (arith, ap (λ j. get_or body j 0) back))
        (bytes_from-Written n (suc i) k addr body mem mem' (omega arith) le h))

-- `cmd_read` after `cmd_write` with the same address, length and access type, a length of at most
-- 256 and a known type, of bytes that are mapped, returns the length and puts the data that was
-- written, its length rounded down to whole elements, in the message from `arg1` on, if the data
-- has that many bytes.
pub core_read-write :
    (maps : Maps) (m g : Msg) (mem mem' : Bytes)
    → bad_access m ≡ false
    → all_mapped maps (emu_addr m.arg1) (covered m) ≡ true
    → (g.arg1 ≡ m.arg1) × (g.arg2 ≡ m.arg2) × (g.arg3 ≡ m.arg3)
    → covered m ≤ length m.body
    → Written (emu_addr m.arg1) (covered m) m.body mem mem'
    → core_read maps g mem'
      ≡ ok (m.arg2, overlay (take (covered m) m.body) (record g { arg1 = emu_addr m.arg1 }))
unfolding core_read
core_read-write maps m g mem mem' good mapped (e1, e2, e3) fits written =
    let n = covered m in
    let none : emu_addr m.arg1 + 0 ≡ emu_addr m.arg1 = omega arith in
    let got : bytes_from n (emu_addr m.arg1) mem' ≡ take n m.body =
      (rw none at
        (bytes_from-Written n 0 n (emu_addr m.arg1) m.body mem mem' (omega arith) fits written)) in
    rw (e1, e2, e3, good, mapped, got) refl

pub covered-le : (m : Msg) → bad_access m ≡ false → covered m ≤ 256
covered-le m good = ground arith

pub arg2-le : (m : Msg) → bad_access m ≡ false → m.arg2 ≤ 256
arg2-le m good = ground arith

covered-pos : (m : Msg) → width m.arg3 ≤ m.arg2 → 0 < covered m
covered-pos m some_element = ground arith

all_mapped_first : (maps : Maps) (a n : ℕ) → 0 < n → maps a ≡ false → all_mapped maps a n ≡ false
all_mapped_first maps a zero h e = absurd (omega arith)
all_mapped_first maps a (suc n) h e = rw e refl

-- An access of at least one element at an address that is not mapped.
module _ (maps : Maps) (m : Msg) (mem : Bytes) (good : bad_access m ≡ false)
    (some_element : width m.arg3 ≤ m.arg2) (unmapped : maps (emu_addr m.arg1) ≡ false) where
  pub core_write_fault : core_write maps m mem ≡ fault
  unfolding core_write
  core_write_fault =
      rw
        (
          good,
          all_mapped_first maps (emu_addr m.arg1) (covered m) (covered-pos m some_element) unmapped,
        )
        refl

  pub core_read_fault : core_read maps m mem ≡ fault
  unfolding core_read
  core_read_fault =
      rw
        (
          good,
          all_mapped_first maps (emu_addr m.arg1) (covered m) (covered-pos m some_element) unmapped,
        )
        refl
