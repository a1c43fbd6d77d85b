-- ===== src/Base/Tables.antt =====
-- Two-dimensional arrays `a[i][j]` as functions of the two indices.
use Prim.Native.Nat.{ℕ}
use mathlib.Core.Path.{◌≡◌}
use mathlib.Core.Logic.{◌≢◌, ◌⊎◌, inl, inr}
use mathlib.Core.Bool.{◌&&◌}
use native.Mathlib.Omega.{arith}
use spi_nnaker_emulator.Base.Tests.{◌==◌, if◌then◌else◌, eq-cases}

abbrev pub Table {ℓ} : Type ℓ → Type ℓ
Table A = ℕ → ℕ → A

module _ {ℓ} {A : Type ℓ} where
  -- `a[i][j] = v`.
  abbrev pub update : Table A → ℕ → ℕ → A → Table A
  update t i j v i' j' = if i == i' && j == j' then v else t i' j'

  -- `a[i] = v` for an array of one dimension.
  abbrev pub put : (ℕ → A) → ℕ → A → ℕ → A
  put f i v i' = if i == i' then v else f i'

  pub update_self : (t : Table A) (i j : ℕ) (v : A) → update t i j v i j ≡ v
  update_self t i j v = ground arith

  pub update_ne :
      (t : Table A) (i j i' j' : ℕ) (v : A) → (i ≢ i') ⊎ (j ≢ j') → update t i j v i' j' ≡ t i' j'
  update_ne t i j i' j' v h = ground arith

  pub put_self : (f : ℕ → A) (i : ℕ) (v : A) → put f i v i ≡ v
  put_self f i v = ground arith

  pub put_ne : (f : ℕ → A) (i i' : ℕ) (v : A) → i ≢ i' → put f i v i' ≡ f i'
  put_ne f i i' v h = ground arith

pub pair-cases : (i j i' j' : ℕ) → ((i ≡ i') × (j ≡ j')) ⊎ ((i ≢ i') ⊎ (j ≢ j'))
pair-cases i j i' j' = elim (eq-cases i i') [
  | inr ne ↦ inr (inl ne)
  | inl e ↦ elim (eq-cases j j') [ inl e' ↦ inl (e, e') | inr ne ↦ inr (inr ne) ]
]
