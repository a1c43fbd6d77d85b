-- ===== src/Base/Loop.antt =====
-- The counting loops of C.
use Prim.Native.Nat.{ℕ, zero, suc, ◌+◌, ◌≤◌, ◌<◌}
use mathlib.Core.Path.{◌≡◌, refl, ◌∙◌}
use native.Mathlib.Omega.{arith}
use spi_nnaker_emulator.Base.Outcome.{Outcome, ok, ◌>>=◌}

-- `for (j = i; j < i + n; j++) s = body(j, s);`
unfoldable pub count_up {ℓ} : {S : Type ℓ} → ℕ → ℕ → (ℕ → S → S) → S → S
count_up zero i body s = s
count_up (suc n) i body s = count_up n (i + 1) body (body i s)

-- The same loop round a body that may end the process or fault.
unfoldable pub count_up_ok {ℓ} : {S : Type ℓ} → ℕ → ℕ → (ℕ → S → Outcome S) → S → Outcome S
count_up_ok zero i body s = ok s
count_up_ok (suc n) i body s = body i s >>= count_up_ok n (i + 1) body

-- Where every round comes to an end and keeps an invariant, so does the loop.
pub count_up_ok_inv {ℓ κ} :
    {S : Type ℓ} (P : ℕ → S → Type κ) (body : ℕ → S → Outcome S) (n i e : ℕ) (s : S)
    → i + n ≡ e
    → ((j : ℕ) (s : S) → i ≤ j → j < e → P j s → (s' : S) × (body j s ≡ ok s') × P (j + 1) s')
    → P i s
    → (s' : S) × (count_up_ok n i body s ≡ ok s') × P e s'
unfolding count_up_ok
count_up_ok_inv P body zero i e s eq keep h =
    let eq' : i ≡ e = omega arith in (s, refl, rw (← eq') h)
count_up_ok_inv P body (suc n) i e s eq keep h =
    let (s₁, run, h₁) = keep i s (omega arith) (omega arith) h in
    let (s₂, run₂, h₂) =
      count_up_ok_inv P body n (i + 1) e s₁ (omega arith) (λ j s p q. keep j s (omega arith) q)
        h₁ in
    (s₂, rw run run₂, h₂)

-- What every round leaves alone, the loop does.
pub count_up_keep {ℓ κ} :
    {S : Type ℓ} {B : Type κ} (view : S → B) (body : ℕ → S → S) (n i : ℕ) (s : S)
    → ((j : ℕ) (s : S) → i ≤ j → j < i + n → view (body j s) ≡ view s)
    → view (count_up n i body s) ≡ view s
unfolding count_up
count_up_keep view body zero i s h = refl
count_up_keep view body (suc n) i s h =
    count_up_keep view body n (i + 1) (body i s) (λ j s p q. h j s (omega arith) (omega arith))
    ∙ h i s (omega arith) (omega arith)

-- The invariant rule.
pub count_up_inv {ℓ κ} :
    {S : Type ℓ} (P : ℕ → S → Type κ) (body : ℕ → S → S) (n i e : ℕ) (s : S)
    → i + n ≡ e
    → ((j : ℕ) (s : S) → i ≤ j → j < e → P j s → P (j + 1) (body j s))
    → P i s
    → P e (count_up n i body s)
unfolding count_up
count_up_inv P body zero i e s eq keep h = let eq' : i ≡ e = omega arith in rw (← eq') h
count_up_inv P body (suc n) i e s eq keep h =
    count_up_inv P body n (i + 1) e (body i s) (omega arith) (λ j s p q. keep j s (omega arith) q)
      (keep i s (omega arith) (omega arith) h)

-- Two nested loops whose invariant names the place that comes next.
pub nested_inv {ℓ κ} :
    {S : Type ℓ} (P : ℕ → ℕ → S → Type κ) (body : ℕ → ℕ → S → Outcome S) (m n : ℕ) (s : S)
    → ((c i : ℕ) (s : S)
        → c < m
        → i < n
        → P c i s
        → (s' : S) × (body c i s ≡ ok s') × P c (i + 1) s')
    → ((c : ℕ) (s : S) → P c n s → P (c + 1) 0 s)
    → P 0 0 s
    → (s' : S) × (count_up_ok m 0 (λ c. count_up_ok n 0 (body c)) s ≡ ok s') × P m 0 s'
nested_inv P body m n s keep row h =
    count_up_ok_inv (λ c s. P c 0 s) (λ c. count_up_ok n 0 (body c)) m 0 m s (omega arith)
      (λ c s' p q h'.
        let (s₁, run, h₁) =
          count_up_ok_inv (λ i s. P c i s) (body c) n 0 n s' (omega arith)
            (λ i s'' p' q' h''. keep c i s'' q q' h'') h' in
        (s₁, run, row c s₁ h₁))
      h
