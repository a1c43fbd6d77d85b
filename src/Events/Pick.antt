-- ===== src/Events/Pick.antt =====
-- The choice of an event type in the loop of `spin1_start` (spin_emu_api.c).
use spi_nnaker_emulator.Base.{
  ℕ, zero, suc, ◌+◌, ◌<◌, ◌≡◌, ◌≢◌, ◌⊎◌, inl, inr, refl, ap, ◌∙◌, sym, arith, true, false,
  Bool-cases, eq-cases, Option, none, some,
}
use mathlib.Core.Bool.{true≢false}
use spi_nnaker_emulator.Base.Int.{ℤ}
use spi_nnaker_emulator.Events.{
  num_events, skipped, EventInfo, gtz, is_empty, int_max, pick_from, pick,
}

gtz_trans : (a b c : ℤ) → gtz a b ≡ false → gtz b c ≡ false → gtz a c ≡ false
gtz_trans a b c h k = ground arith

gtz-asym : (a b : ℤ) → gtz a b ≡ true → gtz b a ≡ false
gtz-asym a b h = ground arith

gtz_irrefl : (a : ℤ) → gtz a a ≡ false
gtz_irrefl a = ground arith

-- An event of the type waits, and the type has a callback.
abbrev pub IsReady : EventInfo → Type 0
IsReady e = (e.cback ≢ 0) × (is_empty e.queue ≡ false)

not_skipped : (e : EventInfo) (p : ℤ) → skipped e p ≡ false → IsReady e × (gtz e.priority p ≡ false)
not_skipped e p h = ground arith

skipped_ready : (e : EventInfo) (p : ℤ) → skipped e p ≡ true → IsReady e → gtz e.priority p ≡ true
skipped_ready e p h r = ground arith

module _ (evinfo : ℕ → EventInfo) where
  -- Of the types below `i`, none waits.
  abbrev pub NoneReady : ℕ → Type 0
  NoneReady i = (j : ℕ) → j < i → ¬ (IsReady (evinfo j))

  -- Of the types below `i` that wait, `k` has the least priority value, and it is the last such.
  pub record IsBest (i k : ℕ) : Type 0 where
    pub below : k < i
    pub ready : IsReady (evinfo k)
    pub least :
        (j : ℕ) → j < i → IsReady (evinfo j) → gtz (evinfo k).priority (evinfo j).priority ≡ false
    pub last :
        (j : ℕ)
        → k < j
        → j < i
        → IsReady (evinfo j)
        → gtz (evinfo j).priority (evinfo k).priority ≡ true

  -- `minprio` and `minev` before type `i`.
  abbrev Stage : ℕ → ℤ → Option ℕ → Type 0
  Stage i minprio minev =
      ((minev ≡ none) × (minprio ≡ int_max) × NoneReady i)
      ⊎ ((k : ℕ) × (minev ≡ some k) × (minprio ≡ (evinfo k).priority) × IsBest i k)

  skip-Stage :
      (i : ℕ) (minprio : ℤ) (minev : Option ℕ)
      → gtz (evinfo i).priority int_max ≡ false
      → skipped (evinfo i) minprio ≡ true
      → Stage i minprio minev
      → Stage (i + 1) minprio minev
  skip-Stage i minprio minev fits skip (inl (e, p, quiet)) = inl (
    e,
    p,
    λ j lt r. elim (eq-cases j i) [
      | inl same ↦ absurd (
          true≢false (
            sym (skipped_ready (evinfo i) minprio skip (rw same at r))
            ∙ ap (gtz (evinfo i).priority) p
            ∙ fits))
      | inr ne ↦ quiet j (omega arith) r
    ],
  )
  skip-Stage i minprio minev fits skip (inr (k, e, p, b)) = inr (
    k,
    e,
    p,
    record {
      below = omega (arith, b.below);
      ready = b.ready;
      least = λ j lt r. elim (eq-cases j i) [
        | inl same ↦
            rw same (gtz-asym (evinfo i).priority (evinfo k).priority (greater (rw same at r)))
        | inr ne ↦ b.least j (omega arith) r
      ];
      last = λ j gt lt r. elim (eq-cases j i) [
        | inl same ↦ rw same (greater (rw same at r))
        | inr ne ↦ b.last j gt (omega arith) r
      ];
    },
  )
    where
      greater : IsReady (evinfo i) → gtz (evinfo i).priority (evinfo k).priority ≡ true
      greater r = rw p at (skipped_ready (evinfo i) minprio skip r)

  take-Stage :
      (i : ℕ) (minprio : ℤ) (minev : Option ℕ)
      → skipped (evinfo i) minprio ≡ false
      → Stage i minprio minev
      → Stage (i + 1) (evinfo i).priority (some i)
  take-Stage i minprio minev take s =
      let (r, le) = not_skipped (evinfo i) minprio take in
      inr (
        i,
        refl,
        refl,
        record {
          below = omega arith;
          ready = r;
          least = λ j lt r'. elim (eq-cases j i) [
            | inl same ↦ rw same (gtz_irrefl (evinfo i).priority)
            | inr ne ↦ before j (omega arith) r' le s
          ];
          last = λ j gt lt r'. absurd (omega arith);
        },
      )
    where
      before :
          (j : ℕ)
          → j < i
          → IsReady (evinfo j)
          → gtz (evinfo i).priority minprio ≡ false
          → Stage i minprio minev
          → gtz (evinfo i).priority (evinfo j).priority ≡ false
      before j lt r' le (inl (e, p, quiet)) = absurd (quiet j lt r')
      before j lt r' le (inr (k, e, p, b)) =
          gtz_trans (evinfo i).priority minprio (evinfo j).priority le (rw p (b.least j lt r'))

  pick_from-Stage :
      (n i e : ℕ) (minprio : ℤ) (minev : Option ℕ)
      → i + n ≡ e
      → ((j : ℕ) → gtz (evinfo j).priority int_max ≡ false)
      → Stage i minprio minev
      → ((pick_from n i minprio minev evinfo ≡ none) × NoneReady e)
        ⊎ ((k : ℕ) × (pick_from n i minprio minev evinfo ≡ some k) × IsBest e k)
  unfolding pick_from
  pick_from-Stage zero i e minprio minev eq fits (inl (none_yet, p, quiet)) =
      let eq' : i ≡ e = omega arith in inl (none_yet, rw (← eq') quiet)
  pick_from-Stage zero i e minprio minev eq fits (inr (k, found, p, b)) =
      let eq' : i ≡ e = omega arith in inr (k, found, rw (← eq') b)
  pick_from-Stage (suc n) i e minprio minev eq fits s =
      elim (Bool-cases (skipped (evinfo i) minprio)) [
        | inl skip ↦
            rw (skip, pick_from)
              (pick_from-Stage n (i + 1) e minprio minev (omega arith) fits
                (skip-Stage i minprio minev (fits i) skip s))
        | inr take ↦
            rw (take, pick_from)
              (pick_from-Stage n (i + 1) e (evinfo i).priority (some i) (omega arith) fits
                (take-Stage i minprio minev take s))
      ]

  pub pick_cases :
      ((j : ℕ) → gtz (evinfo j).priority int_max ≡ false)
      → ((pick evinfo ≡ none) × NoneReady num_events)
        ⊎ ((k : ℕ) × (pick evinfo ≡ some k) × IsBest num_events k)
  unfolding pick
  pick_cases fits =
      pick_from-Stage num_events 0 num_events int_max none (omega arith) fits
        (inl (refl, refl, λ j lt. absurd (omega arith)))
