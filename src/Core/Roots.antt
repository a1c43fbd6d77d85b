-- ===== src/Core/Roots.antt =====
-- Every chip gets one root core (`lock_try` and `rts_init`, spin_emu_api.c).
use spi_nnaker_emulator.Base.{
  ℕ, ◌≡◌, inl, inr, refl, ap, ap₂, ==_ne, ==_refl, ◌∙◌, sym, true, false, Bool, Bool-cases, List,
  [], ◌∷◌, ◌++◌, eq-cases, not, ◌==◌, ◌||◌,
}
use spi_nnaker_emulator.Core.Lock.{
  FileLocks, lock_api_root, lock_name, lock_try, root_aps, syslock, chip_text,
}

-- Whether each chip of a list is none of those before it in the list, and not in `seen`.
abbrev pub first_of : List ℕ → (ℕ → Bool) → List Bool
first_of [] seen = []
first_of (chip ∷ chips) seen = not (seen chip) ∷ first_of chips (λ c. chip == c || seen c)

append-injective : (xs ys zs : List ℕ) → xs ++ ys ≡ xs ++ zs → ys ≡ zs
append-injective [] ys zs e = e
append-injective (x ∷ xs) ys zs e = append-injective xs ys zs (cc)

lock_name-injective :
    (print : ℕ → List ℕ) (tmpdir : List ℕ) (lock c c' : ℕ)
    → ((a b : ℕ) → print a ≡ print b → a ≡ b)
    → lock_name print tmpdir c lock ≡ lock_name print tmpdir c' lock
    → c ≡ c'
unfolding lock_name
lock_name-injective print tmpdir lock c c' apart e = apart c c' (
    append-injective chip_text _ _ (
      append-injective (print lock) _ _
        (append-injective syslock _ _ (append-injective tmpdir _ _ e))))

module _ (f : FileLocks) (print : ℕ → List ℕ) (tmpdir : List ℕ)
    (apart : (a b : ℕ) → print a ≡ print b → a ≡ b) where
  open f use {Locks, held, flock, flock_free, flock_held, flock_others}

  -- The lock of a chip is held when `seen` says so.
  abbrev Agree : (ℕ → Bool) → Locks → Type 0
  Agree seen l = (c : ℕ) → held (lock_name print tmpdir c lock_api_root) l ≡ seen c

  lock_try-first :
      (chip : ℕ) (seen : ℕ → Bool) (l : Locks)
      → Agree seen l
      → ((lock_try f print tmpdir chip lock_api_root l).0 ≡ not (seen chip))
        × Agree (λ c. chip == c || seen c) ((lock_try f print tmpdir chip lock_api_root l).1)
  unfolding lock_try
  lock_try-first chip seen l a = elim (Bool-cases (seen chip)) [
    | inl taken ↦
        let refused = flock_held (name chip) l (a chip ∙ taken) in
        (
          ap (λ r. r.0) refused ∙ sym (ap not taken),
          λ c. ap (λ r. held (name c) (r.1)) refused ∙ a c ∙ elim (eq-cases chip c) [
            | inl same ↦ rw (← same, taken) (or_true _)
            | inr ne ↦ ap (λ b. b || seen c) (sym (==_ne chip c ne))
          ],
        )
    | inr free ↦
        let (given, now) = flock_free (name chip) l (a chip ∙ free) in
        (
          given ∙ sym (ap not free),
          λ c. elim (eq-cases chip c) [
            | inl same ↦ rw (← same) (now ∙ sym (ap (λ b. b || seen chip) (==_refl chip)))
            | inr ne ↦
                flock_others (name chip) (name c) l
                  (λ e. ne (lock_name-injective print tmpdir lock_api_root chip c apart e))
                ∙ a c
                ∙ ap (λ b. b || seen c) (sym (==_ne chip c ne))
          ],
        )
  ]
    where
      name : ℕ → List ℕ
      name c = lock_name print tmpdir c lock_api_root

      or_true : (b : Bool) → true ≡ b || true
      or_true true = refl
      or_true false = refl

  root_aps_lem :
      (chips : List ℕ) (seen : ℕ → Bool) (l : Locks)
      → Agree seen l
      → root_aps f print tmpdir chips l ≡ first_of chips seen
  unfolding root_aps
  root_aps_lem [] seen l a = refl
  root_aps_lem (chip ∷ chips) seen l a =
      let (answer, agree) = lock_try-first chip seen l a in
      ap₂ ◌∷◌ answer (root_aps_lem chips (λ c. chip == c || seen c) _ agree)

  -- Where `flock` locks as documented, `sprintf` prints different numbers differently and no lock
  -- of the directory is held, the first core of a chip that calls `lock_try` in `rts_init` becomes
  -- its root core and no other does, in whatever order the cores of the chips come.
  pub root_aps-first_of :
      (chips : List ℕ) (l : Locks)
      → ((c : ℕ) → held (lock_name print tmpdir c lock_api_root) l ≡ false)
      → root_aps f print tmpdir chips l ≡ first_of chips (λ _. false)
  root_aps-first_of chips l free = root_aps_lem chips (λ _. false) l free
