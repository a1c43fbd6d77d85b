-- ===== src/Core/Lock.antt =====
-- The choice of the root core of a chip: `lock_try` (spin_emu_api.c), which `rts_init` calls. The
-- locks of the kernel and `sprintf` are parameters; `open` is taken to succeed.
use spi_nnaker_emulator.Base.{ℕ, ◌≡◌, ◌≢◌, true, false, Bool, List, [], ◌∷◌, ◌++◌}

-- `flock(open(name, ...), LOCK_EX | LOCK_NB)` by a process that does not hold the lock of that
-- name: whether it succeeds, and the locks behind it. A lock is held until the process ends.
pub record FileLocks : Type 1 where
  pub Locks : Type 0
  pub held : List ℕ → Locks → Bool
  pub flock : List ℕ → Locks → Bool × Locks
  pub flock_free :
      (name : List ℕ) (l : Locks)
      → held name l ≡ false
      → ((flock name l).0 ≡ true) × (held name ((flock name l).1) ≡ true)
  pub flock_held : (name : List ℕ) (l : Locks) → held name l ≡ true → flock name l ≡ (false, l)
  pub flock_others :
      (name name' : List ℕ) (l : Locks)
      → name ≢ name'
      → held name' ((flock name l).1) ≡ held name' l

-- "/syslockID" and "chip".
abbrev pub syslock : List ℕ
syslock = 0x2F ∷ 0x73 ∷ 0x79 ∷ 0x73 ∷ 0x6C ∷ 0x6F ∷ 0x63 ∷ 0x6B ∷ 0x49 ∷ 0x44 ∷ []

abbrev pub chip_text : List ℕ
chip_text = 0x63 ∷ 0x68 ∷ 0x69 ∷ 0x70 ∷ []

-- LOCK_API_ROOT.
abbrev pub lock_api_root : ℕ
lock_api_root = 4

-- The name of the file in `lock_try`; `print` is the text of a number.
unfoldable pub lock_name : (ℕ → List ℕ) → List ℕ → ℕ → ℕ → List ℕ
lock_name print tmpdir chip lock = tmpdir ++ (syslock ++ (print lock ++ (chip_text ++ print chip)))

module _ (f : FileLocks) where
  open f use {Locks, held, flock}

  -- `lock_try` on chip `chip`.
  unfoldable pub lock_try : (ℕ → List ℕ) → List ℕ → ℕ → ℕ → Locks → Bool × Locks
  unfolding lock_name
  lock_try print tmpdir chip lock l = flock (lock_name print tmpdir chip lock) l

  -- The call in `rts_init` by a core of each of the chips in turn: the values of `rootAp`.
  unfoldable pub root_aps : (ℕ → List ℕ) → List ℕ → List ℕ → Locks → List Bool
  unfolding lock_try
  root_aps print tmpdir [] l = []
  root_aps print tmpdir (chip ∷ chips) l =
      let r = lock_try print tmpdir chip lock_api_root l in r.0 ∷ root_aps print tmpdir chips (r.1)
