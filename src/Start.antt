-- ===== src/Start.antt =====
-- How the emulator starts: `main` (spin_emu_main.c). The calls of liblcfg and `atoi` are arguments.
-- Strings are without the closing zero.
pub mod Cores
pub mod Configured
use spi_nnaker_emulator.Base.{
  ℕ, List, [], ◌∷◌, ◌++◌, Option, none, some, Table, update, count_up_ok,
}
use spi_nnaker_emulator.Base.Outcome.{Outcome, ok, died, fault, ◌>>=◌}
use spi_nnaker_emulator.Grid.{Dims, num_chips, num_cpus}
use spi_nnaker_emulator.Core.Map.{Region, core_regions}
use spi_nnaker_emulator.Dispatcher.State.{Dispatcher, Memory}
use spi_nnaker_emulator.Dispatcher.Loop.{boot}

-- "./default.cfg".
abbrev pub default_cfg : List ℕ
default_cfg =
    0x2E ∷ 0x2F ∷ 0x64 ∷ 0x65 ∷ 0x66 ∷ 0x61 ∷ 0x75 ∷ 0x6C ∷ 0x74 ∷ 0x2E ∷ 0x63 ∷ 0x66 ∷ 0x67 ∷ []

-- "X_CHIPS".
abbrev pub x_chips : List ℕ
x_chips = 0x58 ∷ 0x5F ∷ 0x43 ∷ 0x48 ∷ 0x49 ∷ 0x50 ∷ 0x53 ∷ []

-- "Y_CHIPS".
abbrev pub y_chips : List ℕ
y_chips = 0x59 ∷ 0x5F ∷ 0x43 ∷ 0x48 ∷ 0x49 ∷ 0x50 ∷ 0x53 ∷ []

-- "SLOW_DOWN_TIMER".
abbrev pub slow_down_timer : List ℕ
slow_down_timer =
    0x53 ∷ 0x4C ∷ 0x4F ∷ 0x57 ∷ 0x5F ∷ 0x44 ∷ 0x4F ∷ 0x57 ∷ 0x4E ∷ 0x5F ∷ 0x54 ∷ 0x49 ∷ 0x4D ∷ 0x45
    ∷ 0x52 ∷ []

-- The file that `main` loads, for its arguments with the name of the program.
unfoldable pub config_file : List (List ℕ) → List ℕ
config_file (name ∷ file ∷ []) = file
config_file _ = default_cfg

-- What `lcfg_value_get` leaves in `data` and `len`: the value that it found, and for a key that the
-- file does not have what was there.
abbrev pub value_get : Option (List ℕ) → Option (List ℕ) → Option (List ℕ)
value_get none old = old
value_get (some v) old = some v

-- The copy of a value and its number. Variables that were never set have no defined value.
abbrev pub read_value {ℓ} :
    {A : Type ℓ} → (List ℕ → ℕ) → Option (List ℕ) → (ℕ → Outcome A) → Outcome A
read_value atoi none next = fault
read_value atoi (some v) next = next (atoi v)

-- The three numbers, where `x`, `y` and `slow` are the values of their keys.
unfoldable pub read_values :
    (List ℕ → ℕ)
    → Option (List ℕ)
    → Option (List ℕ)
    → Option (List ℕ)
    → Outcome (ℕ × Option (ℕ × ℕ))
read_values atoi x y slow =
    let v₁ = value_get x none in
    let v₂ = value_get y v₁ in
    let v₃ = value_get slow v₂ in
    read_value atoi v₁
      (λ n. read_value atoi v₂ (λ n'. read_value atoi v₃ (λ factor. ok (factor, some (n, n')))))

-- What `main` reads: SLOW_DOWN_TIMER, and the arguments of `spin_emu_dispatcher`, none for 0.
-- `parse` is `lcfg_new` with `lcfg_parse`, none for an error; `atoi` is that of text that is no
-- negative number.
unfoldable pub read_config :
    (List ℕ → Option (List ℕ → Option (List ℕ)))
    → (List ℕ → ℕ)
    → List (List ℕ)
    → Outcome (ℕ × Option (ℕ × ℕ))
unfolding config_file read_values
read_config parse atoi argv = elim (parse (config_file argv)) [
  | none ↦ ok (1, none)
  | some values ↦ read_values atoi (values x_chips) (values y_chips) (values slow_down_timer)
]

-- `main` up to the loop of the dispatcher, which does not come back.
unfoldable pub emulator_main :
    (List ℕ → Option (List ℕ → Option (List ℕ)))
    → (List ℕ → ℕ)
    → List (List ℕ)
    → Memory
    → Dispatcher
    → Outcome (ℕ × Dispatcher)
unfolding read_config boot
emulator_main parse atoi argv mem s =
    read_config parse atoi argv >>= λ r. boot mem (r.1) s >>= λ s'. ok (r.0, s')
