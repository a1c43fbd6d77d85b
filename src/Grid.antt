-- ===== src/Grid.antt =====
-- The chips of an emulated board (spin_emu.h, spin_emu_dispatcher.c, spin_emu_api.c): numbering by
-- coordinates, and the six links that leave each chip. A failed `assert` is `none`.
pub mod Coordinates
pub mod Links
use spi_nnaker_emulator.Base.{
  ℕ, ◌+◌, ◌*◌, ◌/◌, ◌%◌, Bool, true, false, ◌&&◌, ◌||◌, Option, none, some, ltb, leb, shr, low_bits,
  ◌^◌, if◌then◌else◌,
}
use spi_nnaker_emulator.Base.Int.{ℤ, pos, negsuc, inc, dec, is_neg}

-- NUM_CHIPS_X and NUM_CHIPS_Y.
pub record Dims : Type 0 where
  pub chips_x : ℕ
  pub chips_y : ℕ

-- NUM_CHIPS.
abbrev pub num_chips : Dims → ℕ
num_chips d = d.chips_x * d.chips_y

abbrev pub num_links : ℕ
num_links = 6

abbrev pub num_cpus : ℕ
num_cpus = 8

infixl 5 ◌>>=◌
abbrev pub ◌>>=◌ {ℓ κ} : {A : Type ℓ} {B : Type κ} → Option A → (A → Option B) → Option B
none >>= f = none
some a >>= f = f a

unfoldable pub chip_id : Dims → ℤ → ℤ → Option ℕ
chip_id d (pos x) (pos y) =
    if ltb x d.chips_x && ltb y d.chips_y then some (x * d.chips_y + y) else none
chip_id d (pos x) (negsuc y) = none
chip_id d (negsuc x) y = none

unfoldable pub chip_my_x : Dims → ℕ → Option ℕ
chip_my_x d id = if ltb id (num_chips d) then some (id / d.chips_y) else none

unfoldable pub chip_my_y : Dims → ℕ → Option ℕ
chip_my_y d id = if ltb id (num_chips d) then some (id % d.chips_y) else none

-- `targetx` after the assignments for link `perlink`, from this chip's x; and `targety`.
abbrev pub target_x : ℕ → ℕ → ℤ
target_x x perlink =
    if leb 3 perlink && leb perlink 4
    then dec (pos x)
    else if leb 0 perlink && leb perlink 1
    then inc (pos x)
    else pos x

abbrev pub target_y : ℕ → ℕ → ℤ
target_y y perlink =
    if leb 4 perlink && leb perlink 5
    then dec (pos y)
    else if leb 1 perlink && leb perlink 2
    then inc (pos y)
    else pos y

abbrev pub reaches : ℤ → ℕ → Bool
reaches (pos n) bound = leb bound n
reaches (negsuc n) bound = false

-- The test that a coordinate pair is off the edge of the chip grid.
abbrev pub off_grid : Dims → ℤ → ℤ → Bool
off_grid d tx ty = is_neg tx || reaches tx d.chips_x || is_neg ty || reaches ty d.chips_y

-- The value stored for a target, -1 (`negsuc 0`) off the grid.
unfoldable pub target_value : Dims → ℤ → ℤ → Option ℤ
unfolding chip_id
target_value d tx ty =
    if off_grid d tx ty then some (negsuc 0) else (chip_id d tx ty >>= λ t. some (pos t))

-- `channel_targets[perchip][perlink]`.
unfoldable pub channel_target : Dims → ℕ → ℕ → Option ℤ
unfolding chip_my_x chip_my_y
channel_target d perchip perlink = do
  x ← chip_my_x d perchip
  y ← chip_my_y d perchip
  target_value d (target_x x perlink) (target_y y perlink)

-- `spin1_get_chip_id`: the packed coordinates of a chip.
unfoldable pub get_chip_id : Dims → ℕ → Option ℕ
unfolding chip_my_x chip_my_y
get_chip_id d chip = do x ← chip_my_x d chip; y ← chip_my_y d chip; some (x * 2 ^ 8 + y)

-- The link that `p2p_get` answers for the chip with packed coordinates `chip_id`.
unfoldable pub p2p_link : ℕ → ℕ
p2p_link id =
    let my_x = shr id 8 in
    let my_y = low_bits id 8 in
    if ltb 0 my_x && ltb 0 my_y then 4 else if ltb 0 my_x then 3 else if ltb 0 my_y then 5 else 0

-- `p2p_get`: the answer does not depend on the entry asked for.
unfoldable pub p2p_get : Dims → ℕ → ℕ → Option ℕ
unfolding get_chip_id p2p_link
p2p_get d chip entry = do id ← get_chip_id d chip; some (p2p_link id)
