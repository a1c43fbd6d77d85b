-- ===== src/Grid/Coordinates.antt =====
-- Chip numbers and coordinates: `chip_id`, `chip_my_x` and `chip_my_y` (spin_emu.h).
use spi_nnaker_emulator.Base.{ℕ, ◌+◌, ◌*◌, ◌/◌, ◌%◌, ◌<◌, ◌≡◌, arith, some}
use spi_nnaker_emulator.Base.Int.{ℤ, pos, negsuc}
use spi_nnaker_emulator.Grid.{Dims, num_chips, chip_id, chip_my_x, chip_my_y}

pub div-of_coords : (x y w : ℕ) → y < w → (x * w + y) / w ≡ x
div-of_coords x y w h = grind arith

pub mod-of_coords : (x y w : ℕ) → y < w → (x * w + y) % w ≡ y
mod-of_coords x y w h = grind arith

pub index-lt : (x y m w : ℕ) → x < m → y < w → x * w + y < m * w
index-lt x y m w p q = grind arith

pub coords-lt : (id m w : ℕ) → id < m * w → (id / w < m) × (id % w < w) × (id / w * w + id % w ≡ id)
coords-lt id m w h = grind arith

-- Coordinates on the board have a chip number, and it gives the coordinates back.
pub my_coords-chip_id :
    (d : Dims) (x y : ℕ)
    → x < d.chips_x
    → y < d.chips_y
    → (id : ℕ) × (chip_id d (pos x) (pos y) ≡ some id)
      × (chip_my_x d id ≡ some x)
      × (chip_my_y d id ≡ some y)
unfolding chip_id chip_my_x chip_my_y
my_coords-chip_id d x y p q = (
  x * d.chips_y + y,
  ground arith,
  ground (arith, index-lt x y d.chips_x d.chips_y p q, div-of_coords x y d.chips_y q),
  ground (arith, index-lt x y d.chips_x d.chips_y p q, mod-of_coords x y d.chips_y q),
)

-- The coordinates of a chip number below NUM_CHIPS lie on the board and give the number back.
pub chip_id-my_coords :
    (d : Dims) (id : ℕ)
    → id < num_chips d
    → (x y : ℕ) × (chip_my_x d id ≡ some x)
      × (chip_my_y d id ≡ some y)
      × (x < d.chips_x)
      × (y < d.chips_y)
      × (chip_id d (pos x) (pos y) ≡ some id)
unfolding chip_id chip_my_x chip_my_y
chip_id-my_coords d id h =
    let c = coords-lt id d.chips_x d.chips_y h in
    (id / d.chips_y, id % d.chips_y, ground arith, ground arith, c.0, c.1, ground (arith, c))

-- `chip_id` gives a number of a chip on the board.
pub chip_id-lt : (d : Dims) (x y : ℤ) (id : ℕ) → chip_id d x y ≡ some id → id < num_chips d
unfolding chip_id
chip_id-lt d (pos x) (pos y) id e = ground (arith, index-lt x y d.chips_x d.chips_y)
chip_id-lt d (pos x) (negsuc y) id e = cc
chip_id-lt d (negsuc x) y id e = cc
