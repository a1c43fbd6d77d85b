-- ===== src/Base/Word.antt =====
-- Fixed-width unsigned arithmetic of C, shifts, low masks, single bits and byte orders.
use Prim.Native.Nat.{ℕ, ◌+◌, ◌*◌, ◌-◌, ◌/◌, ◌%◌, ◌^◌, ◌<◌, bit_and}
use mathlib.Core.Path.{◌≡◌}
use mathlib.Core.Bool.{Bool, not}
use mathlib.Core.List.{List, [], ◌∷◌}
use native.Mathlib.Omega.{arith}
use spi_nnaker_emulator.Base.Tests.{◌==◌}

abbrev pub u8 : ℕ → ℕ
u8 n = n % 2 ^ 8

abbrev pub u16 : ℕ → ℕ
u16 n = n % 2 ^ 16

abbrev pub u32 : ℕ → ℕ
u32 n = n % 2 ^ 32

-- uint subtraction wraps; `-` on ℕ stops at 0.
abbrev pub sub32 : ℕ → ℕ → ℕ
sub32 a b = (a + 2 ^ 32 - b) % 2 ^ 32

-- x << k on a uint.
abbrev pub shl : ℕ → ℕ → ℕ
shl x k = (x * 2 ^ k) % 2 ^ 32

-- x >> k on a uint.
abbrev pub shr : ℕ → ℕ → ℕ
shr x k = x / 2 ^ k

-- x & (2 ^ k - 1).
abbrev pub low_bits : ℕ → ℕ → ℕ
low_bits x k = x % 2 ^ k

-- The C condition `w & (1 << j)`.
abbrev pub has_bit : ℕ → ℕ → Bool
has_bit w j = not (bit_and w (2 ^ j) == 0)

-- The bytes of a uint in memory on i686, lowest first.
abbrev pub le_bytes : ℕ → List ℕ
le_bytes w = (w % 256) ∷ (w / 2 ^ 8 % 256) ∷ (w / 2 ^ 16 % 256) ∷ (w / 2 ^ 24 % 256) ∷ []

-- The uint at four bytes in memory on i686.
abbrev pub from_le : ℕ → ℕ → ℕ → ℕ → ℕ
from_le a b c d = a + b * 2 ^ 8 + c * 2 ^ 16 + d * 2 ^ 24

pub from_le-le_bytes :
    (w : ℕ)
    → w < 2 ^ 32
    → from_le (w % 256) (w / 2 ^ 8 % 256) (w / 2 ^ 16 % 256) (w / 2 ^ 24 % 256) ≡ w
from_le-le_bytes w h = omega arith

-- `ntohs` and `htons` of libc on a little-endian machine.
abbrev pub ntohs : ℕ → ℕ
ntohs w = w % 256 * 256 + w / 256 % 256

-- `ntohl` and `htonl` of libc on a little-endian machine.
abbrev pub ntohl : ℕ → ℕ
ntohl w = from_le (w / 2 ^ 24 % 256) (w / 2 ^ 16 % 256) (w / 2 ^ 8 % 256) (w % 256)
