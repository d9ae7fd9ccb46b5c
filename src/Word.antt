-- ===== src/Word.antt =====
-- Machine words as native numbers: casts, shifts, rotations, wrapping arithmetic and byte orders,
-- with their laws in the child modules.
pub mod Digits
pub mod Bits
pub mod Xor
pub mod Logic
pub mod Fields
pub mod Rotate
pub mod Bytes
use prototype_net.Base.{ℕ, zero, ◌+◌, ◌-◌, ◌*◌, ◌/◌, ◌%◌, ◌^◌, ◌<◌, List, [], ◌∷◌}

abbrev pub u8 : ℕ → ℕ
u8 n = n % 2 ^ 8

abbrev pub u16 : ℕ → ℕ
u16 n = n % 2 ^ 16

abbrev pub u32 : ℕ → ℕ
u32 n = n % 2 ^ 32

abbrev pub u64 : ℕ → ℕ
u64 n = n % 2 ^ 64

-- `x << k` on u64, and `x >> k`.
infixl 75 ◌<<<◌ ◌>>>◌
abbrev pub ◌<<<◌ : ℕ → ℕ → ℕ
x <<< k = u64 (x * 2 ^ k)

abbrev pub ◌>>>◌ : ℕ → ℕ → ℕ
x >>> k = x / 2 ^ k

unfoldable pub wrapping_add : ℕ → ℕ → ℕ
wrapping_add x y = u64 (x + y)

unfoldable pub wrapping_mul : ℕ → ℕ → ℕ
wrapping_mul x y = u64 (x * y)

-- u64 rotations: the bits that leave at one end enter at the other. The count is taken modulo 64.
unfoldable pub rotate_left : ℕ → ℕ → ℕ
rotate_left x n = x % 2 ^ (64 - n % 64) * 2 ^ (n % 64) + x / 2 ^ (64 - n % 64)

unfoldable pub rotate_right : ℕ → ℕ → ℕ
rotate_right x n = x % 2 ^ (n % 64) * 2 ^ (64 - n % 64) + x / 2 ^ (n % 64)

-- Big-endian arrays of bytes.
pub from_be_bytes_acc : ℕ → List ℕ → ℕ
from_be_bytes_acc acc [] = acc
from_be_bytes_acc acc (b ∷ bs) = from_be_bytes_acc (acc * 256 + b) bs

unfoldable pub from_be_bytes : List ℕ → ℕ
unfolding from_be_bytes_acc
from_be_bytes bs = from_be_bytes_acc 0 bs

unfoldable pub from_le_bytes : List ℕ → ℕ
from_le_bytes [] = 0
from_le_bytes (b ∷ bs) = b + 256 * from_le_bytes bs

unfoldable pub to_be_bytes32 : ℕ → List ℕ
to_be_bytes32 x = x / 2 ^ 24 % 256 ∷ x / 2 ^ 16 % 256 ∷ x / 2 ^ 8 % 256 ∷ x % 256 ∷ []

unfoldable pub to_be_bytes64 : ℕ → List ℕ
to_be_bytes64 x =
    x / 2 ^ 56 % 256
    ∷ x / 2 ^ 48 % 256
    ∷ x / 2 ^ 40 % 256
    ∷ x / 2 ^ 32 % 256
    ∷ x / 2 ^ 24 % 256
    ∷ x / 2 ^ 16 % 256
    ∷ x / 2 ^ 8 % 256
    ∷ x % 256
    ∷ []

abbrev pub IsByte : ℕ → Type 0
IsByte b = b < 256

abbrev pub IsU16 : ℕ → Type 0
IsU16 n = n < 2 ^ 16

abbrev pub IsU32 : ℕ → Type 0
IsU32 n = n < 2 ^ 32

abbrev pub IsU64 : ℕ → Type 0
IsU64 n = n < 2 ^ 64
