-- ===== src/Word/Xor.antt =====
-- The laws of `^`, from its digits.
use native.Mathlib.Nat.{pow-suc, pow-succ', div-div-eq-div-mul}
use prototype_net.Base.{ℕ, zero, suc, ◌/◌, ◌^◌, ◌<◌, bit_xor, ◌≡◌, ◌∙◌, arith}
use prototype_net.Word.Digits.{bit_xor_step}
use prototype_net.Word.Bits.{bit_ext, bit-lt, bit-zero, bit-bit_xor}

pub xor_comm : (a b : ℕ) → bit_xor a b ≡ bit_xor b a
xor_comm a b = bit_ext _ _ λ i. omega (arith, bit-bit_xor i a b, bit-bit_xor i b a)

pub xor_assoc : (a b c : ℕ) → bit_xor (bit_xor a b) c ≡ bit_xor a (bit_xor b c)
xor_assoc a b c = bit_ext _ _ λ i. omega (
  arith,
  bit-bit_xor i a b,
  bit-bit_xor i b c,
  bit-bit_xor i (bit_xor a b) c,
  bit-bit_xor i a (bit_xor b c),
  bit-lt i a,
  bit-lt i b,
  bit-lt i c,
)

pub xor_self : (a : ℕ) → bit_xor a a ≡ 0
xor_self a = bit_ext _ _ λ i. omega (arith, bit-bit_xor i a a, bit-zero i)

pub xor-zero : (a : ℕ) → bit_xor a 0 ≡ a
xor-zero a = bit_ext _ _ λ i. omega (arith, bit-bit_xor i a 0, bit-zero i, bit-lt i a)

pub zero-xor : (a : ℕ) → bit_xor 0 a ≡ a
zero-xor a = xor_comm 0 a ∙ xor-zero a

-- A mask applied twice is undone.
pub xor_cancel : (a m : ℕ) → bit_xor (bit_xor a m) m ≡ a
xor_cancel a m = rw (xor_assoc, xor_self) (xor-zero a)

pub xor-lt : (k a b : ℕ) → a < 2 ^ k → b < 2 ^ k → bit_xor a b < 2 ^ k
xor-lt zero a b p q = rw (zero_of a p, zero_of b q) (omega arith)
  where
    zero_of : (a : ℕ) → a < 2 ^ 0 → a ≡ 0
    zero_of a p = omega arith
xor-lt (suc k) a b p q = omega (
  arith,
  bit_xor_step a b,
  pow-suc 2 k,
  xor-lt k (a / 2) (b / 2) (omega (arith, pow-suc 2 k)) (omega (arith, pow-suc 2 k)),
)

-- `(a ^ b) >> k` is `(a >> k) ^ (b >> k)`.
pub shr-xor : (k a b : ℕ) → bit_xor a b / 2 ^ k ≡ bit_xor (a / 2 ^ k) (b / 2 ^ k)
shr-xor zero a b = rw (div_one a, div_one b) (div_one (bit_xor a b))
  where
    div_one : (a : ℕ) → a / 2 ^ 0 ≡ a
    div_one a = omega arith
shr-xor (suc k) a b =
    rw (div_pow_suc a, div_pow_suc b, div_pow_suc (bit_xor a b), half) (shr-xor k (a / 2) (b / 2))
  where
    div_pow_suc : (x : ℕ) → x / 2 ^ suc k ≡ x / 2 / 2 ^ k
    div_pow_suc x = rw (div-div-eq-div-mul, pow-succ')

    half : bit_xor a b / 2 ≡ bit_xor (a / 2) (b / 2)
    half = omega (arith, bit_xor_step a b)
