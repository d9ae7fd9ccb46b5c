-- ===== src/Word/Fields.antt =====
-- `|` of fields that do not overlap is a sum, and `&` with a mask of low ones is a remainder.
use native.Mathlib.Nat.{pow-suc, one-le-pow}
use prototype_net.Base.{
  ℕ, zero, suc, ◌+◌, ◌-◌, ◌*◌, ◌/◌, ◌%◌, ◌^◌, ◌<◌, bit_and, bit_or, ◌≡◌, ap, arith,
}
use prototype_net.Word.Digits.{bit_or_step, bit_and_step}
use prototype_net.Word.Bits.{bit, bit_ext, bit-zero, bit-bit_or, bit-bit_and}

pub or-zero : (a : ℕ) → bit_or a 0 ≡ a
or-zero a = bit_ext _ _ λ i. omega (arith, bit-bit_or i a 0, bit-zero i)

pub and-zero : (a : ℕ) → bit_and a 0 ≡ 0
and-zero a = bit_ext _ _ λ i. omega (arith, bit-bit_and i a 0, bit-zero i)

shifted_digit : (q k : ℕ) → q * 2 ^ suc k ≡ 2 * (q * 2 ^ k)
shifted_digit q k = omega (arith, ap (λ (t : ℕ). q * t) (pow-suc 2 k))

-- `(q << k) | r`, where `r` has at most `k` bits.
pub or_fields : (k q r : ℕ) → r < 2 ^ k → bit_or (q * 2 ^ k) r ≡ q * 2 ^ k + r
or_fields zero q r fits = ground (arith, or-zero q)
or_fields (suc k) q r fits = ground (
  arith,
  pow-suc 2 k,
  shifted_digit q k,
  bit_or_step (q * 2 ^ suc k) r,
  or_fields k q (r / 2) (omega (arith, pow-suc 2 k)),
)

and_field : (k q r : ℕ) → r < 2 ^ k → bit_and (q * 2 ^ k + r) (2 ^ k - 1) ≡ r
and_field zero q r fits = rw and-zero (omega arith)
and_field (suc k) q r fits = ground (
  arith,
  pow-suc 2 k,
  shifted_digit q k,
  one-le-pow k 2,
  bit_and_step (q * 2 ^ suc k + r) (2 ^ suc k - 1),
  and_field k q (r / 2) (omega (arith, pow-suc 2 k)),
)

-- `a & mask`, where the mask is `k` ones.
pub and_mask : (k a : ℕ) → bit_and a (2 ^ k - 1) ≡ a % 2 ^ k
and_mask k a = ground (arith, one-le-pow k 2, and_field k (a / 2 ^ k) (a % 2 ^ k))

-- An accumulated `|` is zero exactly when all of its parts are.
pub or-eq-zero : (a b : ℕ) → bit_or a b ≡ 0 → (a ≡ 0) × (b ≡ 0)
or-eq-zero a b h = (
  bit_ext a 0 λ i. omega (arith, bit-bit_or i a b, bit-zero i, ap (bit i) h),
  bit_ext b 0 λ i. omega (arith, bit-bit_or i a b, bit-zero i, ap (bit i) h),
)
