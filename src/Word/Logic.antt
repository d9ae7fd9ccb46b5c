-- ===== src/Word/Logic.antt =====
-- The laws of `&` and `|` together, digit by digit.
use native.Mathlib.Nat.{pow-suc}
use mathlib.Core.Path.{subst₂}
use prototype_net.Base.{
  ℕ, zero, suc, ◌+◌, ◌*◌, ◌/◌, ◌%◌, ◌^◌, ◌<◌, bit_and, bit_or, ◌≡◌, ap, subst, ◌∙◌, arith,
}
use prototype_net.Word.Digits.{bit_or_step, bit_and_step}
use prototype_net.Word.Bits.{bit_ext, bit-zero, bit-bit_or, bit-bit_and}

pub and_assoc : (a b c : ℕ) → bit_and (bit_and a b) c ≡ bit_and a (bit_and b c)
and_assoc a b c = bit_ext _ _ λ i. omega (
  arith,
  bit-bit_and i a b,
  bit-bit_and i b c,
  bit-bit_and i (bit_and a b) c,
  bit-bit_and i a (bit_and b c),
)

pub or_comm : (a b : ℕ) → bit_or a b ≡ bit_or b a
or_comm a b = bit_ext _ _ λ i. omega (arith, bit-bit_or i a b, bit-bit_or i b a)

-- `(a | b) & m`.
pub or-and : (a b m : ℕ) → bit_and (bit_or a b) m ≡ bit_or (bit_and a m) (bit_and b m)
or-and a b m = bit_ext _ _ λ i. omega (
  arith,
  bit-bit_or i a b,
  bit-bit_and i (bit_or a b) m,
  bit-bit_and i a m,
  bit-bit_and i b m,
  bit-bit_or i (bit_and a m) (bit_and b m),
)

-- `a & (m | n)`.
pub and-or : (a m n : ℕ) → bit_and a (bit_or m n) ≡ bit_or (bit_and a m) (bit_and a n)
and-or a m n = bit_ext _ _ λ i. omega (
  arith,
  bit-bit_or i m n,
  bit-bit_and i a (bit_or m n),
  bit-bit_and i a m,
  bit-bit_and i a n,
  bit-bit_or i (bit_and a m) (bit_and a n),
)

shifted_digit : (q k : ℕ) → q * 2 ^ suc k ≡ 2 * (q * 2 ^ k)
shifted_digit q k = omega (arith, ap (λ (t : ℕ). q * t) (pow-suc 2 k))

half : (k q r : ℕ) → (q * 2 ^ suc k + r) / 2 ≡ q * 2 ^ k + r / 2
half k q r = omega (arith, shifted_digit q k)

last : (k q r : ℕ) → (q * 2 ^ suc k + r) % 2 ≡ r % 2
last k q r = omega (arith, shifted_digit q k)

half-lt : (k r : ℕ) → r < 2 ^ suc k → r / 2 < 2 ^ k
half-lt k r h = omega (arith, pow-suc 2 k)

-- `&` acts on the two parts of its arguments separately, and so does `|`.
pub and_split :
    (k a b r s : ℕ)
    → r < 2 ^ k
    → s < 2 ^ k
    → bit_and (a * 2 ^ k + r) (b * 2 ^ k + s) ≡ bit_and a b * 2 ^ k + bit_and r s
and_split zero a b r s p q = ground (arith, bit_and_step r s)
and_split (suc k) a b r s p q =
    bit_and_step (a * 2 ^ suc k + r) (b * 2 ^ suc k + s)
    ∙ rw
        (
          half k a r,
          half k b s,
          last k a r,
          last k b s,
          and_split k a b (r / 2) (s / 2) (half-lt k r p) (half-lt k s q),
        )
        (omega (arith, shifted_digit (bit_and a b) k, bit_and_step r s))

pub or_split :
    (k a b r s : ℕ)
    → r < 2 ^ k
    → s < 2 ^ k
    → bit_or (a * 2 ^ k + r) (b * 2 ^ k + s) ≡ bit_or a b * 2 ^ k + bit_or r s
or_split zero a b r s p q = ground (arith, bit_or_step r s)
or_split (suc k) a b r s p q =
    bit_or_step (a * 2 ^ suc k + r) (b * 2 ^ suc k + s)
    ∙ rw
        (
          half k a r,
          half k b s,
          last k a r,
          last k b s,
          or_split k a b (r / 2) (s / 2) (half-lt k r p) (half-lt k s q),
        )
        (omega (arith, shifted_digit (bit_or a b) k, bit_or_step r s))

zero-and : (b : ℕ) → bit_and 0 b ≡ 0
zero-and b = bit_ext _ _ λ i. omega (arith, bit-bit_and i 0 b, bit-zero i)

pub and-lt : (k a b : ℕ) → a < 2 ^ k → bit_and a b < 2 ^ k
and-lt zero a b p =
    subst (λ x. bit_and x b < 1) {x = 0} {y = a} (omega arith) (omega (arith, zero-and b))
and-lt (suc k) a b p =
    omega (arith, bit_and_step a b, pow-suc 2 k, and-lt k (a / 2) (b / 2) (half-lt k a p))

pub or-lt : (k a b : ℕ) → a < 2 ^ k → b < 2 ^ k → bit_or a b < 2 ^ k
or-lt zero a b p q =
    subst₂ (λ x y. bit_or x y < 1) {x = 0} {y = a} {u = 0} {v = b} (omega arith) (omega arith)
      (omega arith)
or-lt (suc k) a b p q =
    omega
      (arith, bit_or_step a b, pow-suc 2 k, or-lt k (a / 2) (b / 2) (half-lt k a p) (half-lt k b q))
