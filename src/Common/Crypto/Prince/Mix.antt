-- ===== src/Common/Crypto/Prince/Mix.antt =====
-- The mixing layer of common/src/crypto.rs is linear over GF(2), and undoes itself.
use native.Mathlib.Nat.{pow-suc, mod-eq_of_lt, one-le-pow, mul_comm, div-div-eq-div-mul}
use prototype_net.Base.{
  ℕ, zero, suc, ◌+◌, ◌*◌, ◌/◌, ◌%◌, ◌^◌, ◌<◌, bit_and, bit_or, bit_xor, List, [], ◌∷◌, map, ◌≡◌,
  refl, ap, ap₂, sym, subst, ◌∙◌, arith,
}
use prototype_net.Word.{◌<<<◌, IsU16, IsU64}
use prototype_net.Word.Digits.{bit_xor_step}
use prototype_net.Word.Xor.{xor_assoc, xor_comm, xor_self, xor-zero, zero-xor, xor-lt}
use prototype_net.Word.Fields.{and_mask, and-zero}
use prototype_net.Word.Rotate.{mod-mul, pow-add}
use prototype_net.Common.Crypto.Prince.Chunks.{
  chunks, chunks_of, join-chunks, chunks-lt, chunk_0, chunk_1, chunk_2, chunk_3,
}
use prototype_net.Common.Crypto.Prince.{
  m_hat_0, m_hat_1, wrapping_neg16, gf2_mat_mul_from, gf2_mat_mul, m_prime,
}

-- A column times a digit.
abbrev scale : ℕ → ℕ → ℕ
scale zero col = 0
scale (suc d) col = col

-- The sum over GF(2) of the columns that the digits of `v` choose.
abbrev span : ℕ → List ℕ → ℕ
span v [] = 0
span v (col ∷ cols) = bit_xor (scale (v % 2) col) (span (v / 2) cols)

abbrev All16 : List ℕ → Type 0
All16 [] = Unit {0}
All16 (col ∷ cols) = IsU16 col × All16 cols

scale_mask : (d col : ℕ) → d < 2 → IsU16 col → bit_and col (wrapping_neg16 d) ≡ scale d col
scale_mask zero col h small = and-zero col
scale_mask (suc zero) col h small = and_mask 16 col ∙ mod-eq_of_lt small
scale_mask (suc (suc d)) col h small = absurd (omega arith)

low_bit : (v : ℕ) → bit_and v 1 ≡ v % 2
low_bit = and_mask 1

gf2_mat_mul_from-span :
    (i v : ℕ) (cols : List ℕ) (out : ℕ)
    → All16 cols
    → gf2_mat_mul_from i v cols out ≡ bit_xor out (span (v / 2 ^ i) cols)
unfolding gf2_mat_mul_from
gf2_mat_mul_from-span i v [] out small = sym (xor-zero out)
gf2_mat_mul_from-span i v (col ∷ cols) out small =
    ap (λ m. gf2_mat_mul_from (i + 1) v cols (bit_xor out m)) mask
    ∙ gf2_mat_mul_from-span (i + 1) v cols (bit_xor out (scale (v / 2 ^ i % 2) col)) small.1
    ∙ ap (λ w. bit_xor (bit_xor out (scale (v / 2 ^ i % 2) col)) (span w cols)) next
    ∙ xor_assoc out (scale (v / 2 ^ i % 2) col) (span (v / 2 ^ i / 2) cols)
  where
    mask : bit_and col (wrapping_neg16 (bit_and (v / 2 ^ i) 1)) ≡ scale (v / 2 ^ i % 2) col
    mask =
        ap (λ d. bit_and col (wrapping_neg16 d)) (low_bit (v / 2 ^ i))
        ∙ scale_mask (v / 2 ^ i % 2) col (omega arith) small.0

    next : v / 2 ^ (i + 1) ≡ v / 2 ^ i / 2
    next = sym (div-div-eq-div-mul v (2 ^ i) 2 ∙ ap (λ t. v / t) (sym (pow-add i 1)))

-- Linearity.
scale_xor :
    (d e col : ℕ) → d < 2 → e < 2 → scale ((d + e) % 2) col ≡ bit_xor (scale d col) (scale e col)
scale_xor zero e col h k =
    ap (λ x. scale x col) {y = e} (omega arith) ∙ sym (zero-xor (scale e col))
scale_xor (suc zero) zero col h k = sym (xor-zero col)
scale_xor (suc zero) (suc zero) col h k = sym (xor_self col)
scale_xor d (suc (suc e)) col h k = absurd (omega arith)
scale_xor (suc (suc d)) e col h k = absurd (omega arith)

-- Four terms, the inner two swapped.
xor_swap : (a b c d : ℕ) → bit_xor (bit_xor a b) (bit_xor c d) ≡ bit_xor (bit_xor a c) (bit_xor b d)
xor_swap a b c d =
    xor_assoc a b (bit_xor c d)
    ∙ ap (bit_xor a)
        (sym (xor_assoc b c d) ∙ ap (λ x. bit_xor x d) (xor_comm b c) ∙ xor_assoc c b d)
    ∙ sym (xor_assoc a c (bit_xor b d))

span-xor : (cols : List ℕ) (v w : ℕ) → span (bit_xor v w) cols ≡ bit_xor (span v cols) (span w cols)
span-xor [] v w = refl
span-xor (col ∷ cols) v w =
    ap₂ bit_xor
      (ap (λ x. scale x col) {y = (v % 2 + w % 2) % 2} (omega (arith, bit_xor_step v w))
        ∙ scale_xor (v % 2) (w % 2) col (omega arith) (omega arith))
      (ap (λ x. span x cols) {y = bit_xor (v / 2) (w / 2)} (omega (arith, bit_xor_step v w))
        ∙ span-xor cols (v / 2) (w / 2))
    ∙ xor_swap (scale (v % 2) col) (scale (w % 2) col) (span (v / 2) cols) (span (w / 2) cols)

zero-span : (cols : List ℕ) → span 0 cols ≡ 0
zero-span [] = refl
zero-span (col ∷ cols) = zero-xor _ ∙ zero-span cols

span-scale :
    (d col : ℕ) (outer : List ℕ) → d < 2 → span (scale d col) outer ≡ scale d (span col outer)
span-scale zero col outer h = zero-span outer
span-scale (suc d) col outer h = refl

-- The product of two matrices.
span-span :
    (v : ℕ) (cols outer : List ℕ)
    → span (span v cols) outer ≡ span v (map (λ col. span col outer) cols)
span-span v [] outer = zero-span outer
span-span v (col ∷ cols) outer =
    span-xor outer (scale (v % 2) col) (span (v / 2) cols)
    ∙ ap₂ bit_xor (span-scale (v % 2) col outer (omega arith)) (span-span (v / 2) cols outer)

-- The columns of the unit matrix.
abbrev units : ℕ → List ℕ
units zero = []
units (suc n) = 1 ∷ map (λ u. 2 * u) (units n)

halve : (a : ℕ) → 2 * a / 2 ≡ a
halve a = omega arith

xor_double : (a b : ℕ) → bit_xor (2 * a) (2 * b) ≡ 2 * bit_xor a b
xor_double a b = bit_xor_step (2 * a) (2 * b) ∙ rw (halve a, halve b) (omega arith)

-- The lowest digit joined to the others.
xor_digit : (d r : ℕ) → d < 2 → bit_xor (scale d 1) (2 * r) ≡ d + 2 * r
xor_digit zero r h = zero-xor (2 * r) ∙ omega arith
xor_digit (suc zero) r h = bit_xor_step 1 (2 * r) ∙ rw (halve r, zero-xor r) (omega arith)
xor_digit (suc (suc d)) r h = absurd (omega arith)

span-double : (v : ℕ) (cols : List ℕ) → span v (map (λ u. 2 * u) cols) ≡ 2 * span v cols
span-double v [] = refl
span-double v (col ∷ cols) =
    ap₂ bit_xor (scale_double (v % 2)) (span-double (v / 2) cols)
    ∙ xor_double (scale (v % 2) col) (span (v / 2) cols)
  where
    scale_double : (d : ℕ) → scale d (2 * col) ≡ 2 * scale d col
    scale_double zero = refl
    scale_double (suc d) = refl

span-units : (n v : ℕ) → span v (units n) ≡ v % 2 ^ n
span-units zero v = omega arith
span-units (suc n) v =
    ap (bit_xor (scale (v % 2) 1))
      (span-double (v / 2) (units n) ∙ ap (λ t. 2 * t) (span-units n (v / 2)))
    ∙ xor_digit (v % 2) (v / 2 % 2 ^ n) (omega arith)
    ∙ sym (
        ap (λ p. v % p) (pow-suc 2 n ∙ mul_comm (2 ^ n) 2)
        ∙ mod-mul 2 (2 ^ n) v (omega arith) (one-le-pow n 2 (omega arith)))

span-lt : (v : ℕ) (cols : List ℕ) → All16 cols → IsU16 (span v cols)
span-lt v [] small = omega arith
span-lt v (col ∷ cols) small =
    xor-lt 16 (scale (v % 2) col) (span (v / 2) cols) (scale-lt (v % 2))
      (span-lt (v / 2) cols small.1)
  where
    scale-lt : (d : ℕ) → IsU16 (scale d col)
    scale-lt zero = omega arith
    scale-lt (suc d) = small.0

gf2_mat_mul-span : (v : ℕ) (cols : List ℕ) → All16 cols → gf2_mat_mul v cols ≡ span v cols
unfolding gf2_mat_mul
gf2_mat_mul-span v cols small =
    gf2_mat_mul_from-span 0 v cols 0 small
    ∙ zero-xor _
    ∙ ap (λ w. span w cols) {y = v} (omega arith)

-- A matrix whose square is the unit matrix.
module _ (cols : List ℕ) (small : All16 cols)
    (square : map (λ col. span col cols) cols ≡ units 16) where
  gf2_mat_mul_self : (v : ℕ) → IsU16 v → gf2_mat_mul (gf2_mat_mul v cols) cols ≡ v
  gf2_mat_mul_self v h =
      gf2_mat_mul-span (gf2_mat_mul v cols) cols small
      ∙ ap (λ w. span w cols) (gf2_mat_mul-span v cols small)
      ∙ span-span v cols cols
      ∙ ap (span v) square
      ∙ span-units 16 v
      ∙ mod-eq_of_lt h

  gf2_mat_mul-lt : (v : ℕ) → IsU16 (gf2_mat_mul v cols)
  gf2_mat_mul-lt v = subst IsU16 (sym (gf2_mat_mul-span v cols small)) (span-lt v cols small)

m_hat_0-All16 : All16 m_hat_0
m_hat_0-All16 = omega arith

m_hat_1-All16 : All16 m_hat_1
m_hat_1-All16 = omega arith

m_hat_0_square : map (λ col. span col m_hat_0) m_hat_0 ≡ units 16
m_hat_0_square = refl

m_hat_1_square : map (λ col. span col m_hat_1) m_hat_1 ≡ units 16
m_hat_1_square = refl

pub m_hat_0-lt : (v : ℕ) → IsU16 (gf2_mat_mul v m_hat_0)
m_hat_0-lt = gf2_mat_mul-lt m_hat_0 m_hat_0-All16 m_hat_0_square

pub m_hat_1-lt : (v : ℕ) → IsU16 (gf2_mat_mul v m_hat_1)
m_hat_1-lt = gf2_mat_mul-lt m_hat_1 m_hat_1-All16 m_hat_1_square

module _ {a b c d : ℕ} (ha : IsU16 a) (hb : IsU16 b) (hc : IsU16 c) (hd : IsU16 d) where
  m_prime-chunks :
      m_prime (chunks a b c d)
      ≡ chunks
          (gf2_mat_mul a m_hat_0)
          (gf2_mat_mul b m_hat_1)
          (gf2_mat_mul c m_hat_1)
          (gf2_mat_mul d m_hat_0)
  unfolding m_prime
  m_prime-chunks =
      ap₂ bit_or
        (ap₂ bit_or
          (ap₂ bit_or (ap (λ v. gf2_mat_mul v m_hat_0) (chunk_0 ha hb hc hd))
            (ap (λ v. gf2_mat_mul v m_hat_1 <<< 16) (chunk_1 ha hb hc hd)))
          (ap (λ v. gf2_mat_mul v m_hat_1 <<< 32) (chunk_2 ha hb hc hd)))
        (ap (λ v. gf2_mat_mul v m_hat_0 <<< 48) (chunk_3 ha hb hc hd))
      ∙ join-chunks (m_hat_0-lt a) (m_hat_1-lt b) (m_hat_1-lt c) (m_hat_0-lt d)

pub m_prime_self_chunks :
    {a b c d : ℕ}
    → IsU16 a
    → IsU16 b
    → IsU16 c
    → IsU16 d
    → m_prime (m_prime (chunks a b c d)) ≡ chunks a b c d
m_prime_self_chunks {a = a} {b = b} {c = c} {d = d} ha hb hc hd =
    ap m_prime (m_prime-chunks ha hb hc hd)
    ∙ m_prime-chunks (m_hat_0-lt a) (m_hat_1-lt b) (m_hat_1-lt c) (m_hat_0-lt d)
    ∙ rw (
      gf2_mat_mul_self m_hat_0 m_hat_0-All16 m_hat_0_square a ha,
      gf2_mat_mul_self m_hat_1 m_hat_1-All16 m_hat_1_square b hb,
      gf2_mat_mul_self m_hat_1 m_hat_1-All16 m_hat_1_square c hc,
      gf2_mat_mul_self m_hat_0 m_hat_0-All16 m_hat_0_square d hd,
    )

mod-lt16 : (x : ℕ) → IsU16 (x % 2 ^ 16)
mod-lt16 x = omega arith

pub m_prime_self : (x : ℕ) → IsU64 x → m_prime (m_prime x) ≡ x
m_prime_self x h =
    ap (λ y. m_prime (m_prime y)) (chunks_of x h)
    ∙ m_prime_self_chunks (mod-lt16 x) (mod-lt16 (x / 2 ^ 16)) (mod-lt16 (x / 2 ^ 32))
        (mod-lt16 (x / 2 ^ 48))
    ∙ sym (chunks_of x h)

pub m_prime-lt : (x : ℕ) → IsU64 x → IsU64 (m_prime x)
m_prime-lt x h =
    subst IsU64
      (sym (
        ap m_prime (chunks_of x h)
        ∙ m_prime-chunks (mod-lt16 x) (mod-lt16 (x / 2 ^ 16)) (mod-lt16 (x / 2 ^ 32))
            (mod-lt16 (x / 2 ^ 48))))
      (chunks-lt (m_hat_0-lt _) (m_hat_1-lt _) (m_hat_1-lt _) (m_hat_0-lt _))
