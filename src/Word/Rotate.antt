-- ===== src/Word/Rotate.antt =====
-- The two rotations undo one another.
use native.Mathlib.Nat.{
  pow-suc, one-le-pow, mul_comm, mul_assoc, mul-add, mod-add-div, mod-eq_of_lt,
  add-mul-mod_self_left,
}
use prototype_net.Base.{
  ℕ, zero, suc, ◌+◌, ◌-◌, ◌*◌, ◌/◌, ◌%◌, ◌^◌, ◌≤◌, ◌<◌, ◌≡◌, ap, sym, subst, ◌∙◌, arith,
}
use prototype_net.Word.{rotate_left, rotate_right}

pub pow-add : (j k : ℕ) → 2 ^ (j + k) ≡ 2 ^ j * 2 ^ k
pow-add zero k = ground arith
pow-add (suc j) k = rw (suc_add j k) (
    omega
      (arith, pow-suc 2 j, pow-suc 2 (j + k), ap (λ (t : ℕ). t * 2 ^ k) (pow-suc 2 j), pow-add j k))
  where
    suc_add : (j k : ℕ) → suc j + k ≡ suc (j + k)
    suc_add j k = omega arith

pub pow_mono : (j k : ℕ) → j ≤ k → 2 ^ j ≤ 2 ^ k
pow_mono j k h =
    subst (λ t. 2 ^ j ≤ 2 ^ t) {x = j + (k - j)} {y = k} (omega arith)
      (rw (pow-add j (k - j)) (grind (arith, one-le-pow (k - j) 2)))

-- The parts of `b * p + a`, where `a` is below `p`.
div_part : (p b a : ℕ) → a < p → (b * p + a) / p ≡ b
div_part p b a h = grind arith

mod_part : (p b a : ℕ) → a < p → (b * p + a) % p ≡ a
mod_part p b a h = grind arith

-- The remainder by a product, digit by digit.
pub mod-mul : (b p x : ℕ) → 0 < b → 0 < p → x % (b * p) ≡ x % b + b * (x / b % p)
mod-mul b p x b_pos p_pos =
    ap (λ t. t % (b * p)) whole
    ∙ add-mul-mod_self_left (x % b + b * (x / b % p)) (b * p) (x / b / p)
    ∙ mod-eq_of_lt below
  where
    whole : x ≡ x % b + b * (x / b % p) + b * p * (x / b / p)
    whole = omega (
      arith,
      mod-add-div x b,
      ap (λ t. b * t) (mod-add-div (x / b) p),
      mul-add b (x / b % p) (p * (x / b / p)),
      mul_assoc b p (x / b / p),
    )

    below : x % b + b * (x / b % p) < b * p
    below = grind arith

-- The two parts of a word below `p * q`, swapped and swapped back.
module _ (p q x : ℕ) (p_pos : 0 < p) (q_pos : 0 < q) (fits : x < p * q) where
  high-lt : x / q < p
  high-lt = grind arith

  low-lt : x % q < q
  low-lt = grind arith

  swap_parts : (x % q * p + x / q) % p * q + (x % q * p + x / q) / p ≡ x
  swap_parts =
      rw (mod_part p (x % q) (x / q) high-lt, div_part p (x % q) (x / q) high-lt) (grind arith)

  swap_parts-lt : x % q * p + x / q < p * q
  swap_parts-lt = grind (arith, high-lt, low-lt)

split_width : (n : ℕ) → 2 ^ (n % 64) * 2 ^ (64 - n % 64) ≡ 2 ^ 64
split_width n = sym (pow-add (n % 64) (64 - n % 64)) ∙ ap (λ (t : ℕ). 2 ^ t) {y = 64} (omega arith)

module _ (x n : ℕ) (fits : x < 2 ^ 64) where
  -- `x.rotate_left(n).rotate_right(n)`.
  pub rotate_right-rotate_left : rotate_right (rotate_left x n) n ≡ x
  unfolding rotate_left rotate_right
  rotate_right-rotate_left =
      swap_parts (2 ^ (n % 64)) (2 ^ (64 - n % 64)) x (one-le-pow _ 2 (omega arith))
        (one-le-pow _ 2 (omega arith)) (rw (split_width n) fits)

  -- `x.rotate_right(n).rotate_left(n)`.
  pub rotate_left-rotate_right : rotate_left (rotate_right x n) n ≡ x
  unfolding rotate_left rotate_right
  rotate_left-rotate_right =
      swap_parts (2 ^ (64 - n % 64)) (2 ^ (n % 64)) x (one-le-pow _ 2 (omega arith))
        (one-le-pow _ 2 (omega arith)) (rw (mul_comm, split_width n) fits)

  pub rotate_left-lt : rotate_left x n < 2 ^ 64
  unfolding rotate_left
  rotate_left-lt =
      subst (λ w. x % 2 ^ (64 - n % 64) * 2 ^ (n % 64) + x / 2 ^ (64 - n % 64) < w) (split_width n)
        (swap_parts-lt (2 ^ (n % 64)) (2 ^ (64 - n % 64)) x (one-le-pow _ 2 (omega arith))
          (one-le-pow _ 2 (omega arith)) (rw (split_width n) fits))

  pub rotate_right-lt : rotate_right x n < 2 ^ 64
  unfolding rotate_right
  rotate_right-lt =
      subst (λ w. x % 2 ^ (n % 64) * 2 ^ (64 - n % 64) + x / 2 ^ (n % 64) < w)
        (mul_comm (2 ^ (64 - n % 64)) (2 ^ (n % 64)) ∙ split_width n)
        (swap_parts-lt (2 ^ (64 - n % 64)) (2 ^ (n % 64)) x (one-le-pow _ 2 (omega arith))
          (one-le-pow _ 2 (omega arith)) (rw (mul_comm, split_width n) fits))
