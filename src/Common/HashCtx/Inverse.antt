-- ===== src/Common/HashCtx/Inverse.antt =====
-- The splitmix64 finaliser is a bijection on u64: each of its five steps can be undone.
use prototype_net.Base.{ℕ, ◌/◌, ◌^◌, ◌≤◌, bit_xor, ◌≡◌, refl, arith}
use prototype_net.Word.{◌>>>◌, IsU64, wrapping_mul}
use prototype_net.Word.Xor.{xor_assoc, xor_comm, xor-zero, xor_cancel, xor-lt, shr-xor}
use prototype_net.Common.HashCtx.{mix64}

shift_step : ℕ → ℕ → ℕ
shift_step k x = bit_xor x (x >>> k)

undo_step : ℕ → ℕ → ℕ
undo_step k y = bit_xor (bit_xor y (y >>> k)) (y >>> k >>> k)

-- What is left of a chain of masks.
telescope : (x a b : ℕ) → bit_xor (bit_xor (bit_xor x a) (bit_xor a b)) b ≡ x
telescope x a b = rw (← xor_assoc (bit_xor x a) a b, xor_cancel x a, xor_cancel x b)

telescope_back : (y a b : ℕ) → bit_xor (bit_xor (bit_xor y a) b) (bit_xor a b) ≡ y
telescope_back y a b = rw (
  xor_comm a b,
  ← xor_assoc (bit_xor (bit_xor y a) b) b a,
  xor_cancel (bit_xor y a) b,
  xor_cancel y a,
)

module _ (k x : ℕ) (shifted_out : x / 2 ^ k / 2 ^ k / 2 ^ k ≡ 0) where
  undo_step-shift_step : undo_step k (shift_step k x) ≡ x
  unfolding undo_step shift_step
  undo_step-shift_step =
      rw (shr-xor, shr-xor, shifted_out, xor-zero) (telescope x (x / 2 ^ k) (x / 2 ^ k / 2 ^ k))

  shift_step-undo_step : shift_step k (undo_step k x) ≡ x
  unfolding undo_step shift_step
  shift_step-undo_step =
      rw (shr-xor, shr-xor, shifted_out, xor-zero)
        (telescope_back x (x / 2 ^ k) (x / 2 ^ k / 2 ^ k))

-- Three shifts leave nothing of a word.
gone30 : (x : ℕ) → IsU64 x → x / 2 ^ 30 / 2 ^ 30 / 2 ^ 30 ≡ 0
gone30 x h = omega arith

gone27 : (x : ℕ) → IsU64 x → x / 2 ^ 27 / 2 ^ 27 / 2 ^ 27 ≡ 0
gone27 x h = omega arith

gone31 : (x : ℕ) → IsU64 x → x / 2 ^ 31 / 2 ^ 31 / 2 ^ 31 ≡ 0
gone31 x h = omega arith

div_le : (x p : ℕ) → x / p ≤ x
div_le x p = grind arith

shift_step-lt : (k x : ℕ) → IsU64 x → IsU64 (shift_step k x)
unfolding shift_step
shift_step-lt k x h = xor-lt 64 x (x / 2 ^ k) h (omega (arith, div_le x (2 ^ k)))

undo_step-lt : (k y : ℕ) → IsU64 y → IsU64 (undo_step k y)
unfolding undo_step
undo_step-lt k y h =
    xor-lt 64 _ _ (xor-lt 64 y (y / 2 ^ k) h (omega (arith, div_le y (2 ^ k))))
      (omega (arith, div_le y (2 ^ k), div_le (y / 2 ^ k) (2 ^ k)))

-- The multipliers are odd, so they have inverses modulo 2 ^ 64.
first_multiplier :
    (x : ℕ) → IsU64 x → wrapping_mul (wrapping_mul x 0xbf58476d1ce4e5b9) 0x96de1b173f119089 ≡ x
unfolding wrapping_mul
first_multiplier x h = omega arith

first_multiplier_back :
    (x : ℕ) → IsU64 x → wrapping_mul (wrapping_mul x 0x96de1b173f119089) 0xbf58476d1ce4e5b9 ≡ x
unfolding wrapping_mul
first_multiplier_back x h = omega arith

second_multiplier :
    (x : ℕ) → IsU64 x → wrapping_mul (wrapping_mul x 0x94d049bb133111eb) 0x319642b2d24d8ec3 ≡ x
unfolding wrapping_mul
second_multiplier x h = omega arith

second_multiplier_back :
    (x : ℕ) → IsU64 x → wrapping_mul (wrapping_mul x 0x319642b2d24d8ec3) 0x94d049bb133111eb ≡ x
unfolding wrapping_mul
second_multiplier_back x h = omega arith

wrapping_mul-lt : (x c : ℕ) → IsU64 (wrapping_mul x c)
unfolding wrapping_mul
wrapping_mul-lt x c = omega arith

-- The five steps backwards.
unfoldable pub unmix64 : ℕ → ℕ
unfolding undo_step wrapping_mul
unmix64 y = undo_step 30 (
    wrapping_mul (undo_step 27 (wrapping_mul (undo_step 31 y) 0x319642b2d24d8ec3))
      0x96de1b173f119089)

mix64_as_steps :
    (x : ℕ)
    → mix64 x
      ≡ shift_step 31 (
          wrapping_mul
            (shift_step 27 (wrapping_mul (shift_step 30 x) 0xbf58476d1ce4e5b9))
            0x94d049bb133111eb)
unfolding mix64 shift_step
mix64_as_steps x = refl

unmix64_as_steps :
    (y : ℕ)
    → unmix64 y
      ≡ undo_step 30 (
          wrapping_mul
            (undo_step 27 (wrapping_mul (undo_step 31 y) 0x319642b2d24d8ec3))
            0x96de1b173f119089)
unfolding unmix64
unmix64_as_steps y = refl

pub mix64-lt : (x : ℕ) → IsU64 (mix64 x)
mix64-lt x = rw mix64_as_steps (shift_step-lt 31 _ (wrapping_mul-lt _ _))

pub unmix64-lt : (y : ℕ) → IsU64 (unmix64 y)
unmix64-lt y = rw unmix64_as_steps (undo_step-lt 30 _ (wrapping_mul-lt _ _))

pub unmix64-mix64 : (x : ℕ) → IsU64 x → unmix64 (mix64 x) ≡ x
unmix64-mix64 x h =
    let a = shift_step 30 x in
    let b = wrapping_mul a 0xbf58476d1ce4e5b9 in
    let c = shift_step 27 b in
    let d = wrapping_mul c 0x94d049bb133111eb in
    let b-lt : IsU64 b = wrapping_mul-lt a _ in
    rw
      (
        unmix64_as_steps,
        mix64_as_steps,
        undo_step-shift_step 31 d (gone31 d (wrapping_mul-lt c _)),
        second_multiplier c (shift_step-lt 27 b b-lt),
        undo_step-shift_step 27 b (gone27 b b-lt),
        first_multiplier a (shift_step-lt 30 x h),
      )
      (undo_step-shift_step 30 x (gone30 x h))

pub mix64-unmix64 : (y : ℕ) → IsU64 y → mix64 (unmix64 y) ≡ y
mix64-unmix64 y h =
    let a = undo_step 31 y in
    let b = wrapping_mul a 0x319642b2d24d8ec3 in
    let c = undo_step 27 b in
    let d = wrapping_mul c 0x96de1b173f119089 in
    let b-lt : IsU64 b = wrapping_mul-lt a _ in
    rw
      (
        mix64_as_steps,
        unmix64_as_steps,
        shift_step-undo_step 30 d (gone30 d (wrapping_mul-lt c _)),
        first_multiplier_back c (undo_step-lt 27 b b-lt),
        shift_step-undo_step 27 b (gone27 b b-lt),
        second_multiplier_back a (undo_step-lt 31 y h),
      )
      (shift_step-undo_step 31 y (gone31 y h))
