-- ===== src/Base/Lists.antt =====
-- Byte arrays and slices as lists, measured and indexed by native numbers.
use Prim.Native.Nat.{ℕ, zero, suc, ◌+◌, ◌<◌, ◌≤◌}
use mathlib.Core.Path.{◌≡◌, refl, sym, ap, ap₂, subst₂, ◌∙◌}
use mathlib.Core.Logic.{◌≢◌}
use mathlib.Core.Bool.{Bool, true, false, ◌&&◌}
use mathlib.Core.List.{List, [], ◌∷◌, ◌++◌}
use native.Mathlib.Omega.{arith}
use prototype_net.Base.Tests.{◌==◌}

module _ {ℓ} {A : Type ℓ} where
  abbrev pub length : List A → ℕ
  length [] = 0
  length (x ∷ xs) = suc (length xs)

  abbrev pub get_or : List A → ℕ → A → A
  get_or [] i d = d
  get_or (x ∷ xs) zero d = x
  get_or (x ∷ xs) (suc i) d = get_or xs i d

  -- A write out of bounds changes nothing.
  abbrev pub set : List A → ℕ → A → List A
  set [] i v = []
  set (x ∷ xs) zero v = v ∷ xs
  set (x ∷ xs) (suc i) v = x ∷ set xs i v

  pub length-append : (xs ys : List A) → length (xs ++ ys) ≡ length xs + length ys
  length-append [] ys = omega arith
  length-append (x ∷ xs) ys = omega (arith, length-append xs ys)

  pub length-set : (xs : List A) (i : ℕ) (v : A) → length (set xs i v) ≡ length xs
  length-set [] i v = refl
  length-set (x ∷ xs) zero v = refl
  length-set (x ∷ xs) (suc i) v = ap suc (length-set xs i v)

  pub get_or-set_self :
      (xs : List A) (i : ℕ) (v d : A) → i < length xs → get_or (set xs i v) i d ≡ v
  get_or-set_self [] i v d h = absurd (omega arith)
  get_or-set_self (x ∷ xs) zero v d h = refl
  get_or-set_self (x ∷ xs) (suc i) v d h = get_or-set_self xs i v d (omega arith)

  pub get_or-set_ne :
      (xs : List A) (i j : ℕ) (v d : A) → i ≢ j → get_or (set xs i v) j d ≡ get_or xs j d
  get_or-set_ne [] i j v d ne = refl
  get_or-set_ne (x ∷ xs) zero zero v d ne = absurd (ne refl)
  get_or-set_ne (x ∷ xs) zero (suc j) v d ne = refl
  get_or-set_ne (x ∷ xs) (suc i) zero v d ne = refl
  get_or-set_ne (x ∷ xs) (suc i) (suc j) v d ne = get_or-set_ne xs i j v d (λ e. ne (ap suc e))

  -- Lists of one length with the same elements are equal.
  pub get_or_ext :
      (d : A) (xs ys : List A)
      → length xs ≡ length ys
      → ((i : ℕ) → i < length xs → get_or xs i d ≡ get_or ys i d)
      → xs ≡ ys
  get_or_ext d [] [] e h = refl
  get_or_ext d [] (y ∷ ys) e h = absurd (omega arith)
  get_or_ext d (x ∷ xs) [] e h = absurd (omega arith)
  get_or_ext d (x ∷ xs) (y ∷ ys) e h =
      ap₂ ◌∷◌ (h 0 (omega arith))
        (get_or_ext d xs ys (omega arith) (λ i p. h (suc i) (omega arith)))

-- `n` elements from index `i` on, numbers with 0 past the end.
abbrev pub slice : List ℕ → ℕ → ℕ → List ℕ
slice xs i zero = []
slice xs i (suc n) = get_or xs i 0 ∷ slice xs (i + 1) n

pub length-slice : (xs : List ℕ) (i n : ℕ) → length (slice xs i n) ≡ n
length-slice xs i zero = refl
length-slice xs i (suc n) = ap suc (length-slice xs (i + 1) n)

pub get_or-slice :
    (xs : List ℕ) (i n k : ℕ) → k < n → get_or (slice xs i n) k 0 ≡ get_or xs (i + k) 0
get_or-slice xs i zero k h = absurd (omega arith)
get_or-slice xs i (suc n) zero h = ap (λ j. get_or xs j 0) (omega arith)
get_or-slice xs i (suc n) (suc k) h =
    get_or-slice xs (i + 1) n k (omega arith) ∙ ap (λ j. get_or xs j 0) (omega arith)

-- Comparison of two arrays, `==` on `[u8; N]`.
pub eq_bytes : List ℕ → List ℕ → Bool
eq_bytes [] [] = true
eq_bytes [] (y ∷ ys) = false
eq_bytes (x ∷ xs) [] = false
eq_bytes (x ∷ xs) (y ∷ ys) = x == y && eq_bytes xs ys

pub eq_bytes→eq : (xs ys : List ℕ) → eq_bytes xs ys ≡ true → xs ≡ ys
unfolding eq_bytes
eq_bytes→eq [] [] h = refl
eq_bytes→eq [] (y ∷ ys) h = cc
eq_bytes→eq (x ∷ xs) [] h = cc
eq_bytes→eq (x ∷ xs) (y ∷ ys) h = ground (arith, eq_bytes→eq xs ys)

pub eq_bytes_self : (xs : List ℕ) → eq_bytes xs xs ≡ true
unfolding eq_bytes
eq_bytes_self [] = refl
eq_bytes_self (x ∷ xs) = ground (arith, eq_bytes_self xs)

-- A whole array is its slice from 0.
pub slice_self : (xs : List ℕ) (n : ℕ) → length xs ≡ n → slice xs 0 n ≡ xs
slice_self xs n h = get_or_ext 0 (slice xs 0 n) xs (length-slice xs 0 n ∙ sym h) λ i p.
    get_or-slice xs 0 n i (omega (arith, length-slice xs 0 n))
    ∙ ap (λ j. get_or xs j 0) {y = i} (omega arith)

pub slice_ext :
    (xs ys : List ℕ) (i j n : ℕ)
    → ((k : ℕ) → k < n → get_or xs (i + k) 0 ≡ get_or ys (j + k) 0)
    → slice xs i n ≡ slice ys j n
slice_ext xs ys i j zero h = refl
slice_ext xs ys i j (suc n) h =
    ap₂ ◌∷◌
      (subst₂ (λ a b. get_or xs a 0 ≡ get_or ys b 0) (omega arith) (omega arith)
        (h 0 (omega arith)))
      (slice_ext xs ys (i + 1) (j + 1) n λ k p.
        subst₂ (λ a b. get_or xs a 0 ≡ get_or ys b 0) (omega arith) (omega arith)
          (h (suc k) (omega arith)))

pub get_or_past {ℓ} : {A : Type ℓ} (xs : List A) (i : ℕ) (d : A) → length xs ≤ i → get_or xs i d ≡ d
get_or_past [] i d h = refl
get_or_past (x ∷ xs) zero d h = absurd (omega arith)
get_or_past (x ∷ xs) (suc i) d h = get_or_past xs i d (omega arith)

-- The elements of a concatenation.
pub get_or-append_left :
    (xs ys : List ℕ) (i : ℕ) → i < length xs → get_or (xs ++ ys) i 0 ≡ get_or xs i 0
get_or-append_left [] ys i h = absurd (omega arith)
get_or-append_left (x ∷ xs) ys zero h = refl
get_or-append_left (x ∷ xs) ys (suc i) h = get_or-append_left xs ys i (omega arith)

pub get_or-append_right :
    (xs ys : List ℕ) (n i : ℕ) → length xs ≡ n → get_or (xs ++ ys) (n + i) 0 ≡ get_or ys i 0
get_or-append_right [] ys n i h = ap (λ (j : ℕ). get_or ys j 0) (omega arith)
get_or-append_right (x ∷ xs) ys zero i h = absurd (omega arith)
get_or-append_right (x ∷ xs) ys (suc n) i h =
    ap (λ (j : ℕ). get_or (x ∷ xs ++ ys) j 0) {y = suc (n + i)} (omega arith)
    ∙ get_or-append_right xs ys n i (omega arith)

pub get_or-append_below :
    (xs ys : List ℕ) (bound i : ℕ)
    → ((j : ℕ) → get_or xs j 0 < bound)
    → ((j : ℕ) → get_or ys j 0 < bound)
    → get_or (xs ++ ys) i 0 < bound
get_or-append_below [] ys bound i f g = g i
get_or-append_below (x ∷ xs) ys bound zero f g = f 0
get_or-append_below (x ∷ xs) ys bound (suc i) f g =
    get_or-append_below xs ys bound i (λ j. f (suc j)) g

pub slice-append_left : (xs ys : List ℕ) (n : ℕ) → length xs ≡ n → slice (xs ++ ys) 0 n ≡ xs
slice-append_left xs ys n h =
    slice_ext (xs ++ ys) xs 0 0 n (λ k p. get_or-append_left xs ys (0 + k) (omega arith))
    ∙ slice_self xs n h

pub slice-append_right :
    (xs ys : List ℕ) (n m : ℕ) → length xs ≡ n → length ys ≡ m → slice (xs ++ ys) n m ≡ ys
slice-append_right xs ys n m h h' =
    slice_ext (xs ++ ys) ys n 0 m (λ k p.
      get_or-append_right xs ys n k h ∙ ap (λ (j : ℕ). get_or ys j 0) {y = 0 + k} (omega arith))
    ∙ slice_self ys m h'
