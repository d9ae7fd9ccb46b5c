-- ===== src/Control/Number/Decimal.antt =====
-- What `parse` makes of a number in decimal.
use prototype_net.Base.{
  ℕ, zero, suc, ◌+◌, ◌/◌, ◌%◌, ◌≤◌, ◌<◌, ◌==◌, ltb, Bool-cases, inl, inr, ◌≡◌, refl, ap, sym, ◌∙◌,
  true, false, if◌then◌else◌, [], ◌∷◌, ◌++◌, Option, some, arith,
}
use prototype_net.Control.Text.{Text}
use prototype_net.Control.Number.{push_digit, parse_digits, parse_unsigned}

-- The digits of `n`, in no more steps than `fuel`.
unfoldable pub decimal_below : ℕ → ℕ → Text
decimal_below zero n = []
decimal_below (suc fuel) n =
    let high = decimal_below fuel (n / 10) in
    if ltb n 10 then (n + 48) ∷ [] else high ++ ((n % 10 + 48) ∷ [])

-- `{}` of an unsigned number; it has fewer digits than `n + 2`.
unfoldable pub decimal : ℕ → Text
unfolding decimal_below
decimal n = decimal_below (n + 1) n

parse_digits-append :
    (bound : ℕ) (o : Option ℕ) (xs : Text) (c : ℕ)
    → parse_digits bound o (xs ++ (c ∷ [])) ≡ push_digit bound c (parse_digits bound o xs)
unfolding parse_digits
parse_digits-append bound o [] c = refl
parse_digits-append bound o (x ∷ xs) c = parse_digits-append bound (push_digit bound x o) xs c

push_digit_lem : (bound n : ℕ) → n < bound → push_digit bound (n % 10 + 48) (some (n / 10)) ≡ some n
push_digit_lem bound n h = ground arith

parse_small :
    (bound n : ℕ)
    → n < bound
    → ltb n 10 ≡ true
    → parse_digits bound (some 0) ((n + 48) ∷ []) ≡ some n
unfolding parse_digits
parse_small bound n h small = ground arith

parse_digits-decimal_below :
    (bound fuel n : ℕ)
    → n < bound
    → n < fuel
    → parse_digits bound (some 0) (decimal_below fuel n) ≡ some n
unfolding decimal_below
parse_digits-decimal_below bound zero n h f = absurd (omega arith)
parse_digits-decimal_below bound (suc fuel) n h f = elim (Bool-cases (ltb n 10)) [
  | inl small ↦ rw small (parse_small bound n h small)
  | inr large ↦ rw large (
      parse_digits-append bound (some 0) (decimal_below fuel (n / 10)) (n % 10 + 48)
      ∙ ap (push_digit bound (n % 10 + 48))
          (parse_digits-decimal_below bound fuel (n / 10) (omega arith) (ground arith))
      ∙ push_digit_lem bound n h)
]

-- A decimal begins with a digit.
Begins : Text → Type 0
Begins t = (c : ℕ) × (cs : Text) × (t ≡ c ∷ cs) × (48 ≤ c)

Begins-append : (t more : Text) → Begins t → Begins (t ++ more)
unfolding Begins
Begins-append t more b = (b.0, b.1 ++ more, ap (λ s. s ++ more) b.2, b.3)

decimal_below-Begins : (fuel n : ℕ) → n < fuel → Begins (decimal_below fuel n)
unfolding decimal_below Begins
decimal_below-Begins zero n f = absurd (omega arith)
decimal_below-Begins (suc fuel) n f = elim (Bool-cases (ltb n 10)) [
  | inl small ↦ rw small (n + 48, [], refl, omega arith)
  | inr large ↦ rw large (
      Begins-append (decimal_below fuel (n / 10)) ((n % 10 + 48) ∷ [])
        (decimal_below-Begins fuel (n / 10) (ground arith)))
]

no_plus :
    (bound c : ℕ) (cs : Text)
    → 48 ≤ c
    → parse_unsigned bound (c ∷ cs) ≡ parse_digits bound (some 0) (c ∷ cs)
unfolding parse_unsigned
no_plus bound c [] h = refl
no_plus bound c (d ∷ cs) h = rw (not_plus c h) refl
  where
    not_plus : (c : ℕ) → 48 ≤ c → (c == 43) ≡ false
    not_plus c h = ground arith

-- A number that fits the type is read back from its decimal.
pub parse_unsigned-decimal : (bound n : ℕ) → n < bound → parse_unsigned bound (decimal n) ≡ some n
unfolding decimal Begins
parse_unsigned-decimal bound n h =
    let b = decimal_below-Begins (n + 1) n (omega arith) in
    ap (parse_unsigned bound) b.2
    ∙ no_plus bound b.0 b.1 b.3
    ∙ ap (parse_digits bound (some 0)) (sym b.2)
    ∙ parse_digits-decimal_below bound (n + 1) n h (omega arith)
