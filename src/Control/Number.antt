-- ===== src/Control/Number.antt =====
-- Numbers in text, as `str::parse` reads an unsigned integer, where dns-server/src/main.rs reads its
-- configuration and daemon/src/loader.rs the index of an interface.
pub mod Decimal
use prototype_net.Base.{
  ℕ, zero, suc, ◌+◌, ◌-◌, ◌*◌, ◌^◌, ◌==◌, leb, ltb, ◌&&◌, Bool, true, false, if◌then◌else◌, List,
  [], ◌∷◌, Option, none, some,
}
use prototype_net.Control.Text.{Text}

abbrev pub is_digit : ℕ → Bool
is_digit c = leb 48 c && leb c 57

-- One more digit, if it is one and the number still fits.
abbrev pub push_digit : ℕ → ℕ → Option ℕ → Option ℕ
push_digit bound c none = none
push_digit bound c (some n) =
    if is_digit c && ltb (n * 10 + (c - 48)) bound then some (n * 10 + (c - 48)) else none

-- The digits that are left, after those that gave `n`.
unfoldable pub parse_digits : ℕ → Option ℕ → Text → Option ℕ
parse_digits bound n [] = n
parse_digits bound n (c ∷ cs) = parse_digits bound (push_digit bound c n) cs

-- `parse` for an unsigned type with `bound` values: at least one digit, after one `+` at most.
unfoldable pub parse_unsigned : ℕ → Text → Option ℕ
unfolding parse_digits
parse_unsigned bound [] = none
parse_unsigned bound (c ∷ []) = parse_digits bound (some 0) (c ∷ [])
parse_unsigned bound (c ∷ d ∷ cs) =
    parse_digits bound (some 0) (if c == 43 then d ∷ cs else c ∷ d ∷ cs)

-- `env::var(…).ok().and_then(|v| v.parse().ok()).unwrap_or(default)`
unfoldable pub setting : ℕ → ℕ → Option Text → ℕ
setting bound default none = default
setting bound default (some text) = elim (parse_unsigned bound text) [ none ↦ default | some n ↦ n ]
