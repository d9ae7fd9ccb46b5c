-- ===== src/Common/Crypto/Prince/Nibbles.antt =====
-- The substitution layers of common/src/crypto.rs act on each nibble.
use native.Mathlib.Nat.{mul_comm, div-div-eq-div-mul, mod-eq_of_lt, one-le-pow}
use prototype_net.Base.{
  ℕ, zero, suc, ◌+◌, ◌*◌, ◌/◌, ◌%◌, ◌^◌, ◌<◌, ◌≤◌, bit_and, bit_or, List, [], ◌∷◌, get_or, ◌≡◌,
  refl, ap, sym, subst, length, get_or_past, ◌∙◌, ◌==◌, ==_iff, ltb, ltb→lt, all_below,
  all_below_sound, true, arith,
}
use native.Mathlib.Decide.{dec_lt}
use prototype_net.Word.{◌<<<◌, IsU64}
use prototype_net.Word.Fields.{or_fields, and_mask}
use prototype_net.Word.Logic.{or_comm}
use prototype_net.Word.Rotate.{pow-add, pow_mono, mod-mul}
use prototype_net.Common.Crypto.Prince.{
  sbox, sbox_inv, substitute, nibble_shifts, sbox_layer, sbox_inv_layer,
}

-- The table applied to the `n` lowest nibbles of `x`.
abbrev nibbles : List ℕ → ℕ → ℕ → ℕ
nibbles table zero x = 0
nibbles table (suc n) x = get_or table (x % 16) 0 + 16 * nibbles table n (x / 16)

-- `n` shifts, each four bits further than the one before.
abbrev shifts_from : ℕ → ℕ → List ℕ
shifts_from s zero = []
shifts_from s (suc n) = s ∷ shifts_from (s + 4) n

-- A table of nibbles.
abbrev IsNibbles : List ℕ → Type 0
IsNibbles table = (i : ℕ) → get_or table i 0 < 16

pow_four : (s : ℕ) → 2 ^ (s + 4) ≡ 16 * 2 ^ s
pow_four s = omega (arith, pow-add s 4)

-- What is left of `x` after `s + 4` bits.
div_four : (s x : ℕ) → x / 2 ^ (s + 4) ≡ x / 2 ^ s / 16
div_four s x =
    sym (div-div-eq-div-mul x (2 ^ s) 16 ∙ ap (λ t. x / t) (mul_comm (2 ^ s) 16 ∙ sym (pow_four s)))

low_nibble : (a : ℕ) → bit_and a 0xF ≡ a % 16
low_nibble = and_mask 4

-- One nibble written above `s` bits.
write_nibble :
    (s out v : ℕ) → out < 2 ^ s → v < 16 → s + 4 ≤ 64 → bit_or out (v <<< s) ≡ out + 2 ^ s * v
write_nibble s out v low small fits =
    ap (bit_or out) (mod-eq_of_lt in_word)
    ∙ or_comm out (v * 2 ^ s)
    ∙ or_fields s v out low
    ∙ grind arith
  where
    in_word : v * 2 ^ s < 2 ^ 64
    in_word = grind (arith, pow_four s, pow_mono (s + 4) 64 fits)

read_nibble : (table : List ℕ) (a : ℕ) → get_or table (bit_and a 0xF) 0 ≡ get_or table (a % 16) 0
read_nibble table a = ap (λ i. get_or table i 0) (low_nibble a)

-- The nibbles written so far stand below bit `s`, and the others are added above.
substitute_lem :
    (table : List ℕ) (t : IsNibbles table) (s n out x : ℕ)
    → out < 2 ^ s
    → s + 4 * n ≤ 64
    → substitute table out (shifts_from s n) x ≡ out + 2 ^ s * nibbles table n (x / 2 ^ s)
unfolding substitute
substitute_lem table t s zero out x low fits = omega arith
substitute_lem table t s (suc n) out x low fits =
    ap (λ o. substitute table o (shifts_from (s + 4) n) x)
      (ap (λ v. bit_or out (v <<< s)) (read_nibble table (x / 2 ^ s))
        ∙ write_nibble s out (get_or table (x / 2 ^ s % 16) 0) low (t _) (omega arith))
    ∙ substitute_lem table t (s + 4) n (out + 2 ^ s * get_or table (x / 2 ^ s % 16) 0) x
        (grind (arith, pow_four s, t (x / 2 ^ s % 16))) (omega arith)
    ∙ rw (div_four s x, pow_four s) (grind arith)

-- A layer substitutes each of the sixteen nibbles.
layer_lem :
    (table : List ℕ) (x : ℕ)
    → IsNibbles table
    → substitute table (get_or table (bit_and x 0xF) 0) nibble_shifts x ≡ nibbles table 16 x
unfolding substitute
layer_lem table x t =
    ap (λ o. substitute table o nibble_shifts x) (read_nibble table x)
    ∙ (substitute_lem table t 4 15 (get_or table (x % 16) 0) x (t _) (omega arith) ∙ omega arith)

nibbles-lt : (table : List ℕ) → IsNibbles table → (n x : ℕ) → nibbles table n x < 2 ^ (4 * n)
nibbles-lt table t zero x = omega arith
nibbles-lt table t (suc n) x =
    subst (λ p. nibbles table (suc n) x < p)
      (sym (pow_four (4 * n)) ∙ ap (λ t. 2 ^ t) {x = 4 * n + 4} (omega arith))
      (omega (arith, t (x % 16), nibbles-lt table t n (x / 16)))

-- Two tables that undo one another, on any number of nibbles.
module _ (table inverse : List ℕ) (t : IsNibbles table)
    (undo : (v : ℕ) → v < 16 → get_or inverse (get_or table v 0) 0 ≡ v) where
  nibbles-nibbles : (n x : ℕ) → nibbles inverse n (nibbles table n x) ≡ x % 2 ^ (4 * n)
  nibbles-nibbles zero x = omega arith
  nibbles-nibbles (suc n) x =
      rw (first (x % 16) (nibbles table n (x / 16)), rest (x % 16) (nibbles table n (x / 16)))
        (rw (undo (x % 16) (omega arith), nibbles-nibbles n (x / 16)) (sym whole))
    where
      whole : x % 2 ^ (4 * suc n) ≡ x % 16 + 16 * (x / 16 % 2 ^ (4 * n))
      whole =
          ap (λ p. x % p) (ap (λ t. 2 ^ t) {y = 4 * n + 4} (omega arith) ∙ pow_four (4 * n))
          ∙ mod-mul 16 (2 ^ (4 * n)) x (omega arith) (one-le-pow (4 * n) 2 (omega arith))

      first : (v r : ℕ) → (get_or table v 0 + 16 * r) % 16 ≡ get_or table v 0
      first v r = omega (arith, t v)

      rest : (v r : ℕ) → (get_or table v 0 + 16 * r) / 16 ≡ r
      rest v r = omega (arith, t v)

-- By their sixteen entries.
table-IsNibbles :
    (table : List ℕ)
    → all_below 16 (λ v. ltb (get_or table v 0) 16) ≡ true
    → length table ≤ 16
    → IsNibbles table
table-IsNibbles table ok len i = elim (dec_lt i 16) [
  | yes p ↦ ltb→lt _ _ (all_below_sound 16 (λ v. ltb (get_or table v 0) 16) i ok p)
  | no p ↦ subst (λ v. v < 16) (sym (get_or_past table i 0 (omega arith))) (omega arith)
]

inverse_below :
    (table inverse : List ℕ)
    → all_below 16 (λ v. get_or inverse (get_or table v 0) 0 == v) ≡ true
    → (v : ℕ) → v < 16
    → get_or inverse (get_or table v 0) 0 ≡ v
inverse_below table inverse ok v p =
    (==_iff _ v).0 (all_below_sound 16 (λ w. get_or inverse (get_or table w 0) 0 == w) v ok p)

sbox-IsNibbles : IsNibbles sbox
sbox-IsNibbles = table-IsNibbles sbox refl (omega arith)

sbox_inv-IsNibbles : IsNibbles sbox_inv
sbox_inv-IsNibbles = table-IsNibbles sbox_inv refl (omega arith)

-- The two layers undo one another on words.
pub sbox_inv_layer-sbox_layer : (x : ℕ) → IsU64 x → sbox_inv_layer (sbox_layer x) ≡ x
unfolding sbox_layer sbox_inv_layer
sbox_inv_layer-sbox_layer x h =
    layer_lem sbox_inv _ sbox_inv-IsNibbles
    ∙ ap (nibbles sbox_inv 16) (layer_lem sbox x sbox-IsNibbles)
    ∙ nibbles-nibbles sbox sbox_inv sbox-IsNibbles (inverse_below sbox sbox_inv refl) 16 x
    ∙ mod-eq_of_lt h

pub sbox_layer-sbox_inv_layer : (x : ℕ) → IsU64 x → sbox_layer (sbox_inv_layer x) ≡ x
unfolding sbox_layer sbox_inv_layer
sbox_layer-sbox_inv_layer x h =
    layer_lem sbox _ sbox-IsNibbles
    ∙ ap (nibbles sbox 16) (layer_lem sbox_inv x sbox_inv-IsNibbles)
    ∙ nibbles-nibbles sbox_inv sbox sbox_inv-IsNibbles (inverse_below sbox_inv sbox refl) 16 x
    ∙ mod-eq_of_lt h

pub sbox_layer-lt : (x : ℕ) → IsU64 (sbox_layer x)
unfolding sbox_layer
sbox_layer-lt x =
    subst IsU64 (sym (layer_lem sbox x sbox-IsNibbles)) (nibbles-lt sbox sbox-IsNibbles 16 x)

pub sbox_inv_layer-lt : (x : ℕ) → IsU64 (sbox_inv_layer x)
unfolding sbox_inv_layer
sbox_inv_layer-lt x =
    subst IsU64 (sym (layer_lem sbox_inv x sbox_inv-IsNibbles))
      (nibbles-lt sbox_inv sbox_inv-IsNibbles 16 x)
