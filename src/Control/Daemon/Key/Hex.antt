-- ===== src/Control/Daemon/Key/Hex.antt =====
-- What `parse_proxy_key_hex` of daemon/src/main.rs accepts.
use prototype_net.Base.{
  ℕ, zero, suc, ◌+◌, ◌*◌, ◌/◌, ◌%◌, ◌<◌, ◌≤◌, ◌≡◌, refl, ap, ap₂, ◌∙◌, arith, ◌==◌, false, List, [],
  ◌∷◌, ◌++◌, length, get_or, slice, slice_self, length-append, slice-append_left,
  slice-append_right, get_or-append_below, some,
}
use prototype_net.Common.Types.{ProxySrcKey, is_zero, IsBytes}
use prototype_net.Control.Text.{Text}
use prototype_net.Control.Daemon.Key.{
  hex_digit, hex_char, from_str_radix, hex_bytes, hex_text, trim, trim_start, trim_end,
  is_whitespace, key_of_hex, nonzero_key, parse_proxy_key_hex, split_key,
}

hex_digit-hex_char : (d : ℕ) → d < 16 → hex_digit (hex_char d) ≡ some d
unfolding hex_digit
hex_digit-hex_char d h = ground arith

hex_char-not_plus : (d : ℕ) → (hex_char d == 43) ≡ false
hex_char-not_plus d = ground arith

hex_char-not_space : (d : ℕ) → d < 16 → is_whitespace (hex_char d) ≡ false
hex_char-not_space d h = ground arith

from_str_radix-hex_char :
    (b : ℕ) → b < 256 → from_str_radix (hex_char (b / 16)) (hex_char (b % 16)) ≡ some b
unfolding from_str_radix
from_str_radix-hex_char b h =
    rw
      (
        hex_char-not_plus (b / 16),
        hex_digit-hex_char (b / 16) (omega arith),
        hex_digit-hex_char (b % 16) (omega arith),
      )
      (ap some (omega arith))

-- The text of some bytes, measured and indexed.
length-hex_text : (bs : List ℕ) → length (hex_text bs) ≡ 2 * length bs
unfolding hex_text
length-hex_text [] = refl
length-hex_text (b ∷ bs) = let ih = length-hex_text bs in omega arith

get_or-hex_text :
    (bs : List ℕ) (i : ℕ)
    → i < length bs
    → (get_or (hex_text bs) (i * 2) 0 ≡ hex_char (get_or bs i 0 / 16))
      × (get_or (hex_text bs) (i * 2 + 1) 0 ≡ hex_char (get_or bs i 0 % 16))
unfolding hex_text
get_or-hex_text [] i h = absurd (omega arith)
get_or-hex_text (b ∷ bs) zero h = (refl, refl)
get_or-hex_text (b ∷ bs) (suc i) h =
    let ih = get_or-hex_text bs i (omega arith) in
    (
      ap (λ (j : ℕ). get_or (hex_text (b ∷ bs)) j 0) {y = suc (suc (i * 2))} (omega arith) ∙ ih.0,
      ap (λ (j : ℕ). get_or (hex_text (b ∷ bs)) j 0) {y = suc (suc (i * 2 + 1))} (omega arith)
          ∙ ih.1,
    )

hex_bytes-hex_text :
    (bs : List ℕ) (left i : ℕ)
    → ((j : ℕ) → get_or bs j 0 < 256)
    → i + left ≤ length bs
    → hex_bytes left (hex_text bs) i ≡ some (slice bs i left)
unfolding hex_bytes
hex_bytes-hex_text bs zero i small h = refl
hex_bytes-hex_text bs (suc left) i small h =
    let chars = get_or-hex_text bs i (omega arith) in
    rw
      (
        chars.0,
        chars.1,
        from_str_radix-hex_char (get_or bs i 0) (small i),
        hex_bytes-hex_text bs left (i + 1) small (omega arith),
      )
      refl

trim_end-cons :
    (c : ℕ) (cs : Text) → is_whitespace c ≡ false → trim_end cs ≡ cs → trim_end (c ∷ cs) ≡ c ∷ cs
unfolding trim_end
trim_end-cons c [] space h = rw space refl
trim_end-cons c (d ∷ ds) space h = rw h refl

trim_end-hex_text :
    (bs : List ℕ) → ((j : ℕ) → get_or bs j 0 < 256) → trim_end (hex_text bs) ≡ hex_text bs
unfolding hex_text trim_end
trim_end-hex_text [] small = refl
trim_end-hex_text (b ∷ bs) small =
    let b_small = small 0 in
    trim_end-cons (hex_char (b / 16)) _ (hex_char-not_space (b / 16) (omega arith)) (
      trim_end-cons (hex_char (b % 16)) _ (hex_char-not_space (b % 16) (omega arith))
        (trim_end-hex_text bs (λ j. small (suc j))))

trim_start-hex_text :
    (bs : List ℕ) → ((j : ℕ) → get_or bs j 0 < 256) → trim_start (hex_text bs) ≡ hex_text bs
unfolding hex_text trim_start
trim_start-hex_text [] small = refl
trim_start-hex_text (b ∷ bs) small =
    let b_small = small 0 in rw (hex_char-not_space (b / 16) (omega arith)) refl

module _ (key : ProxySrcKey) (prince : IsBytes 16 key.prince_key)
    (siphash : IsBytes 16 key.siphash_key) where
  abbrev both : List ℕ
  both = key.prince_key ++ key.siphash_key

  length-both : length both ≡ 32
  length-both = length-append key.prince_key key.siphash_key ∙ ap₂ ◌+◌ prince.sized siphash.sized

  both_small : (j : ℕ) → get_or both j 0 < 256
  both_small j = get_or-append_below key.prince_key key.siphash_key 256 j prince.bytes siphash.bytes

  hex_bytes-both : hex_bytes 32 (hex_text both) 0 ≡ some both
  hex_bytes-both =
      hex_bytes-hex_text both 32 0 both_small (omega (arith, length-both))
      ∙ ap some (slice_self both 32 length-both)

  split_key-both : split_key both ≡ key
  split_key-both =
      ap₂ (λ (a b : List ℕ). record { prince_key = a; siphash_key = b })
        (slice-append_left key.prince_key key.siphash_key 16 prince.sized)
        (slice-append_right key.prince_key key.siphash_key 16 16 prince.sized siphash.sized)

  pub key_of_hex-hex_text : key_of_hex (hex_text (key.prince_key ++ key.siphash_key)) ≡ some key
  unfolding key_of_hex trim
  key_of_hex-hex_text =
      rw
        (
          trim_start-hex_text both both_small,
          trim_end-hex_text both both_small,
          length-hex_text both,
          length-both,
          hex_bytes-both,
          split_key-both,
        )
        refl

  -- A key that is not zero is read back from its 64 hexadecimal digits.
  pub parse_proxy_key_hex-hex_text :
      is_zero key ≡ false
      → parse_proxy_key_hex (hex_text (key.prince_key ++ key.siphash_key)) ≡ some key
  unfolding parse_proxy_key_hex nonzero_key
  parse_proxy_key_hex-hex_text nonzero = rw (key_of_hex-hex_text, nonzero) refl
