-- ===== src/Control/Daemon/Key.antt =====
-- Keys in hexadecimal: `parse_proxy_key_hex` and `key_fingerprint` of daemon/src/main.rs, and the
-- command `decode-proxy-src` of xtask/src/main.rs. Strings are ASCII.
use prototype_net.Base.{
  ℕ, zero, suc, ◌+◌, ◌-◌, ◌*◌, ◌/◌, ◌%◌, ◌==◌, leb, not, ◌&&◌, ◌||◌, Bool, true, false,
  if◌then◌else◌, List, [], ◌∷◌, ◌++◌, length, get_or, set, slice, bit_xor, eq_bytes, map, Option,
  none, some,
}
use prototype_net.Common.Types.{ProxySrcKey, ProxySrcCtx, new_ctx, is_zero}
use prototype_net.Common.ProxySrc.{decode_proxy_src}
use prototype_net.Control.Text.{Text, Addr, Texts}
use prototype_net.Control.Dns.{lowercase}
pub mod Hex

-- `str::trim`
abbrev pub is_whitespace : ℕ → Bool
is_whitespace c = (leb 9 c && leb c 13) || (c == 32)

unfoldable pub trim_start : Text → Text
trim_start [] = []
trim_start (c ∷ cs) = if is_whitespace c then trim_start cs else c ∷ cs

unfoldable pub trim_end : Text → Text
trim_end [] = []
trim_end (c ∷ cs) = elim (trim_end cs) [
  | [] ↦ (if is_whitespace c then [] else c ∷ [])
  | d ∷ ds ↦ c ∷ d ∷ ds
]

unfoldable pub trim : Text → Text
unfolding trim_start trim_end
trim t = trim_end (trim_start t)

unfoldable pub hex_digit : ℕ → Option ℕ
hex_digit c =
    if leb 48 c && leb c 57
    then some (c - 48)
    else if leb 97 c && leb c 102
    then some (c - 87)
    else if leb 65 c && leb c 70
    then some (c - 55)
    else none

abbrev pub hex_pair : Option ℕ → Option ℕ → Option ℕ
hex_pair none lo = none
hex_pair (some h) none = none
hex_pair (some h) (some l) = some (h * 16 + l)

-- `u8::from_str_radix` on two characters, of which the first may be a `+`.
unfoldable pub from_str_radix : ℕ → ℕ → Option ℕ
unfolding hex_digit
from_str_radix hi lo = if hi == 43 then hex_digit lo else hex_pair (hex_digit hi) (hex_digit lo)

abbrev pub cons_byte : Option ℕ → Option (List ℕ) → Option (List ℕ)
cons_byte none bs = none
cons_byte (some b) none = none
cons_byte (some b) (some bs) = some (b ∷ bs)

-- The loop over the bytes, with `left` of them to go.
unfoldable pub hex_bytes : ℕ → Text → ℕ → Option (List ℕ)
unfolding from_str_radix
hex_bytes zero hex i = some []
hex_bytes (suc left) hex i =
    cons_byte (from_str_radix (get_or hex (i * 2) 0) (get_or hex (i * 2 + 1) 0))
      (hex_bytes left hex (i + 1))

abbrev pub split_key : List ℕ → ProxySrcKey
split_key bytes = record { prince_key = slice bytes 0 16; siphash_key = slice bytes 16 16 }

abbrev pub to_key : Option (List ℕ) → Option ProxySrcKey
to_key none = none
to_key (some bytes) = some (split_key bytes)

unfoldable pub nonzero_key : Option ProxySrcKey → Option ProxySrcKey
nonzero_key none = none
nonzero_key (some key) = if is_zero key then none else some key

-- The part of `parse_proxy_key_hex` that the two programs share: a key of 64 characters.
unfoldable pub key_of_hex : Text → Option ProxySrcKey
unfolding trim hex_bytes
key_of_hex hex =
    let hex = trim hex in if not (length hex == 64) then none else to_key (hex_bytes 32 hex 0)

unfoldable pub parse_proxy_key_hex : Text → Option ProxySrcKey
unfolding key_of_hex nonzero_key
parse_proxy_key_hex hex = nonzero_key (key_of_hex hex)

-- The loop of `key_fingerprint`: all bytes folded into four.
abbrev pub fold_byte : ℕ → List ℕ → ℕ → List ℕ
fold_byte i fp b = set fp (i % 4) (bit_xor (get_or fp (i % 4) 0) b)

unfoldable pub fingerprint_loop : ℕ → ℕ → ProxySrcKey → List ℕ → List ℕ
fingerprint_loop zero i key fp = fp
fingerprint_loop (suc left) i key fp =
    fingerprint_loop left (i + 1) key
      (fold_byte i (fold_byte i fp (get_or key.prince_key i 0)) (get_or key.siphash_key i 0))

-- `{:x}` of a digit, and `{:02x}` of a byte.
abbrev pub hex_char : ℕ → ℕ
hex_char d = if leb d 9 then d + 48 else d + 87

unfoldable pub hex_text : List ℕ → Text
hex_text [] = []
hex_text (b ∷ bs) = hex_char (b / 16) ∷ hex_char (b % 16) ∷ hex_text bs

unfoldable pub key_fingerprint : ProxySrcKey → Text
unfolding fingerprint_loop hex_text
key_fingerprint key = hex_text (fingerprint_loop 16 0 key (0 ∷ 0 ∷ 0 ∷ 0 ∷ []))

-- `match proto.to_lowercase()` of the command.
unfoldable pub proto_of_text : Text → Option ℕ
proto_of_text t =
    let t = map lowercase t in
    if eq_bytes t (116 ∷ 99 ∷ 112 ∷ [])
    then some 6
    else if eq_bytes t (117 ∷ 100 ∷ 112 ∷ [])
    then some 17
    else none

unfoldable pub decode_parsed : Option ProxySrcKey → Option Addr → Option ℕ → ℕ → ℕ → Option (ℕ × ℕ)
decode_parsed none addr proto src_port dst_port = none
decode_parsed (some key) none proto src_port dst_port = none
decode_parsed (some key) (some a) none src_port dst_port = none
decode_parsed (some key) (some a) (some proto) src_port dst_port =
    decode_proxy_src a (new_ctx src_port dst_port proto) key

-- The command `decode-proxy-src`, up to what it prints.
unfoldable pub decode_command : Texts → Text → Text → ℕ → ℕ → Text → Option (ℕ × ℕ)
unfolding key_of_hex decode_parsed trim proto_of_text
decode_command x key_hex addr src_port dst_port proto =
    decode_parsed (key_of_hex key_hex) (x.parse (trim addr)) (proto_of_text proto) src_port dst_port
