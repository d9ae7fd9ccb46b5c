-- ===== src/Common/ProxySrc/RoundTrip.antt =====
-- `encode_proxy_src` and `decode_proxy_src` of common/src/lib.rs: the parts and the round trip.
use prototype_net.Base.{
  ℕ, ◌+◌, ◌*◌, ◌/◌, ◌%◌, ◌^◌, ◌≤◌, ◌<◌, bit_and, bit_xor, ◌≡◌, refl, ap, ◌∙◌, arith, List, ◌++◌,
  slice, length, some, ltb_ge, ==_self,
}
use prototype_net.Word.{
  IsU64, IsU32, ◌>>>◌, u32, rotate_left, to_be_bytes32, to_be_bytes64, from_be_bytes,
}
use prototype_net.Word.Xor.{xor_assoc, xor_comm, xor_cancel, xor-lt}
use prototype_net.Word.Fields.{or_fields, and_mask}
use prototype_net.Word.Rotate.{
  rotate_right-rotate_left, rotate_left-rotate_right, rotate_left-lt, rotate_right-lt,
}
use prototype_net.Word.Bytes.{from_be_bytes-to_be_bytes32, from_be_bytes-to_be_bytes64}
use prototype_net.Common.Contract.{
  proxy_src_prefix, proxy_src_client_id_max, proxy_src_domain_id_max,
}
use prototype_net.Common.Types.{ProxySrcCtx, ProxySrcKey}
use prototype_net.Common.HashCtx.Inverse.{mix64-lt}
use prototype_net.Common.ProxySrc.{
  key_ctx_mix, tag32, plain64, obfuscate, reveal, encode_proxy_src, decode_proxy_src,
}

pub key_ctx_mix-lt : (ctx : ProxySrcCtx) (key : ProxySrcKey) → IsU64 (key_ctx_mix ctx key)
unfolding key_ctx_mix
key_ctx_mix-lt ctx key = mix64-lt _

pub tag32-lt : (enc64 : ℕ) (ctx : ProxySrcCtx) (key : ProxySrcKey) → IsU32 (tag32 enc64 ctx key)
unfolding tag32
tag32-lt enc64 ctx key = xor-lt 32 _ _ (omega arith) (omega arith)

-- Two masks, applied again in the same order.
two_masks : (x m a : ℕ) → bit_xor (bit_xor (bit_xor (bit_xor x m) a) m) a ≡ x
two_masks x m a =
    rw (xor_assoc (bit_xor x m) a m, xor_comm a m, ← xor_assoc (bit_xor x m) m a, xor_cancel x m)
      (xor_cancel x a)

module _ (m x : ℕ) (m-lt : IsU64 m) (x-lt : IsU64 x) where
  pub reveal-obfuscate : reveal m (obfuscate m x) ≡ x
  unfolding reveal obfuscate
  reveal-obfuscate =
      rw (two_masks (rotate_left x (bit_and m 63)) m 0xa5a5_a5a5_a5a5_a5a5)
        (rotate_right-rotate_left x (bit_and m 63) x-lt)

  masked-lt : bit_xor (bit_xor x m) 0xa5a5_a5a5_a5a5_a5a5 < 2 ^ 64
  masked-lt = xor-lt 64 _ _ (xor-lt 64 x m x-lt m-lt) (omega arith)

  pub obfuscate-reveal : obfuscate m (reveal m x) ≡ x
  unfolding reveal obfuscate
  obfuscate-reveal =
      rw (rotate_left-rotate_right _ (bit_and m 63) masked-lt) (two_masks x m 0xa5a5_a5a5_a5a5_a5a5)

  pub obfuscate-lt : IsU64 (obfuscate m x)
  unfolding obfuscate
  obfuscate-lt =
      xor-lt 64 _ _ (xor-lt 64 _ m (rotate_left-lt x (bit_and m 63) x-lt) m-lt) (omega arith)

  pub reveal-lt : IsU64 (reveal m x)
  unfolding reveal
  reveal-lt = rotate_right-lt _ (bit_and m 63) masked-lt

module _ (c d : ℕ) (hc : c ≤ proxy_src_client_id_max) (hd : d ≤ proxy_src_domain_id_max) where
  pub plain64_as_sum : plain64 c d ≡ c * 2 ^ 40 + d * 2 ^ 16
  unfolding plain64
  plain64_as_sum =
      rw (fits (c * 2 ^ 40) (omega arith), fits (d * 2 ^ 16) (omega arith))
        (or_fields 40 c (d * 2 ^ 16) (omega arith))
    where
      fits : (x : ℕ) → x < 2 ^ 64 → x % 2 ^ 64 ≡ x
      fits x h = omega arith

  pub plain64-lt : IsU64 (plain64 c d)
  plain64-lt = omega (arith, plain64_as_sum)

-- What `decode_proxy_src` reads out of a plaintext.
abbrev pub client_field : ℕ → ℕ
client_field p64 = u32 (bit_and (p64 >>> 40) 0x00FF_FFFF)

abbrev pub domain_field : ℕ → ℕ
domain_field p64 = u32 (bit_and (p64 >>> 16) 0x00FF_FFFF)

pub fields_as_parts :
    (p : ℕ)
    → (client_field p ≡ p / 2 ^ 40 % 2 ^ 24)
      × (domain_field p ≡ p / 2 ^ 16 % 2 ^ 24)
      × (bit_and p 0xFFFF ≡ p % 2 ^ 16)
fields_as_parts p = (
  omega (arith, and_mask 24 (p / 2 ^ 40)),
  omega (arith, and_mask 24 (p / 2 ^ 16)),
  and_mask 16 p,
)

-- The sixteen bytes of a proxy-source address: the prefix, the obfuscated word and the tag.
abbrev pub proxy_address : ℕ → ℕ → List ℕ
proxy_address enc64 tag =
    slice proxy_src_prefix 0 4 ++ (slice (to_be_bytes64 enc64) 0 8 ++ slice (to_be_bytes32 tag) 0 4)

module _ (ctx : ProxySrcCtx) (key : ProxySrcKey) where
  pub encode_in_range :
      (c d : ℕ)
      → c ≤ proxy_src_client_id_max
      → d ≤ proxy_src_domain_id_max
      → let e = obfuscate (key_ctx_mix ctx key) (plain64 c d) in
        encode_proxy_src c d ctx key ≡ some (proxy_address e (tag32 e ctx key))
  unfolding encode_proxy_src
  encode_in_range c d hc hd = rw (ltb_ge _ c hc, ltb_ge _ d hd)

  pub decode_accepts :
      (addr : List ℕ) (e p : ℕ)
      → from_be_bytes (slice addr 4 8) ≡ e
      → reveal (key_ctx_mix ctx key) e ≡ p
      → from_be_bytes (slice addr 12 4) ≡ tag32 e ctx key
      → bit_and p 0xFFFF ≡ 0
      → decode_proxy_src addr ctx key ≡ some (client_field p, domain_field p)
  unfolding decode_proxy_src
  decode_accepts addr e p word plain tag_ok pad_ok = rw (word, tag_ok, ==_self, plain, pad_ok)

word_of_address : (e t : ℕ) → slice (proxy_address e t) 4 8 ≡ to_be_bytes64 e
unfolding to_be_bytes64 to_be_bytes32
word_of_address e t = refl

tag_of_address : (e t : ℕ) → slice (proxy_address e t) 12 4 ≡ to_be_bytes32 t
unfolding to_be_bytes64 to_be_bytes32
tag_of_address e t = refl

-- Encoding any 24-bit client and domain succeeds, and decoding the address with the same flow
-- context and key gives both back.
pub decode-encode :
    (c d : ℕ) (ctx : ProxySrcCtx) (key : ProxySrcKey)
    → c ≤ proxy_src_client_id_max
    → d ≤ proxy_src_domain_id_max
    → (addr : List ℕ) × (encode_proxy_src c d ctx key ≡ some addr)
      × (decode_proxy_src addr ctx key ≡ some (c, d))
decode-encode c d ctx key hc hd =
    (proxy_address e t, encode_in_range ctx key c d hc hd, decoded ∙ ap some fields)
  where
    e : ℕ
    e = obfuscate (key_ctx_mix ctx key) (plain64 c d)

    t : ℕ
    t = tag32 e ctx key

    plain-lt : IsU64 (plain64 c d)
    plain-lt = plain64-lt c d hc hd

    decoded :
        decode_proxy_src (proxy_address e t) ctx key
        ≡ some (client_field (plain64 c d), domain_field (plain64 c d))
    decoded =
        decode_accepts ctx key (proxy_address e t) e (plain64 c d)
          (ap from_be_bytes (word_of_address e t)
            ∙ from_be_bytes-to_be_bytes64 e (obfuscate-lt _ _ (key_ctx_mix-lt ctx key) plain-lt))
          (reveal-obfuscate _ _ (key_ctx_mix-lt ctx key) plain-lt)
          (ap from_be_bytes (tag_of_address e t)
            ∙ from_be_bytes-to_be_bytes32 t (tag32-lt e ctx key))
          (omega (arith, fields_as_parts (plain64 c d), plain64_as_sum c d hc hd))

    fields : ◌≡◌ {A = ℕ × ℕ} (client_field (plain64 c d), domain_field (plain64 c d)) (c, d)
    fields = ground (arith, fields_as_parts (plain64 c d), plain64_as_sum c d hc hd)

-- What a successful encoding looks like: sixteen bytes under the prefix.
pub encoded_shape :
    (c d : ℕ) (ctx : ProxySrcCtx) (key : ProxySrcKey) (addr : List ℕ)
    → encode_proxy_src c d ctx key ≡ some addr
    → (length addr ≡ 16) × (slice addr 0 4 ≡ proxy_src_prefix)
unfolding encode_proxy_src
encoded_shape c d ctx key addr h = ground arith
