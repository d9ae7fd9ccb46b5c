-- ===== src/Common/ProxySrc/Sound.antt =====
-- `decode_proxy_src` of common/src/lib.rs accepts nothing but what `encode_proxy_src` produces.
use prototype_net.Base.{
  ℕ, ◌+◌, ◌*◌, ◌/◌, ◌%◌, ◌^◌, ◌≤◌, ◌<◌, bit_and, ◌≡◌, ◌≢◌, ap, ap₂, sym, ◌∙◌, ◌↔◌, arith, List,
  ◌++◌, slice, slice_self, get_or, Option-cases, some, none, ◌⊎◌, inl, inr,
}
use prototype_net.Word.{IsU64, IsByte, from_be_bytes, to_be_bytes32, to_be_bytes64}
use prototype_net.Word.Bytes.{
  from_be_bytes-lt64, to_be_bytes64-from_be_bytes, to_be_bytes32-from_be_bytes,
}
use prototype_net.Common.Contract.{
  proxy_src_prefix, proxy_src_client_id_max, proxy_src_domain_id_max,
}
use prototype_net.Common.Types.{ProxySrcCtx, ProxySrcKey, IsBytes}
use prototype_net.Common.ProxySrc.{
  key_ctx_mix, tag32, plain64, obfuscate, reveal, encode_proxy_src, decode_proxy_src,
}
use prototype_net.Common.ProxySrc.RoundTrip.{
  key_ctx_mix-lt, obfuscate-reveal, reveal-lt, plain64_as_sum, client_field, domain_field,
  fields_as_parts, proxy_address, encode_in_range,
}

module _ (addr : List ℕ) (ctx : ProxySrcCtx) (key : ProxySrcKey) where
  abbrev word : ℕ
  word = from_be_bytes (slice addr 4 8)

  abbrev plain : ℕ
  plain = reveal (key_ctx_mix ctx key) word

  -- The checks that a decoded address has passed.
  decode_inversion :
      (c d : ℕ)
      → decode_proxy_src addr ctx key ≡ some (c, d)
      → (from_be_bytes (slice addr 12 4) ≡ tag32 word ctx key)
        × (bit_and plain 0xFFFF ≡ 0)
        × (client_field plain ≡ c)
        × (domain_field plain ≡ d)
  unfolding decode_proxy_src
  decode_inversion c d h = ground arith

-- A word whose low sixteen bits are zero is the plaintext of its two fields.
plain-of_fields :
    (p : ℕ)
    → IsU64 p
    → bit_and p 0xFFFF ≡ 0
    → (client_field p ≤ proxy_src_client_id_max)
      × (domain_field p ≤ proxy_src_domain_id_max)
      × (plain64 (client_field p) (domain_field p) ≡ p)
plain-of_fields p fits pad =
    (low (p / 2 ^ 40) c-eq, low (p / 2 ^ 16) d-eq, omega (arith, sum, fields_as_parts p))
  where
    c-eq : client_field p ≡ p / 2 ^ 40 % 2 ^ 24
    c-eq = (fields_as_parts p).0

    d-eq : domain_field p ≡ p / 2 ^ 16 % 2 ^ 24
    d-eq = (fields_as_parts p).1

    low : {x : ℕ} (y : ℕ) → x ≡ y % 2 ^ 24 → x ≤ 0x00ff_ffff
    low y e = omega arith

    sum :
        plain64 (client_field p) (domain_field p)
        ≡ client_field p * 2 ^ 40 + domain_field p * 2 ^ 16
    sum =
        plain64_as_sum (client_field p) (domain_field p) (low (p / 2 ^ 40) c-eq)
          (low (p / 2 ^ 16) d-eq)

module _ (addr : List ℕ) (v : IsBytes 16 addr) where
  byte : (i : ℕ) → IsByte (get_or addr i 0)
  byte i = v.bytes i

  word-lt : IsU64 (from_be_bytes (slice addr 4 8))
  word-lt =
      from_be_bytes-lt64 _ _ _ _ _ _ _ _ (byte 4) (byte 5) (byte 6) (byte 7) (byte 8) (byte 9)
        (byte 10) (byte 11)

  word_bytes : to_be_bytes64 (from_be_bytes (slice addr 4 8)) ≡ slice addr 4 8
  word_bytes =
      to_be_bytes64-from_be_bytes _ _ _ _ _ _ _ _ (byte 4) (byte 5) (byte 6) (byte 7) (byte 8)
        (byte 9) (byte 10) (byte 11)

  tag_bytes : to_be_bytes32 (from_be_bytes (slice addr 12 4)) ≡ slice addr 12 4
  tag_bytes = to_be_bytes32-from_be_bytes _ _ _ _ (byte 12) (byte 13) (byte 14) (byte 15)

  -- An address with the prefix is put together from its word and its tag.
  address_parts :
      slice addr 0 4 ≡ proxy_src_prefix
      → proxy_address (from_be_bytes (slice addr 4 8)) (from_be_bytes (slice addr 12 4)) ≡ addr
  address_parts pre =
      ap₂ (λ (w t : List ℕ). slice proxy_src_prefix 0 4 ++ (slice w 0 8 ++ slice t 0 4)) word_bytes
        tag_bytes
      ∙ ap (λ (q : List ℕ). q ++ (slice addr 4 8 ++ slice addr 12 4)) (sym pre)
      ∙ slice_self addr 16 v.sized

-- Every address under the prefix that decodes is the encoding of what it decodes to, and both
-- numbers fit in 24 bits.
pub encode-decode :
    (addr : List ℕ) (ctx : ProxySrcCtx) (key : ProxySrcKey) (c d : ℕ)
    → IsBytes 16 addr
    → slice addr 0 4 ≡ proxy_src_prefix
    → decode_proxy_src addr ctx key ≡ some (c, d)
    → (c ≤ proxy_src_client_id_max)
      × (d ≤ proxy_src_domain_id_max)
      × (encode_proxy_src c d ctx key ≡ some addr)
encode-decode addr ctx key c d v pre h = (
  rw (← checks.2) bounds.0,
  rw (← checks.3) bounds.1,
  rw (← checks.2, ← checks.3)
      (encode_in_range ctx key (client_field p) (domain_field p) bounds.0 bounds.1 ∙ ap some same),
)
  where
    e : ℕ
    e = from_be_bytes (slice addr 4 8)

    p : ℕ
    p = reveal (key_ctx_mix ctx key) e

    checks :
        (from_be_bytes (slice addr 12 4) ≡ tag32 e ctx key)
        × (bit_and p 0xFFFF ≡ 0)
        × (client_field p ≡ c)
        × (domain_field p ≡ d)
    checks = decode_inversion addr ctx key c d h

    bounds :
        (client_field p ≤ proxy_src_client_id_max)
        × (domain_field p ≤ proxy_src_domain_id_max)
        × (plain64 (client_field p) (domain_field p) ≡ p)
    bounds = plain-of_fields p (reveal-lt _ e (key_ctx_mix-lt ctx key) (word-lt addr v)) checks.1

    word-eq : obfuscate (key_ctx_mix ctx key) (plain64 (client_field p) (domain_field p)) ≡ e
    word-eq =
        ap (obfuscate (key_ctx_mix ctx key)) bounds.2
        ∙ obfuscate-reveal _ e (key_ctx_mix-lt ctx key) (word-lt addr v)

    same :
        proxy_address
          (obfuscate (key_ctx_mix ctx key) (plain64 (client_field p) (domain_field p)))
          (tag32
            (obfuscate (key_ctx_mix ctx key) (plain64 (client_field p) (domain_field p)))
            ctx
            key)
        ≡ addr
    same =
        ap (λ (w : ℕ). proxy_address w (tag32 w ctx key)) word-eq
        ∙ ap (proxy_address e) (sym checks.0)
        ∙ address_parts addr v pre

-- Encoding fails exactly when the client or the domain does not fit in 24 bits.
pub encode-eq-none_iff :
    (c d : ℕ) (ctx : ProxySrcCtx) (key : ProxySrcKey)
    → (encode_proxy_src c d ctx key ≡ none)
      ↔ ((proxy_src_client_id_max < c) ⊎ (proxy_src_domain_id_max < d))
unfolding encode_proxy_src
encode-eq-none_iff c d ctx key = ground arith

-- An address that decodes is rejected once its tag bytes are changed: two accepted addresses
-- with the same first twelve bytes are the same.
pub tag_tamper_rejected :
    (a b : List ℕ) (ctx : ProxySrcCtx) (key : ProxySrcKey) (ids : ℕ × ℕ)
    → IsBytes 16 a
    → IsBytes 16 b
    → slice a 0 12 ≡ slice b 0 12
    → decode_proxy_src a ctx key ≡ some ids
    → a ≢ b
    → decode_proxy_src b ctx key ≡ none
tag_tamper_rejected a b ctx key ids va vb same h ne =
    elim (Option-cases (decode_proxy_src b ctx key)) [
      | inl rejected ↦ rejected
      | inr (ids', accepted) ↦ absurd (ne (same_tag ids' accepted))
    ]
  where
    words : slice a 4 8 ≡ slice b 4 8
    words = ap (λ (xs : List ℕ). slice xs 4 8) same

    same_tag : (ids' : ℕ × ℕ) → decode_proxy_src b ctx key ≡ some ids' → a ≡ b
    same_tag ids' accepted =
        sym (slice_self a 16 va.sized)
        ∙ ap₂ (λ (xs ys : List ℕ). xs ++ ys) same tags
        ∙ slice_self b 16 vb.sized
      where
        tags : slice a 12 4 ≡ slice b 12 4
        tags =
            sym (tag_bytes a va)
            ∙ ap to_be_bytes32 (
                (decode_inversion a ctx key ids.0 ids.1 h).0
                ∙ ap (λ (w : List ℕ). tag32 (from_be_bytes w) ctx key) words
                ∙ sym (decode_inversion b ctx key ids'.0 ids'.1 accepted).0)
            ∙ tag_bytes b vb
