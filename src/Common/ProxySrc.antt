-- ===== src/Common/ProxySrc.antt =====
-- common/src/lib.rs: the proxy-source address, which carries a client and a domain.
pub mod RoundTrip
pub mod Sound
use prototype_net.Base.{
  ℕ, bit_xor, bit_or, bit_and, List, [], ◌∷◌, ◌++◌, Option, none, some, ltb, ◌==◌, ◌||◌, not,
  if◌then◌else◌, slice,
}
use prototype_net.Word.{
  ◌<<<◌, ◌>>>◌, u32, rotate_left, rotate_right, from_be_bytes, to_be_bytes32, to_be_bytes64,
}
use prototype_net.Common.Contract.{
  proxy_src_prefix, proxy_src_client_id_max, proxy_src_domain_id_max,
}
use prototype_net.Common.Types.{ProxySrcCtx, ProxySrcKey}
use prototype_net.Common.HashCtx.{mix64, hash_ctx}

unfoldable pub key_ctx_mix : ProxySrcCtx → ProxySrcKey → ℕ
key_ctx_mix ctx key =
    let k0 = from_be_bytes (slice key.prince_key 0 8) in
    let k1 = from_be_bytes (slice key.prince_key 8 8) in
    let h = hash_ctx ctx in
    mix64 (bit_xor (bit_xor (bit_xor h (rotate_left k0 11)) (rotate_right k1 7)) 0x9e3779b97f4a7c15)

unfoldable pub tag32 : ℕ → ProxySrcCtx → ProxySrcKey → ℕ
tag32 enc64 ctx key =
    let k2 = from_be_bytes (slice key.siphash_key 0 8) in
    let k3 = from_be_bytes (slice key.siphash_key 8 8) in
    let ctx_bits = bit_or (bit_or (ctx.src_port <<< 48) (ctx.dst_port <<< 32)) (ctx.proto <<< 24) in
    let t = mix64 (
      bit_xor (bit_xor (bit_xor (bit_xor enc64 ctx_bits) (rotate_left k2 13)) (rotate_right k3 17))
        0xa0761d6478bd642f) in
    bit_xor (u32 t) (u32 (t >>> 32))

-- The plaintext: client (bits 63-40), domain (bits 39-16), sixteen zero bits.
unfoldable pub plain64 : ℕ → ℕ → ℕ
plain64 client_id domain_id = bit_or (client_id <<< 40) (domain_id <<< 16)

-- The keyed obfuscation of the plaintext and its inverse.
unfoldable pub obfuscate : ℕ → ℕ → ℕ
obfuscate m p64 =
    let rot = bit_and m 63 in bit_xor (bit_xor (rotate_left p64 rot) m) 0xa5a5_a5a5_a5a5_a5a5

unfoldable pub reveal : ℕ → ℕ → ℕ
reveal m enc64 =
    let rot = bit_and m 63 in rotate_right (bit_xor (bit_xor enc64 m) 0xa5a5_a5a5_a5a5_a5a5) rot

unfoldable pub encode_proxy_src : ℕ → ℕ → ProxySrcCtx → ProxySrcKey → Option (List ℕ)
encode_proxy_src client_id domain_id ctx key =
    if ltb proxy_src_client_id_max client_id || ltb proxy_src_domain_id_max domain_id
    then none
    else let m = key_ctx_mix ctx key in
      let enc64 = obfuscate m (plain64 client_id domain_id) in
      let enc64_bytes = to_be_bytes64 enc64 in
      let tag = to_be_bytes32 (tag32 enc64 ctx key) in
      some (slice proxy_src_prefix 0 4 ++ (slice enc64_bytes 0 8 ++ slice tag 0 4))

unfoldable pub decode_proxy_src : List ℕ → ProxySrcCtx → ProxySrcKey → Option (ℕ × ℕ)
decode_proxy_src addr ctx key =
    let enc64 = from_be_bytes (slice addr 4 8) in
    let packet_tag = from_be_bytes (slice addr 12 4) in
    let expected_tag = tag32 enc64 ctx key in
    if not (packet_tag == expected_tag)
    then none
    else let m = key_ctx_mix ctx key in
      let p64 = reveal m enc64 in
      if not (bit_and p64 0xFFFF == 0)
      then none
      else let client_id = u32 (bit_and (p64 >>> 40) 0x00FF_FFFF) in
        let domain_id = u32 (bit_and (p64 >>> 16) 0x00FF_FFFF) in some (client_id, domain_id)
