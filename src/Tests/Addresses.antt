-- ===== src/Tests/Addresses.antt =====
-- The theorems about common/src/lib.rs and common/src/crypto.rs on concrete inputs.
use prototype_net.Base.{
  ℕ, arith, ◌≤◌, ◌<◌, ◌≡◌, ◌≢◌, ◌↔◌, ◌⊎◌, refl, ap, List, get_or, set, slice, none, some, true,
}
use prototype_net.Word.{IsU64, from_be_bytes, rotate_left, rotate_right}
use prototype_net.Common.Contract.{
  synthetic_prefix, proxy_src_client_id_max, proxy_src_domain_id_max,
}
use prototype_net.Common.Types.{ProxySrcCtx, new_ctx, is_zero, IsBytes}
use prototype_net.Common.Types.Zero.{is_zero_iff}
use prototype_net.Common.Address.{domain_id_from_ipv6, synthetic_ipv6, client_vip_from_id24}
use prototype_net.Common.Address.Layout.{
  domain_id-synthetic, client_vip_fields, synthetic-eq-client_vip_iff,
}
use prototype_net.Common.HashCtx.{mix64, hash_ctx}
use prototype_net.Common.HashCtx.Inverse.{unmix64}
use prototype_net.Common.HashCtx.Distinct.{hash_ctx_injective, mix64_bijection}
use prototype_net.Common.ProxySrc.{encode_proxy_src, decode_proxy_src, key_ctx_mix, tag32, reveal}
use prototype_net.Common.ProxySrc.RoundTrip.{decode-encode}
use prototype_net.Common.ProxySrc.Sound.{encode-decode, encode-eq-none_iff, tag_tamper_rejected}
use prototype_net.Tests.Fixtures.{test_key, proxy_addr, all_bytes→bound}

decode-encode_example :
    (addr : List ℕ) × (encode_proxy_src 0x10001 7 (new_ctx 50000 443 6) test_key ≡ some addr)
    × (decode_proxy_src addr (new_ctx 50000 443 6) test_key ≡ some (0x10001, 7))
decode-encode_example =
    decode-encode 0x10001 7 (new_ctx 50000 443 6) test_key (omega arith) (omega arith)

proxy_addr-IsBytes : IsBytes 16 proxy_addr
proxy_addr-IsBytes = record { sized = refl; bytes = all_bytes→bound proxy_addr refl }

decoded : decode_proxy_src proxy_addr (new_ctx 50000 443 6) test_key ≡ some (0x10001, 7)
unfolding from_be_bytes rotate_left rotate_right hash_ctx mix64 key_ctx_mix tag32 reveal
    decode_proxy_src
decoded = refl

pub proxy_addr-encoded : encode_proxy_src 0x10001 7 (new_ctx 50000 443 6) test_key ≡ some proxy_addr
proxy_addr-encoded =
    (encode-decode proxy_addr (new_ctx 50000 443 6) test_key 0x10001 7 proxy_addr-IsBytes refl
      decoded).2

encode-decode_example :
    (0x10001 ≤ proxy_src_client_id_max)
    × (7 ≤ proxy_src_domain_id_max)
    × (encode_proxy_src 0x10001 7 (new_ctx 50000 443 6) test_key ≡ some proxy_addr)
encode-decode_example =
    encode-decode proxy_addr (new_ctx 50000 443 6) test_key 0x10001 7 proxy_addr-IsBytes refl
      decoded

encode-eq-none_iff_example :
    (encode_proxy_src 0x1000000 7 (new_ctx 50000 443 6) test_key ≡ none)
    ↔ ((proxy_src_client_id_max < 0x1000000) ⊎ (proxy_src_domain_id_max < 7))
encode-eq-none_iff_example = encode-eq-none_iff 0x1000000 7 (new_ctx 50000 443 6) test_key

abbrev tampered : List ℕ
tampered = set proxy_addr 15 0

differs : proxy_addr ≢ tampered
differs e = let b = ap (λ (a : List ℕ). get_or a 15 0) e in omega (arith, b)

tag_tamper_rejected_example : decode_proxy_src tampered (new_ctx 50000 443 6) test_key ≡ none
tag_tamper_rejected_example =
    tag_tamper_rejected proxy_addr tampered (new_ctx 50000 443 6) test_key (0x10001, 7)
      proxy_addr-IsBytes (record { sized = refl; bytes = all_bytes→bound tampered refl }) refl
      decoded differs

abbrev flow : ProxySrcCtx
flow = new_ctx 50000 443 6

hash_ctx_injective_example :
    (flow.src_port ≡ flow.src_port) × (flow.dst_port ≡ flow.dst_port) × (flow.proto ≡ flow.proto)
hash_ctx_injective_example =
    hash_ctx_injective flow flow
      (record {
        src_port_fits = omega arith;
        dst_port_fits = omega arith;
        proto_fits = omega arith;
      })
      (record {
        src_port_fits = omega arith;
        dst_port_fits = omega arith;
        proto_fits = omega arith;
      })
      refl

mix64_bijection_example :
    IsU64 (mix64 443)
    × IsU64 (unmix64 443)
    × (unmix64 (mix64 443) ≡ 443)
    × (mix64 (unmix64 443) ≡ 443)
mix64_bijection_example = mix64_bijection 443 (omega arith)

is_zero_iff_example : (is_zero test_key ≡ true) ↔ (
    (i : ℕ) → i < 16 → (get_or test_key.prince_key i 0 ≡ 0) × (get_or test_key.siphash_key i 0 ≡ 0))
is_zero_iff_example = is_zero_iff test_key

domain_id-synthetic_example :
    (slice (synthetic_ipv6 7) 0 4 ≡ synthetic_prefix) × (domain_id_from_ipv6 (synthetic_ipv6 7) ≡ 7)
domain_id-synthetic_example = domain_id-synthetic 7 (omega arith)

client_vip_fields_example :
    (slice (client_vip_from_id24 0x10001) 0 4 ≡ synthetic_prefix)
    × (from_be_bytes (slice (client_vip_from_id24 0x10001) 12 4) ≡ 0x10001)
    × (domain_id_from_ipv6 (client_vip_from_id24 0x10001) ≡ 1)
client_vip_fields_example = client_vip_fields 0x10001 (omega arith)

abbrev first_domain : ℕ
first_domain = 1

abbrev pool_client : ℕ
pool_client = 0x10001

synthetic-eq-client_vip_iff_example :
    (synthetic_ipv6 first_domain ≡ client_vip_from_id24 pool_client)
    ↔ ((first_domain ≡ 1) × (pool_client ≡ 1))
synthetic-eq-client_vip_iff_example =
    synthetic-eq-client_vip_iff first_domain pool_client (omega arith) (omega arith)
