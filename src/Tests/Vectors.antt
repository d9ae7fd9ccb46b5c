-- ===== src/Tests/Vectors.antt =====
-- The test vectors of common/src/crypto.rs and common/src/lib.rs, and runs of the programs.
use prototype_net.Base.{◌≡◌, refl, some}
use prototype_net.Common.Types.{new_ctx}
use prototype_net.Common.HashCtx.{hash_ctx, mix64}
use prototype_net.Common.ProxySrc.{encode_proxy_src, key_ctx_mix, tag32, plain64, obfuscate}
use prototype_net.Common.Crypto.Prince.{
  prince_encrypt, prince_decrypt, prince_core_encrypt, sbox_inv_layer, m_layer_inv, m_prime,
  gf2_mat_mul, shift_rows_inv, sbox_layer, m_layer, shift_rows,
}
use prototype_net.Common.Crypto.Sip.{siphash_2_4_17, finish, sip_round, absorb, sip_init}
use prototype_net.Word.{
  from_be_bytes, from_le_bytes, rotate_left, rotate_right, wrapping_add, to_be_bytes32,
  to_be_bytes64,
}
use prototype_net.Tests.Fixtures.{zeros, counting, proxy_addr, test_key}

hash_ctx_zero : hash_ctx (new_ctx 0 0 0) ≡ 0
unfolding hash_ctx
hash_ctx_zero = refl

hash_ctx_tcp : hash_ctx (new_ctx 443 50000 6) ≡ 0xae510a47a775e0c3
unfolding hash_ctx
hash_ctx_tcp = refl

hash_ctx_udp : hash_ctx (new_ctx 443 50000 17) ≡ 0x8e7b5430862b54bc
unfolding hash_ctx
hash_ctx_udp = refl

prince_vectors :
    (prince_encrypt 0 (zeros 16) ≡ 0x818665aa0d02dfda)
    × (prince_encrypt 0xffffffffffffffff (zeros 16) ≡ 0x604ae6ca03c20ada)
    × (prince_decrypt 0x818665aa0d02dfda (zeros 16) ≡ 0)
unfolding prince_encrypt prince_decrypt prince_core_encrypt sbox_inv_layer m_layer_inv m_prime
    gf2_mat_mul shift_rows_inv sbox_layer m_layer shift_rows from_be_bytes rotate_left rotate_right
prince_vectors = (refl, refl, refl)

-- The vector of 17 bytes of the SipHash paper's reference implementation.
siphash_vector : siphash_2_4_17 (counting 16 0) (counting 17 0) ≡ 0x699ae9f52cbe4794
unfolding siphash_2_4_17 finish sip_round wrapping_add rotate_left absorb sip_init from_le_bytes
siphash_vector = refl

encode_vector : encode_proxy_src 0x10001 7 (new_ctx 50000 443 6) test_key ≡ some proxy_addr
unfolding encode_proxy_src plain64 obfuscate key_ctx_mix tag32 hash_ctx mix64 from_be_bytes
    rotate_left rotate_right to_be_bytes64 to_be_bytes32
encode_vector = refl
