-- ===== src/Tests/Crypto.antt =====
-- The theorems about the ciphers of common/src/crypto.rs on concrete inputs.
use prototype_net.Base.{◌≡◌, refl, [], arith}
use prototype_net.Common.Crypto.Prince.{prince_encrypt, prince_decrypt}
use prototype_net.Common.Crypto.Prince.RoundTrip.{prince_decrypt-prince_encrypt}
use prototype_net.Common.Crypto.Sip.{siphash_2_4_17}
use prototype_net.Common.Crypto.Sip.Reference.{siphash, siphash_2_4_17-eq-siphash}
use prototype_net.Word.{from_le_bytes, from_be_bytes, rotate_left, wrapping_add}
use prototype_net.Tests.Fixtures.{counting, all_bytes→bound}

prince_decrypt-prince_encrypt_example :
    (prince_decrypt (prince_encrypt 0x0123456789abcdef (counting 16 1)) (counting 16 1)
      ≡ 0x0123456789abcdef)
    × (prince_encrypt (prince_decrypt 0x0123456789abcdef (counting 16 1)) (counting 16 1)
        ≡ 0x0123456789abcdef)
prince_decrypt-prince_encrypt_example =
    prince_decrypt-prince_encrypt 0x0123456789abcdef (counting 16 1) (omega arith)
      (all_bytes→bound (counting 16 1) refl)

siphash_2_4_17-eq-siphash_example :
    siphash_2_4_17 (counting 16 0) (counting 17 0) ≡ siphash 2 4 (counting 16 0) (counting 17 0)
siphash_2_4_17-eq-siphash_example =
    siphash_2_4_17-eq-siphash (counting 16 0) (counting 17 0) refl (omega arith)

-- The published value for the empty message.
empty_message : siphash 2 4 (counting 16 0) [] ≡ 0x726fdb47dd0e0e31
unfolding siphash from_le_bytes from_be_bytes rotate_left wrapping_add
empty_message = refl
