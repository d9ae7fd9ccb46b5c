-- ===== src/Common/Address.antt =====
-- common/src/lib.rs: synthetic addresses, and the virtual addresses of clients.
pub mod Layout
use prototype_net.Base.{ℕ, List, [], ◌∷◌, ◌++◌, get_or, slice}
use prototype_net.Word.{from_be_bytes, to_be_bytes32}
use prototype_net.Common.Contract.{synthetic_prefix, vip_pool_discriminator}

unfoldable pub domain_id_from_ipv6 : List ℕ → ℕ
unfolding from_be_bytes
domain_id_from_ipv6 addr = from_be_bytes (slice addr 4 4)

-- The arrays of the source list each byte; here they are the fields one after the other.
unfoldable pub synthetic_ipv6 : ℕ → List ℕ
unfolding to_be_bytes32
synthetic_ipv6 domain_id =
    let id_bytes = to_be_bytes32 domain_id in
    slice synthetic_prefix 0 4 ++ (slice id_bytes 0 4 ++ (0 ∷ 0 ∷ 0 ∷ 0 ∷ 0 ∷ 0 ∷ 0 ∷ 1 ∷ []))

unfoldable pub client_vip_from_id24 : ℕ → List ℕ
unfolding to_be_bytes32
client_vip_from_id24 client_id =
    let d = vip_pool_discriminator in
    let cid = to_be_bytes32 client_id in
    slice synthetic_prefix 0 4 ++ (slice d 0 4 ++ (0x00 ∷ 0x00 ∷ 0x00 ∷ 0x00 ∷ slice cid 0 4))
