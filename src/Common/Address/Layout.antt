-- ===== src/Common/Address/Layout.antt =====
-- common/src/lib.rs and contract.toml: synthetic addresses and client addresses share a prefix.
use prototype_net.Base.{ℕ, ◌≡◌, refl, ◌↔◌, arith, slice}
use prototype_net.Word.{from_be_bytes, IsU32}
use prototype_net.Word.Bytes.{from_be_bytes-to_be_bytes32}
use prototype_net.Common.Contract.{synthetic_prefix}
use prototype_net.Common.Address.{domain_id_from_ipv6, synthetic_ipv6, client_vip_from_id24}

-- A synthetic address lies under the synthetic prefix and gives its domain back.
pub domain_id-synthetic :
    (d : ℕ)
    → IsU32 d
    → (slice (synthetic_ipv6 d) 0 4 ≡ synthetic_prefix)
      × (domain_id_from_ipv6 (synthetic_ipv6 d) ≡ d)
unfolding domain_id_from_ipv6 synthetic_ipv6
domain_id-synthetic d h = (refl, from_be_bytes-to_be_bytes32 d h)

-- The last four bytes of a client's address are its number, and its domain field is always 1:
-- the packet programs read every client address as a synthetic address of domain 1.
pub client_vip_fields :
    (c : ℕ)
    → IsU32 c
    → (slice (client_vip_from_id24 c) 0 4 ≡ synthetic_prefix)
      × (from_be_bytes (slice (client_vip_from_id24 c) 12 4) ≡ c)
      × (domain_id_from_ipv6 (client_vip_from_id24 c) ≡ 1)
unfolding domain_id_from_ipv6 client_vip_from_id24
client_vip_fields c h = (refl, from_be_bytes-to_be_bytes32 c h, refl)

-- A synthetic address is a client address only for domain 1 and client 1, so it is none of the
-- addresses of the pool, which starts at client 0x10000.
pub synthetic-eq-client_vip_iff :
    (d c : ℕ)
    → IsU32 d
    → IsU32 c
    → (synthetic_ipv6 d ≡ client_vip_from_id24 c) ↔ ((d ≡ 1) × (c ≡ 1))
unfolding synthetic_ipv6 client_vip_from_id24
synthetic-eq-client_vip_iff d c hd hc = ground arith
