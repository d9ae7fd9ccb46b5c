-- ===== src/Common/Contract.antt =====
-- contract.toml and common/build.rs: the constants of the address space.
use prototype_net.Base.{ℕ, List, [], ◌∷◌, Option, none, some, ◌==◌, if◌then◌else◌, ◌≡◌, refl}

pub record Contract : Type 0 where
  pub synthetic_prefix_bytes : List ℕ
  pub discriminator_bytes : List ℕ
  pub if_id : ℕ
  pub public_prefix_bytes : List ℕ
  pub client_id_bits : ℕ
  pub domain_id_bits : ℕ

-- The constants that the build writes to contract.rs.
pub record Constants : Type 0 where
  pub synthetic : List ℕ
  pub discriminator : List ℕ
  pub xfrm : ℕ
  pub proxy_src : List ℕ
  pub client_id_max : ℕ
  pub domain_id_max : ℕ

abbrev contract_toml : Contract
contract_toml = record {
  synthetic_prefix_bytes = 0xfd ∷ 0x00 ∷ 0xab ∷ 0xcd ∷ [];
  discriminator_bytes = 0x00 ∷ 0x00 ∷ 0x00 ∷ 0x01 ∷ [];
  if_id = 1;
  public_prefix_bytes = 0x20 ∷ 0x01 ∷ 0x0d ∷ 0xb8 ∷ [];
  client_id_bits = 24;
  domain_id_bits = 24;
}

abbrev pub synthetic_prefix : List ℕ
synthetic_prefix = 0xfd ∷ 0x00 ∷ 0xab ∷ 0xcd ∷ []

abbrev pub vip_pool_discriminator : List ℕ
vip_pool_discriminator = 0x00 ∷ 0x00 ∷ 0x00 ∷ 0x01 ∷ []

abbrev pub xfrm_if_id : ℕ
xfrm_if_id = 1

abbrev pub proxy_src_prefix : List ℕ
proxy_src_prefix = 0x20 ∷ 0x01 ∷ 0x0d ∷ 0xb8 ∷ []

abbrev pub proxy_src_client_id_max : ℕ
proxy_src_client_id_max = 0x00ff_ffff

abbrev pub proxy_src_domain_id_max : ℕ
proxy_src_domain_id_max = 0x00ff_ffff

-- The build script; `none` is a failed `assert!`, which stops the build.
generate : Contract → Option Constants
generate c =
    if c.client_id_bits == 24
    then (if c.domain_id_bits == 24
        then some (record {
          synthetic = c.synthetic_prefix_bytes;
          discriminator = c.discriminator_bytes;
          xfrm = c.if_id;
          proxy_src = c.public_prefix_bytes;
          client_id_max = 0x00ff_ffff;
          domain_id_max = 0x00ff_ffff;
        })
        else none)
    else none

-- The constants above are the ones that the build writes for the contract as it stands.
generate_contract :
    generate contract_toml
    ≡ some (record {
      synthetic = synthetic_prefix;
      discriminator = vip_pool_discriminator;
      xfrm = xfrm_if_id;
      proxy_src = proxy_src_prefix;
      client_id_max = proxy_src_client_id_max;
      domain_id_max = proxy_src_domain_id_max;
    })
unfolding generate
generate_contract = refl
