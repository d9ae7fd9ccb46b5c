-- ===== src/Common/Types.antt =====
-- common/src/lib.rs: the flow context, the key, and the values of the shared maps.
pub mod Zero
use prototype_net.Base.{
  ℕ, zero, suc, ◌+◌, Bool, List, [], ◌∷◌, ◌==◌, get_or, slice, bit_or, length, ◌≡◌, ◌<◌,
}
use prototype_net.Word.{IsByte, IsU16}

pub record ProxySrcCtx : Type 0 where
  pub src_port : ℕ
  pub dst_port : ℕ
  pub proto : ℕ
  pub pad : List ℕ

-- `ProxySrcCtx::new`
abbrev pub new_ctx : ℕ → ℕ → ℕ → ProxySrcCtx
new_ctx src_port dst_port proto = record {
  src_port = src_port;
  dst_port = dst_port;
  proto = proto;
  pad = 0 ∷ 0 ∷ 0 ∷ [];
}

pub record ProxySrcKey : Type 0 where
  pub prince_key : List ℕ
  pub siphash_key : List ℕ

pub record NatEntry : Type 0 where
  pub origin_ipv6 : List ℕ

pub record ReplyTrackKey : Type 0 where
  pub origin_ipv6 : List ℕ
  pub origin_port : ℕ
  pub translated_port : ℕ
  pub proto : ℕ
  pub pad : List ℕ

pub record ReplyTrackValue : Type 0 where
  pub proxy_src : List ℕ

-- The loop of `is_zero` at index `i`, with `16 - i` rounds left.
unfoldable pub is_zero_loop : ℕ → ℕ → ℕ → ProxySrcKey → ℕ
is_zero_loop zero i acc key = acc
is_zero_loop (suc left) i acc key =
    is_zero_loop left (i + 1)
      (bit_or (bit_or acc (get_or key.prince_key i 0)) (get_or key.siphash_key i 0)) key

unfoldable pub is_zero : ProxySrcKey → Bool
is_zero key = is_zero_loop 16 0 0 key == 0

-- The ranges of the Rust types: a `[u8; N]`, and the two ports and the protocol number.
pub record IsBytes (n : ℕ) (xs : List ℕ) : Type 0 where
  pub sized : length xs ≡ n
  pub bytes : (i : ℕ) → get_or xs i 0 < 256

pub record IsCtx (ctx : ProxySrcCtx) : Type 0 where
  pub src_port_fits : IsU16 ctx.src_port
  pub dst_port_fits : IsU16 ctx.dst_port
  pub proto_fits : IsByte ctx.proto
