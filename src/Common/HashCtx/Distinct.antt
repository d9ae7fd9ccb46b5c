-- ===== src/Common/HashCtx/Distinct.antt =====
-- `hash_ctx` of common/src/crypto.rs tells flow contexts apart: the packing keeps the three fields,
-- and the finaliser is a bijection.
use prototype_net.Base.{ℕ, ◌+◌, ◌*◌, ◌%◌, ◌^◌, ◌<◌, ◌≡◌, refl, sym, ap, ◌∙◌, arith}
use prototype_net.Word.{IsU64}
use prototype_net.Word.Fields.{or_fields}
use prototype_net.Common.Types.{ProxySrcCtx, IsCtx}
use prototype_net.Common.HashCtx.{hash_ctx, mix64, packed}
use prototype_net.Common.HashCtx.Inverse.{
  unmix64, unmix64-mix64, mix64-unmix64, mix64-lt, unmix64-lt,
}

pub hash_ctx-eq-mix64 : (ctx : ProxySrcCtx) → hash_ctx ctx ≡ mix64 (packed ctx)
unfolding hash_ctx mix64
hash_ctx-eq-mix64 ctx = refl

fits : (x : ℕ) → x < 2 ^ 64 → x % 2 ^ 64 ≡ x
fits x h = omega arith

pub packed_as_sum :
    (ctx : ProxySrcCtx)
    → IsCtx ctx
    → packed ctx ≡ ctx.src_port * 2 ^ 48 + ctx.dst_port * 2 ^ 32 + ctx.proto * 2 ^ 24
unfolding packed
packed_as_sum ctx v =
    rw
      (
        fits (ctx.src_port * 2 ^ 48) (omega arith),
        fits (ctx.dst_port * 2 ^ 32) (omega arith),
        fits (ctx.proto * 2 ^ 24) (omega arith),
        or_fields 48 ctx.src_port (ctx.dst_port * 2 ^ 32) (omega arith),
        regroup,
      )
      (or_fields 32 (ctx.src_port * 2 ^ 16 + ctx.dst_port) (ctx.proto * 2 ^ 24) (omega arith)
        ∙ omega arith)
  where
    regroup :
        ctx.src_port * 2 ^ 48 + ctx.dst_port * 2 ^ 32
        ≡ (ctx.src_port * 2 ^ 16 + ctx.dst_port) * 2 ^ 32
    regroup = omega arith

packed-lt : (ctx : ProxySrcCtx) → IsCtx ctx → IsU64 (packed ctx)
packed-lt ctx v = omega (arith, packed_as_sum ctx v)

-- Distinct (source port, destination port, protocol) triples have distinct hashes.
pub hash_ctx_injective :
    (c d : ProxySrcCtx)
    → IsCtx c
    → IsCtx d
    → hash_ctx c ≡ hash_ctx d
    → (c.src_port ≡ d.src_port) × (c.dst_port ≡ d.dst_port) × (c.proto ≡ d.proto)
hash_ctx_injective c d vc vd e = omega (arith, packed_as_sum c vc, packed_as_sum d vd, same)
  where
    same : packed c ≡ packed d
    same =
        sym (unmix64-mix64 (packed c) (packed-lt c vc))
        ∙ ap unmix64 (sym (hash_ctx-eq-mix64 c) ∙ e ∙ hash_ctx-eq-mix64 d)
        ∙ unmix64-mix64 (packed d) (packed-lt d vd)

-- The finaliser is a bijection on u64.
pub mix64_bijection :
    (x : ℕ)
    → IsU64 x
    → IsU64 (mix64 x) × IsU64 (unmix64 x) × (unmix64 (mix64 x) ≡ x) × (mix64 (unmix64 x) ≡ x)
mix64_bijection x h = (mix64-lt x, unmix64-lt x, unmix64-mix64 x h, mix64-unmix64 x h)
