-- ===== src/Common/HashCtx.antt =====
-- common/src/crypto.rs and common/src/lib.rs: the splitmix64 finaliser, and the context hash.
pub mod Inverse
pub mod Distinct
use prototype_net.Base.{ℕ, bit_xor, bit_or}
use prototype_net.Word.{◌<<<◌, ◌>>>◌, wrapping_mul}
use prototype_net.Common.Types.{ProxySrcCtx}

unfoldable pub mix64 : ℕ → ℕ
mix64 x0 =
    let x1 = bit_xor x0 (x0 >>> 30) in
    let x2 = wrapping_mul x1 0xbf58476d1ce4e5b9 in
    let x3 = bit_xor x2 (x2 >>> 27) in
    let x4 = wrapping_mul x3 0x94d049bb133111eb in bit_xor x4 (x4 >>> 31)

-- The ports and the protocol number in one word.
unfoldable pub packed : ProxySrcCtx → ℕ
packed ctx = bit_or (bit_or (ctx.src_port <<< 48) (ctx.dst_port <<< 32)) (ctx.proto <<< 24)

unfoldable pub hash_ctx : ProxySrcCtx → ℕ
unfolding packed wrapping_mul
hash_ctx ctx =
    let h0 = packed ctx in
    let h1 = bit_xor h0 (h0 >>> 30) in
    let h2 = wrapping_mul h1 0xbf58476d1ce4e5b9 in
    let h3 = bit_xor h2 (h2 >>> 27) in
    let h4 = wrapping_mul h3 0x94d049bb133111eb in bit_xor h4 (h4 >>> 31)
