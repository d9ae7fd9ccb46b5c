-- ===== src/Common/Crypto/Prince.antt =====
-- The block cipher of common/src/crypto.rs.
pub mod Nibbles
pub mod Chunks
pub mod Mix
pub mod Pick
pub mod Rows
pub mod Reflect
pub mod RoundTrip
use prototype_net.Base.{ℕ, ◌+◌, ◌-◌, ◌^◌, bit_and, bit_or, bit_xor, List, [], ◌∷◌, get_or, slice}
use prototype_net.Word.{◌<<<◌, ◌>>>◌, u16, rotate_left, rotate_right, from_be_bytes}

-- `RC`, the round constants, and `ALPHA`.
abbrev pub round_constants : List ℕ
round_constants =
    0x0000000000000000 ∷ 0x13198a2e03707344 ∷ 0xa4093822299f31d0 ∷ 0x082efa98ec4e6c89
    ∷ 0x452821e638d01377 ∷ 0xbe5466cf34e90c6c ∷ 0x7ef84f78fd955cb1 ∷ 0x85840851f1ac43aa
    ∷ 0xc882d32f25323c54 ∷ 0x64a51195e0e3610d ∷ 0xd3b5a399ca0c2399 ∷ 0xc0ac29b7c97c50dd ∷ []

abbrev pub rc : ℕ → ℕ
rc i = get_or round_constants i 0

abbrev pub alpha : ℕ
alpha = 0xc0ac29b7c97c50dd

abbrev pub sbox : List ℕ
sbox =
    0xB ∷ 0xF ∷ 0x3 ∷ 0x2 ∷ 0xA ∷ 0xC ∷ 0x9 ∷ 0x1 ∷ 0x6 ∷ 0x7 ∷ 0x8 ∷ 0x0 ∷ 0xE ∷ 0x5 ∷ 0xD ∷ 0x4
    ∷ []

abbrev pub sbox_inv : List ℕ
sbox_inv =
    0xB ∷ 0x7 ∷ 0x3 ∷ 0x2 ∷ 0xF ∷ 0xD ∷ 0x8 ∷ 0x9 ∷ 0xA ∷ 0x6 ∷ 0x4 ∷ 0x0 ∷ 0x5 ∷ 0xE ∷ 0xC ∷ 0x1
    ∷ []

-- One `| (SBOX[((x >> s) & 0xF) as usize] as u64) << s` for each shift.
unfoldable pub substitute : List ℕ → ℕ → List ℕ → ℕ → ℕ
substitute table out [] x = out
substitute table out (s ∷ shifts) x =
    substitute table (bit_or out (get_or table (bit_and (x >>> s) 0xF) 0 <<< s)) shifts x

abbrev pub nibble_shifts : List ℕ
nibble_shifts = 4 ∷ 8 ∷ 12 ∷ 16 ∷ 20 ∷ 24 ∷ 28 ∷ 32 ∷ 36 ∷ 40 ∷ 44 ∷ 48 ∷ 52 ∷ 56 ∷ 60 ∷ []

unfoldable pub sbox_layer : ℕ → ℕ
unfolding substitute
sbox_layer x = substitute sbox (get_or sbox (bit_and x 0xF) 0) nibble_shifts x

unfoldable pub sbox_inv_layer : ℕ → ℕ
unfolding substitute
sbox_inv_layer x = substitute sbox_inv (get_or sbox_inv (bit_and x 0xF) 0) nibble_shifts x

abbrev pub m_hat_0 : List ℕ
m_hat_0 =
    0x0111 ∷ 0x2220 ∷ 0x4404 ∷ 0x8088 ∷ 0x1011 ∷ 0x0222 ∷ 0x4440 ∷ 0x8808 ∷ 0x1101 ∷ 0x2022 ∷ 0x0444
    ∷ 0x8880 ∷ 0x1110 ∷ 0x2202 ∷ 0x4044 ∷ 0x0888 ∷ []

abbrev pub m_hat_1 : List ℕ
m_hat_1 =
    0x1110 ∷ 0x2202 ∷ 0x4044 ∷ 0x0888 ∷ 0x0111 ∷ 0x2220 ∷ 0x4404 ∷ 0x8088 ∷ 0x1011 ∷ 0x0222 ∷ 0x4440
    ∷ 0x8808 ∷ 0x1101 ∷ 0x2022 ∷ 0x0444 ∷ 0x8880 ∷ []

-- `wrapping_neg` on u16.
abbrev pub wrapping_neg16 : ℕ → ℕ
wrapping_neg16 x = u16 (2 ^ 16 - x)

-- One `out ^= cols[i] & ((val >> i) & 1).wrapping_neg()` for each column, from column `i` on.
unfoldable pub gf2_mat_mul_from : ℕ → ℕ → List ℕ → ℕ → ℕ
gf2_mat_mul_from i val [] out = out
gf2_mat_mul_from i val (col ∷ cols) out =
    gf2_mat_mul_from (i + 1) val cols
      (bit_xor out (bit_and col (wrapping_neg16 (bit_and (val >>> i) 1))))

unfoldable pub gf2_mat_mul : ℕ → List ℕ → ℕ
unfolding gf2_mat_mul_from
gf2_mat_mul val cols = gf2_mat_mul_from 0 val cols 0

unfoldable pub m_prime : ℕ → ℕ
m_prime x =
    let c0 = u16 (bit_and x 0xFFFF) in
    let c1 = u16 (bit_and (x >>> 16) 0xFFFF) in
    let c2 = u16 (bit_and (x >>> 32) 0xFFFF) in
    let c3 = u16 (bit_and (x >>> 48) 0xFFFF) in
    let r0 = gf2_mat_mul c0 m_hat_0 in
    let r1 = gf2_mat_mul c1 m_hat_1 in
    let r2 = gf2_mat_mul c2 m_hat_1 in
    let r3 = gf2_mat_mul c3 m_hat_0 in
    bit_or (bit_or (bit_or r0 (r1 <<< 16)) (r2 <<< 32)) (r3 <<< 48)

abbrev pub row_mask : List ℕ
row_mask = 0xF000F000F000F000 ∷ 0x0F000F000F000F00 ∷ 0x00F000F000F000F0 ∷ 0x000F000F000F000F ∷ []

unfoldable pub shift_rows : ℕ → ℕ
shift_rows x =
    let row0 = bit_and x (get_or row_mask 0 0) in
    let row1 = bit_and x (get_or row_mask 1 0) in
    let row2 = bit_and x (get_or row_mask 2 0) in
    let row3 = bit_and x (get_or row_mask 3 0) in
    bit_or (bit_or (bit_or row0 (rotate_left row1 16)) (rotate_right row2 32))
      (rotate_right row3 16)

unfoldable pub shift_rows_inv : ℕ → ℕ
shift_rows_inv x =
    let row0 = bit_and x (get_or row_mask 0 0) in
    let row1 = bit_and x (get_or row_mask 1 0) in
    let row2 = bit_and x (get_or row_mask 2 0) in
    let row3 = bit_and x (get_or row_mask 3 0) in
    bit_or (bit_or (bit_or row0 (rotate_right row1 16)) (rotate_left row2 32)) (rotate_left row3 16)

unfoldable pub m_layer : ℕ → ℕ
m_layer x = shift_rows (m_prime x)

unfoldable pub m_layer_inv : ℕ → ℕ
m_layer_inv x = m_prime (shift_rows_inv x)

-- A forward round with the constant `r`, and a backward one.
abbrev pub forward : ℕ → ℕ → ℕ → ℕ
forward k1 r s = bit_xor (m_layer (sbox_layer s)) (bit_xor (rc r) k1)

abbrev pub backward : ℕ → ℕ → ℕ → ℕ
backward k1 r s = sbox_inv_layer (m_layer_inv (bit_xor s (bit_xor k1 (rc r))))

unfoldable pub prince_core_encrypt : ℕ → ℕ → ℕ
prince_core_encrypt block k1 =
    let s = bit_xor block (bit_xor k1 (rc 0)) in
    let s = forward k1 1 s in
    let s = forward k1 2 s in
    let s = forward k1 3 s in
    let s = forward k1 4 s in
    let s = forward k1 5 s in
    let s = sbox_layer s in
    let s = m_prime s in
    let s = sbox_inv_layer s in
    let s = backward k1 6 s in
    let s = backward k1 7 s in
    let s = backward k1 8 s in
    let s = backward k1 9 s in let s = backward k1 10 s in bit_xor s (bit_xor k1 (rc 11))

-- The key schedule that `prince_encrypt` and `prince_decrypt` write out.
abbrev pub k0_prime : ℕ → ℕ
k0_prime k0 = bit_xor (rotate_right k0 1) (k0 >>> 63)

unfoldable pub prince_encrypt : ℕ → List ℕ → ℕ
prince_encrypt block key =
    let k0 = from_be_bytes (slice key 0 8) in
    let k1 = from_be_bytes (slice key 8 8) in
    let core_out = prince_core_encrypt (bit_xor block k0) k1 in bit_xor core_out (k0_prime k0)

unfoldable pub prince_decrypt : ℕ → List ℕ → ℕ
prince_decrypt block key =
    let k0 = from_be_bytes (slice key 0 8) in
    let k1 = from_be_bytes (slice key 8 8) in
    let k1_dec = bit_xor k1 alpha in
    let core_out = prince_core_encrypt (bit_xor block (k0_prime k0)) k1_dec in bit_xor core_out k0
