-- ===== src/Common/Crypto/Sip.antt =====
-- The MACs of common/src/crypto.rs.
pub mod Reference
use prototype_net.Base.{ℕ, bit_or, bit_xor, List, get_or, slice}
use prototype_net.Word.{◌<<<◌, wrapping_add, rotate_left, from_le_bytes}

-- The four variables that `sip_round` takes by reference.
pub record SipState : Type 0 where
  pub v0 : ℕ
  pub v1 : ℕ
  pub v2 : ℕ
  pub v3 : ℕ

unfoldable pub sip_round : SipState → SipState
sip_round s =
    let v0 = wrapping_add s.v0 s.v1 in
    let v1 = rotate_left s.v1 13 in
    let v1 = bit_xor v1 v0 in
    let v0 = rotate_left v0 32 in
    let v2 = wrapping_add s.v2 s.v3 in
    let v3 = rotate_left s.v3 16 in
    let v3 = bit_xor v3 v2 in
    let v0 = wrapping_add v0 v3 in
    let v3 = rotate_left v3 21 in
    let v3 = bit_xor v3 v0 in
    let v2 = wrapping_add v2 v1 in
    let v1 = rotate_left v1 17 in
    let v1 = bit_xor v1 v2 in
    let v2 = rotate_left v2 32 in record { v0 = v0; v1 = v1; v2 = v2; v3 = v3 }

-- Two rounds around a word of the message.
unfoldable pub absorb : ℕ → SipState → SipState
absorb m s =
    let s = record s { v3 = bit_xor s.v3 m } in
    let s = sip_round s in let s = sip_round s in record s { v0 = bit_xor s.v0 m }

unfoldable pub finish : SipState → ℕ
finish s =
    let s = record s { v2 = bit_xor s.v2 0xff } in
    let s = sip_round s in
    let s = sip_round s in
    let s = sip_round s in let s = sip_round s in bit_xor (bit_xor (bit_xor s.v0 s.v1) s.v2) s.v3

unfoldable pub sip_init : List ℕ → SipState
sip_init key =
    let k0 = from_le_bytes (slice key 0 8) in
    let k1 = from_le_bytes (slice key 8 8) in
    record {
      v0 = bit_xor 0x736f6d6570736575 k0;
      v1 = bit_xor 0x646f72616e646f6d k1;
      v2 = bit_xor 0x6c7967656e657261 k0;
      v3 = bit_xor 0x7465646279746573 k1;
    }

unfoldable pub siphash_2_4_17 : List ℕ → List ℕ → ℕ
siphash_2_4_17 key data_in =
    let m0 = from_le_bytes (slice data_in 0 8) in
    let m1 = from_le_bytes (slice data_in 8 8) in
    let b = bit_or (17 <<< 56) (get_or data_in 16 0) in
    let s = sip_init key in
    let s = absorb m0 s in let s = absorb m1 s in let s = absorb b s in finish s

-- For any input, with the hash of the crate siphasher.
unfoldable pub siphash_2_4 : (List ℕ → List ℕ → ℕ) → List ℕ → List ℕ → ℕ
siphash_2_4 sip_hasher_24 key input = sip_hasher_24 key input
