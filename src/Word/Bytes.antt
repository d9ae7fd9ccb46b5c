-- ===== src/Word/Bytes.antt =====
-- Big-endian bytes of a word, and the word of its bytes.
use prototype_net.Base.{ℕ, ◌^◌, ◌<◌, [], ◌∷◌, ◌≡◌, arith}
use prototype_net.Word.{from_be_bytes, to_be_bytes32, to_be_bytes64, IsByte, IsU32, IsU64}

pub from_be_bytes-to_be_bytes32 : (x : ℕ) → IsU32 x → from_be_bytes (to_be_bytes32 x) ≡ x
unfolding from_be_bytes to_be_bytes32
from_be_bytes-to_be_bytes32 x h = omega arith

pub from_be_bytes-to_be_bytes64 : (x : ℕ) → IsU64 x → from_be_bytes (to_be_bytes64 x) ≡ x
unfolding from_be_bytes to_be_bytes64
from_be_bytes-to_be_bytes64 x h = omega arith

module _ (a b c d : ℕ) (ha : IsByte a) (hb : IsByte b) (hc : IsByte c) (hd : IsByte d) where
  pub from_be_bytes-lt32 : from_be_bytes (a ∷ b ∷ c ∷ d ∷ []) < 2 ^ 32
  unfolding from_be_bytes
  from_be_bytes-lt32 = omega arith

  pub to_be_bytes32-from_be_bytes :
      to_be_bytes32 (from_be_bytes (a ∷ b ∷ c ∷ d ∷ [])) ≡ a ∷ b ∷ c ∷ d ∷ []
  unfolding from_be_bytes to_be_bytes32
  to_be_bytes32-from_be_bytes = ground arith

module _ (a b c d e f g h : ℕ) (ha : IsByte a) (hb : IsByte b) (hc : IsByte c) (hd : IsByte d)
    (he : IsByte e) (hf : IsByte f) (hg : IsByte g) (hh : IsByte h) where
  pub from_be_bytes-lt64 : from_be_bytes (a ∷ b ∷ c ∷ d ∷ e ∷ f ∷ g ∷ h ∷ []) < 2 ^ 64
  unfolding from_be_bytes
  from_be_bytes-lt64 = omega arith

  pub to_be_bytes64-from_be_bytes :
      to_be_bytes64 (from_be_bytes (a ∷ b ∷ c ∷ d ∷ e ∷ f ∷ g ∷ h ∷ []))
      ≡ a ∷ b ∷ c ∷ d ∷ e ∷ f ∷ g ∷ h ∷ []
  unfolding from_be_bytes to_be_bytes64
  to_be_bytes64-from_be_bytes = ground arith
