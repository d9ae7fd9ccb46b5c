-- ===== src/Common/Crypto/Prince/Chunks.antt =====
-- A block of common/src/crypto.rs as four chunks of 16 bits.
use prototype_net.Base.{ℕ, ◌+◌, ◌*◌, ◌/◌, ◌%◌, ◌^◌, bit_and, bit_or, ◌≡◌, ap, ap₂, sym, ◌∙◌, arith}
use prototype_net.Word.{◌<<<◌, u16, rotate_left, rotate_right, IsU16, IsU64}
use prototype_net.Word.Fields.{or_fields, and_mask}
use prototype_net.Word.Logic.{or_comm, and_split, or_split}

-- The lowest chunk first.
unfoldable pub chunks : ℕ → ℕ → ℕ → ℕ → ℕ
chunks a b c d = a + b * 2 ^ 16 + c * 2 ^ 32 + d * 2 ^ 48

pub chunks_of :
    (x : ℕ)
    → IsU64 x
    → x ≡ chunks (x % 2 ^ 16) (x / 2 ^ 16 % 2 ^ 16) (x / 2 ^ 32 % 2 ^ 16) (x / 2 ^ 48 % 2 ^ 16)
unfolding chunks
chunks_of x h = omega arith

-- `r0 | (r1 << 16) | (r2 << 32) | (r3 << 48)`.
abbrev pub join : ℕ → ℕ → ℕ → ℕ → ℕ
join a b c d = bit_or (bit_or (bit_or a (b <<< 16)) (c <<< 32)) (d <<< 48)

module _ {a b c d : ℕ} (ha : IsU16 a) (hb : IsU16 b) (hc : IsU16 c) (hd : IsU16 d) where
  pub chunks-lt : IsU64 (chunks a b c d)
  unfolding chunks
  chunks-lt = omega arith

  pub join-chunks : join a b c d ≡ chunks a b c d
  unfolding chunks
  join-chunks =
      ap₂ bit_or
        (ap₂ bit_or (ap (bit_or a) shifted_b ∙ or_comm a (b * 2 ^ 16) ∙ or_fields 16 b a ha)
            shifted_c
          ∙ or_comm (b * 2 ^ 16 + a) (c * 2 ^ 32)
          ∙ or_fields 32 c (b * 2 ^ 16 + a) (omega arith))
        shifted_d
      ∙ or_comm (c * 2 ^ 32 + (b * 2 ^ 16 + a)) (d * 2 ^ 48)
      ∙ or_fields 48 d (c * 2 ^ 32 + (b * 2 ^ 16 + a)) (omega arith)
      ∙ omega arith
    where
      shifted_b : b <<< 16 ≡ b * 2 ^ 16
      shifted_b = omega arith

      shifted_c : c <<< 32 ≡ c * 2 ^ 32
      shifted_c = omega arith

      shifted_d : d <<< 48 ≡ d * 2 ^ 48
      shifted_d = omega arith

low_chunk : (x : ℕ) → u16 (bit_and x 0xFFFF) ≡ x % 2 ^ 16
low_chunk x = ap u16 (and_mask 16 x) ∙ omega arith

-- The chunks read back.
module _ {a b c d : ℕ} (ha : IsU16 a) (hb : IsU16 b) (hc : IsU16 c) (hd : IsU16 d) where
  pub chunk_0 : u16 (bit_and (chunks a b c d) 0xFFFF) ≡ a
  unfolding chunks
  chunk_0 = low_chunk _ ∙ omega arith

  pub chunk_1 : u16 (bit_and (chunks a b c d / 2 ^ 16) 0xFFFF) ≡ b
  unfolding chunks
  chunk_1 = low_chunk _ ∙ omega arith

  pub chunk_2 : u16 (bit_and (chunks a b c d / 2 ^ 32) 0xFFFF) ≡ c
  unfolding chunks
  chunk_2 = low_chunk _ ∙ omega arith

  pub chunk_3 : u16 (bit_and (chunks a b c d / 2 ^ 48) 0xFFFF) ≡ d
  unfolding chunks
  chunk_3 = low_chunk _ ∙ omega arith

nested : (a b c d : ℕ) → chunks a b c d ≡ ((d * 2 ^ 16 + c) * 2 ^ 16 + b) * 2 ^ 16 + a
unfolding chunks
nested a b c d = omega arith

-- `&` and `|` act on each chunk.
module _ {a b c p q r : ℕ} (d s : ℕ) (ha : IsU16 a) (hb : IsU16 b) (hc : IsU16 c) (hp : IsU16 p)
    (hq : IsU16 q) (hr : IsU16 r) where
  pub chunks-and :
      bit_and (chunks a b c d) (chunks p q r s)
      ≡ chunks (bit_and a p) (bit_and b q) (bit_and c r) (bit_and d s)
  chunks-and =
      ap₂ bit_and (nested a b c d) (nested p q r s)
      ∙ and_split 16 ((d * 2 ^ 16 + c) * 2 ^ 16 + b) ((s * 2 ^ 16 + r) * 2 ^ 16 + q) a p ha hp
      ∙ ap (λ t. t * 2 ^ 16 + bit_and a p)
          (and_split 16 (d * 2 ^ 16 + c) (s * 2 ^ 16 + r) b q hb hq
            ∙ ap (λ t. t * 2 ^ 16 + bit_and b q) (and_split 16 d s c r hc hr))
      ∙ sym (nested (bit_and a p) (bit_and b q) (bit_and c r) (bit_and d s))

  pub chunks-or :
      bit_or (chunks a b c d) (chunks p q r s)
      ≡ chunks (bit_or a p) (bit_or b q) (bit_or c r) (bit_or d s)
  chunks-or =
      ap₂ bit_or (nested a b c d) (nested p q r s)
      ∙ or_split 16 ((d * 2 ^ 16 + c) * 2 ^ 16 + b) ((s * 2 ^ 16 + r) * 2 ^ 16 + q) a p ha hp
      ∙ ap (λ t. t * 2 ^ 16 + bit_or a p)
          (or_split 16 (d * 2 ^ 16 + c) (s * 2 ^ 16 + r) b q hb hq
            ∙ ap (λ t. t * 2 ^ 16 + bit_or b q) (or_split 16 d s c r hc hr))
      ∙ sym (nested (bit_or a p) (bit_or b q) (bit_or c r) (bit_or d s))

-- Rotations by whole chunks.
module _ {a b c d : ℕ} (ha : IsU16 a) (hb : IsU16 b) (hc : IsU16 c) (hd : IsU16 d) where
  pub rotate_left-chunks_16 : rotate_left (chunks a b c d) 16 ≡ chunks d a b c
  unfolding rotate_left chunks
  rotate_left-chunks_16 = omega arith

  pub rotate_right-chunks_16 : rotate_right (chunks a b c d) 16 ≡ chunks b c d a
  unfolding rotate_right chunks
  rotate_right-chunks_16 = omega arith

  pub rotate_left-chunks_32 : rotate_left (chunks a b c d) 32 ≡ chunks c d a b
  unfolding rotate_left chunks
  rotate_left-chunks_32 = omega arith

  pub rotate_right-chunks_32 : rotate_right (chunks a b c d) 32 ≡ chunks c d a b
  unfolding rotate_right chunks
  rotate_right-chunks_32 = omega arith
