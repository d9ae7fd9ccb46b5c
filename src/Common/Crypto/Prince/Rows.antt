-- ===== src/Common/Crypto/Prince/Rows.antt =====
-- The row shifts of common/src/crypto.rs move nibbles between the chunks of a block.
use prototype_net.Base.{ℕ, ◌/◌, ◌%◌, ◌^◌, bit_and, bit_or, ◌≡◌, ap, ap₂, sym, subst, ◌∙◌, arith}
use prototype_net.Word.{rotate_left, rotate_right, IsU16, IsU64}
use prototype_net.Word.Logic.{and-lt}
use prototype_net.Common.Crypto.Prince.{shift_rows, shift_rows_inv}
use prototype_net.Common.Crypto.Prince.Chunks.{
  chunks, chunks_of, chunks-lt, chunks-and, rotate_left-chunks_16, rotate_right-chunks_16,
  rotate_left-chunks_32, rotate_right-chunks_32,
}
use prototype_net.Common.Crypto.Prince.Pick.{pick, pick-pick, pick-lt, join_rows}

module _ {a b c d : ℕ} (ha : IsU16 a) (hb : IsU16 b) (hc : IsU16 c) (hd : IsU16 d) where
  -- One row of each chunk.
  row : ℕ → ℕ
  row m = chunks (bit_and a m) (bit_and b m) (bit_and c m) (bit_and d m)

  row_0 : bit_and (chunks a b c d) 0xF000F000F000F000 ≡ row 0xF000
  unfolding chunks row
  row_0 = chunks-and d 0xF000 ha hb hc (omega arith) (omega arith) (omega arith)

  row_1 : bit_and (chunks a b c d) 0x0F000F000F000F00 ≡ row 0x0F00
  unfolding chunks row
  row_1 = chunks-and d 0x0F00 ha hb hc (omega arith) (omega arith) (omega arith)

  row_2 : bit_and (chunks a b c d) 0x00F000F000F000F0 ≡ row 0x00F0
  unfolding chunks row
  row_2 = chunks-and d 0x00F0 ha hb hc (omega arith) (omega arith) (omega arith)

  row_3 : bit_and (chunks a b c d) 0x000F000F000F000F ≡ row 0x000F
  unfolding chunks row
  row_3 = chunks-and d 0x000F ha hb hc (omega arith) (omega arith) (omega arith)

  module _ (m : ℕ) where
    turn_left :
        rotate_left (row m) 16 ≡ chunks (bit_and d m) (bit_and a m) (bit_and b m) (bit_and c m)
    unfolding row
    turn_left =
        rotate_left-chunks_16 (and-lt 16 a m ha) (and-lt 16 b m hb) (and-lt 16 c m hc)
          (and-lt 16 d m hd)

    turn_right :
        rotate_right (row m) 16 ≡ chunks (bit_and b m) (bit_and c m) (bit_and d m) (bit_and a m)
    unfolding row
    turn_right =
        rotate_right-chunks_16 (and-lt 16 a m ha) (and-lt 16 b m hb) (and-lt 16 c m hc)
          (and-lt 16 d m hd)

    half_left :
        rotate_left (row m) 32 ≡ chunks (bit_and c m) (bit_and d m) (bit_and a m) (bit_and b m)
    unfolding row
    half_left =
        rotate_left-chunks_32 (and-lt 16 a m ha) (and-lt 16 b m hb) (and-lt 16 c m hc)
          (and-lt 16 d m hd)

    half_right :
        rotate_right (row m) 32 ≡ chunks (bit_and c m) (bit_and d m) (bit_and a m) (bit_and b m)
    unfolding row
    half_right =
        rotate_right-chunks_32 (and-lt 16 a m ha) (and-lt 16 b m hb) (and-lt 16 c m hc)
          (and-lt 16 d m hd)

  shift_rows-chunks :
      shift_rows (chunks a b c d)
      ≡ chunks (pick a d c b) (pick b a d c) (pick c b a d) (pick d c b a)
  unfolding shift_rows row
  shift_rows-chunks =
      ap₂ bit_or
        (ap₂ bit_or (ap₂ bit_or row_0 (ap (λ t. rotate_left t 16) row_1 ∙ turn_left 0x0F00))
          (ap (λ t. rotate_right t 32) row_2 ∙ half_right 0x00F0))
        (ap (λ t. rotate_right t 16) row_3 ∙ turn_right 0x000F)
      ∙ join_rows d c b a ha hb hc hd ha hb hc hd ha hb hc hd

  shift_rows_inv-chunks :
      shift_rows_inv (chunks a b c d)
      ≡ chunks (pick a b c d) (pick b c d a) (pick c d a b) (pick d a b c)
  unfolding shift_rows_inv row
  shift_rows_inv-chunks =
      ap₂ bit_or
        (ap₂ bit_or (ap₂ bit_or row_0 (ap (λ t. rotate_right t 16) row_1 ∙ turn_right 0x0F00))
          (ap (λ t. rotate_left t 32) row_2 ∙ half_left 0x00F0))
        (ap (λ t. rotate_left t 16) row_3 ∙ turn_left 0x000F)
      ∙ join_rows d a b c ha hb hc hb hc hd hc hd ha hd ha hb

module _ {a b c d : ℕ} (ha : IsU16 a) (hb : IsU16 b) (hc : IsU16 c) (hd : IsU16 d) where
  undo_chunks : shift_rows_inv (shift_rows (chunks a b c d)) ≡ chunks a b c d
  undo_chunks =
      ap shift_rows_inv (shift_rows-chunks ha hb hc hd)
      ∙ shift_rows_inv-chunks (pick-lt a d c b ha hd hc hb) (pick-lt b a d c hb ha hd hc)
          (pick-lt c b a d hc hb ha hd) (pick-lt d c b a hd hc hb ha)
      ∙ rw (
        pick-pick a d c b b d c c b d d c b ha,
        pick-pick b a d c c a d d c a a d c hb,
        pick-pick c b a d d b a a d b b a d hc,
        pick-pick d c b a a c b b a c c b a hd,
      )

  redo_chunks : shift_rows (shift_rows_inv (chunks a b c d)) ≡ chunks a b c d
  redo_chunks =
      ap shift_rows (shift_rows_inv-chunks ha hb hc hd)
      ∙ shift_rows-chunks (pick-lt a b c d ha hb hc hd) (pick-lt b c d a hb hc hd ha)
          (pick-lt c d a b hc hd ha hb) (pick-lt d a b c hd ha hb hc)
      ∙ rw (
        pick-pick a b c d d b c c d b b c d ha,
        pick-pick b c d a a c d d a c c d a hb,
        pick-pick c d a b b d a a b d d a b hc,
        pick-pick d a b c c a b b c a a b c hd,
      )

  shifted-lt : IsU64 (shift_rows (chunks a b c d))
  shifted-lt = subst IsU64 (sym (shift_rows-chunks ha hb hc hd)) (
      chunks-lt (pick-lt a d c b ha hd hc hb) (pick-lt b a d c hb ha hd hc)
        (pick-lt c b a d hc hb ha hd) (pick-lt d c b a hd hc hb ha))

  inverse_shifted-lt : IsU64 (shift_rows_inv (chunks a b c d))
  inverse_shifted-lt = subst IsU64 (sym (shift_rows_inv-chunks ha hb hc hd)) (
      chunks-lt (pick-lt a b c d ha hb hc hd) (pick-lt b c d a hb hc hd ha)
        (pick-lt c d a b hc hd ha hb) (pick-lt d a b c hd ha hb hc))

chunk-lt : (x : ℕ) → IsU16 (x % 2 ^ 16)
chunk-lt x = omega arith

module _ (x : ℕ) (h : IsU64 x) where
  pub shift_rows_inv-shift_rows : shift_rows_inv (shift_rows x) ≡ x
  shift_rows_inv-shift_rows =
      ap (λ y. shift_rows_inv (shift_rows y)) (chunks_of x h)
      ∙ undo_chunks (chunk-lt x) (chunk-lt (x / 2 ^ 16)) (chunk-lt (x / 2 ^ 32))
          (chunk-lt (x / 2 ^ 48))
      ∙ sym (chunks_of x h)

  pub shift_rows-shift_rows_inv : shift_rows (shift_rows_inv x) ≡ x
  shift_rows-shift_rows_inv =
      ap (λ y. shift_rows (shift_rows_inv y)) (chunks_of x h)
      ∙ redo_chunks (chunk-lt x) (chunk-lt (x / 2 ^ 16)) (chunk-lt (x / 2 ^ 32))
          (chunk-lt (x / 2 ^ 48))
      ∙ sym (chunks_of x h)

  pub shift_rows-lt : IsU64 (shift_rows x)
  shift_rows-lt =
      subst (λ y. IsU64 (shift_rows y)) (sym (chunks_of x h))
        (shifted-lt (chunk-lt x) (chunk-lt (x / 2 ^ 16)) (chunk-lt (x / 2 ^ 32))
          (chunk-lt (x / 2 ^ 48)))

  pub shift_rows_inv-lt : IsU64 (shift_rows_inv x)
  shift_rows_inv-lt =
      subst (λ y. IsU64 (shift_rows_inv y)) (sym (chunks_of x h))
        (inverse_shifted-lt (chunk-lt x) (chunk-lt (x / 2 ^ 16)) (chunk-lt (x / 2 ^ 32))
          (chunk-lt (x / 2 ^ 48)))
