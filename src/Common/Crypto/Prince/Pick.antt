-- ===== src/Common/Crypto/Prince/Pick.antt =====
-- Nibbles of a block of common/src/crypto.rs, taken from several chunks.
use native.Mathlib.Nat.{mod-eq_of_lt}
use prototype_net.Base.{ℕ, bit_and, bit_or, ◌≡◌, refl, ap, ap₂, sym, ◌∙◌}
use prototype_net.Word.{IsU16}
use prototype_net.Word.Fields.{and_mask, and-zero, or-zero}
use prototype_net.Word.Logic.{and_assoc, or-and, and-or, or_comm, and-lt, or-lt}
use prototype_net.Common.Crypto.Prince.Chunks.{chunks, chunks-or}

-- One nibble from each of four chunks, the highest first.
unfoldable pub pick : ℕ → ℕ → ℕ → ℕ → ℕ
pick p q r s =
    bit_or (bit_or (bit_or (bit_and p 0xF000) (bit_and q 0x0F00)) (bit_and r 0x00F0))
      (bit_and s 0x000F)

zero-or : (a : ℕ) → bit_or 0 a ≡ a
zero-or a = or_comm 0 a ∙ or-zero a

-- What a mask leaves of the four nibbles.
pick-and :
    (p q r s m : ℕ)
    → bit_and (pick p q r s) m
      ≡ bit_or
          (bit_or
            (bit_or (bit_and p (bit_and 0xF000 m)) (bit_and q (bit_and 0x0F00 m)))
            (bit_and r (bit_and 0x00F0 m)))
          (bit_and s (bit_and 0x000F m))
unfolding pick
pick-and p q r s m =
    or-and _ _ m
    ∙ ap₂ bit_or
        (or-and _ _ m
          ∙ ap₂ bit_or (or-and _ _ m ∙ ap₂ bit_or (and_assoc p 0xF000 m) (and_assoc q 0x0F00 m))
              (and_assoc r 0x00F0 m))
        (and_assoc s 0x000F m)

pick-and_row_0 : (p q r s : ℕ) → bit_and (pick p q r s) 0xF000 ≡ bit_and p 0xF000
pick-and_row_0 p q r s =
    pick-and p q r s 0xF000 ∙ rw (and-zero q, and-zero r, and-zero s, or-zero, or-zero) (or-zero _)

pick-and_row_1 : (p q r s : ℕ) → bit_and (pick p q r s) 0x0F00 ≡ bit_and q 0x0F00
pick-and_row_1 p q r s =
    pick-and p q r s 0x0F00
    ∙ rw (and-zero p, and-zero r, and-zero s, zero-or (bit_and q 0x0F00), or-zero) (or-zero _)

pick-and_row_2 : (p q r s : ℕ) → bit_and (pick p q r s) 0x00F0 ≡ bit_and r 0x00F0
pick-and_row_2 p q r s =
    pick-and p q r s 0x00F0
    ∙ rw (and-zero p, and-zero q, and-zero s, or-zero 0, zero-or (bit_and r 0x00F0)) (or-zero _)

pick-and_row_3 : (p q r s : ℕ) → bit_and (pick p q r s) 0x000F ≡ bit_and s 0x000F
pick-and_row_3 p q r s =
    pick-and p q r s 0x000F
    ∙ rw (and-zero p, and-zero q, and-zero r, or-zero 0, or-zero 0) (zero-or _)

-- All four nibbles of one chunk.
pick_self : (a : ℕ) → IsU16 a → pick a a a a ≡ a
unfolding pick
pick_self a h =
    ap (λ t. bit_or t (bit_and a 0x000F))
      (ap (λ t. bit_or t (bit_and a 0x00F0)) (sym (and-or a 0xF000 0x0F00))
        ∙ sym (and-or a 0xFF00 0x00F0))
    ∙ sym (and-or a 0xFFF0 0x000F)
    ∙ and_mask 16 a
    ∙ mod-eq_of_lt h

-- The nibbles of `a`, each from another chunk.
pub pick-pick :
    (a p q r s t u v w x y z z' : ℕ)
    → IsU16 a
    → pick (pick a p q r) (pick s a t u) (pick v w a x) (pick y z z' a) ≡ a
unfolding pick
pick-pick a p q r s t u v w x y z z' h =
    ap₂ bit_or
      (ap₂ bit_or (ap₂ bit_or (pick-and_row_0 a p q r) (pick-and_row_1 s a t u))
        (pick-and_row_2 v w a x))
      (pick-and_row_3 y z z' a)
    ∙ pick_self a h

pub pick-lt : (p q r s : ℕ) → IsU16 p → IsU16 q → IsU16 r → IsU16 s → IsU16 (pick p q r s)
unfolding pick
pick-lt p q r s hp hq hr hs =
    or-lt 16 _ _
      (or-lt 16 _ _ (or-lt 16 _ _ (and-lt 16 p _ hp) (and-lt 16 q _ hq)) (and-lt 16 r _ hr))
      (and-lt 16 s _ hs)

-- Four rows together are four chunks.
module _ {a b c a' b' c' p q r p' q' r' : ℕ} (d d' s s' : ℕ) (ha : IsU16 a) (hb : IsU16 b)
    (hc : IsU16 c) (ha' : IsU16 a') (hb' : IsU16 b') (hc' : IsU16 c') (hp : IsU16 p) (hq : IsU16 q)
    (hr : IsU16 r) (hp' : IsU16 p') (hq' : IsU16 q') (hr' : IsU16 r') where
  pub join_rows :
      bit_or
        (bit_or
          (bit_or
            (chunks (bit_and a 0xF000) (bit_and b 0xF000) (bit_and c 0xF000) (bit_and d 0xF000))
            (chunks
              (bit_and a' 0x0F00)
              (bit_and b' 0x0F00)
              (bit_and c' 0x0F00)
              (bit_and d' 0x0F00)))
          (chunks (bit_and p 0x00F0) (bit_and q 0x00F0) (bit_and r 0x00F0) (bit_and s 0x00F0)))
        (chunks (bit_and p' 0x000F) (bit_and q' 0x000F) (bit_and r' 0x000F) (bit_and s' 0x000F))
      ≡ chunks (pick a a' p p') (pick b b' q q') (pick c c' r r') (pick d d' s s')
  unfolding pick
  join_rows =
      ap₂ bit_or
        (ap₂ bit_or
            (chunks-or _ _ (and-lt 16 a _ ha) (and-lt 16 b _ hb) (and-lt 16 c _ hc)
              (and-lt 16 a' _ ha') (and-lt 16 b' _ hb') (and-lt 16 c' _ hc'))
            refl
          ∙ chunks-or _ _ (two ha ha') (two hb hb') (two hc hc') (and-lt 16 p _ hp)
              (and-lt 16 q _ hq) (and-lt 16 r _ hr))
        refl
      ∙ chunks-or _ _ (three ha ha' hp) (three hb hb' hq) (three hc hc' hr) (and-lt 16 p' _ hp')
          (and-lt 16 q' _ hq') (and-lt 16 r' _ hr')
    where
      two : {x y : ℕ} → IsU16 x → IsU16 y → IsU16 (bit_or (bit_and x 0xF000) (bit_and y 0x0F00))
      two {x = x} {y = y} hx hy = or-lt 16 _ _ (and-lt 16 x _ hx) (and-lt 16 y _ hy)

      three :
          {x y z : ℕ}
          → IsU16 x
          → IsU16 y
          → IsU16 z
          → IsU16 (bit_or (bit_or (bit_and x 0xF000) (bit_and y 0x0F00)) (bit_and z 0x00F0))
      three {z = z} hx hy hz = or-lt 16 _ _ (two hx hy) (and-lt 16 z _ hz)
