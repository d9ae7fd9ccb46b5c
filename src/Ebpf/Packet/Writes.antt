-- ===== src/Ebpf/Packet/Writes.antt =====
-- Stores into a packet: where they land, and what they leave alone.
use prototype_net.Base.{
  ℕ, zero, suc, ◌+◌, ◌≤◌, ◌<◌, ◌≡◌, refl, ap, ◌∙◌, ◌⊎◌, arith, List, [], ◌∷◌, length, get_or, set,
  slice, length-set, get_or-set_self, get_or-set_ne, slice_ext, slice_self,
}
use prototype_net.Ebpf.Kernel.{Kernel, IsKernel}
use prototype_net.Ebpf.Exec.{State, ok}
use prototype_net.Ebpf.Packet.{store_all, write_bytes}

pub length-write_bytes :
    (p : List ℕ) (offset : ℕ) (bs : List ℕ) → length (write_bytes p offset bs) ≡ length p
unfolding write_bytes
length-write_bytes p offset [] = refl
length-write_bytes p offset (b ∷ bs) =
    length-write_bytes (set p offset b) (offset + 1) bs ∙ length-set p offset b

-- Outside the written range nothing changes.
pub get_or-write_bytes_outside :
    (p : List ℕ) (offset : ℕ) (bs : List ℕ) (i : ℕ)
    → (i < offset) ⊎ (offset + length bs ≤ i)
    → get_or (write_bytes p offset bs) i 0 ≡ get_or p i 0
unfolding write_bytes
get_or-write_bytes_outside p offset [] i h = refl
get_or-write_bytes_outside p offset (b ∷ bs) i h =
    get_or-write_bytes_outside (set p offset b) (offset + 1) bs i (omega arith)
    ∙ get_or-set_ne p offset i b 0 (omega arith)

-- Inside it the bytes are the written ones.
pub get_or-write_bytes_inside :
    (p : List ℕ) (offset : ℕ) (bs : List ℕ) (j : ℕ)
    → j < length bs
    → offset + length bs ≤ length p
    → get_or (write_bytes p offset bs) (offset + j) 0 ≡ get_or bs j 0
unfolding write_bytes
get_or-write_bytes_inside p offset [] j h fits = absurd (omega arith)
get_or-write_bytes_inside p offset (b ∷ bs) zero h fits =
    get_or-write_bytes_outside (set p offset b) (offset + 1) bs (offset + 0) (omega arith)
    ∙ ap (λ i. get_or (set p offset b) i 0) {y = offset} (omega arith)
    ∙ get_or-set_self p offset b 0 (omega arith)
get_or-write_bytes_inside p offset (b ∷ bs) (suc j) h fits =
    ap (λ i. get_or (write_bytes (set p offset b) (offset + 1) bs) i 0) {y = offset + 1 + j}
      (omega arith)
    ∙ get_or-write_bytes_inside (set p offset b) (offset + 1) bs j (omega arith)
        (omega (arith, length-set p offset b))

pub slice-write_bytes :
    (p : List ℕ) (offset : ℕ) (bs : List ℕ) (n : ℕ)
    → length bs ≡ n
    → offset + n ≤ length p
    → slice (write_bytes p offset bs) offset n ≡ bs
slice-write_bytes p offset bs n e fits =
    slice_ext (write_bytes p offset bs) bs offset 0 n (λ j h.
      get_or-write_bytes_inside p offset bs j (omega arith) (omega arith)
      ∙ ap (λ i. get_or bs i 0) {y = 0 + j} (omega arith))
    ∙ slice_self bs n e

-- The stores of the program, on a packet that they fit in.
pub store_all_lem :
    (k : Kernel) (v : IsKernel k) (offset : ℕ) (bs : List ℕ) (s : State)
    → offset + length bs ≤ length s.packet
    → store_all k offset bs s ≡ (ok tt, record s { packet = write_bytes s.packet offset bs })
unfolding store_all write_bytes
store_all_lem k v offset [] s fits = refl
store_all_lem k v offset (b ∷ bs) s fits = rw (v.store_in s.packet offset b (omega arith)) (
    store_all_lem k v (offset + 1) bs (record s { packet = set s.packet offset b })
      (omega (arith, length-set s.packet offset b)))
