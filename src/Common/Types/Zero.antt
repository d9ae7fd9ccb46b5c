-- ===== src/Common/Types/Zero.antt =====
-- `ProxySrcKey::is_zero` of common/src/lib.rs.
use prototype_net.Base.{ℕ, zero, suc, ◌+◌, ◌<◌, ◌≡◌, refl, subst, ◌↔◌, arith, get_or, true, ==_iff}
use prototype_net.Word.Fields.{or-eq-zero}
use prototype_net.Common.Types.{ProxySrcKey, is_zero, is_zero_loop}

abbrev ZeroAt : ProxySrcKey → ℕ → Type 0
ZeroAt key i = (get_or key.prince_key i 0 ≡ 0) × (get_or key.siphash_key i 0 ≡ 0)

-- The byte at `i` and those after it.
at_offset :
    (key : ProxySrcKey) (left i : ℕ)
    → ZeroAt key i
    → ((j : ℕ) → j < left → ZeroAt key (i + 1 + j))
    → (j : ℕ) → j < suc left
    → ZeroAt key (i + j)
at_offset key left i here rest zero p = subst (ZeroAt key) (omega arith) here
at_offset key left i here rest (suc j) p = subst (ZeroAt key) (omega arith) (rest j (omega arith))

-- A zero accumulator at the end was zero at the start and met zero bytes only.
loop_zero :
    (left i acc : ℕ) (key : ProxySrcKey)
    → is_zero_loop left i acc key ≡ 0
    → (acc ≡ 0) × ((j : ℕ) → j < left → ZeroAt key (i + j))
unfolding is_zero_loop
loop_zero zero i acc key h = (h, λ j p. absurd (omega arith))
loop_zero (suc left) i acc key h =
    let rest = loop_zero left (i + 1) _ key h in
    let outer = or-eq-zero _ (get_or key.siphash_key i 0) rest.0 in
    let inner = or-eq-zero acc (get_or key.prince_key i 0) outer.0 in
    (inner.0, λ j p. at_offset key left i (inner.1, outer.1) rest.1 j p)

zero_loop :
    (left i : ℕ) (key : ProxySrcKey)
    → ((j : ℕ) → j < left → ZeroAt key (i + j))
    → is_zero_loop left i 0 key ≡ 0
unfolding is_zero_loop
zero_loop zero i key h = refl
zero_loop (suc left) i key h =
    let here : ZeroAt key i = subst (ZeroAt key) (omega arith) (h 0 (omega arith)) in
    rw (here.0, here.1)
      (zero_loop left (i + 1) key
        (λ j p. subst (ZeroAt key) (omega arith) (h (suc j) (omega arith))))

-- The key counts as absent exactly when all of its 32 bytes are zero.
pub is_zero_iff :
    (key : ProxySrcKey)
    → (is_zero key ≡ true)
      ↔ ((i : ℕ) → i < 16 → (get_or key.prince_key i 0 ≡ 0) × (get_or key.siphash_key i 0 ≡ 0))
unfolding is_zero
is_zero_iff key = (
  λ h i p. subst (ZeroAt key) (omega arith) ((loop_zero 16 0 0 key ((==_iff _ 0).0 h)).1 i p),
  λ h. (==_iff _ 0).1 (zero_loop 16 0 key (λ j p. subst (ZeroAt key) (omega arith) (h j p))),
)
