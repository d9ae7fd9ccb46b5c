-- ===== src/Ebpf/Defined/Steps.antt =====
-- The helpers of both classifiers of ebpf/src/main.rs and undefined behaviour.
use prototype_net.Base.{
  ℕ, arith, ◌/◌, ◌^◌, ◌==◌, ◌+◌, ◌≡◌, ◌≢◌, refl, Bool, true, false, not, if◌then◌else◌, List,
  length, ltb, ◌≤◌, Bool-cases, inl, inr, subst, sym, [], ◌∷◌, Option, none, some,
}
use prototype_net.Ebpf.Kernel.{Kernel, tcp_len, udp_len, eth_len, ether_type_ipv6}
use prototype_net.Ebpf.Exec.{
  State, Outcome, ok, err, undefined, Exec, pure, fail, try_get, try_put, continue, ◌>>=◌, TcAction,
  settle,
}
use prototype_net.Ebpf.Packet.{
  IpProto, tcp, udp, ipv6_icmp, other, is_l4, ptr_at, ports_at, ether_type, next_hdr, src_addr,
  dst_addr, extract_l4_ports, ipv6_offset, store_all, update_addr_csum,
}
use prototype_net.Ebpf.Ingress.{or_shot}
use prototype_net.Ebpf.IngressWan.{dev_csum}

module _ {A : Type 0} where
  abbrev pub is_undefined : Outcome A → Bool
  is_undefined (ok a) = false
  is_undefined err = false
  is_undefined undefined = true

  abbrev pub IsDefined : Exec A → Type 0
  IsDefined m = (s : State) → is_undefined (m s).0 ≡ false

module _ {A B : Type 0} where
  continue-IsDefined :
      (o : Outcome A) (f : A → Exec B) (s : State)
      → is_undefined o ≡ false
      → ((a : A) → IsDefined (f a))
      → is_undefined (continue o f s).0 ≡ false
  continue-IsDefined (ok a) f s h h' = h' a s
  continue-IsDefined err f s h h' = refl
  continue-IsDefined undefined f s h h' = absurd (cc)

  pub bind-IsDefined :
      (m : Exec A) (f : A → Exec B)
      → IsDefined m
      → ((a : A) → IsDefined (f a))
      → IsDefined (m >>= f)
  bind-IsDefined m f h h' s = continue-IsDefined (m s).0 f (m s).1 (h s) h'

pub try_put-IsDefined : (o : Option (List ℕ)) → IsDefined (try_put o)
try_put-IsDefined none s = refl
try_put-IsDefined (some p) s = refl

-- Code that reads: it has a defined outcome and leaves the state as it was.
module _ {A : Type 0} (s : State) where
  abbrev pub IsDefinedAt : Exec A → Type 0
  IsDefinedAt m = is_undefined (m s).0 ≡ false

  abbrev pub Reads : Exec A → Type 0
  Reads m = (is_undefined (m s).0 ≡ false) × ((m s).1 ≡ s)

  pub branch-IsDefinedAt :
      (c : Bool) (m n : Exec A)
      → IsDefinedAt m
      → (c ≡ false → IsDefinedAt n)
      → IsDefinedAt (if c then m else n)
  branch-IsDefinedAt true m n h h' = h
  branch-IsDefinedAt false m n h h' = h' refl

  pub or_shot-IsDefinedAt :
      (o : Option A) (f : A → Exec TcAction)
      → ((a : A) → is_undefined (f a s).0 ≡ false)
      → is_undefined (or_shot o f s).0 ≡ false
  or_shot-IsDefinedAt none f h = refl
  or_shot-IsDefinedAt (some a) f h = h a

module _ {A B : Type 0} (s : State) where
  continue-IsDefinedAt :
      (o : Outcome A) (t : State) (f : A → Exec B)
      → is_undefined o ≡ false
      → t ≡ s
      → ((a : A) → o ≡ ok a → IsDefinedAt s (f a))
      → is_undefined (continue o f t).0 ≡ false
  continue-IsDefinedAt (ok a) t f d e h =
      subst (λ u. is_undefined (f a u).0 ≡ false) (sym e) (h a refl)
  continue-IsDefinedAt err t f d e h = refl
  continue-IsDefinedAt undefined t f d e h = absurd (cc)

  pub bind-IsDefinedAt :
      (m : Exec A) (f : A → Exec B)
      → Reads s m
      → ((a : A) → (m s).0 ≡ ok a → IsDefinedAt s (f a))
      → IsDefinedAt s (m >>= f)
  bind-IsDefinedAt m f r h = continue-IsDefinedAt (m s).0 (m s).1 f r.0 r.1 h

  continue-Reads :
      (o : Outcome A) (t : State) (f : A → Exec B)
      → is_undefined o ≡ false
      → t ≡ s
      → ((a : A) → o ≡ ok a → Reads s (f a))
      → (is_undefined (continue o f t).0 ≡ false) × ((continue o f t).1 ≡ s)
  continue-Reads (ok a) t f d e h =
      subst (λ u. (is_undefined (f a u).0 ≡ false) × ((f a u).1 ≡ s)) (sym e) (h a refl)
  continue-Reads err t f d e h = (refl, e)
  continue-Reads undefined t f d e h = absurd (cc)

  pub bind-Reads :
      (m : Exec A) (f : A → Exec B)
      → Reads s m
      → ((a : A) → (m s).0 ≡ ok a → Reads s (f a))
      → Reads s (m >>= f)
  bind-Reads m f r h = continue-Reads (m s).0 (m s).1 f r.0 r.1 h

-- Reads of header fields that are inside the packet.
module _ (s : State) (p : ℕ) where
  ports_at-Reads : ltb (length s.packet) (p + 4) ≡ false → Reads s (ports_at p)
  unfolding ports_at
  ports_at-Reads h = rw h (refl, refl)

  pub ether_type-Reads : ltb (length s.packet) (p + 12 + 2) ≡ false → Reads s (ether_type p)
  unfolding ether_type
  ether_type-Reads h = rw h (refl, refl)

  pub next_hdr-Reads : ltb (length s.packet) (p + 6 + 1) ≡ false → Reads s (next_hdr p)
  unfolding next_hdr
  next_hdr-Reads h = rw h (refl, refl)

  pub src_addr-Reads : ltb (length s.packet) (p + 8 + 16) ≡ false → Reads s (src_addr p)
  unfolding src_addr
  src_addr-Reads h = rw h (refl, refl)

  pub dst_addr-Reads : ltb (length s.packet) (p + 24 + 16) ≡ false → Reads s (dst_addr p)
  unfolding dst_addr
  dst_addr-Reads h = rw h (refl, refl)

pub within : (n a b : ℕ) → ltb n a ≡ false → b ≤ a → ltb n b ≡ false
within n a b h le = ground arith

module _ (s : State) where
  ptr_at-Reads : (size offset : ℕ) → Reads s (ptr_at size offset)
  unfolding ptr_at
  ptr_at-Reads size offset = elim (Bool-cases (ltb (length s.packet) (offset + size))) [
    | inl outside ↦ rw outside (refl, refl)
    | inr inside ↦ rw inside (refl, refl)
  ]

  -- A pointer that was given out is the offset, and what it points to is inside the packet.
  ptr_at-ok :
      (size offset p : ℕ)
      → (ptr_at size offset s).0 ≡ ok p
      → (p ≡ offset) × (ltb (length s.packet) (offset + size) ≡ false)
  unfolding ptr_at
  ptr_at-ok size offset p e = elim (Bool-cases (ltb (length s.packet) (offset + size))) [
    | inl outside ↦ absurd (refused (rw outside at e))
    | inr inside ↦ (same (rw inside at e), inside)
  ]
    where
      fails : Outcome ℕ
      fails = err

      refused : ¬ (fails ≡ ok p)
      refused h = cc

      same : ok offset ≡ ok p → p ≡ offset
      same h = cc

  pub ptr_at-bind :
      {B : Type 0} (size offset : ℕ) (f : ℕ → Exec B)
      → (ltb (length s.packet) (offset + size) ≡ false → IsDefinedAt s (f offset))
      → IsDefinedAt s (ptr_at size offset >>= f)
  ptr_at-bind size offset f h =
      bind-IsDefinedAt s (ptr_at size offset) f (ptr_at-Reads size offset) λ p e.
        let q = ptr_at-ok size offset p e in subst (λ o. IsDefinedAt s (f o)) (sym q.0) (h q.1)

  -- A pointer and a read of `n` bytes behind it.
  ptr_at-then :
      {B : Type 0} (size offset : ℕ) (f : ℕ → Exec B)
      → (ltb (length s.packet) (offset + size) ≡ false → Reads s (f offset))
      → Reads s (ptr_at size offset >>= f)
  ptr_at-then size offset f h =
      bind-Reads s (ptr_at size offset) f (ptr_at-Reads size offset)
        λ p e. let q = ptr_at-ok size offset p e in subst (λ o. Reads s (f o)) (sym q.0) (h q.1)

  pub extract_l4_ports-Reads :
      (l4 : ℕ) (proto : IpProto) → is_l4 proto ≡ true → Reads s (extract_l4_ports l4 proto)
  unfolding extract_l4_ports is_l4
  extract_l4_ports-Reads l4 tcp h = ptr_at-then tcp_len l4 ports_at λ inside.
      ports_at-Reads s l4 (within (length s.packet) (l4 + tcp_len) (l4 + 4) inside (omega arith))
  extract_l4_ports-Reads l4 udp h = ptr_at-then udp_len l4 ports_at λ inside.
      ports_at-Reads s l4 (within (length s.packet) (l4 + udp_len) (l4 + 4) inside (omega arith))
  extract_l4_ports-Reads l4 ipv6_icmp h = absurd (cc)
  extract_l4_ports-Reads l4 (other n) h = absurd (cc)

pub not-false : (b : Bool) → not b ≡ false → b ≡ true
not-false true h = refl
not-false false h = absurd (cc)

pub settle-ne-none :
    {A : Type 0} (a : A) (o : Outcome A) → is_undefined o ≡ false → settle a o ≢ none
unfolding settle
settle-ne-none a (ok b) h e = absurd (cc)
settle-ne-none a err h e = absurd (cc)
settle-ne-none a undefined h e = absurd (cc)

module _ (k : Kernel) where
  pub store_all-IsDefined : (offset : ℕ) (bs : List ℕ) → IsDefined (store_all k offset bs)
  unfolding store_all
  store_all-IsDefined offset [] s = refl
  store_all-IsDefined offset (b ∷ bs) s =
      bind-IsDefined (try_put (k.store s.packet offset b)) (λ u. store_all k (offset + 1) bs)
        (try_put-IsDefined (k.store s.packet offset b)) (λ u. store_all-IsDefined (offset + 1) bs) s

  pub update_addr_csum-IsDefined :
      (offset : ℕ) (old new : List ℕ) → IsDefined (update_addr_csum k offset old new)
  unfolding update_addr_csum
  update_addr_csum-IsDefined offset old new s =
      try_put-IsDefined (k.l4_csum_replace s.packet offset 0 (k.csum_diff old new) 16) s

  pub ipv6_offset-Reads : (s : State) → Reads s (ipv6_offset k)
  unfolding ipv6_offset
  ipv6_offset-Reads s =
      bind-Reads s (try_get (k.load s.packet 0)) _ (try_get-Reads (k.load s.packet 0)) λ b e.
        elim (Bool-cases (b / 2 ^ 4 == 6)) [
          | inl bare ↦ rw bare (refl, refl)
          | inr framed ↦ rw framed (
              ptr_at-then s eth_len 0 _ λ inside.
                bind-Reads s (ether_type 0) _ (ether_type-Reads s 0 inside)
                  λ kind e. kind_Reads (kind == ether_type_ipv6))
        ]
    where
      try_get-Reads : (o : Option ℕ) → Reads s (try_get o)
      try_get-Reads none = (refl, refl)
      try_get-Reads (some a) = (refl, refl)

      kind_Reads : (c : Bool) → Reads s (if not c then fail else pure eth_len)
      kind_Reads true = (refl, refl)
      kind_Reads false = (refl, refl)

  pub dev_csum-IsDefined :
      (wan : Option (List ℕ)) (offset : ℕ) (dst : List ℕ) → IsDefined (dev_csum k wan offset dst)
  unfolding dev_csum
  dev_csum-IsDefined none offset dst s = refl
  dev_csum-IsDefined (some wan) offset dst s = update_addr_csum-IsDefined offset wan dst s
