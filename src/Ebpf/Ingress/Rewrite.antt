-- ===== src/Ebpf/Ingress/Rewrite.antt =====
-- The writes of both classifiers of ebpf/src/main.rs: what a rewritten packet looks like, and that
-- `rewrite_outbound` makes one.
use prototype_net.Base.{
  ℕ, ◌+◌, ◌%◌, ◌≤◌, ◌<◌, ◌≡◌, ◌∙◌, ◌⊎◌, arith, List, length, get_or, slice, slice_ext,
}
use prototype_net.Ebpf.Kernel.{Kernel, IsKernel, OnlyChecksum}
use prototype_net.Ebpf.Exec.{State, ok}
use prototype_net.Ebpf.Packet.{write_bytes, update_addr_csum}
use prototype_net.Ebpf.Packet.Writes.{
  length-write_bytes, get_or-write_bytes_outside, slice-write_bytes,
}

-- A byte outside the two addresses and the checksum of the header at `ip_off`.
abbrev pub Untouched : ℕ → ℕ → ℕ → Type 0
Untouched ip_off csum i = ((i < ip_off + 8) ⊎ (ip_off + 40 ≤ i)) × ((i < csum) ⊎ (csum + 2 ≤ i))

-- `q` is `p` with new addresses; besides, only the checksum may differ.
pub record IsRewritten (ip_off csum : ℕ) (src dst p q : List ℕ) : Type 0 where
  pub same_length : length q ≡ length p
  pub new_src : slice q (ip_off + 8) 16 ≡ src
  pub new_dst : slice q (ip_off + 24) 16 ≡ dst
  pub elsewhere : (i : ℕ) → Untouched ip_off csum i → get_or q i 0 ≡ get_or p i 0

-- An update of the checksum by the kernel's helper.
pub update_addr_csum_lem :
    (k : Kernel) (v : IsKernel k) (csum : ℕ) (old new : List ℕ) (s : State)
    → csum + 2 ≤ length s.packet
    → csum % 2 ≡ 0
    → (q : List ℕ) × (update_addr_csum k csum old new s ≡ (ok tt, record s { packet = q }))
      × OnlyChecksum s.packet q csum
unfolding update_addr_csum
update_addr_csum_lem k v csum old new s fits even =
    let r = v.csum_in s.packet csum 0 (k.csum_diff old new) 16 fits even in (r.0, rw r.1, r.2)

-- A checksum behind the addresses keeps a rewritten packet rewritten.
pub IsRewritten-csum :
    (ip_off csum : ℕ) (src dst p q r : List ℕ)
    → ip_off + 40 ≤ csum
    → IsRewritten ip_off csum src dst p q
    → OnlyChecksum q r csum
    → IsRewritten ip_off csum src dst p r
IsRewritten-csum ip_off csum src dst p q r behind w o = record {
  same_length = o.same_length ∙ w.same_length;
  new_src =
      slice_ext r q (ip_off + 8) (ip_off + 8) 16 (λ j h. o.elsewhere (ip_off + 8 + j) (omega arith))
      ∙ w.new_src;
  new_dst =
      slice_ext r q (ip_off + 24) (ip_off + 24) 16
        (λ j h. o.elsewhere (ip_off + 24 + j) (omega arith))
      ∙ w.new_dst;
  elsewhere = λ i u. o.elsewhere i u.1 ∙ w.elsewhere i u;
}

-- The two addresses, written in either order.
pub IsRewritten-dst_src :
    (ip_off csum : ℕ) (src dst p : List ℕ)
    → length src ≡ 16
    → length dst ≡ 16
    → ip_off + 40 ≤ length p
    → IsRewritten ip_off csum src dst p
        (write_bytes (write_bytes p (ip_off + 24) dst) (ip_off + 8) src)
IsRewritten-dst_src ip_off csum src dst p hs hd fits =
    let p' = write_bytes p (ip_off + 24) dst in
    let same = length-write_bytes p (ip_off + 24) dst in
    record {
      same_length = length-write_bytes p' (ip_off + 8) src ∙ same;
      new_src = slice-write_bytes p' (ip_off + 8) src 16 hs (omega (arith, same));
      new_dst =
          slice_ext (write_bytes p' (ip_off + 8) src) p' (ip_off + 24) (ip_off + 24) 16
            (λ j h. get_or-write_bytes_outside p' (ip_off + 8) src (ip_off + 24 + j) (omega arith))
          ∙ slice-write_bytes p (ip_off + 24) dst 16 hd (omega arith);
      elsewhere = λ i u.
          get_or-write_bytes_outside p' (ip_off + 8) src i (omega arith)
          ∙ get_or-write_bytes_outside p (ip_off + 24) dst i (omega arith);
    }

pub IsRewritten-src_dst :
    (ip_off csum : ℕ) (src dst p : List ℕ)
    → length src ≡ 16
    → length dst ≡ 16
    → ip_off + 40 ≤ length p
    → IsRewritten ip_off csum src dst p
        (write_bytes (write_bytes p (ip_off + 8) src) (ip_off + 24) dst)
IsRewritten-src_dst ip_off csum src dst p hs hd fits =
    let p' = write_bytes p (ip_off + 8) src in
    let same = length-write_bytes p (ip_off + 8) src in
    record {
      same_length = length-write_bytes p' (ip_off + 24) dst ∙ same;
      new_src =
          slice_ext (write_bytes p' (ip_off + 24) dst) p' (ip_off + 8) (ip_off + 8) 16
            (λ j h. get_or-write_bytes_outside p' (ip_off + 24) dst (ip_off + 8 + j) (omega arith))
          ∙ slice-write_bytes p (ip_off + 8) src 16 hs (omega arith);
      new_dst = slice-write_bytes p' (ip_off + 24) dst 16 hd (omega (arith, same));
      elsewhere = λ i u.
          get_or-write_bytes_outside p' (ip_off + 24) dst i (omega arith)
          ∙ get_or-write_bytes_outside p (ip_off + 8) src i (omega arith);
    }
