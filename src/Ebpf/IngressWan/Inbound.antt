-- ===== src/Ebpf/IngressWan/Inbound.antt =====
-- `try_tc_ingress_wan` of ebpf/src/main.rs: the writes of an accepted reply.
use prototype_net.Base.{
  ℕ, ◌+◌, ◌%◌, ◌≤◌, ◌≡◌, refl, ◌∙◌, arith, List, length, Bool, true, false, Option, none, some,
  if◌then◌else◌,
}
use prototype_net.Ebpf.Kernel.{Kernel, IsKernel, OnlyChecksum, ipv6_len}
use prototype_net.Ebpf.Exec.{State, pure, ok}
use prototype_net.Ebpf.Packet.{IpProto, is_l4, csum_at, write_bytes, store_all, update_addr_csum}
use prototype_net.Ebpf.Packet.Layout.{l4_len}
use prototype_net.Ebpf.Packet.Writes.{length-write_bytes, store_all_lem}
use prototype_net.Ebpf.Ingress.{dev_wan}
use prototype_net.Ebpf.Ingress.Rewrite.{
  IsRewritten, IsRewritten-csum, IsRewritten-src_dst, update_addr_csum_lem,
}
use prototype_net.Ebpf.Ingress.Outbound.{csum_in_header, csum_at-even}
use prototype_net.Ebpf.IngressWan.{compensate, dev_csum, redirect_to, rewrite_inbound}

OnlyChecksum-refl : (p : List ℕ) (csum : ℕ) → OnlyChecksum p p csum
OnlyChecksum-refl p csum = record { same_length = refl; elsewhere = λ i h. refl }

compensate_cases :
    (k : Kernel) (v : IsKernel k) (dev : Bool) (wan : Option (List ℕ)) (csum : ℕ) (dst : List ℕ)
    (s : State)
    → csum + 2 ≤ length s.packet
    → csum % 2 ≡ 0
    → (q : List ℕ) × ((if dev then dev_csum k wan csum dst s else pure tt s)
        ≡ (ok tt, record s { packet = q }))
      × OnlyChecksum s.packet q csum
unfolding dev_csum
compensate_cases k v false wan csum dst s fits even =
    (s.packet, refl, OnlyChecksum-refl s.packet csum)
compensate_cases k v true none csum dst s fits even =
    (s.packet, refl, OnlyChecksum-refl s.packet csum)
compensate_cases k v true (some wan) csum dst s fits even =
    update_addr_csum_lem k v csum wan dst s fits even

-- The dev-mode step touches the checksum at most.
compensate_lem :
    (k : Kernel) (v : IsKernel k) (dev : Bool) (csum : ℕ) (dst : List ℕ) (s : State)
    → csum + 2 ≤ length s.packet
    → csum % 2 ≡ 0
    → (q : List ℕ) × (compensate k dev csum dst s ≡ (ok tt, record s { packet = q }))
      × OnlyChecksum s.packet q csum
unfolding compensate
compensate_lem k v dev csum dst s fits even =
    compensate_cases k v dev (dev_wan s.maps) csum dst s fits even

module _ (k : Kernel) (v : IsKernel k) (dev : Bool) (ip_off : ℕ) (proto : IpProto)
    (src_ipv6 dst_ipv6 synthetic client : List ℕ) (s : State) (l4 : is_l4 proto ≡ true)
    (fits : ip_off + ipv6_len + l4_len proto ≤ length s.packet) (hs : length synthetic ≡ 16)
    (hc : length client ≡ 16) (even : ip_off % 2 ≡ 0) where
  -- The checks of the kernel's helpers: the checksum lies in the packet.
  abbrev csum : ℕ
  csum = csum_at (ip_off + ipv6_len) proto

  -- The state after the two addresses are written.
  abbrev addressed : State
  addressed = record s {
    packet = write_bytes (write_bytes s.packet (ip_off + 8) synthetic) (ip_off + 24) client;
  }

  length-addressed : length addressed.packet ≡ length s.packet
  length-addressed =
      length-write_bytes (write_bytes s.packet (ip_off + 8) synthetic) (ip_off + 24) client
      ∙ length-write_bytes s.packet (ip_off + 8) synthetic

  in_packet : (csum + 2 ≤ length s.packet) × (ip_off + 40 ≤ csum)
  in_packet = omega (arith, csum_in_header (ip_off + ipv6_len) proto l4)

  csum-even : csum % 2 ≡ 0
  csum-even = csum_at-even (ip_off + ipv6_len) proto (omega arith)

  store_src :
      store_all k (ip_off + 8) synthetic s
      ≡ (ok tt, record s { packet = write_bytes s.packet (ip_off + 8) synthetic })
  store_src = store_all_lem k v (ip_off + 8) synthetic s (omega arith)

  store_dst :
      store_all k
        (ip_off + 24)
        client
        (record s { packet = write_bytes s.packet (ip_off + 8) synthetic })
      ≡ (ok tt, addressed)
  store_dst =
      store_all_lem k v (ip_off + 24) client
        (record s { packet = write_bytes s.packet (ip_off + 8) synthetic })
        (omega (arith, length-write_bytes s.packet (ip_off + 8) synthetic))

  -- From the addressed packet on only the checksum changes.
  abbrev Still : List ℕ → Type 0
  Still q = (length q ≡ length s.packet) × IsRewritten ip_off csum synthetic client s.packet q

  addressed-Still : Still addressed.packet
  addressed-Still = (
    length-addressed,
    IsRewritten-src_dst ip_off csum synthetic client s.packet hs hc (omega arith),
  )

  csum-Still : (p q : List ℕ) → Still p → OnlyChecksum p q csum → Still q
  csum-Still p q still o = (
    o.same_length ∙ still.0,
    IsRewritten-csum ip_off csum synthetic client s.packet p q in_packet.1 still.1 o,
  )

  update_step :
      (old new p : List ℕ)
      → Still p
      → (q : List ℕ) × (update_addr_csum k csum old new (record s { packet = p })
          ≡ (ok tt, record s { packet = q }))
        × Still q
  update_step old new p still =
      let r =
        update_addr_csum_lem k v csum old new (record s { packet = p })
          (omega (arith, in_packet, still.0)) csum-even in
      (r.0, r.1, csum-Still p r.0 still r.2)

  compensate_step :
      (p : List ℕ)
      → Still p
      → (q : List ℕ) × (compensate k dev csum dst_ipv6 (record s { packet = p })
          ≡ (ok tt, record s { packet = q }))
        × Still q
  compensate_step p still =
      let r =
        compensate_lem k v dev csum dst_ipv6 (record s { packet = p })
          (omega (arith, in_packet, still.0)) csum-even in
      (r.0, r.1, csum-Still p r.0 still r.2)

  mark_step :
      (p : List ℕ) → Still p → (q : List ℕ) × (k.l4_csum_replace p csum 0 0 48 ≡ some q) × Still q
  mark_step p still =
      let r = v.csum_in p csum 0 0 48 (omega (arith, in_packet, still.0)) csum-even in
      (r.0, r.1, csum-Still p r.0 still r.2)

  -- An accepted reply gets both addresses, and goes where XFRM_IFINDEX says.
  pub rewrite_inbound_lem :
      (q : List ℕ) × (rewrite_inbound k dev ip_off proto src_ipv6 dst_ipv6 synthetic client s
        ≡ (ok (redirect_to k (s.maps.xfrm_ifindex 0)), record s { packet = q }))
      × IsRewritten ip_off (csum_at (ip_off + ipv6_len) proto) synthetic client s.packet q
  unfolding rewrite_inbound
  rewrite_inbound_lem =
      let u = update_step src_ipv6 synthetic addressed.packet addressed-Still in
      let w = update_step dst_ipv6 client u.0 u.2 in
      let c = compensate_step w.0 w.2 in
      let m = mark_step c.0 c.2 in (m.0, rw (store_src, store_dst, u.1, w.1, c.1, m.1), m.2.1)
