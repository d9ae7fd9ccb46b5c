-- ===== src/Ebpf/IngressWan/Deliver.antt =====
-- `tc_ingress_wan` of ebpf/src/main.rs: which replies reach the tunnel, and with what addresses.
use prototype_net.Base.{
  ℕ, ◌+◌, ◌≡◌, ◌≢◌, refl, ap, ◌∙◌, sym, arith, List, length, Bool, true, false, some, ◌==◌,
  eq_bytes, eq_bytes_self,
}
use prototype_net.Common.Contract.{proxy_src_prefix}
use prototype_net.Common.Types.{ProxySrcKey, NatEntry, new_ctx, ProxySrcCtx}
use prototype_net.Common.Address.{synthetic_ipv6, client_vip_from_id24}
use prototype_net.Common.ProxySrc.{decode_proxy_src}
use prototype_net.Ebpf.Kernel.{Kernel, IsKernel, ipv6_len}
use prototype_net.Ebpf.Exec.{State, Maps, ok, act_redirect, settle}
use prototype_net.Ebpf.Packet.{
  IpProto, has_prefix, csum_at, proto_num, next_hdr, src_addr, dst_addr,
}
use prototype_net.Ebpf.Packet.Layout.{
  ip_off-even, IsL4Packet, src_port_at, dst_port_at, ipv6_offset_lem, ports_lem, ptr_at_fits,
  next_hdr_read, src_addr_read, dst_addr_read,
}
use prototype_net.Ebpf.Ingress.{active_key}
use prototype_net.Ebpf.Ingress.Rewrite.{IsRewritten}
use prototype_net.Ebpf.Ingress.Translate.{src_at, dst_at}
use prototype_net.Ebpf.IngressWan.{
  try_decode_with_active_key, redirect_to, rewrite_inbound, inbound, try_tc_ingress_wan,
  tc_ingress_wan,
}
use prototype_net.Ebpf.IngressWan.Inbound.{rewrite_inbound_lem}

pub length-synthetic : (d : ℕ) → length (synthetic_ipv6 d) ≡ 16
unfolding synthetic_ipv6
length-synthetic d = refl

pub length-client_vip : (c : ℕ) → length (client_vip_from_id24 c) ≡ 16
unfolding client_vip_from_id24
length-client_vip c = refl

decoded_by_key :
    (maps : Maps) (key : ProxySrcKey) (addr : List ℕ) (ctx : ProxySrcCtx)
    → active_key maps ≡ some key
    → try_decode_with_active_key maps addr ctx ≡ decode_proxy_src addr ctx key
unfolding try_decode_with_active_key
decoded_by_key maps key addr ctx h = rw h

-- The flow context of a reply has the client's view of the ports.
abbrev pub reply_ctx : List ℕ → ℕ → IpProto → ProxySrcCtx
reply_ctx p ip_off proto =
    new_ctx (dst_port_at p (ip_off + ipv6_len)) (src_port_at p (ip_off + ipv6_len))
      (proto_num proto)

module _ (k : Kernel) (v : IsKernel k) (dev : Bool) (s : State) (ip_off : ℕ) (proto : IpProto)
    (packet : IsL4Packet s.packet ip_off proto) where
  pub try_tc_ingress_wan-eq-inbound :
      has_prefix (dst_at s.packet ip_off) proxy_src_prefix ≡ true
      → try_tc_ingress_wan k dev s ≡ inbound k dev ip_off ip_off proto (dst_at s.packet ip_off) s
  unfolding try_tc_ingress_wan next_hdr dst_addr
  try_tc_ingress_wan-eq-inbound prefixed = rw (
    ipv6_offset_lem k v s ip_off proto packet,
    ptr_at_fits ipv6_len ip_off s (omega (arith, packet.fits)),
    next_hdr_read k v s ip_off proto packet,
    packet.next,
    packet.l4,
    dst_addr_read k v s ip_off proto packet,
    prefixed,
  )

  inbound-eq-rewrite :
      (c d : ℕ) (entry : NatEntry)
      → try_decode_with_active_key s.maps (dst_at s.packet ip_off) (reply_ctx s.packet ip_off proto)
        ≡ some (c, d)
      → s.maps.nat_map d ≡ some entry
      → src_at s.packet ip_off ≡ entry.origin_ipv6
      → inbound k dev ip_off ip_off proto (dst_at s.packet ip_off) s
        ≡ rewrite_inbound k dev ip_off proto
            (src_at s.packet ip_off)
            (dst_at s.packet ip_off)
            (synthetic_ipv6 d)
            (client_vip_from_id24 c)
            s
  unfolding inbound src_addr
  inbound-eq-rewrite c d entry decoded found genuine = rw (
    ports_lem k v s ip_off proto packet,
    decoded,
    src_addr_read k v s ip_off proto packet,
    found,
    same,
  )
    where
      same : eq_bytes (src_at s.packet ip_off) entry.origin_ipv6 ≡ true
      same = ap (eq_bytes (src_at s.packet ip_off)) (sym genuine) ∙ eq_bytes_self _

  -- A reply to a proxy-source address that decodes under the active key, from the origin of the
  -- decoded domain, is redirected to the tunnel, if its interface is known; its source is then the
  -- synthetic address of the domain and its destination the address of the decoded client, and
  -- besides these and the checksum no byte changes.
  pub tc_ingress_wan_delivers :
      (key : ProxySrcKey) (c d idx : ℕ) (entry : NatEntry)
      → has_prefix (dst_at s.packet ip_off) proxy_src_prefix ≡ true
      → active_key s.maps ≡ some key
      → decode_proxy_src (dst_at s.packet ip_off) (reply_ctx s.packet ip_off proto) key
        ≡ some (c, d)
      → s.maps.nat_map d ≡ some entry
      → src_at s.packet ip_off ≡ entry.origin_ipv6
      → s.maps.xfrm_ifindex 0 ≡ some idx
      → idx ≢ 0
      → (q : List ℕ) × (tc_ingress_wan k dev s
          ≡ (some (act_redirect (k.redirect idx)), record s { packet = q }))
        × IsRewritten ip_off
            (csum_at (ip_off + ipv6_len) proto)
            (synthetic_ipv6 d)
            (client_vip_from_id24 c)
            s.packet
            q
  unfolding tc_ingress_wan settle redirect_to
  tc_ingress_wan_delivers key c d idx entry prefixed keyed decoded found genuine up nonzero = (
    rewritten.0,
    rw (
      try_tc_ingress_wan-eq-inbound prefixed,
      inbound-eq-rewrite c d entry
          (decoded_by_key s.maps key _ (reply_ctx s.packet ip_off proto) keyed ∙ decoded) found
          genuine,
      rewritten.1,
      up,
      not_zero idx nonzero,
    ),
    rewritten.2,
  )
    where
      not_zero : (n : ℕ) → n ≢ 0 → (n == 0) ≡ false
      not_zero n h = ground arith

      rewritten :
          (q : List ℕ) × (rewrite_inbound k dev ip_off proto
              (src_at s.packet ip_off)
              (dst_at s.packet ip_off)
              (synthetic_ipv6 d)
              (client_vip_from_id24 c)
              s
            ≡ (ok (redirect_to k (s.maps.xfrm_ifindex 0)), record s { packet = q }))
          × IsRewritten ip_off
              (csum_at (ip_off + ipv6_len) proto)
              (synthetic_ipv6 d)
              (client_vip_from_id24 c)
              s.packet
              q
      rewritten =
          rewrite_inbound_lem k v dev ip_off proto (src_at s.packet ip_off) (dst_at s.packet ip_off)
            (synthetic_ipv6 d) (client_vip_from_id24 c) s packet.l4 packet.fits (length-synthetic d)
            (length-client_vip c) (ip_off-even packet)
