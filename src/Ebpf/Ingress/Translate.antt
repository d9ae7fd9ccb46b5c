-- ===== src/Ebpf/Ingress/Translate.antt =====
-- `tc_ingress` of ebpf/src/main.rs on a TCP or UDP packet to a synthetic address.
use prototype_net.Base.{ℕ, ◌+◌, ◌≡◌, arith, List, length, slice, Bool, true, some}
use prototype_net.Word.{from_be_bytes}
use prototype_net.Common.Contract.{synthetic_prefix}
use prototype_net.Common.Types.{ProxySrcKey, NatEntry, new_ctx}
use prototype_net.Common.ProxySrc.{encode_proxy_src}
use prototype_net.Ebpf.Kernel.{Kernel, IsKernel, ipv6_len}
use prototype_net.Ebpf.Exec.{State, ok, act_ok, settle}
use prototype_net.Ebpf.Packet.{
  IpProto, has_prefix, csum_at, proto_num, next_hdr, src_addr, dst_addr,
}
use prototype_net.Ebpf.Packet.Layout.{
  ip_off-even, IsL4Packet, src_port_at, dst_port_at, ipv6_offset_lem, ports_lem, ptr_at_fits,
  next_hdr_read, src_addr_read, dst_addr_read,
}
use prototype_net.Ebpf.Ingress.{
  dev_wan, track_key, active_key, rewrite_outbound, outbound, try_tc_ingress, tc_ingress,
}
use prototype_net.Ebpf.Ingress.Rewrite.{IsRewritten}
use prototype_net.Ebpf.Ingress.Outbound.{chosen_src, tracked, rewrite_outbound_lem}

-- The fields of a packet that `tc_ingress` reads.
abbrev pub src_at : List ℕ → ℕ → List ℕ
src_at p ip_off = slice p (ip_off + 8) 16

abbrev pub dst_at : List ℕ → ℕ → List ℕ
dst_at p ip_off = slice p (ip_off + 24) 16

abbrev pub client_at : List ℕ → ℕ → ℕ
client_at p ip_off = from_be_bytes (slice (src_at p ip_off) 12 4)

abbrev pub domain_at : List ℕ → ℕ → ℕ
domain_at p ip_off = from_be_bytes (slice (dst_at p ip_off) 4 4)

module _ (k : Kernel) (v : IsKernel k) (dev : Bool) (s : State) (ip_off : ℕ) (proto : IpProto)
    (packet : IsL4Packet s.packet ip_off proto) where
  -- The ports of the flow.
  abbrev sport : ℕ
  sport = src_port_at s.packet (ip_off + ipv6_len)

  abbrev dport : ℕ
  dport = dst_port_at s.packet (ip_off + ipv6_len)

  -- The checks before the prefix.
  pub try_tc_ingress-eq-outbound :
      has_prefix (dst_at s.packet ip_off) synthetic_prefix ≡ true
      → try_tc_ingress k dev s ≡ outbound k dev ip_off ip_off proto (dst_at s.packet ip_off) s
  unfolding try_tc_ingress next_hdr dst_addr
  try_tc_ingress-eq-outbound prefixed = rw (
    ipv6_offset_lem k v s ip_off proto packet,
    ptr_at_fits ipv6_len ip_off s (omega (arith, packet.fits)),
    next_hdr_read k v s ip_off proto packet,
    packet.next,
    packet.l4,
    dst_addr_read k v s ip_off proto packet,
    prefixed,
  )

  pub outbound-eq-rewrite :
      (entry : NatEntry) (key : ProxySrcKey) (proxy_src : List ℕ)
      → s.maps.nat_map (domain_at s.packet ip_off) ≡ some entry
      → active_key s.maps ≡ some key
      → encode_proxy_src
          (client_at s.packet ip_off)
          (domain_at s.packet ip_off)
          (new_ctx sport dport (proto_num proto))
          key
        ≡ some proxy_src
      → outbound k dev ip_off ip_off proto (dst_at s.packet ip_off) s
        ≡ rewrite_outbound k dev ip_off proto
            (src_at s.packet ip_off)
            (dst_at s.packet ip_off)
            entry.origin_ipv6
            sport
            dport
            proxy_src
            s
  unfolding outbound src_addr
  outbound-eq-rewrite entry key proxy_src found keyed encoded = rw (
    found,
    src_addr_read k v s ip_off proto packet,
    ports_lem k v s ip_off proto packet,
    keyed,
    encoded,
  )

  -- A TCP or UDP packet to a synthetic address of a known domain, from a client whose number fits,
  -- under a usable key, is passed on with its destination replaced by the origin of the domain and
  -- its source by the encoded proxy-source address (in dev mode by the WAN address, if one is set,
  -- and the flow is tracked); besides these and the checksum no byte changes.
  pub tc_ingress_translates :
      (entry : NatEntry) (key : ProxySrcKey) (proxy_src : List ℕ)
      → has_prefix (dst_at s.packet ip_off) synthetic_prefix ≡ true
      → s.maps.nat_map (domain_at s.packet ip_off) ≡ some entry
      → active_key s.maps ≡ some key
      → encode_proxy_src
          (client_at s.packet ip_off)
          (domain_at s.packet ip_off)
          (new_ctx sport dport (proto_num proto))
          key
        ≡ some proxy_src
      → length entry.origin_ipv6 ≡ 16
      → length (chosen_src dev (dev_wan s.maps) proxy_src) ≡ 16
      → (q : List ℕ) × (tc_ingress k dev s ≡ (
        some act_ok,
        record {
          packet = q;
          maps =
              tracked k dev
                (dev_wan s.maps)
                (track_key entry.origin_ipv6 sport dport proto)
                proxy_src
                s.maps;
        },
      ))
        × IsRewritten ip_off
            (csum_at (ip_off + ipv6_len) proto)
            (chosen_src dev (dev_wan s.maps) proxy_src)
            entry.origin_ipv6
            s.packet
            q
  unfolding tc_ingress settle
  tc_ingress_translates entry key proxy_src prefixed found keyed encoded ho hs = (
    rewritten.0,
    rw (
      try_tc_ingress-eq-outbound prefixed,
      outbound-eq-rewrite entry key proxy_src found keyed encoded,
      rewritten.1,
    ),
    rewritten.2,
  )
    where
      rewritten :
          (q : List ℕ) × (rewrite_outbound k dev ip_off proto
              (src_at s.packet ip_off)
              (dst_at s.packet ip_off)
              entry.origin_ipv6
              sport
              dport
              proxy_src
              s
            ≡ (
              ok act_ok,
              record {
                packet = q;
                maps =
                    tracked k dev
                      (dev_wan s.maps)
                      (track_key entry.origin_ipv6 sport dport proto)
                      proxy_src
                      s.maps;
              },
            ))
          × IsRewritten ip_off
              (csum_at (ip_off + ipv6_len) proto)
              (chosen_src dev (dev_wan s.maps) proxy_src)
              entry.origin_ipv6
              s.packet
              q
      rewritten =
          rewrite_outbound_lem k v dev ip_off proto (src_at s.packet ip_off)
            (dst_at s.packet ip_off) entry.origin_ipv6 proxy_src sport dport s packet.l4 packet.fits
            ho hs (ip_off-even packet)
