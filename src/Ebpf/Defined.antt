-- ===== src/Ebpf/Defined.antt =====
-- The packet programs of ebpf/src/main.rs and undefined behaviour: the classifiers here, the helpers
-- they share in Steps, and the XDP program in Ebpf/Xdp/Defined.antt.
pub mod Steps
use prototype_net.Base.{
  ℕ, arith, ◌/◌, ◌^◌, ◌==◌, zero, suc, ◌+◌, ◌≡◌, ◌≢◌, refl, Bool, Bool-cases, Option-cases, true,
  false, not, if◌then◌else◌, eq_bytes, inl, inr, length, ltb, List, [], ◌∷◌, slice, get_or, Option,
  none, some,
}
use prototype_net.Word.{from_be_bytes}
use prototype_net.Common.Address.{synthetic_ipv6, client_vip_from_id24}
use prototype_net.Common.ProxySrc.{encode_proxy_src}
use prototype_net.Common.Types.{new_ctx}
use prototype_net.Common.Contract.{synthetic_prefix, proxy_src_prefix}
use prototype_net.Ebpf.Kernel.{Kernel, ipv6_len, tcp_len, udp_len, eth_len}
use prototype_net.Ebpf.Exec.{
  State, Outcome, ok, err, undefined, Exec, pure, gets, try_get, try_put, continue, ◌>>=◌, ◌>>◌,
  TcAction, act_ok, act_shot, xdp_pass, settle,
}
use prototype_net.Ebpf.Packet.{
  IpProto, tcp, udp, ipv6_icmp, other, is_l4, ptr_at, ports_at, ether_type, next_hdr, src_addr,
  dst_addr, extract_l4_ports, ipv6_offset, store_all, update_addr_csum, has_prefix, csum_at,
  proto_num, to_proto,
}
use prototype_net.Ebpf.Ingress.{
  active_key, tc_ingress, try_tc_ingress, outbound, rewrite_outbound, final_src, or_shot, dev_wan,
}
use prototype_net.Ebpf.Xdp.{try_xdp_wan, xdp_wan}
use prototype_net.Ebpf.Xdp.Defined.{try_xdp_wan-IsDefinedAt}
use prototype_net.Ebpf.IngressWan.{
  try_decode_with_active_key, tc_ingress_wan, try_tc_ingress_wan, inbound, rewrite_inbound,
  compensate, dev_csum,
}
use prototype_net.Ebpf.Defined.Steps.{
  IsDefined, IsDefinedAt, bind-IsDefined, is_undefined, try_put-IsDefined, branch-IsDefinedAt,
  bind-IsDefinedAt, or_shot-IsDefinedAt, ptr_at-bind, within, next_hdr-Reads, src_addr-Reads,
  dst_addr-Reads, extract_l4_ports-Reads, not-false, settle-ne-none, store_all-IsDefined,
  update_addr_csum-IsDefined, ipv6_offset-Reads, dev_csum-IsDefined,
}

module _ (k : Kernel) where
  module _ (dev : Bool) where
    final_src-IsDefined :
        (origin : List ℕ) (sport dport : ℕ) (proto : IpProto) (proxy : List ℕ)
        → IsDefined (final_src k dev origin sport dport proto proxy)
    unfolding final_src
    final_src-IsDefined origin sport dport proto proxy s = elim (Option-cases (dev_wan s.maps)) [
      | inl off ↦ ground arith
      | inr (wan, on) ↦ ground arith
    ]

    rewrite_outbound-IsDefined :
        (off : ℕ) (proto : IpProto) (orig dst origin : List ℕ) (sport dport : ℕ) (proxy : List ℕ)
        → IsDefined (rewrite_outbound k dev off proto orig dst origin sport dport proxy)
    unfolding rewrite_outbound
    rewrite_outbound-IsDefined off proto orig dst origin sport dport proxy =
        bind-IsDefined (store_all k (off + 24) (slice origin 0 16)) _
          (store_all-IsDefined k (off + 24) (slice origin 0 16))
          λ u.
            bind-IsDefined (final_src k dev origin sport dport proto proxy) _
              (final_src-IsDefined origin sport dport proto proxy)
              λ src.
                bind-IsDefined (store_all k (off + 8) src) _ (store_all-IsDefined k (off + 8) src)
                  λ u.
                    bind-IsDefined (update_addr_csum k (csum_at (off + ipv6_len) proto) orig src) _
                      (update_addr_csum-IsDefined k _ orig src)
                      λ u.
                        bind-IsDefined
                          (update_addr_csum k (csum_at (off + ipv6_len) proto) dst origin) _
                          (update_addr_csum-IsDefined k _ dst origin) λ u s. refl

    compensate-IsDefined : (offset : ℕ) (dst : List ℕ) → IsDefined (compensate k dev offset dst)
    unfolding compensate
    compensate-IsDefined offset dst s =
        by_dev dev (dev_csum-IsDefined k (dev_wan s.maps) offset dst)
      where
        by_dev :
            (dev : Bool)
            → IsDefined (dev_csum k (dev_wan s.maps) offset dst)
            → is_undefined (compensate k dev offset dst s).0 ≡ false
        by_dev true h = h s
        by_dev false h = refl

    rewrite_inbound-IsDefined :
        (off : ℕ) (proto : IpProto) (src dst synthetic client : List ℕ)
        → IsDefined (rewrite_inbound k dev off proto src dst synthetic client)
    unfolding rewrite_inbound
    rewrite_inbound-IsDefined off proto src dst synthetic client =
        bind-IsDefined (store_all k (off + 8) synthetic) _
          (store_all-IsDefined k (off + 8) synthetic)
          λ u.
            bind-IsDefined (store_all k (off + 24) client) _
              (store_all-IsDefined k (off + 24) client)
              λ u.
                bind-IsDefined (update_addr_csum k (csum_at (off + ipv6_len) proto) src synthetic) _
                  (update_addr_csum-IsDefined k _ src synthetic)
                  λ u.
                    bind-IsDefined (update_addr_csum k (csum_at (off + ipv6_len) proto) dst client)
                      _ (update_addr_csum-IsDefined k _ dst client)
                      λ u.
                        bind-IsDefined (compensate k dev (csum_at (off + ipv6_len) proto) dst) _
                          (compensate-IsDefined _ dst)
                          λ u s.
                            bind-IsDefined
                              (try_put (
                                k.l4_csum_replace s.packet (csum_at (off + ipv6_len) proto) 0 0 48))
                              _ (try_put-IsDefined _) (λ u s. refl) s

    -- The parts that read, on a packet that reaches past the IPv6 header at `hdr`.
    module _ (s : State) (hdr : ℕ) (inside : ltb (length s.packet) (hdr + ipv6_len) ≡ false) where
      outbound-IsDefinedAt :
          (off : ℕ) (proto : IpProto) (dst : List ℕ)
          → is_l4 proto ≡ true
          → IsDefinedAt s (outbound k dev off hdr proto dst)
      unfolding outbound
      outbound-IsDefinedAt off proto dst l4 =
          or_shot-IsDefinedAt s (s.maps.nat_map (from_be_bytes (slice dst 4 4))) _ λ entry.
            bind-IsDefinedAt s (src_addr hdr) _
              (src_addr-Reads s hdr
                (within (length s.packet) (hdr + ipv6_len) (hdr + 8 + 16) inside (omega arith)))
              λ src e.
                bind-IsDefinedAt s (extract_l4_ports (off + ipv6_len) proto) _
                  (extract_l4_ports-Reads s (off + ipv6_len) proto l4)
                  λ ports e. or_shot-IsDefinedAt s (active_key s.maps) _ λ key.
                    or_shot-IsDefinedAt s
                      (encode_proxy_src (from_be_bytes (slice src 12 4))
                        (from_be_bytes (slice dst 4 4)) (new_ctx ports.0 ports.1 (proto_num proto))
                        key)
                      _
                      λ proxy.
                        rewrite_outbound-IsDefined off proto src dst entry.origin_ipv6 ports.0
                          ports.1 proxy s

      inbound-IsDefinedAt :
          (off : ℕ) (proto : IpProto) (dst : List ℕ)
          → is_l4 proto ≡ true
          → IsDefinedAt s (inbound k dev off hdr proto dst)
      unfolding inbound
      inbound-IsDefinedAt off proto dst l4 =
          bind-IsDefinedAt s (extract_l4_ports (off + ipv6_len) proto) _
            (extract_l4_ports-Reads s (off + ipv6_len) proto l4)
            λ ports e.
              or_shot-IsDefinedAt s
                (try_decode_with_active_key s.maps dst (new_ctx ports.1 ports.0 (proto_num proto)))
                _
                λ ids.
                  bind-IsDefinedAt s (src_addr hdr) _
                    (src_addr-Reads s hdr (
                      within (length s.packet) (hdr + ipv6_len) (hdr + 8 + 16) inside
                        (omega arith)))
                    λ src e. or_shot-IsDefinedAt s (s.maps.nat_map ids.1) _ λ entry.
                      branch-IsDefinedAt s (not (eq_bytes src entry.origin_ipv6)) _ _ refl λ e.
                        rewrite_inbound-IsDefined off proto src dst (synthetic_ipv6 ids.1)
                          (client_vip_from_id24 ids.0) s

      -- The header of both classifiers: the protocol, then the destination against a prefix.
      header-IsDefinedAt :
          (prefix : List ℕ) (next : IpProto → List ℕ → Exec TcAction)
          → ((proto : IpProto) (dst : List ℕ) → is_l4 proto ≡ true → IsDefinedAt s (next proto dst))
          → IsDefinedAt s (
              next_hdr hdr >>= λ nexthdr.
              if not (is_l4 nexthdr)
              then pure act_ok
              else (dst_addr hdr >>= λ dst.
                  if not (has_prefix dst prefix) then pure act_ok else next nexthdr dst))
      header-IsDefinedAt prefix next h =
          bind-IsDefinedAt s (next_hdr hdr) _
            (next_hdr-Reads s hdr
              (within (length s.packet) (hdr + ipv6_len) (hdr + 6 + 1) inside (omega arith)))
            λ proto e. branch-IsDefinedAt s (not (is_l4 proto)) _ _ refl λ l4.
              bind-IsDefinedAt s (dst_addr hdr) _
                (dst_addr-Reads s hdr
                  (within (length s.packet) (hdr + ipv6_len) (hdr + 24 + 16) inside (omega arith)))
                λ dst e.
                  branch-IsDefinedAt s (not (has_prefix dst prefix)) _ _ refl
                    λ e. h proto dst (not-false (is_l4 proto) l4)

    try_tc_ingress-IsDefined : IsDefined (try_tc_ingress k dev)
    unfolding try_tc_ingress
    try_tc_ingress-IsDefined s =
        bind-IsDefinedAt s (ipv6_offset k) _ (ipv6_offset-Reads k s) λ off e.
          ptr_at-bind s ipv6_len off _ λ inside.
            header-IsDefinedAt s off inside synthetic_prefix (outbound k dev off off)
              (outbound-IsDefinedAt s off inside off)

    try_tc_ingress_wan-IsDefined : IsDefined (try_tc_ingress_wan k dev)
    unfolding try_tc_ingress_wan
    try_tc_ingress_wan-IsDefined s =
        bind-IsDefinedAt s (ipv6_offset k) _ (ipv6_offset-Reads k s) λ off e.
          ptr_at-bind s ipv6_len off _ λ inside.
            header-IsDefinedAt s off inside proxy_src_prefix (inbound k dev off off)
              (inbound-IsDefinedAt s off inside off)

-- In either build, on any packet and any maps, and whatever the kernel's helpers return, neither
-- the classifiers nor the XDP program reaches `unreachable_unchecked`, and none of them reads a
-- header field, or writes a destination, through a pointer that leaves the packet. What a byte that
-- is no value of the protocol enum does is left out.
pub programs_defined :
    (k : Kernel) (dev : Bool) (s : State)
    → ((tc_ingress k dev s).0 ≢ none)
      × ((tc_ingress_wan k dev s).0 ≢ none)
      × ((xdp_wan dev s).0 ≢ none)
unfolding tc_ingress tc_ingress_wan xdp_wan
programs_defined k dev s = (
  settle-ne-none act_ok (try_tc_ingress k dev s).0 (try_tc_ingress-IsDefined k dev s),
  settle-ne-none act_ok (try_tc_ingress_wan k dev s).0 (try_tc_ingress_wan-IsDefined k dev s),
  settle-ne-none xdp_pass (try_xdp_wan dev s).0 (try_xdp_wan-IsDefinedAt dev s),
)
