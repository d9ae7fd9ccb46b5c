-- ===== src/Ebpf/IngressWan.antt =====
-- `tc_ingress_wan` of ebpf/src/main.rs: replies of origin servers to proxy-source addresses.
pub mod Inbound
pub mod Deliver
pub mod Genuine
use prototype_net.Base.{
  ℕ, ◌+◌, ◌==◌, not, Bool, true, false, if◌then◌else◌, List, slice, Option, none, some, eq_bytes,
}
use prototype_net.Common.Contract.{proxy_src_prefix}
use prototype_net.Common.Types.{ProxySrcKey, ProxySrcCtx, NatEntry, new_ctx}
use prototype_net.Common.Address.{synthetic_ipv6, client_vip_from_id24}
use prototype_net.Common.ProxySrc.{decode_proxy_src}
use prototype_net.Ebpf.Kernel.{Kernel, ipv6_len}
use prototype_net.Ebpf.Exec.{
  State, Maps, Outcome, ok, err, undefined, Exec, pure, gets, try_put, ◌>>=◌, ◌>>◌, TcAction,
  act_ok, act_shot, act_redirect, settle,
}
use prototype_net.Ebpf.Packet.{
  IpProto, is_l4, ptr_at, next_hdr, src_addr, dst_addr, extract_l4_ports, has_prefix, proto_num,
  csum_at, ipv6_offset, store_all, update_addr_csum,
}
use prototype_net.Ebpf.Ingress.{active_key, dev_wan, or_shot}

decode_with : Option ProxySrcKey → List ℕ → ProxySrcCtx → Option (ℕ × ℕ)
decode_with none addr flow_ctx = none
decode_with (some key) addr flow_ctx = decode_proxy_src addr flow_ctx key

unfoldable pub try_decode_with_active_key : Maps → List ℕ → ProxySrcCtx → Option (ℕ × ℕ)
unfolding decode_with
try_decode_with_active_key maps addr flow_ctx = decode_with (active_key maps) addr flow_ctx

module _ (k : Kernel) where
  -- `Some(idx) if *idx != 0`
  unfoldable pub redirect_to : Option ℕ → TcAction
  redirect_to none = act_shot
  redirect_to (some idx) = if idx == 0 then act_shot else act_redirect (k.redirect idx)

  unfoldable pub dev_csum : Option (List ℕ) → ℕ → List ℕ → Exec (Unit {0})
  dev_csum none csum_offset dst_ipv6 = pure tt
  dev_csum (some wan) csum_offset dst_ipv6 = update_addr_csum k csum_offset wan dst_ipv6

module _ (k : Kernel) (dev : Bool) where
  -- In dev mode the checksum still stands for the WAN address: the missing step is added.
  unfoldable pub compensate : ℕ → List ℕ → Exec (Unit {0})
  compensate csum_offset dst_ipv6 s =
      if dev then dev_csum k (dev_wan s.maps) csum_offset dst_ipv6 s else pure tt s

  -- The part of `try_tc_ingress_wan` that writes, and the redirection. The flags are
  -- BPF_F_PSEUDO_HDR and BPF_F_MARK_MANGLED_0.
  unfoldable pub rewrite_inbound : ℕ → IpProto → List ℕ → List ℕ → List ℕ → List ℕ → Exec TcAction
  rewrite_inbound ip_off nexthdr src_ipv6 dst_ipv6 synthetic client_ipv6 = do
    let csum_offset = csum_at (ip_off + ipv6_len) nexthdr
    store_all k (ip_off + 8) synthetic
    store_all k (ip_off + 24) client_ipv6
    update_addr_csum k csum_offset src_ipv6 synthetic
    update_addr_csum k csum_offset dst_ipv6 client_ipv6
    compensate csum_offset dst_ipv6
    packet ← gets (λ s. s.packet)
    try_put (k.l4_csum_replace packet csum_offset 0 0 48)
    gets (λ s. redirect_to k (s.maps.xfrm_ifindex 0))

  -- The part of `try_tc_ingress_wan` after the prefix check. The context has the client's view:
  -- the reply's ports change places.
  unfoldable pub inbound : ℕ → ℕ → IpProto → List ℕ → Exec TcAction
  inbound ip_off ipv6hdr nexthdr dst_ipv6 = do
    reply_ports ← extract_l4_ports (ip_off + ipv6_len) nexthdr
    let flow_ctx = new_ctx reply_ports.1 reply_ports.0 (proto_num nexthdr)
    decoded ← gets (λ s. try_decode_with_active_key s.maps dst_ipv6 flow_ctx)
    or_shot decoded λ ids. do
      let client_ipv6 = client_vip_from_id24 ids.0
      src_ipv6 ← src_addr ipv6hdr
      nat_entry ← gets (λ s. s.maps.nat_map ids.1)
      or_shot nat_entry λ entry.
          if not (eq_bytes src_ipv6 entry.origin_ipv6)
          then pure act_shot
          else rewrite_inbound ip_off nexthdr src_ipv6 dst_ipv6 (synthetic_ipv6 ids.1) client_ipv6

  unfoldable pub try_tc_ingress_wan : Exec TcAction
  try_tc_ingress_wan = do
    ip_off ← ipv6_offset k
    ipv6hdr ← ptr_at ipv6_len ip_off
    nexthdr ← next_hdr ipv6hdr
    if not (is_l4 nexthdr) then pure act_ok else do
      dst_ipv6 ← dst_addr ipv6hdr
      if not (has_prefix dst_ipv6 proxy_src_prefix)
          then pure act_ok
          else inbound ip_off ipv6hdr nexthdr dst_ipv6

  unfoldable pub tc_ingress_wan : State → Option TcAction × State
  tc_ingress_wan s = (settle act_ok (try_tc_ingress_wan s).0, (try_tc_ingress_wan s).1)
