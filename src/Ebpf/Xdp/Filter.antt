-- ===== src/Ebpf/Xdp/Filter.antt =====
-- `xdp_wan` of ebpf/src/main.rs in the production build: what it drops.
use prototype_net.Base.{
  ℕ, ◌+◌, ◌≤◌, ◌≡◌, ◌≢◌, ◌↔◌, ◌⊎◌, refl, ap, arith, List, length, get_or, slice, Bool-cases, true,
  false, some, inl, inr, ◌==◌, ltb, not, if◌then◌else◌,
}
use mathlib.Core.Option.{some-injective}
use prototype_net.Word.{from_be_bytes}
use prototype_net.Common.Contract.{proxy_src_prefix}
use prototype_net.Ebpf.Kernel.{eth_len, ipv6_len, ether_type_ipv6}
use prototype_net.Ebpf.Exec.{State, XdpAction, xdp_pass, xdp_drop, settle}
use prototype_net.Ebpf.Packet.{to_proto, has_prefix, ptr_at_xdp, ether_type, next_hdr, dst_addr}
use prototype_net.Ebpf.Packet.Layout.{has_prefix→slice, slice→has_prefix}
use prototype_net.Ebpf.Xdp.{xdp_wan, try_xdp_wan, filter_dst, is_icmp}

-- An Ethernet frame with a whole IPv6 header, no ICMPv6, to an address outside the prefix.
pub record IsForeign (p : List ℕ) : Type 0 where
  pub whole : eth_len + ipv6_len ≤ length p
  pub ipv6 : from_be_bytes (slice p 12 2) ≡ ether_type_ipv6
  pub not_icmp : get_or p 20 0 ≢ 58
  pub outside : slice p 38 4 ≢ proxy_src_prefix

-- The verdict of the production build in one expression.
verdict : List ℕ → XdpAction
verdict p =
    if ltb (length p) 14
    then xdp_pass
    else if not (from_be_bytes (slice p 12 2) == ether_type_ipv6)
    then xdp_pass
    else if ltb (length p) 54
    then xdp_pass
    else if is_icmp (to_proto (get_or p 20 0))
    then xdp_pass
    else if has_prefix (slice p 38 16) proxy_src_prefix
    then xdp_pass
    else xdp_drop

xdp_wan-eq-verdict : (s : State) → xdp_wan false s ≡ (some (verdict s.packet), s)
unfolding xdp_wan try_xdp_wan filter_dst verdict settle ptr_at_xdp ether_type next_hdr dst_addr
xdp_wan-eq-verdict s = ground arith

-- An address that fails the prefix test.
no_prefix :
    (addr : List ℕ) → slice addr 0 4 ≢ proxy_src_prefix → has_prefix addr proxy_src_prefix ≡ false
no_prefix addr h = elim (Bool-cases (has_prefix addr proxy_src_prefix)) [
  | inl hit ↦ absurd (h (has_prefix→slice addr 0x20 0x01 0x0d 0xb8 hit))
  | inr miss ↦ miss
]

XdpAction-cases : (a : XdpAction) → (some a ≡ some xdp_pass) ⊎ (some a ≡ some xdp_drop)
XdpAction-cases xdp_pass = inl refl
XdpAction-cases xdp_drop = inr refl

drop→foreign : (p : List ℕ) → verdict p ≡ xdp_drop → IsForeign p
unfolding verdict to_proto
drop→foreign p h = record {
  whole = ground arith;
  ipv6 = ground arith;
  not_icmp = λ e. ground arith;
  outside = λ e.
      let hit : has_prefix (slice p 38 16) proxy_src_prefix ≡ true =
        slice→has_prefix (slice p 38 16) 0x20 0x01 0x0d 0xb8 e in
      ground arith;
}

foreign→drop : (p : List ℕ) → IsForeign p → verdict p ≡ xdp_drop
unfolding verdict to_proto
foreign→drop p f =
    let miss : has_prefix (slice p 38 16) proxy_src_prefix ≡ false =
      no_prefix (slice p 38 16) f.outside in
    ground arith

-- In the production build the XDP program drops a frame exactly when it is a whole IPv6 frame
-- other than ICMPv6 whose destination lies outside the proxy-source prefix; every other frame
-- passes, and neither the frame nor a map is changed.
pub xdp_wan-drop_iff :
    (s : State)
    → ((xdp_wan false s).0 ≡ some xdp_drop ↔ IsForeign s.packet)
      × (((xdp_wan false s).0 ≡ some xdp_pass) ⊎ ((xdp_wan false s).0 ≡ some xdp_drop))
      × ((xdp_wan false s).1 ≡ s)
xdp_wan-drop_iff s = rw (xdp_wan-eq-verdict s) (
  (
    λ h. drop→foreign s.packet (some-injective (verdict s.packet) xdp_drop h),
    λ f. ap some (foreign→drop s.packet f),
  ),
  XdpAction-cases (verdict s.packet),
  refl,
)
