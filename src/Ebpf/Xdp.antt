-- ===== src/Ebpf/Xdp.antt =====
-- `xdp_wan` of ebpf/src/main.rs: the filter at the WAN interface, on Ethernet frames.
pub mod Filter
pub mod Defined
use prototype_net.Base.{
  ℕ, ◌+◌, ◌==◌, not, ◌&&◌, Bool, true, false, if◌then◌else◌, List, [], ◌∷◌, set, get_or, slice,
  length, ltb, Option, none, some, eq_bytes,
}
use prototype_net.Word.{u64}
use prototype_net.Common.Contract.{proxy_src_prefix}
use prototype_net.Common.Types.{ReplyTrackKey, ReplyTrackValue}
use prototype_net.Ebpf.Kernel.{eth_len, ipv6_len, ether_type_ipv6}
use prototype_net.Ebpf.Exec.{
  State, Maps, Outcome, ok, err, undefined, Exec, pure, unreachable, gets, ◌>>=◌, ◌>>◌, continue,
  XdpAction, xdp_pass, xdp_drop, settle,
}
use prototype_net.Ebpf.Packet.{
  IpProto, tcp, udp, ipv6_icmp, other, is_l4, ptr_at_xdp, ether_type, next_hdr, src_addr, dst_addr,
  extract_l4_ports_xdp, has_prefix, write_bytes,
}
use prototype_net.Ebpf.Ingress.{zero_addr, track_key}

-- `dbg_inc`: a counter past the end of the array is not there.
unfoldable pub dbg_inc : ℕ → Exec (Unit {0})
dbg_inc idx s = (
  ok tt,
  record s {
    maps = record s.maps {
      dbg_counters = set s.maps.dbg_counters idx (u64 (get_or s.maps.dbg_counters idx 0 + 1));
    };
  },
)

abbrev pub is_icmp : IpProto → Bool
is_icmp ipv6_icmp = true
is_icmp tcp = false
is_icmp udp = false
is_icmp (other n) = false

-- The end of the dev-mode block: a tracked reply gets its proxy-source destination back, through
-- the pointer to the header.
reply_hit : ℕ → Option ReplyTrackValue → Exec XdpAction
unfolding dbg_inc write_bytes
reply_hit ipv6hdr none s = (ok xdp_pass, (dbg_inc 4 s).1)
reply_hit ipv6hdr (some track_val) s =
    let s' = (dbg_inc 3 s).1 in
    if ltb (length s'.packet) (ipv6hdr + 40) then (undefined, s') else (
      ok xdp_pass,
      record s' { packet = write_bytes s'.packet (ipv6hdr + 24) (slice track_val.proxy_src 0 16) },
    )

-- `if let Ok(ports) = …`
reply_ports : ℕ → IpProto → Outcome (ℕ × ℕ) → Exec XdpAction
unfolding reply_hit
reply_ports ipv6hdr nexthdr err = pure xdp_pass
reply_ports ipv6hdr nexthdr undefined = unreachable
reply_ports ipv6hdr nexthdr (ok ports) = do
  src_ipv6 ← src_addr ipv6hdr
  found ← gets (λ s. s.maps.reply_track (track_key src_ipv6 ports.1 ports.0 nexthdr))
  reply_hit ipv6hdr found

-- The destination is the WAN address itself.
tracked_reply : ℕ → IpProto → Exec XdpAction
unfolding reply_ports
tracked_reply ipv6hdr nexthdr s =
    let counted = (dbg_inc 2 s).1 in
    if not (is_l4 nexthdr)
    then pure xdp_pass counted
    else reply_ports ipv6hdr nexthdr (extract_l4_ports_xdp (eth_len + ipv6_len) nexthdr counted).0
        counted

dropped : Exec XdpAction
dropped = do dbg_inc 5; pure xdp_drop

dev_block : Option (List ℕ) → ℕ → IpProto → List ℕ → Exec XdpAction
unfolding tracked_reply dropped
dev_block none ipv6hdr nexthdr dst_ipv6 = do dbg_inc 7; dropped
dev_block (some wan) ipv6hdr nexthdr dst_ipv6 =
    if not (eq_bytes wan zero_addr) && eq_bytes dst_ipv6 wan
    then tracked_reply ipv6hdr nexthdr
    else do dbg_inc 6; dropped

module _ (dev : Bool) where
  -- The part of `try_xdp_wan` after the ICMPv6 check.
  unfoldable pub filter_dst : ℕ → IpProto → List ℕ → Exec XdpAction
  unfolding dev_block
  filter_dst ipv6hdr nexthdr dst_ipv6 =
      if dev
      then (do
        dbg_inc 0
        if has_prefix dst_ipv6 proxy_src_prefix then (do dbg_inc 1; pure xdp_pass) else (do
          wan ← gets (λ s. s.maps.dev_wan_ipv6 0)
          dev_block wan ipv6hdr nexthdr dst_ipv6))
      else if has_prefix dst_ipv6 proxy_src_prefix
      then pure xdp_pass
      else pure xdp_drop

  unfoldable pub try_xdp_wan : Exec XdpAction
  try_xdp_wan = do
    ethhdr ← ptr_at_xdp eth_len 0
    kind ← ether_type ethhdr
    if not (kind == ether_type_ipv6) then pure xdp_pass else do
      ipv6hdr ← ptr_at_xdp ipv6_len eth_len
      nexthdr ← next_hdr ipv6hdr
      if is_icmp nexthdr
          then pure xdp_pass
          else do dst_ipv6 ← dst_addr ipv6hdr; filter_dst ipv6hdr nexthdr dst_ipv6

  unfoldable pub xdp_wan : State → Option XdpAction × State
  xdp_wan s = (settle xdp_pass (try_xdp_wan s).0, (try_xdp_wan s).1)
