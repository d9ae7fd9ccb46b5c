-- ===== src/Ebpf/Xdp/Defined.antt =====
-- `xdp_wan` of ebpf/src/main.rs and undefined behaviour.
use prototype_net.Base.{
  ℕ, arith, ◌+◌, ◌==◌, ◌≡◌, refl, Bool, Bool-cases, inl, inr, true, false, not, ◌&&◌, List, length,
  ltb, eq_bytes, Option, none, some,
}
use prototype_net.Common.Contract.{proxy_src_prefix}
use prototype_net.Common.Types.{ReplyTrackValue}
use prototype_net.Ebpf.Kernel.{eth_len, ipv6_len, ether_type_ipv6}
use prototype_net.Ebpf.Exec.{State, Outcome, ok, err, undefined, Exec, ◌>>=◌}
use prototype_net.Ebpf.Packet.{
  IpProto, tcp, udp, ipv6_icmp, other, is_l4, ptr_at, ptr_at_xdp, ether_type, next_hdr, src_addr,
  dst_addr, extract_l4_ports, extract_l4_ports_xdp, has_prefix,
}
use prototype_net.Ebpf.Ingress.{zero_addr, track_key}
use prototype_net.Ebpf.Defined.Steps.{
  IsDefinedAt, is_undefined, branch-IsDefinedAt, bind-IsDefinedAt, ptr_at-bind, within,
  ether_type-Reads, next_hdr-Reads, src_addr-Reads, dst_addr-Reads, extract_l4_ports-Reads,
}
use prototype_net.Ebpf.Xdp.{
  dbg_inc, is_icmp, reply_hit, reply_ports, tracked_reply, dropped, dev_block, filter_dst,
  try_xdp_wan,
}

-- The bounds check of the XDP program has the text of the classifiers'.
ptr_at_xdp-bind :
    {B : Type 0} (s : State) (size offset : ℕ) (f : ℕ → Exec B)
    → (ltb (length s.packet) (offset + size) ≡ false → IsDefinedAt s (f offset))
    → IsDefinedAt s (ptr_at_xdp size offset >>= f)
unfolding ptr_at_xdp ptr_at
ptr_at_xdp-bind s size offset f h = ptr_at-bind s size offset f h

extract_l4_ports_xdp-IsDefinedAt :
    (s : State) (l4 : ℕ) (proto : IpProto) → IsDefinedAt s (extract_l4_ports_xdp l4 proto)
unfolding extract_l4_ports_xdp extract_l4_ports ptr_at_xdp ptr_at is_l4
extract_l4_ports_xdp-IsDefinedAt s l4 tcp = (extract_l4_ports-Reads s l4 tcp refl).0
extract_l4_ports_xdp-IsDefinedAt s l4 udp = (extract_l4_ports-Reads s l4 udp refl).0
extract_l4_ports_xdp-IsDefinedAt s l4 ipv6_icmp = refl
extract_l4_ports_xdp-IsDefinedAt s l4 (other n) = refl

-- On a frame that reaches past the IPv6 header.
module _ (hdr : ℕ) where
  abbrev Reaches : State → Type 0
  Reaches s = ltb (length s.packet) (hdr + ipv6_len) ≡ false

  reply_hit-IsDefinedAt :
      (s : State) (found : Option ReplyTrackValue) → Reaches s → IsDefinedAt s (reply_hit hdr found)
  unfolding reply_hit dbg_inc
  reply_hit-IsDefinedAt s none h = refl
  reply_hit-IsDefinedAt s (some track_val) h = rw h refl

  reply_ports-IsDefinedAt :
      (s : State) (proto : IpProto) (o : Outcome (ℕ × ℕ))
      → Reaches s
      → is_undefined o ≡ false
      → IsDefinedAt s (reply_ports hdr proto o)
  unfolding reply_ports
  reply_ports-IsDefinedAt s proto err h d = refl
  reply_ports-IsDefinedAt s proto undefined h d = absurd (cc)
  reply_ports-IsDefinedAt s proto (ok ports) h d =
      bind-IsDefinedAt s (src_addr hdr) _
        (src_addr-Reads s hdr
          (within (length s.packet) (hdr + ipv6_len) (hdr + 8 + 16) h (omega arith)))
        λ src e.
          reply_hit-IsDefinedAt s (s.maps.reply_track (track_key src ports.1 ports.0 proto)) h

  tracked_reply-IsDefinedAt :
      (s : State) (proto : IpProto) → Reaches s → IsDefinedAt s (tracked_reply hdr proto)
  unfolding tracked_reply dbg_inc
  tracked_reply-IsDefinedAt s proto h = elim (Bool-cases (is_l4 proto)) [
    | inl l4 ↦ rw l4 (
        reply_ports-IsDefinedAt (dbg_inc 2 s).1 proto _ h
          (extract_l4_ports_xdp-IsDefinedAt (dbg_inc 2 s).1 (eth_len + ipv6_len) proto))
    | inr not_l4 ↦ rw not_l4 refl
  ]

  dev_block-IsDefinedAt :
      (s : State) (wan : Option (List ℕ)) (proto : IpProto) (dst : List ℕ)
      → Reaches s
      → IsDefinedAt s (dev_block wan hdr proto dst)
  unfolding dev_block dropped dbg_inc
  dev_block-IsDefinedAt s none proto dst h = refl
  dev_block-IsDefinedAt s (some wan) proto dst h =
      branch-IsDefinedAt s (not (eq_bytes wan zero_addr) && eq_bytes dst wan) _ _
        (tracked_reply-IsDefinedAt s proto h) (λ e. refl)

  filter_dst-IsDefinedAt :
      (dev : Bool) (s : State) (proto : IpProto) (dst : List ℕ)
      → Reaches s
      → IsDefinedAt s (filter_dst dev hdr proto dst)
  unfolding filter_dst dbg_inc
  filter_dst-IsDefinedAt true s proto dst h =
      branch-IsDefinedAt (dbg_inc 0 s).1 (has_prefix dst proxy_src_prefix) _ _ refl
        λ e. dev_block-IsDefinedAt (dbg_inc 0 s).1 (s.maps.dev_wan_ipv6 0) proto dst h
  filter_dst-IsDefinedAt false s proto dst h =
      branch-IsDefinedAt s (has_prefix dst proxy_src_prefix) _ _ refl (λ e. refl)

pub try_xdp_wan-IsDefinedAt : (dev : Bool) (s : State) → IsDefinedAt s (try_xdp_wan dev)
unfolding try_xdp_wan
try_xdp_wan-IsDefinedAt dev s = ptr_at_xdp-bind s eth_len 0 _ λ whole.
    bind-IsDefinedAt s (ether_type 0) _ (ether_type-Reads s 0 whole) λ kind e.
      branch-IsDefinedAt s (not (kind == ether_type_ipv6)) _ _ refl λ e.
        ptr_at_xdp-bind s ipv6_len eth_len _ λ inside.
          bind-IsDefinedAt s (next_hdr eth_len) _
            (next_hdr-Reads s eth_len (
              within (length s.packet) (eth_len + ipv6_len) (eth_len + 6 + 1) inside (omega arith)))
            λ proto e. branch-IsDefinedAt s (is_icmp proto) _ _ refl λ e.
              bind-IsDefinedAt s (dst_addr eth_len) _
                (dst_addr-Reads s eth_len (
                  within (length s.packet) (eth_len + ipv6_len) (eth_len + 24 + 16) inside
                    (omega arith)))
                λ dst e. filter_dst-IsDefinedAt eth_len dev s proto dst inside
