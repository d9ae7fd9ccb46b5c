-- ===== src/Ebpf/Ingress.antt =====
-- `tc_ingress` of ebpf/src/main.rs: packets from the tunnel to synthetic addresses.
pub mod Rewrite
pub mod Outbound
pub mod Translate
pub mod Drop
use prototype_net.Base.{
  ℕ, ◌+◌, ◌==◌, not, Bool, true, false, if◌then◌else◌, List, [], ◌∷◌, slice, Option, none, some,
  eq_bytes,
}
use prototype_net.Word.{from_be_bytes}
use prototype_net.Common.Contract.{synthetic_prefix}
use prototype_net.Common.Types.{
  ProxySrcKey, NatEntry, ReplyTrackKey, ReplyTrackValue, new_ctx, is_zero,
}
use prototype_net.Common.ProxySrc.{encode_proxy_src}
use prototype_net.Ebpf.Kernel.{Kernel, ReplyTrack, ipv6_len}
use prototype_net.Ebpf.Exec.{
  State, Maps, Outcome, ok, err, undefined, Exec, pure, fail, gets, ◌>>=◌, ◌>>◌, TcAction, act_ok,
  act_shot, settle,
}
use prototype_net.Ebpf.Packet.{
  IpProto, is_l4, ptr_at, next_hdr, src_addr, dst_addr, extract_l4_ports, has_prefix, proto_num,
  csum_at, to_be16, ipv6_offset, store_all, update_addr_csum,
}

abbrev pub zero_addr : List ℕ
zero_addr = 0 ∷ 0 ∷ 0 ∷ 0 ∷ 0 ∷ 0 ∷ 0 ∷ 0 ∷ 0 ∷ 0 ∷ 0 ∷ 0 ∷ 0 ∷ 0 ∷ 0 ∷ 0 ∷ []

-- `match OBFS_KEYS.get(0) { Some(k) if !k.is_zero() => … }`
unfoldable pub usable : Option ProxySrcKey → Option ProxySrcKey
usable none = none
usable (some key) = if is_zero key then none else some key

unfoldable pub active_key : Maps → Option ProxySrcKey
unfolding usable
active_key maps = usable (maps.obfs_keys 0)

-- `if let Some(wan) = DEV_WAN_IPV6.get(0)`, with a non-zero address.
pub nonzero_addr : Option (List ℕ) → Option (List ℕ)
nonzero_addr none = none
nonzero_addr (some wan) = if eq_bytes wan zero_addr then none else some wan

unfoldable pub dev_wan : Maps → Option (List ℕ)
unfolding nonzero_addr
dev_wan maps = nonzero_addr (maps.dev_wan_ipv6 0)

-- A lookup without a result drops the packet.
abbrev pub or_shot {ℓ} : {A : Type ℓ} → Option A → (A → Exec TcAction) → Exec TcAction
or_shot none f = pure act_shot
or_shot (some a) f = f a

-- The key and the value of REPLY_TRACK for an outbound flow.
unfoldable pub track_key : List ℕ → ℕ → ℕ → IpProto → ReplyTrackKey
unfolding to_be16 proto_num
track_key origin src_port dst_port nexthdr = record {
  origin_ipv6 = origin;
  origin_port = to_be16 dst_port;
  translated_port = to_be16 src_port;
  proto = proto_num nexthdr;
  pad = 0 ∷ 0 ∷ 0 ∷ [];
}

module _ (k : Kernel) (dev : Bool) where
  track_and_use : Option (List ℕ) → ReplyTrackKey → List ℕ → Exec (List ℕ)
  track_and_use none key proxy_src s = pure proxy_src s
  track_and_use (some wan) key proxy_src s = (
    ok wan,
    record s {
      maps = record s.maps {
        reply_track = k.track_insert s.maps.reply_track key (record { proxy_src = proxy_src });
      };
    },
  )

  -- `final_src`: the proxy-source address, or in dev mode the WAN address with the flow tracked.
  unfoldable pub final_src : List ℕ → ℕ → ℕ → IpProto → List ℕ → Exec (List ℕ)
  unfolding track_and_use
  final_src origin src_port dst_port nexthdr proxy_src s =
      if dev
      then track_and_use (dev_wan s.maps) (track_key origin src_port dst_port nexthdr) proxy_src s
      else pure proxy_src s

  -- The part of `try_tc_ingress` that writes, from the rewrite of `dst` on.
  unfoldable pub rewrite_outbound :
      ℕ → IpProto → List ℕ → List ℕ → List ℕ → ℕ → ℕ → List ℕ → Exec TcAction
  rewrite_outbound ip_off nexthdr orig_src dst_ipv6 origin src_port dst_port proxy_src = do
    let csum_offset = csum_at (ip_off + ipv6_len) nexthdr
    store_all k (ip_off + 24) (slice origin 0 16)
    src ← final_src origin src_port dst_port nexthdr proxy_src
    store_all k (ip_off + 8) src
    update_addr_csum k csum_offset orig_src src
    update_addr_csum k csum_offset dst_ipv6 origin
    pure act_ok

  -- The part of `try_tc_ingress` after the prefix check.
  unfoldable pub outbound : ℕ → ℕ → IpProto → List ℕ → Exec TcAction
  outbound ip_off ipv6hdr nexthdr dst_ipv6 = do
    let domain_id = from_be_bytes (slice dst_ipv6 4 4)
    nat_entry ← gets (λ s. s.maps.nat_map domain_id)
    or_shot nat_entry λ entry. do
      orig_src ← src_addr ipv6hdr
      let client_id = from_be_bytes (slice orig_src 12 4)
      ports ← extract_l4_ports (ip_off + ipv6_len) nexthdr
      key ← gets (λ s. active_key s.maps)
      or_shot key λ key. do
        let flow_ctx = new_ctx ports.0 ports.1 (proto_num nexthdr)
        or_shot (encode_proxy_src client_id domain_id flow_ctx key) λ proxy_src.
            rewrite_outbound ip_off nexthdr orig_src dst_ipv6 entry.origin_ipv6 ports.0 ports.1
              proxy_src

  unfoldable pub try_tc_ingress : Exec TcAction
  try_tc_ingress = do
    ip_off ← ipv6_offset k
    ipv6hdr ← ptr_at ipv6_len ip_off
    nexthdr ← next_hdr ipv6hdr
    if not (is_l4 nexthdr) then pure act_ok else do
      dst_ipv6 ← dst_addr ipv6hdr
      if not (has_prefix dst_ipv6 synthetic_prefix)
          then pure act_ok
          else outbound ip_off ipv6hdr nexthdr dst_ipv6

  -- The entry point passes the packet on an error. `none` is undefined behaviour.
  unfoldable pub tc_ingress : State → Option TcAction × State
  tc_ingress s = (settle act_ok (try_tc_ingress s).0, (try_tc_ingress s).1)
