-- ===== src/Ebpf/IngressWan/Genuine.antt =====
-- `tc_ingress_wan` of ebpf/src/main.rs: what a redirected reply has passed.
use prototype_net.Base.{
  ℕ, ◌+◌, ◌≤◌, ◌≡◌, refl, ap, ◌∙◌, sym, arith, inl, inr, List, Bool, Bool-cases, true, false, not,
  Option, Option-cases, none, some, if◌then◌else◌, eq_bytes→eq,
}
use prototype_net.Common.Contract.{
  proxy_src_prefix, proxy_src_client_id_max, proxy_src_domain_id_max,
}
use prototype_net.Common.Types.{ProxySrcKey, NatEntry, ProxySrcCtx}
use prototype_net.Common.ProxySrc.{encode_proxy_src, decode_proxy_src}
use prototype_net.Common.ProxySrc.Sound.{encode-decode}
use prototype_net.Ebpf.Kernel.{Kernel, IsKernel, ipv6_len}
use prototype_net.Ebpf.Exec.{
  State, Maps, pure, ok, TcAction, act_ok, act_shot, act_redirect, Outcome, err, undefined, Exec,
  settle,
}
use prototype_net.Ebpf.Packet.{IpProto, has_prefix, next_hdr, src_addr, dst_addr}
use prototype_net.Ebpf.Packet.Layout.{
  IsL4Packet, ipv6_offset_lem, ports_lem, ptr_at_fits, next_hdr_read, src_addr_read, dst_addr_read,
  slice-IsBytes, has_prefix→slice,
}
use prototype_net.Ebpf.Ingress.{active_key, or_shot}
use prototype_net.Ebpf.Ingress.Translate.{src_at, dst_at}
use prototype_net.Ebpf.IngressWan.{
  try_decode_with_active_key, decode_with, inbound, try_tc_ingress_wan, tc_ingress_wan,
}
use prototype_net.Ebpf.IngressWan.Deliver.{reply_ctx, try_tc_ingress_wan-eq-inbound}

-- A decoded pair comes from a usable key.
key_of_decoded :
    (maps : Maps) (addr : List ℕ) (ctx : ProxySrcCtx) (ids : ℕ × ℕ)
    → try_decode_with_active_key maps addr ctx ≡ some ids
    → (key : ProxySrcKey) × (active_key maps ≡ some key)
      × (decode_proxy_src addr ctx key ≡ some ids)
unfolding try_decode_with_active_key
key_of_decoded maps addr ctx ids h = elim (Option-cases (active_key maps)) [
  | inl absent ↦ absurd (cc (ap (λ o. decode_with o addr ctx) absent))
  | inr (key, present) ↦ (key, present, sym (ap (λ o. decode_with o addr ctx) present) ∙ h)
]

-- A lookup on the way to a redirection has a result, and a check has passed.
redirect_found {ℓ} :
    {A : Type ℓ} (o : Option A) (f : A → Exec TcAction) (s : State) (r : ℕ)
    → (or_shot o f s).0 ≡ ok (act_redirect r)
    → (a : A) × (o ≡ some a) × ((f a s).0 ≡ ok (act_redirect r))
redirect_found none f s r h = cc
redirect_found (some a) f s r h = (a, refl, h)

redirect_checked :
    (b : Bool) (m : Exec TcAction) (s : State) (r : ℕ)
    → ((if not b then pure act_shot else m) s).0 ≡ ok (act_redirect r)
    → b ≡ true
redirect_checked true m s r h = refl
redirect_checked false m s r h = cc

settled_redirect :
    (o : Outcome TcAction) (r : ℕ)
    → settle act_ok o ≡ some (act_redirect r)
    → o ≡ ok (act_redirect r)
unfolding settle
settled_redirect (ok a) r h = cc
settled_redirect err r h = cc
settled_redirect undefined r h = cc

module _ (k : Kernel) (v : IsKernel k) (dev : Bool) (s : State) (ip_off : ℕ) (proto : IpProto)
    (packet : IsL4Packet s.packet ip_off proto) where
  passed_by :
      (r : ℕ)
      → (inbound k dev ip_off ip_off proto (dst_at s.packet ip_off) s).0 ≡ ok (act_redirect r)
      → (c d : ℕ) × (entry : NatEntry) × (try_decode_with_active_key s.maps
            (dst_at s.packet ip_off)
            (reply_ctx s.packet ip_off proto)
          ≡ some (c, d))
        × (s.maps.nat_map d ≡ some entry)
        × (src_at s.packet ip_off ≡ entry.origin_ipv6)
  unfolding inbound src_addr
  passed_by r h =
      let h' = rw (ports_lem k v s ip_off proto packet) at h in
      let (ids, decoded, rest) = redirect_found _ _ s r h' in
      let (entry, found, rest') =
        redirect_found _ _ s r (rw (src_addr_read k v s ip_off proto packet) at rest) in
      (ids.0, ids.1, entry, decoded, found, eq_bytes→eq _ _ (redirect_checked _ _ s r rest'))

  -- Other destinations pass, whatever the rest of the packet.
  pub other_prefix :
      has_prefix (dst_at s.packet ip_off) proxy_src_prefix ≡ false
      → try_tc_ingress_wan k dev s ≡ (ok act_ok, s)
  unfolding try_tc_ingress_wan next_hdr dst_addr
  other_prefix h = rw (
    ipv6_offset_lem k v s ip_off proto packet,
    ptr_at_fits ipv6_len ip_off s (omega (arith, packet.fits)),
    next_hdr_read k v s ip_off proto packet,
    packet.next,
    packet.l4,
    dst_addr_read k v s ip_off proto packet,
    h,
  )

  redirected_prefix :
      (r : ℕ)
      → (try_tc_ingress_wan k dev s).0 ≡ ok (act_redirect r)
      → has_prefix (dst_at s.packet ip_off) proxy_src_prefix ≡ true
  redirected_prefix r h = elim (Bool-cases (has_prefix (dst_at s.packet ip_off) proxy_src_prefix)) [
    | inl yes' ↦ yes'
    | inr no' ↦ absurd (not_redirect (sym (ap (λ o. o.0) (other_prefix no')) ∙ h))
  ]
    where
      not_redirect : ¬ (◌≡◌ {A = Outcome TcAction} (ok act_ok) (ok (act_redirect r)))
      not_redirect e = cc

  -- A TCP or UDP reply that is redirected to the tunnel was sent to an address that
  -- `encode_proxy_src` makes, under the active key and the flow of the reply, for a client and a
  -- domain of 24 bits each, and it came from the origin that NAT_MAP has for that domain.
  pub redirected_is_genuine :
      (r : ℕ)
      → (tc_ingress_wan k dev s).0 ≡ some (act_redirect r)
      → (c d : ℕ) × (key : ProxySrcKey) × (entry : NatEntry) × (c ≤ proxy_src_client_id_max)
        × (d ≤ proxy_src_domain_id_max)
        × (active_key s.maps ≡ some key)
        × (encode_proxy_src c d (reply_ctx s.packet ip_off proto) key
            ≡ some (dst_at s.packet ip_off))
        × (s.maps.nat_map d ≡ some entry)
        × (src_at s.packet ip_off ≡ entry.origin_ipv6)
  unfolding tc_ingress_wan
  redirected_is_genuine r h =
      let redirected = settled_redirect _ r h in
      let prefixed = redirected_prefix r redirected in
      let (c, d, entry, decoded, found, from_origin) = passed_by r (
        sym (ap (λ o. o.0) (try_tc_ingress_wan-eq-inbound k v dev s ip_off proto packet prefixed))
        ∙ redirected) in
      let (key, active, decodes) = key_of_decoded s.maps _ _ (c, d) decoded in
      let (c-le, d-le, encoded) =
        encode-decode (dst_at s.packet ip_off) (reply_ctx s.packet ip_off proto) key c d
          (slice-IsBytes s.packet (ip_off + 24) 16 packet.bytes)
          (has_prefix→slice (dst_at s.packet ip_off) 0x20 0x01 0x0d 0xb8 prefixed) decodes in
      (c, d, key, entry, c-le, d-le, active, encoded, found, from_origin)
