-- ===== src/Ebpf/Flow.antt =====
-- The two classifiers of ebpf/src/main.rs together: a request of a client and the reply to it.
use prototype_net.Base.{
  ℕ, ◌+◌, ◌≤◌, ◌<◌, ◌^◌, ◌≡◌, ◌≢◌, ap, ap₂, ◌∙◌, sym, subst, arith, List, length, slice, slice_ext,
  true, false, Option, some,
}
use prototype_net.Word.{from_be_bytes}
use prototype_net.Common.Contract.{
  synthetic_prefix, proxy_src_client_id_max, proxy_src_domain_id_max,
}
use prototype_net.Common.Types.{ProxySrcKey, NatEntry, ProxySrcCtx, new_ctx}
use prototype_net.Common.Address.{domain_id_from_ipv6, synthetic_ipv6, client_vip_from_id24}
use prototype_net.Common.Address.Layout.{domain_id-synthetic, client_vip_fields}
use prototype_net.Common.ProxySrc.{encode_proxy_src, decode_proxy_src}
use prototype_net.Common.ProxySrc.RoundTrip.{decode-encode, encoded_shape}
use prototype_net.Ebpf.Kernel.{Kernel, IsKernel, ipv6_len}
use prototype_net.Ebpf.Exec.{State, TcAction, act_ok, act_redirect}
use prototype_net.Ebpf.Packet.{
  IpProto, tcp, udp, ipv6_icmp, other, is_l4, has_prefix, csum_at, proto_num,
}
use prototype_net.Ebpf.Packet.Layout.{IsL4Packet, src_port_at, dst_port_at, slice→has_prefix}
use prototype_net.Ebpf.Ingress.{active_key, tc_ingress}
use prototype_net.Ebpf.Ingress.Rewrite.{IsRewritten}
use prototype_net.Ebpf.Ingress.Translate.{
  src_at, dst_at, client_at, domain_at, tc_ingress_translates,
}
use prototype_net.Ebpf.IngressWan.{tc_ingress_wan}
use prototype_net.Ebpf.IngressWan.Deliver.{reply_ctx, tc_ingress_wan_delivers}

-- `r` answers `q`: addresses and ports change places.
pub record IsReplyTo (q : List ℕ) (q_off : ℕ) (r : List ℕ) (r_off : ℕ) : Type 0 where
  pub src : src_at r r_off ≡ dst_at q q_off
  pub dst : dst_at r r_off ≡ src_at q q_off
  pub src_port : src_port_at r (r_off + ipv6_len) ≡ dst_port_at q (q_off + ipv6_len)
  pub dst_port : dst_port_at r (r_off + ipv6_len) ≡ src_port_at q (q_off + ipv6_len)

csum_behind_ports : (l4 : ℕ) (proto : IpProto) → is_l4 proto ≡ true → l4 + 4 ≤ csum_at l4 proto
unfolding csum_at is_l4
csum_behind_ports l4 tcp h = omega arith
csum_behind_ports l4 udp h = omega arith
csum_behind_ports l4 ipv6_icmp h = absurd (cc)
csum_behind_ports l4 (other n) h = absurd (cc)

-- A rewritten packet has the ports that it had: the checksum lies behind them.
ports_kept :
    (proto : IpProto) (ip_off : ℕ) (src dst p q : List ℕ)
    → IsL4Packet p ip_off proto
    → IsRewritten ip_off (csum_at (ip_off + ipv6_len) proto) src dst p q
    → (src_port_at q (ip_off + ipv6_len) ≡ src_port_at p (ip_off + ipv6_len))
      × (dst_port_at q (ip_off + ipv6_len) ≡ dst_port_at p (ip_off + ipv6_len))
ports_kept proto ip_off src dst p q packet w = (
  ap from_be_bytes (
      slice_ext q p (ip_off + ipv6_len) (ip_off + ipv6_len) 2
        (λ j h. w.elsewhere (ip_off + ipv6_len + j) (omega (arith, behind)))),
  ap from_be_bytes (
      slice_ext q p (ip_off + ipv6_len + 2) (ip_off + ipv6_len + 2) 2
        (λ j h. w.elsewhere (ip_off + ipv6_len + 2 + j) (omega (arith, behind)))),
)
  where
    behind : ip_off + ipv6_len + 4 ≤ csum_at (ip_off + ipv6_len) proto
    behind = csum_behind_ports (ip_off + ipv6_len) proto packet.l4

synthetic_domain : (d : ℕ) → d < 2 ^ 32 → from_be_bytes (slice (synthetic_ipv6 d) 4 4) ≡ d
unfolding domain_id_from_ipv6
synthetic_domain d h = (domain_id-synthetic d h).1

-- The request half: the packet leaves with the address that encodes client, domain and flow.
module _ (k : Kernel) (v : IsKernel k) (s : State) (off : ℕ) (proto : IpProto) (c d : ℕ)
    (key : ProxySrcKey) (entry : NatEntry) (packet : IsL4Packet s.packet off proto)
    (c-le : c ≤ proxy_src_client_id_max) (d-le : d ≤ proxy_src_domain_id_max)
    (client : src_at s.packet off ≡ client_vip_from_id24 c)
    (target : dst_at s.packet off ≡ synthetic_ipv6 d) (found : s.maps.nat_map d ≡ some entry)
    (ho : length entry.origin_ipv6 ≡ 16) (active : active_key s.maps ≡ some key) where
  abbrev flow : ProxySrcCtx
  flow =
      new_ctx (src_port_at s.packet (off + ipv6_len)) (dst_port_at s.packet (off + ipv6_len))
        (proto_num proto)

  client-eq : client_at s.packet off ≡ c
  client-eq =
      ap (λ (a : List ℕ). from_be_bytes (slice a 12 4)) client
      ∙ (client_vip_fields c (omega arith)).1

  domain-eq : domain_at s.packet off ≡ d
  domain-eq =
      ap (λ (a : List ℕ). from_be_bytes (slice a 4 4)) target ∙ synthetic_domain d (omega arith)

  prefixed : has_prefix (dst_at s.packet off) synthetic_prefix ≡ true
  prefixed =
      slice→has_prefix (dst_at s.packet off) 0xfd 0x00 0xab 0xcd
        (ap (λ (a : List ℕ). slice a 0 4) target ∙ (domain_id-synthetic d (omega arith)).0)

  encoded :
      (addr : List ℕ) × (encode_proxy_src c d flow key ≡ some addr)
      × (decode_proxy_src addr flow key ≡ some (c, d))
  encoded = decode-encode c d flow key c-le d-le

  request_leaves :
      (q : List ℕ) × (tc_ingress k false s ≡ (some act_ok, record s { packet = q }))
      × IsRewritten off (csum_at (off + ipv6_len) proto) encoded.0 entry.origin_ipv6 s.packet q
  request_leaves =
      tc_ingress_translates k v false s off proto packet entry key encoded.0 prefixed
        (ap s.maps.nat_map domain-eq ∙ found) active
        (ap₂ (λ (x y : ℕ). encode_proxy_src x y flow key) client-eq domain-eq ∙ encoded.1) ho
        (encoded_shape c d flow key encoded.0 encoded.1).0

  -- The reply half, for a reply to the packet that left.
  module _ (t : State) (t_off idx : ℕ) (answer : IsL4Packet t.packet t_off proto)
      (reply : IsReplyTo request_leaves.0 off t.packet t_off)
      (found' : t.maps.nat_map d ≡ some entry) (active' : active_key t.maps ≡ some key)
      (up : t.maps.xfrm_ifindex 0 ≡ some idx) (nonzero : idx ≢ 0) where
    ports :
        (src_port_at request_leaves.0 (off + ipv6_len) ≡ src_port_at s.packet (off + ipv6_len))
        × (dst_port_at request_leaves.0 (off + ipv6_len) ≡ dst_port_at s.packet (off + ipv6_len))
    ports =
        ports_kept proto off encoded.0 entry.origin_ipv6 s.packet request_leaves.0 packet
          request_leaves.2

    addressed_to : dst_at t.packet t_off ≡ encoded.0
    addressed_to = reply.dst ∙ request_leaves.2.new_src

    same_flow : reply_ctx t.packet t_off proto ≡ flow
    same_flow =
        ap₂ (λ (x y : ℕ). new_ctx x y (proto_num proto)) (reply.dst_port ∙ ports.0)
          (reply.src_port ∙ ports.1)

    decodes :
        decode_proxy_src (dst_at t.packet t_off) (reply_ctx t.packet t_off proto) key ≡ some (c, d)
    decodes =
        ap₂ (λ (a : List ℕ) (x : ProxySrcCtx). decode_proxy_src a x key) addressed_to same_flow
        ∙ encoded.2

    reply_delivered :
        (q : List ℕ) × (tc_ingress_wan k false t
          ≡ (some (act_redirect (k.redirect idx)), record t { packet = q }))
        × IsRewritten t_off
            (csum_at (t_off + ipv6_len) proto)
            (synthetic_ipv6 d)
            (client_vip_from_id24 c)
            t.packet
            q
    reply_delivered =
        tc_ingress_wan_delivers k v false t t_off proto answer key c d idx entry
          (slice→has_prefix (dst_at t.packet t_off) 0x20 0x01 0x0d 0xb8 (
            ap (λ (a : List ℕ). slice a 0 4) addressed_to
            ∙ (encoded_shape c d flow key encoded.0 encoded.1).1))
          active' decodes found' (reply.src ∙ request_leaves.2.new_dst) up nonzero

-- From client to origin and back, in the production build. A client of the pool asks a synthetic
-- address; the request is passed on, and whatever reply answers the rewritten packet, as long as
-- the maps still hold the domain, the key and the tunnel, is redirected to the tunnel with exactly
-- the request's addresses in exchanged roles.
pub reply_reaches_client :
    (k : Kernel) (v : IsKernel k) (s t : State) (s_off t_off : ℕ) (proto : IpProto) (c d idx : ℕ)
    (key : ProxySrcKey) (entry : NatEntry)
    → IsL4Packet s.packet s_off proto
    → c ≤ proxy_src_client_id_max
    → d ≤ proxy_src_domain_id_max
    → src_at s.packet s_off ≡ client_vip_from_id24 c
    → dst_at s.packet s_off ≡ synthetic_ipv6 d
    → s.maps.nat_map d ≡ some entry
    → length entry.origin_ipv6 ≡ 16
    → active_key s.maps ≡ some key
    → IsL4Packet t.packet t_off proto
    → IsReplyTo (tc_ingress k false s).1.packet s_off t.packet t_off
    → t.maps.nat_map d ≡ some entry
    → active_key t.maps ≡ some key
    → t.maps.xfrm_ifindex 0 ≡ some idx
    → idx ≢ 0
    → ((tc_ingress k false s).0 ≡ some act_ok)
      × ((tc_ingress_wan k false t).0 ≡ some (act_redirect (k.redirect idx)))
      × (src_at (tc_ingress_wan k false t).1.packet t_off ≡ dst_at s.packet s_off)
      × (dst_at (tc_ingress_wan k false t).1.packet t_off ≡ src_at s.packet s_off)
reply_reaches_client k v s t s_off t_off proto c d idx key entry packet c-le d-le client target
      found ho active answer reply found' active' up nonzero =
    (
      ap result request.1,
      ap result delivered.1,
      ap (λ o. src_at (state o).packet t_off) delivered.1 ∙ delivered.2.new_src ∙ sym target,
      ap (λ o. dst_at (state o).packet t_off) delivered.1 ∙ delivered.2.new_dst ∙ sym client,
    )
  where
    result : Option TcAction × State → Option TcAction
    result o = o.0

    state : Option TcAction × State → State
    state o = o.1

    request : (q : List ℕ) × (tc_ingress k false s ≡ (some act_ok, record s { packet = q }))
    request =
        let r =
          request_leaves k v s s_off proto c d key entry packet c-le d-le client target found ho
            active in
        (r.0, r.1)

    reply' : IsReplyTo request.0 s_off t.packet t_off
    reply' = subst (λ o. IsReplyTo (state o).packet s_off t.packet t_off) request.1 reply

    delivered :
        (q : List ℕ) × (tc_ingress_wan k false t
          ≡ (some (act_redirect (k.redirect idx)), record t { packet = q }))
        × IsRewritten t_off
            (csum_at (t_off + ipv6_len) proto)
            (synthetic_ipv6 d)
            (client_vip_from_id24 c)
            t.packet
            q
    delivered =
        reply_delivered k v s s_off proto c d key entry packet c-le d-le client target found ho
          active t t_off idx answer reply' found' active' up nonzero
