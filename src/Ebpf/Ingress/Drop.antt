-- ===== src/Ebpf/Ingress/Drop.antt =====
-- When `tc_ingress` of ebpf/src/main.rs drops a TCP or UDP packet to a synthetic address.
use prototype_net.Base.{
  ℕ, ◌+◌, ◌<◌, ◌≡◌, ◌⊎◌, ◌↔◌, inl, inr, List, length, Bool, true, false, Option, some, none,
  Option-cases, refl, ap, sym, ◌∙◌,
}
use prototype_net.Common.Contract.{
  synthetic_prefix, proxy_src_client_id_max, proxy_src_domain_id_max,
}
use prototype_net.Common.Types.{ProxySrcKey, ProxySrcCtx, NatEntry, new_ctx}
use prototype_net.Common.ProxySrc.{encode_proxy_src}
use prototype_net.Common.ProxySrc.RoundTrip.{encoded_shape}
use prototype_net.Common.ProxySrc.Sound.{encode-eq-none_iff}
use prototype_net.Ebpf.Kernel.{Kernel, IsKernel, ipv6_len}
use prototype_net.Ebpf.Exec.{State, ok, TcAction, act_ok, act_shot, settle}
use prototype_net.Ebpf.Packet.{IpProto, has_prefix, proto_num, src_addr}
use prototype_net.Ebpf.Packet.Layout.{
  IsL4Packet, src_port_at, dst_port_at, ports_lem, src_addr_read,
}
use prototype_net.Ebpf.Ingress.{dev_wan, active_key, outbound, tc_ingress}
use prototype_net.Ebpf.Ingress.Outbound.{chosen_src}
use prototype_net.Ebpf.Ingress.Translate.{
  dst_at, client_at, domain_at, try_tc_ingress-eq-outbound, tc_ingress_translates,
}

length-chosen_src :
    (dev : Bool) (wan : Option (List ℕ)) (addr : List ℕ)
    → ((a : List ℕ) → wan ≡ some a → length a ≡ 16)
    → length addr ≡ 16
    → length (chosen_src dev wan addr) ≡ 16
length-chosen_src false wan addr h h' = h'
length-chosen_src true none addr h h' = h'
length-chosen_src true (some a) addr h h' = h a refl

act_ok-ne-shot : ¬ (◌≡◌ {A = Option TcAction} (some act_ok) (some act_shot))
act_ok-ne-shot e = cc

module _ (k : Kernel) (v : IsKernel k) (dev : Bool) (s : State) (ip_off : ℕ) (proto : IpProto)
    (packet : IsL4Packet s.packet ip_off proto) where
  -- The domain is not known, no key is in place, or a number does not fit in 24 bits.
  abbrev pub IsUnroutable : Type 0
  IsUnroutable =
      (s.maps.nat_map (domain_at s.packet ip_off) ≡ none)
      ⊎ (active_key s.maps ≡ none)
      ⊎ (proxy_src_client_id_max < client_at s.packet ip_off)
      ⊎ (proxy_src_domain_id_max < domain_at s.packet ip_off)

  abbrev IsShot : Type 0
  IsShot = outbound k dev ip_off ip_off proto (dst_at s.packet ip_off) s ≡ (ok act_shot, s)

  abbrev flow : ProxySrcCtx
  flow =
      new_ctx (src_port_at s.packet (ip_off + ipv6_len)) (dst_port_at s.packet (ip_off + ipv6_len))
        (proto_num proto)

  no_domain : s.maps.nat_map (domain_at s.packet ip_off) ≡ none → IsShot
  unfolding outbound
  no_domain h = rw h

  module _ (entry : NatEntry)
      (found : s.maps.nat_map (domain_at s.packet ip_off) ≡ some entry) where
    no_key : active_key s.maps ≡ none → IsShot
    unfolding outbound src_addr
    no_key h =
        rw (found, src_addr_read k v s ip_off proto packet, ports_lem k v s ip_off proto packet, h)

    no_code :
        (key : ProxySrcKey)
        → active_key s.maps ≡ some key
        → encode_proxy_src (client_at s.packet ip_off) (domain_at s.packet ip_off) flow key ≡ none
        → IsShot
    unfolding outbound src_addr
    no_code key keyed h = rw (
      found,
      src_addr_read k v s ip_off proto packet,
      ports_lem k v s ip_off proto packet,
      keyed,
      h,
    )

  too_large :
      (proxy_src_client_id_max < client_at s.packet ip_off)
        ⊎ (proxy_src_domain_id_max < domain_at s.packet ip_off)
      → IsShot
  too_large h = elim (Option-cases (s.maps.nat_map (domain_at s.packet ip_off))) [
    | inl unknown ↦ no_domain unknown
    | inr (entry, found) ↦ elim (Option-cases (active_key s.maps)) [
      | inl keyless ↦ no_key entry found keyless
      | inr (key, keyed) ↦ no_code entry found key keyed ((encode-eq-none_iff _ _ flow key).1 h)
    ]
  ]

  keyless : active_key s.maps ≡ none → IsShot
  keyless h = elim (Option-cases (s.maps.nat_map (domain_at s.packet ip_off))) [
    | inl unknown ↦ no_domain unknown
    | inr (entry, found) ↦ no_key entry found h
  ]

  unroutable-IsShot : IsUnroutable → IsShot
  unroutable-IsShot (inl unknown) = no_domain unknown
  unroutable-IsShot (inr (inl h)) = keyless h
  unroutable-IsShot (inr (inr h)) = too_large h

  shot :
      has_prefix (dst_at s.packet ip_off) synthetic_prefix ≡ true
      → IsShot
      → tc_ingress k dev s ≡ (some act_shot, s)
  unfolding tc_ingress settle
  shot prefixed h = rw (try_tc_ingress-eq-outbound k v dev s ip_off proto packet prefixed, h)

  passes :
      has_prefix (dst_at s.packet ip_off) synthetic_prefix ≡ true
      → ((entry : NatEntry)
          → s.maps.nat_map (domain_at s.packet ip_off) ≡ some entry
          → length entry.origin_ipv6 ≡ 16)
      → ((wan : List ℕ) → dev_wan s.maps ≡ some wan → length wan ≡ 16)
      → (tc_ingress k dev s).0 ≡ some act_shot
      → IsUnroutable
  passes prefixed sized wan_sized h =
      elim (Option-cases (s.maps.nat_map (domain_at s.packet ip_off))) [
        | inl unknown ↦ inl unknown
        | inr (entry, found) ↦ elim (Option-cases (active_key s.maps)) [
          | inl none_usable ↦ inr (inl none_usable)
          | inr (key, keyed) ↦
              elim (Option-cases (
                encode_proxy_src (client_at s.packet ip_off) (domain_at s.packet ip_off) flow
                  key)) [
                    | inl large ↦ inr (inr ((encode-eq-none_iff _ _ flow key).0 large))
                    | inr (addr, encoded) ↦ absurd (
                        let t =
                          tc_ingress_translates k v dev s ip_off proto packet entry key addr
                            prefixed found keyed encoded (sized entry found)
                            (length-chosen_src dev (dev_wan s.maps) addr wan_sized
                              (encoded_shape _ _ flow key addr encoded).0) in
                        act_ok-ne-shot (sym (ap (λ o. o.0) t.1) ∙ h))
                  ]
        ]
      ]

  -- A TCP or UDP packet to a synthetic address is dropped exactly when its domain is not in
  -- NAT_MAP, or no key is in place, or the client or the domain has more than 24 bits; the packet
  -- and the maps are then left as they were. The addresses in the maps have 16 bytes.
  pub tc_ingress-drop_iff :
      has_prefix (dst_at s.packet ip_off) synthetic_prefix ≡ true
      → ((entry : NatEntry)
          → s.maps.nat_map (domain_at s.packet ip_off) ≡ some entry
          → length entry.origin_ipv6 ≡ 16)
      → ((wan : List ℕ) → dev_wan s.maps ≡ some wan → length wan ≡ 16)
      → (((tc_ingress k dev s).0 ≡ some act_shot) ↔ IsUnroutable)
        × ((tc_ingress k dev s ≡ (some act_shot, s)) ↔ IsUnroutable)
  tc_ingress-drop_iff prefixed sized wan_sized = (
    (passes prefixed sized wan_sized, λ u. ap (λ o. o.0) (shot prefixed (unroutable-IsShot u))),
    (
      λ e. passes prefixed sized wan_sized (ap (λ o. o.0) e),
      λ u. shot prefixed (unroutable-IsShot u),
    ),
  )
