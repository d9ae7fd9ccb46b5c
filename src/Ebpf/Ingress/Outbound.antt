-- ===== src/Ebpf/Ingress/Outbound.antt =====
-- `try_tc_ingress` of ebpf/src/main.rs on a TCP or UDP packet to a synthetic address.
use prototype_net.Base.{
  ℕ, ◌+◌, ◌%◌, ◌≤◌, ◌≡◌, refl, ap, ◌∙◌, arith, List, length, slice, slice_self, Bool, true, false,
  if◌then◌else◌, Option, none, some,
}
use prototype_net.Common.Types.{ReplyTrackKey}
use prototype_net.Ebpf.Kernel.{Kernel, IsKernel, OnlyChecksum, ipv6_len}
use prototype_net.Ebpf.Exec.{State, pure, Maps, ok, act_ok}
use prototype_net.Ebpf.Packet.{
  IpProto, tcp, udp, ipv6_icmp, other, is_l4, csum_at, write_bytes, store_all, update_addr_csum,
}
use prototype_net.Ebpf.Packet.Layout.{l4_len}
use prototype_net.Ebpf.Packet.Writes.{length-write_bytes, store_all_lem}
use prototype_net.Ebpf.Ingress.{dev_wan, track_key, track_and_use, final_src, rewrite_outbound}
use prototype_net.Ebpf.Ingress.Rewrite.{
  IsRewritten, IsRewritten-csum, IsRewritten-dst_src, update_addr_csum_lem,
}

-- The checksum lies inside the L4 header.
pub csum_in_header :
    (l4 : ℕ) (proto : IpProto)
    → is_l4 proto ≡ true
    → (l4 ≤ csum_at l4 proto) × (csum_at l4 proto + 2 ≤ l4 + l4_len proto)
unfolding csum_at is_l4
csum_in_header l4 tcp h = omega arith
csum_in_header l4 udp h = omega arith
csum_in_header l4 ipv6_icmp h = absurd (cc)
csum_in_header l4 (other n) h = absurd (cc)

pub csum_at-even : (l4_base : ℕ) (proto : IpProto) → l4_base % 2 ≡ 0 → csum_at l4_base proto % 2 ≡ 0
unfolding csum_at
csum_at-even l4 tcp h = omega arith
csum_at-even l4 udp h = omega arith
csum_at-even l4 ipv6_icmp h = omega arith
csum_at-even l4 (other n) h = omega arith

-- The source address of the rewritten packet: the WAN address in dev mode, where there is one.
abbrev pub chosen_src : Bool → Option (List ℕ) → List ℕ → List ℕ
chosen_src false wan proxy_src = proxy_src
chosen_src true none proxy_src = proxy_src
chosen_src true (some wan) proxy_src = wan

-- The maps after the rewrite: in dev mode the flow is tracked.
abbrev pub tracked : Kernel → Bool → Option (List ℕ) → ReplyTrackKey → List ℕ → Maps → Maps
tracked k false wan key proxy_src maps = maps
tracked k true none key proxy_src maps = maps
tracked k true (some wan) key proxy_src maps = record maps {
  reply_track = k.track_insert maps.reply_track key (record { proxy_src = proxy_src });
}

final_src_cases :
    (k : Kernel) (dev : Bool) (wan : Option (List ℕ)) (key : ReplyTrackKey) (proxy_src : List ℕ)
    (s : State)
    → (if dev then track_and_use k dev wan key proxy_src s else pure proxy_src s) ≡ (
      ok (chosen_src dev wan proxy_src),
      record s { maps = tracked k dev wan key proxy_src s.maps },
    )
unfolding track_and_use
final_src_cases k false wan key proxy_src s = refl
final_src_cases k true none key proxy_src s = refl
final_src_cases k true (some wan) key proxy_src s = refl

module _ (k : Kernel) (v : IsKernel k) (dev : Bool) (ip_off : ℕ) (proto : IpProto) where
  final_src_lem :
      (origin proxy_src : List ℕ) (src_port dst_port : ℕ) (s : State)
      → final_src k dev origin src_port dst_port proto proxy_src s ≡ (
        ok (chosen_src dev (dev_wan s.maps) proxy_src),
        record s {
          maps =
              tracked k dev
                (dev_wan s.maps)
                (track_key origin src_port dst_port proto)
                proxy_src
                s.maps;
        },
      )
  unfolding final_src
  final_src_lem origin proxy_src src_port dst_port s =
      final_src_cases k dev (dev_wan s.maps) (track_key origin src_port dst_port proto) proxy_src s

  pub rewrite_outbound_lem :
      (orig_src dst origin proxy_src : List ℕ) (src_port dst_port : ℕ) (s : State)
      → is_l4 proto ≡ true
      → ip_off + ipv6_len + l4_len proto ≤ length s.packet
      → length origin ≡ 16
      → length (chosen_src dev (dev_wan s.maps) proxy_src) ≡ 16
      → ip_off % 2 ≡ 0
      → (q : List ℕ) × (rewrite_outbound k dev ip_off proto orig_src dst origin src_port dst_port
            proxy_src s
          ≡ (
            ok act_ok,
            record {
              packet = q;
              maps =
                  tracked k dev
                    (dev_wan s.maps)
                    (track_key origin src_port dst_port proto)
                    proxy_src
                    s.maps;
            },
          ))
        × IsRewritten ip_off
            (csum_at (ip_off + ipv6_len) proto)
            (chosen_src dev (dev_wan s.maps) proxy_src)
            origin
            s.packet
            q
  unfolding rewrite_outbound
  rewrite_outbound_lem orig_src dst origin proxy_src src_port dst_port s l4 fits ho hs even =
      (q2.0, rw (e1, e2, e3, q1.1, q2.1), after_csums)
    where
      csum : ℕ
      csum = csum_at (ip_off + ipv6_len) proto

      src : List ℕ
      src = chosen_src dev (dev_wan s.maps) proxy_src

      s1 : State
      s1 = record s { packet = write_bytes s.packet (ip_off + 24) origin }

      s2 : State
      s2 = record s1 {
        maps =
            tracked k dev (dev_wan s.maps) (track_key origin src_port dst_port proto) proxy_src
              s.maps;
      }

      s3 : State
      s3 = record s2 { packet = write_bytes s1.packet (ip_off + 8) src }

      length1 : length s1.packet ≡ length s.packet
      length1 = length-write_bytes s.packet (ip_off + 24) origin

      length3 : length s3.packet ≡ length s.packet
      length3 = length-write_bytes s1.packet (ip_off + 8) src ∙ length1

      e1 : store_all k (ip_off + 24) (slice origin 0 16) s ≡ (ok tt, s1)
      e1 =
          ap (λ bs. store_all k (ip_off + 24) bs s) (slice_self origin 16 ho)
          ∙ store_all_lem k v (ip_off + 24) origin s (omega arith)

      e2 : final_src k dev origin src_port dst_port proto proxy_src s1 ≡ (ok src, s2)
      e2 = final_src_lem origin proxy_src src_port dst_port s1

      e3 : store_all k (ip_off + 8) src s2 ≡ (ok tt, s3)
      e3 = store_all_lem k v (ip_off + 8) src s2 (omega (arith, length1))

      below : csum + 2 ≤ length s3.packet
      below = omega (arith, length3, csum_in_header (ip_off + ipv6_len) proto l4)

      csum-even : csum % 2 ≡ 0
      csum-even = csum_at-even (ip_off + ipv6_len) proto (omega arith)

      q1 :
          (q : List ℕ) × (update_addr_csum k csum orig_src src s3
            ≡ (ok tt, record s3 { packet = q }))
          × OnlyChecksum s3.packet q csum
      q1 = update_addr_csum_lem k v csum orig_src src s3 below csum-even

      s4 : State
      s4 = record s3 { packet = q1.0 }

      q2 :
          (q : List ℕ) × (update_addr_csum k csum dst origin s4 ≡ (ok tt, record s4 { packet = q }))
          × OnlyChecksum s4.packet q csum
      q2 =
          update_addr_csum_lem k v csum dst origin s4 (omega (arith, below, q1.2.same_length))
            csum-even

      behind : ip_off + 40 ≤ csum
      behind = (csum_in_header (ip_off + ipv6_len) proto l4).0

      after_csums : IsRewritten ip_off csum src origin s.packet q2.0
      after_csums =
          IsRewritten-csum ip_off csum src origin s.packet q1.0 q2.0 behind
            (IsRewritten-csum ip_off csum src origin s.packet s3.packet q1.0 behind
              (IsRewritten-dst_src ip_off csum src origin s.packet hs ho (omega arith)) q1.2)
            q2.2
