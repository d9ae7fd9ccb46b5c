-- ===== src/Tests/Packets.antt =====
-- The theorems about ebpf/src/main.rs on the packets of the fixtures.
use prototype_net.Base.{
  ◌≢◌, none, ℕ, arith, ◌+◌, ◌≤◌, ◌≡◌, refl, List, Option, some, true, false, ◌↔◌, ◌⊎◌, ap,
}
use prototype_net.Common.Contract.{
  synthetic_prefix, proxy_src_prefix, proxy_src_client_id_max, proxy_src_domain_id_max,
}
use prototype_net.Common.Types.{ProxySrcKey, NatEntry, new_ctx, is_zero, is_zero_loop}
use prototype_net.Common.Address.{client_vip_from_id24, synthetic_ipv6}
use prototype_net.Common.ProxySrc.{
  encode_proxy_src, decode_proxy_src, key_ctx_mix, tag32, plain64, obfuscate, reveal,
}
use prototype_net.Ebpf.Kernel.{ipv6_len}
use prototype_net.Ebpf.Exec.{State, settle, TcAction, act_ok, act_redirect, xdp_pass, xdp_drop}
use prototype_net.Ebpf.Packet.{
  tcp, proto_num, csum_at, has_prefix, ipv6_offset, next_hdr, is_l4, dst_addr, src_addr,
  extract_l4_ports, store_all, update_addr_csum, to_proto, ptr_at,
}
use prototype_net.Ebpf.Packet.Layout.{src_port_at, dst_port_at}
use prototype_net.Common.HashCtx.{hash_ctx, mix64}
use prototype_net.Word.{from_be_bytes, rotate_left, rotate_right, to_be_bytes32, to_be_bytes64}
use prototype_net.Ebpf.Ingress.{
  active_key, usable, tc_ingress, try_tc_ingress, outbound, rewrite_outbound, final_src, track_key,
  dev_wan,
}
use prototype_net.Ebpf.Ingress.Rewrite.{IsRewritten}
use prototype_net.Ebpf.Ingress.Outbound.{tracked, chosen_src}
use prototype_net.Ebpf.Ingress.Translate.{
  src_at, dst_at, client_at, domain_at, tc_ingress_translates,
}
use prototype_net.Ebpf.IngressWan.{tc_ingress_wan}
use prototype_net.Ebpf.IngressWan.Deliver.{reply_ctx, tc_ingress_wan_delivers}
use prototype_net.Ebpf.IngressWan.Genuine.{redirected_is_genuine}
use prototype_net.Ebpf.Xdp.{xdp_wan}
use prototype_net.Ebpf.Xdp.Filter.{IsForeign, xdp_wan-drop_iff}
use prototype_net.Ebpf.Defined.{programs_defined}
use prototype_net.Ebpf.Flow.{reply_reaches_client, IsReplyTo}
use prototype_net.Tests.Fixtures.{
  test_kernel, test_kernel-IsKernel, test_key, test_entry, test_maps, request, answer,
  foreign_frame, request_packet, answer_packet, origin_addr, proxy_addr, domain_addr,
}

-- The maps and the addresses of the fixtures.
key_active : active_key test_maps ≡ some test_key
unfolding active_key usable is_zero is_zero_loop
key_active = refl

prefixed : has_prefix domain_addr synthetic_prefix ≡ true
unfolding has_prefix
prefixed = refl

answer_prefixed : has_prefix proxy_addr proxy_src_prefix ≡ true
unfolding has_prefix
answer_prefixed = refl

flow_encoded : encode_proxy_src 0x10001 7 (new_ctx 50000 443 6) test_key ≡ some proxy_addr
unfolding from_be_bytes rotate_left rotate_right to_be_bytes32 to_be_bytes64 hash_ctx mix64
    key_ctx_mix tag32 plain64 obfuscate reveal encode_proxy_src decode_proxy_src
flow_encoded = refl

flow_decoded : decode_proxy_src proxy_addr (new_ctx 50000 443 6) test_key ≡ some (0x10001, 7)
unfolding from_be_bytes rotate_left rotate_right to_be_bytes32 to_be_bytes64 hash_ctx mix64
    key_ctx_mix tag32 plain64 obfuscate reveal encode_proxy_src decode_proxy_src
flow_decoded = refl

ports_read :
    (src_port_at answer.packet 40 ≡ 443)
    × (dst_port_at answer.packet 40 ≡ 50000)
    × (src_port_at request.packet 40 ≡ 50000)
    × (dst_port_at request.packet 40 ≡ 443)
    × (proto_num tcp ≡ 6)
unfolding from_be_bytes proto_num
ports_read = (refl, refl, refl, refl, refl)

reply_decoded :
    decode_proxy_src (dst_at answer.packet 0) (reply_ctx answer.packet 0 tcp) test_key
    ≡ some (0x10001, 7)
unfolding from_be_bytes rotate_left rotate_right to_be_bytes32 to_be_bytes64 hash_ctx mix64
    key_ctx_mix tag32 plain64 obfuscate reveal encode_proxy_src decode_proxy_src proto_num
reply_decoded = refl

tc_ingress_wan_delivers_example :
    (q : List ℕ) × (tc_ingress_wan test_kernel false answer
      ≡ (some (act_redirect 3), record answer { packet = q }))
    × IsRewritten 0
        (csum_at (0 + ipv6_len) tcp)
        (synthetic_ipv6 7)
        (client_vip_from_id24 0x10001)
        answer.packet
        q
tc_ingress_wan_delivers_example =
    tc_ingress_wan_delivers test_kernel test_kernel-IsKernel false answer 0 tcp answer_packet
      test_key 0x10001 7 3 test_entry answer_prefixed key_active reply_decoded refl refl refl
      (λ e. omega arith)

request_encoded :
    encode_proxy_src
      (client_at request.packet 0)
      (domain_at request.packet 0)
      (new_ctx
        (src_port_at request.packet (0 + ipv6_len))
        (dst_port_at request.packet (0 + ipv6_len))
        (proto_num tcp))
      test_key
    ≡ some proxy_addr
unfolding from_be_bytes rotate_left rotate_right to_be_bytes32 to_be_bytes64 hash_ctx mix64
    key_ctx_mix tag32 plain64 obfuscate reveal encode_proxy_src decode_proxy_src proto_num
request_encoded = refl

tc_ingress_translates_example :
    (q : List ℕ) × (tc_ingress test_kernel false request ≡ (
      some act_ok,
      record {
        packet = q;
        maps =
            tracked test_kernel false
              (dev_wan test_maps)
              (track_key origin_addr
                (src_port_at request.packet (0 + ipv6_len))
                (dst_port_at request.packet (0 + ipv6_len))
                tcp)
              proxy_addr
              test_maps;
      },
    ))
    × IsRewritten 0
        (csum_at (0 + ipv6_len) tcp)
        (chosen_src false (dev_wan test_maps) proxy_addr)
        origin_addr
        request.packet
        q
unfolding from_be_bytes
tc_ingress_translates_example =
    tc_ingress_translates test_kernel test_kernel-IsKernel false request 0 tcp request_packet
      test_entry test_key proxy_addr prefixed refl key_active request_encoded refl refl

redirected_is_genuine_example :
    (c d : ℕ) × (key : ProxySrcKey) × (entry : NatEntry) × (c ≤ proxy_src_client_id_max)
    × (d ≤ proxy_src_domain_id_max)
    × (active_key answer.maps ≡ some key)
    × (encode_proxy_src c d (reply_ctx answer.packet 0 tcp) key ≡ some (dst_at answer.packet 0))
    × (answer.maps.nat_map d ≡ some entry)
    × (src_at answer.packet 0 ≡ entry.origin_ipv6)
redirected_is_genuine_example =
    redirected_is_genuine test_kernel test_kernel-IsKernel false answer 0 tcp answer_packet 3 (
      ap (λ (o : Option TcAction × State). o.0)
        (tc_ingress_wan_delivers test_kernel test_kernel-IsKernel false answer 0 tcp answer_packet
          test_key 0x10001 7 3 test_entry answer_prefixed key_active reply_decoded refl refl refl
          (λ e. omega arith)).1)

xdp_wan-drop_iff_example :
    ((xdp_wan false foreign_frame).0 ≡ some xdp_drop ↔ IsForeign foreign_frame.packet)
    × (((xdp_wan false foreign_frame).0 ≡ some xdp_pass)
        ⊎ ((xdp_wan false foreign_frame).0 ≡ some xdp_drop))
    × ((xdp_wan false foreign_frame).1 ≡ foreign_frame)
xdp_wan-drop_iff_example = xdp_wan-drop_iff foreign_frame

-- The packet that leaves for the origin, and the reply to it.
answered : IsReplyTo (tc_ingress test_kernel false request).1.packet 0 answer.packet 0
unfolding tc_ingress try_tc_ingress ipv6_offset next_hdr is_l4 dst_addr has_prefix outbound src_addr
    extract_l4_ports active_key usable is_zero is_zero_loop encode_proxy_src key_ctx_mix tag32
    plain64 obfuscate hash_ctx mix64 from_be_bytes rotate_left rotate_right to_be_bytes32
    to_be_bytes64 rewrite_outbound store_all final_src update_addr_csum proto_num to_proto settle
    ptr_at csum_at
answered = record { src = refl; dst = refl; src_port = refl; dst_port = refl }

client_source : src_at request.packet 0 ≡ client_vip_from_id24 0x10001
unfolding client_vip_from_id24 to_be_bytes32
client_source = refl

domain_target : dst_at request.packet 0 ≡ synthetic_ipv6 7
unfolding synthetic_ipv6 to_be_bytes32
domain_target = refl

reply_reaches_client_example :
    ((tc_ingress test_kernel false request).0 ≡ some act_ok)
    × ((tc_ingress_wan test_kernel false answer).0 ≡ some (act_redirect 3))
    × (src_at (tc_ingress_wan test_kernel false answer).1.packet 0 ≡ dst_at request.packet 0)
    × (dst_at (tc_ingress_wan test_kernel false answer).1.packet 0 ≡ src_at request.packet 0)
reply_reaches_client_example =
    reply_reaches_client test_kernel test_kernel-IsKernel request answer 0 0 tcp 0x10001 7 3
      test_key test_entry request_packet (omega arith) (omega arith) client_source domain_target
      refl refl key_active answer_packet answered refl key_active refl (λ e. omega arith)

programs_defined_example :
    ((tc_ingress test_kernel true answer).0 ≢ none)
    × ((tc_ingress_wan test_kernel true answer).0 ≢ none)
    × ((xdp_wan true answer).0 ≢ none)
programs_defined_example = programs_defined test_kernel true answer
