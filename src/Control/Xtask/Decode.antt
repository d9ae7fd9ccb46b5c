-- ===== src/Control/Xtask/Decode.antt =====
-- What the command `decode-proxy-src` of xtask/src/main.rs prints.
use prototype_net.Base.{ℕ, ◌≤◌, ◌≡◌, refl, ◌++◌, Option, none, some}
use prototype_net.Common.Contract.{proxy_src_client_id_max, proxy_src_domain_id_max}
use prototype_net.Common.Types.{ProxySrcKey, new_ctx, IsBytes}
use prototype_net.Common.Address.{synthetic_ipv6, client_vip_from_id24}
use prototype_net.Common.ProxySrc.{encode_proxy_src}
use prototype_net.Common.ProxySrc.RoundTrip.{decode-encode}
use prototype_net.Control.Text.{Text, Texts}
use prototype_net.Control.Daemon.Key.{trim, hex_text, proto_of_text, decode_parsed, decode_command}
use prototype_net.Control.Daemon.Key.Hex.{key_of_hex-hex_text}

pub record Report : Type 0 where
  pub client_id : ℕ
  pub domain_id : ℕ
  pub client_vip : Text
  pub synthetic_addr : Text

-- `none` is an error, or the exit with status 1.
unfoldable pub report : Texts → Option (ℕ × ℕ) → Option Report
report x none = none
report x (some (client_id, domain_id)) = some (record {
  client_id = client_id;
  domain_id = domain_id;
  client_vip = x.print (client_vip_from_id24 client_id);
  synthetic_addr = x.print (synthetic_ipv6 domain_id);
})

unfoldable pub decode_report : Texts → Text → Text → ℕ → ℕ → Text → Option Report
unfolding decode_command report
decode_report x key_hex addr src_port dst_port proto =
    report x (decode_command x key_hex addr src_port dst_port proto)

-- For the proxy-source address of a client and a domain of 24 bits, in any text that is read as
-- that address, with the ports and the protocol of the flow and the hexadecimal digits of the key
-- under which it was encoded, the command prints the client and the domain, and the addresses that
-- the client had and asked for.
pub decode_report-encode_proxy_src :
    (x : Texts) (key : ProxySrcKey) (c d src_port dst_port proto : ℕ) (addr proto_text : Text)
    → IsBytes 16 key.prince_key
    → IsBytes 16 key.siphash_key
    → c ≤ proxy_src_client_id_max
    → d ≤ proxy_src_domain_id_max
    → proto_of_text proto_text ≡ some proto
    → x.parse (trim addr) ≡ encode_proxy_src c d (new_ctx src_port dst_port proto) key
    → decode_report x
        (hex_text (key.prince_key ++ key.siphash_key))
        addr
        src_port
        dst_port
        proto_text
      ≡ some (record {
        client_id = c;
        domain_id = d;
        client_vip = x.print (client_vip_from_id24 c);
        synthetic_addr = x.print (synthetic_ipv6 d);
      })
unfolding decode_report decode_command decode_parsed report
decode_report-encode_proxy_src x key c d src_port dst_port proto addr proto_text prince sip hc hd
      proto_read addr_read =
    let e = decode-encode c d (new_ctx src_port dst_port proto) key hc hd in
    rw (key_of_hex-hex_text key prince sip, addr_read, e.1, proto_read, e.2) refl
