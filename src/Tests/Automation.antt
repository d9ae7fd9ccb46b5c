-- ===== src/Tests/Automation.antt =====
-- The commands of xtask/src/main.rs on concrete inputs.
use prototype_net.Base.{
  ◌≡◌, ◌⊎◌, ◌↔◌, inl, inr, refl, sym, eq_bytes_self, arith, true, [], ◌∷◌, ◌++◌, some,
}
use prototype_net.Common.Address.{synthetic_ipv6, client_vip_from_id24}
use prototype_net.Control.Text.{Text, Texts}
use prototype_net.Control.Daemon.Key.{hex_text, proto_of_text}
use prototype_net.Control.Xtask.{
  Host, TaskError, verify_contract, build_ebpf, build_in, check_status,
}
use prototype_net.Control.Xtask.Strings.{
  local_ts_prefix, if_id_in_prefix, if_id_out_prefix, link_prefix, link_suffix,
  pool_start_placeholder, pool_end_placeholder, prefix_placeholder, xfrm_j2_placeholder,
}
use prototype_net.Control.Xtask.Consistent.{
  IsConsistent, verify_contract-IsConsistent, build_ebpf-IsConsistent,
}
use prototype_net.Control.Xtask.Decode.{decode_report, decode_report-encode_proxy_src}
use prototype_net.Tests.Fixtures.{test_key, proxy_addr, all_bytes→bound}
use prototype_net.Tests.Addresses.{proxy_addr-encoded}
use prototype_net.Tests.Services.{test_texts}

-- A workspace at /w, where each file has all the lines that some check wants.
abbrev every_line : Text
every_line =
    local_ts_prefix
    ++ (if_id_in_prefix
        ++ ((50 ∷ [])
            ++ (if_id_out_prefix
                ++ ((50 ∷ [])
                    ++ (link_prefix
                        ++ ((50 ∷ [])
                            ++ (link_suffix
                                ++ (pool_start_placeholder
                                    ++ (pool_end_placeholder
                                        ++ (prefix_placeholder ++ xfrm_j2_placeholder))))))))))

abbrev test_host : Host
test_host = record {
  locate_project =
      some (47 ∷ 119 ∷ 47 ∷ 67 ∷ 97 ∷ 114 ∷ 103 ∷ 111 ∷ 46 ∷ 116 ∷ 111 ∷ 109 ∷ 108 ∷ 10 ∷ []);
  read_to_string = λ path. some every_line;
  from_toml = λ src. some (record { synthetic_prefix_cidr = []; if_id = 2 });
  status = λ b. some true;
}

-- The same with a contract that has another interface number.
abbrev other_host : Host
other_host = record test_host {
  from_toml = λ src. some (record { synthetic_prefix_cidr = []; if_id = 3 });
}

test_host_verified : verify_contract test_host ≡ inr tt
unfolding verify_contract
test_host_verified = refl

verify_contract-IsConsistent_example : (verify_contract test_host ≡ inr tt) ↔ IsConsistent test_host
verify_contract-IsConsistent_example = verify_contract-IsConsistent test_host

test_host-IsConsistent : IsConsistent test_host
test_host-IsConsistent = verify_contract-IsConsistent_example.0 test_host_verified

build_ebpf-IsConsistent_example :
    ((i : IsConsistent other_host) × (build_ebpf other_host true ≡ (
      build_in i.workspace true ∷ [],
      check_status (other_host.status (build_in i.workspace true)),
    )))
    ⊎ ((¬ IsConsistent other_host) × ((e : TaskError) × (build_ebpf other_host true ≡ ([], inl e))))
build_ebpf-IsConsistent_example = build_ebpf-IsConsistent other_host true

-- A text for the address of the fixtures, which encodes client 0x10001 and domain 7.
abbrev address_texts : Texts
address_texts = record test_texts { parse = λ t. some proxy_addr }

abbrev tcp_text : Text
tcp_text = 84 ∷ 67 ∷ 80 ∷ []

tcp_number : proto_of_text tcp_text ≡ some 6
unfolding proto_of_text
tcp_number = rw (eq_bytes_self (116 ∷ 99 ∷ 112 ∷ [])) refl

decode_report-encode_proxy_src_example :
    decode_report address_texts
      (hex_text (test_key.prince_key ++ test_key.siphash_key))
      []
      50000
      443
      tcp_text
    ≡ some (record {
      client_id = 0x10001;
      domain_id = 7;
      client_vip = client_vip_from_id24 0x10001;
      synthetic_addr = synthetic_ipv6 7;
    })
decode_report-encode_proxy_src_example =
    decode_report-encode_proxy_src address_texts test_key 0x10001 7 50000 443 6 [] tcp_text
      (record { sized = refl; bytes = all_bytes→bound test_key.prince_key refl })
      (record { sized = refl; bytes = all_bytes→bound test_key.siphash_key refl }) (omega arith)
      (omega arith) tcp_number (sym proxy_addr-encoded)
