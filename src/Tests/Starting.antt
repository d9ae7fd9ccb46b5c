-- ===== src/Tests/Starting.antt =====
-- The start of the daemon, daemon/src/main.rs and daemon/src/loader.rs, on concrete inputs.
use mathlib.Core.Option.{some-injective}
use prototype_net.Base.{ℕ, ◌≡◌, ◌⊎◌, refl, subst, true, false, List, [], ◌∷◌, ◌++◌, none, some}
use prototype_net.Common.Types.{is_zero, is_zero_loop}
use prototype_net.Ebpf.Exec.{Maps}
use prototype_net.Control.Text.{Text}
use prototype_net.Control.Daemon.Key.{hex_text, parse_proxy_key_hex}
use prototype_net.Control.Daemon.Key.Hex.{parse_proxy_key_hex-hex_text}
use prototype_net.Control.Daemon.Startup.{
  Aya, Round, tick, sigterm, ready, waiting, wait_for_interface, ifindex, load_and_attach,
  attach_program, set_xfrm_ifindex, set_keys, set_prev_key, set_dev_wan,
}
use prototype_net.Control.Daemon.Load.{write_maps}
use prototype_net.Control.Daemon.NatMap.{bulk_load_from_db}
use prototype_net.Control.Daemon.NatMap.Bulk.{Loadable}
use prototype_net.Control.Daemon.Startup.Attach.{all_attached}
use prototype_net.Control.Daemon.Startup.Wait.{AllPending, EndsIn, wait_for_interface-EndsIn}
use prototype_net.Control.Daemon.Startup.Main.{Env, Started, main, read_env, start_up}
use prototype_net.Control.Daemon.Startup.Ready.{IsReady, main-IsReady}
use prototype_net.Control.Daemon.Startup.Healthy.{IsHealthy}
use prototype_net.Control.Daemon.Startup.Starts.{IsConfigured, main-starts}
use prototype_net.Tests.Fixtures.{test_key, test_maps, origin_addr, all_bytes→bound}
use prototype_net.Tests.Services.{test_texts, test_texts-IsTexts, first_db}
use prototype_net.Tests.Daemon.{test_hash, test_hash-HasRoom, first_db-Loadable, test_key_nonzero}

-- The interface appears in the third round.
abbrev rounds : List Round
rounds =
    record { exists = false; wake = tick }
    ∷ record { exists = false; wake = tick }
    ∷ record { exists = true; wake = sigterm }
    ∷ []

rounds_ready : wait_for_interface rounds ≡ ready
unfolding wait_for_interface
rounds_ready = refl

wait_for_interface-EndsIn_example :
    (AllPending rounds × (wait_for_interface rounds ≡ waiting)) ⊎ EndsIn rounds
wait_for_interface-EndsIn_example = wait_for_interface-EndsIn rounds

abbrev tunnel_name : Text
tunnel_name = 120 ∷ []

abbrev wan_name : Text
wan_name = 119 ∷ []

abbrev test_aya : Aya
test_aya = record {
  load_object = some test_maps;
  create_dir = true;
  program = λ p. true;
  load = λ p. true;
  attach = λ p iface. true;
  open_map = λ m. true;
  set_slot = λ m i. true;
  read_ifindex = λ iface. some (51 ∷ 10 ∷ []);
  getifaddrs = some (record { interface_name = wan_name; address = some (some origin_addr) } ∷ []);
}

test_aya_index : (idx : ℕ) × (ifindex test_aya tunnel_name ≡ some idx)
unfolding ifindex
test_aya_index = (3, refl)

test_aya-IsHealthy : IsHealthy test_aya false tunnel_name wan_name
test_aya-IsHealthy = record {
  load_object = (test_maps, refl);
  create_dir = refl;
  program = λ p. refl;
  load = λ p. refl;
  attach = λ p iface. refl;
  open_map = λ m. refl;
  set_slot = λ m i. refl;
  tunnel_index = test_aya_index;
  wan_address = λ dev. absurd (cc);
}

abbrev test_env : Env
test_env = record {
  database_url = some [];
  interface_name = some tunnel_name;
  wan_interface = some wan_name;
  proxy_addr_key_hex = some (hex_text (test_key.prince_key ++ test_key.siphash_key));
  proxy_addr_prev_key_hex = none;
}

test_env-IsConfigured : IsConfigured test_env tunnel_name wan_name
test_env-IsConfigured = record {
  url = ([], refl);
  tunnel_named = refl;
  wan_named = refl;
  key = (
    hex_text (test_key.prince_key ++ test_key.siphash_key),
    refl,
    (
      test_key,
      parse_proxy_key_hex-hex_text test_key
          (record { sized = refl; bytes = all_bytes→bound test_key.prince_key refl })
          (record { sized = refl; bytes = all_bytes→bound test_key.siphash_key refl })
          test_key_nonzero,
    ),
  );
  prev = λ t given. absurd (cc);
}

main-starts_example :
    (s : Started) × (env' : Env) × (main test_aya test_hash test_texts
        (λ url. some first_db)
        true
        false
        rounds
        test_env
      ≡ (some s, env'))
    × IsReady test_aya rounds test_env env' s
main-starts_example =
    main-starts test_aya test_hash test_texts (λ url. some first_db) true test_hash-HasRoom
      test_texts-IsTexts false rounds test_env tunnel_name wan_name test_env-IsConfigured
      rounds_ready test_aya-IsHealthy (λ url. (first_db, refl, first_db-Loadable)) refl

abbrev maps_after : Maps
maps_after = record (write_maps false 3 [] test_key none test_maps) {
  nat_map = (bulk_load_from_db test_hash test_texts first_db test_maps.nat_map).1;
}

abbrev started : Started
started = record {
  config = record {
    url = [];
    tunnel = tunnel_name;
    wan = wan_name;
    active = test_key;
    prev = none;
  };
  bpf = record { maps = maps_after; attached = all_attached tunnel_name wan_name };
  loaded = 1;
  db = first_db;
}

started_run :
    main test_aya test_hash test_texts (λ url. some first_db) true false rounds test_env
    ≡ (some started, record test_env { proxy_addr_key_hex = none })
unfolding main read_env start_up parse_proxy_key_hex load_and_attach wait_for_interface
    attach_program set_xfrm_ifindex set_keys set_prev_key set_dev_wan bulk_load_from_db ifindex
    write_maps hex_text is_zero is_zero_loop
started_run = refl

main-IsReady_example :
    IsReady test_aya rounds test_env (record test_env { proxy_addr_key_hex = none }) started
main-IsReady_example =
    main-IsReady test_aya test_hash test_texts (λ url. some first_db) true test_hash-HasRoom
      test_texts-IsTexts false rounds test_env (record test_env { proxy_addr_key_hex = none })
      started
      (λ url db fetched.
        subst (λ d. Loadable d.rows) (some-injective _ _ fetched) first_db-Loadable)
      started_run
