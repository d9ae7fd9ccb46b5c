-- ===== src/Control/Daemon/Startup/Starts.antt =====
-- When the daemon starts: daemon/src/main.rs with daemon/src/loader.rs.
use mathlib.Core.Option.{some-injective}
use mathlib.Core.Path.{subst₂}
use prototype_net.Base.{ℕ, ◌≡◌, refl, ap, ◌∙◌, sym, subst, Bool, true, List, Option, none, some}
use prototype_net.Control.Text.{Text, Texts, IsTexts}
use prototype_net.Control.Database.{Db}
use prototype_net.Control.Daemon.Key.{parse_proxy_key_hex}
use prototype_net.Control.Daemon.NatMap.{NatMap, BpfHash, HasRoom, bulk_load_from_db}
use prototype_net.Control.Daemon.NatMap.Bulk.{Loadable, bulk_load-loaded_entry}
use prototype_net.Control.Daemon.Startup.{Aya, Ebpf, Round, ready, wait_for_interface}
use prototype_net.Control.Daemon.Startup.Main.{
  Env, Config, Started, read_env, take_active, take_prev, given, when_ready, bulk_load, start_up,
  main,
}
use prototype_net.Control.Daemon.Startup.Ready.{HasRead, read_env-eq-some, IsReady, main-IsReady}
use prototype_net.Control.Daemon.Startup.Healthy.{
  IsHealthy, HasResult, succeeds-HasResult, proceed-HasResult, proceed-HasResult_of,
  load_and_attach-HasResult,
}

given-HasResult :
    (t : Text) → HasResult (parse_proxy_key_hex t) → HasResult (given (parse_proxy_key_hex t))
given-HasResult t h = (some h.0, ap given h.1)

-- All variables are set but perhaps that of the previous key, and the keys are accepted.
pub record IsConfigured (env : Env) (tunnel wan : Text) : Type 0 where
  pub url : (url : Text) × (env.database_url ≡ some url)
  pub tunnel_named : env.interface_name ≡ some tunnel
  pub wan_named : env.wan_interface ≡ some wan
  pub key : (hex : Text) × (env.proxy_addr_key_hex ≡ some hex) × HasResult (parse_proxy_key_hex hex)
  pub prev : (t : Text) → env.proxy_addr_prev_key_hex ≡ some t → HasResult (parse_proxy_key_hex t)

take_prev-HasResult :
    (prev : Option Text) (e : Env)
    → ((t : Text) → prev ≡ some t → HasResult (parse_proxy_key_hex t))
    → HasResult (take_prev prev e).0
take_prev-HasResult none e h = (none, refl)
take_prev-HasResult (some t) e h = given-HasResult t (h t refl)

take_active-HasResult :
    (env : Env) (key : Option Text)
    → (hex : Text) × (key ≡ some hex) × HasResult (parse_proxy_key_hex hex)
    → HasResult (take_active key env).0
take_active-HasResult env none (hex, given, accepted) = absurd (cc)
take_active-HasResult env (some t) (hex, given, accepted) =
    (accepted.0, ap parse_proxy_key_hex (some-injective _ _ given) ∙ accepted.1)

prev_kept :
    (env : Env) (key : Option Text)
    → (take_active key env).1.proxy_addr_prev_key_hex ≡ env.proxy_addr_prev_key_hex
prev_kept env none = refl
prev_kept env (some hex) = refl

read_env-HasResult :
    (env : Env) (tunnel wan : Text) → IsConfigured env tunnel wan → HasResult (read_env env).0
unfolding read_env
read_env-HasResult env tunnel wan h =
    let e = (take_active env.proxy_addr_key_hex env).1 in
    proceed-HasResult _ env h.url (λ url.
      proceed-HasResult _ env (tunnel, h.tunnel_named)
        (λ t.
          proceed-HasResult _ env (wan, h.wan_named)
            (λ w.
              proceed-HasResult _ e (take_active-HasResult env env.proxy_addr_key_hex h.key) (λ key.
                proceed-HasResult _ (take_prev e.proxy_addr_prev_key_hex e).1
                  (take_prev-HasResult e.proxy_addr_prev_key_hex e
                    (λ t given. h.prev t (sym (prev_kept env env.proxy_addr_key_hex) ∙ given)))
                  (λ prev. (_, refl))))))

module _ (a : Aya) (b : BpfHash) (x : Texts) (connect : Text → Option Db) (has_nat_map : Bool)
    (room : HasRoom b) (w : IsTexts x) where
  all-Loadable :
      ((url : Text) → (db : Db) × (connect url ≡ some db) × Loadable db.rows)
      → (url : Text) (db : Db) → connect url ≡ some db
      → Loadable db.rows
  all-Loadable pool url db fetched =
      subst (λ d. Loadable d.rows) (some-injective _ _ (sym (pool url).1 ∙ fetched)) (pool url).2

  bulk_load_from_db-some :
      (c : Config) (db : Db) (bpf : Ebpf) (n : ℕ) (m : NatMap)
      → bulk_load_from_db b x db bpf.maps.nat_map ≡ (some n, m)
      → (bulk_load b x c db bpf).0
        ≡ some (record {
          config = c;
          bpf = record bpf { maps = record bpf.maps { nat_map = m } };
          loaded = n;
          db = db;
        })
  bulk_load_from_db-some c db bpf n m loaded = rw loaded refl

  start_up-HasResult :
      (dev : Bool) (rounds : List Round) (c : Config) (e : Env)
      → wait_for_interface rounds ≡ ready
      → IsHealthy a dev c.tunnel c.wan
      → ((url : Text) → (db : Db) × (connect url ≡ some db) × Loadable db.rows)
      → has_nat_map ≡ true
      → HasResult (start_up a b x connect has_nat_map dev rounds c e).0
  unfolding start_up
  start_up-HasResult dev rounds c e waited healthy pool nat_map =
      proceed-HasResult _ e (tt, ap when_ready waited)
        (λ _.
          proceed-HasResult _ e
            (load_and_attach-HasResult a c.tunnel c.wan dev healthy c.active c.prev)
            (λ bpf.
              proceed-HasResult_of _ e ((pool c.url).0, (pool c.url).1)
                (λ db fetched. proceed-HasResult _ e (succeeds-HasResult nat_map) (λ _.
                  let loads =
                    bulk_load-loaded_entry b room x w db bpf.maps.nat_map
                      (all-Loadable pool c.url db fetched) in
                  (_, bulk_load_from_db-some c db bpf _ loads.0 loads.1)))))

  main-HasResult :
      (dev : Bool) (rounds : List Round) (env : Env) (tunnel wan : Text)
      → IsConfigured env tunnel wan
      → wait_for_interface rounds ≡ ready
      → IsHealthy a dev tunnel wan
      → ((url : Text) → (db : Db) × (connect url ≡ some db) × Loadable db.rows)
      → has_nat_map ≡ true
      → HasResult (main a b x connect has_nat_map dev rounds env).0
  unfolding main
  main-HasResult dev rounds env tunnel wan set_up waited healthy pool nat_map =
      let read = read_env-HasResult env tunnel wan set_up in
      proceed-HasResult_of _ (read_env env).1 read (λ c eq.
        start_up-HasResult dev rounds c (read_env env).1 waited
          (subst₂ (IsHealthy a dev)
            (some-injective _ _ (sym set_up.tunnel_named ∙ (read_of env c eq).tunnel_named))
            (some-injective _ _ (sym set_up.wan_named ∙ (read_of env c eq).wan_named)) healthy)
          pool nat_map)
    where
      read_of :
          (env : Env) (c : Config) → (read_env env).0 ≡ some c → HasRead env c (read_env env).1
      read_of env c eq =
          read_env-eq-some env c (read_env env).1 (ap (λ o. (o, (read_env env).1)) eq)

  -- If the variables are set and the keys are accepted, the interface appears before a signal, no
  -- call of the system fails, and the database gives a table of distinct ids and IPv6 origins, then
  -- `main` comes to the point where it spawns its tasks, in the state that IsReady describes.
  pub main-starts :
      (dev : Bool) (rounds : List Round) (env : Env) (tunnel wan : Text)
      → IsConfigured env tunnel wan
      → wait_for_interface rounds ≡ ready
      → IsHealthy a dev tunnel wan
      → ((url : Text) → (db : Db) × (connect url ≡ some db) × Loadable db.rows)
      → has_nat_map ≡ true
      → (s : Started) × (env' : Env) × (main a b x connect has_nat_map dev rounds env
          ≡ (some s, env'))
        × IsReady a rounds env env' s
  main-starts dev rounds env tunnel wan set_up waited healthy pool nat_map =
      let run = main-HasResult dev rounds env tunnel wan set_up waited healthy pool nat_map in
      let equation = ap (λ o. (o, (main a b x connect has_nat_map dev rounds env).1)) run.1 in
      (
        run.0,
        (main a b x connect has_nat_map dev rounds env).1,
        equation,
        main-IsReady a b x connect has_nat_map room w dev rounds env _ run.0 (all-Loadable pool)
            equation,
      )
