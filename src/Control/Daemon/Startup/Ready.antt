-- ===== src/Control/Daemon/Startup/Ready.antt =====
-- What a daemon that has started has done: daemon/src/main.rs with daemon/src/loader.rs and
-- daemon/src/maps.rs.
use mathlib.Core.Option.{some-injective}
use prototype_net.Base.{ℕ, ◌≡◌, refl, ap, subst, sym, ◌∙◌, arith, Bool, List, Option, none, some}
use prototype_net.Common.Types.{ProxySrcKey}
use prototype_net.Ebpf.Ingress.{active_key}
use prototype_net.Control.Run.{Run, done, proceed}
use prototype_net.Control.Text.{Text, Texts, IsTexts}
use prototype_net.Control.Database.{Db, Row, row_of_id}
use prototype_net.Control.Daemon.Key.{parse_proxy_key_hex}
use prototype_net.Control.Daemon.Load.{accepted_key_is_active}
use prototype_net.Control.Daemon.NatMap.{NatMap, BpfHash, HasRoom, bulk_load_from_db}
use prototype_net.Control.Daemon.NatMap.Bulk.{Loadable, loaded_entry, bulk_load-loaded_entry}
use prototype_net.Control.Daemon.Startup.{
  Aya, Ebpf, Round, Waited, ready, interrupted, waiting, wait_for_interface, ifindex,
  load_and_attach, succeeds,
}
use prototype_net.Control.Daemon.Startup.Attach.{all_attached, load_and_attach-eq-some}
use prototype_net.Control.Daemon.Startup.Main.{
  Env, Config, Started, read_env, given, when_ready, bulk_load, start_up, main,
}

proceed-eq-some :
    {S A B : Type 0} (o : Option A) (f : A → Run S B) (s s' : S) {b : B}
    → proceed o f s ≡ (some b, s')
    → (a : A) × (o ≡ some a) × (f a s ≡ (some b, s'))
proceed-eq-some none f s s' h = absurd (ground arith)
proceed-eq-some (some a) f s s' h = (a, refl, h)

done-eq-some : {S A : Type 0} (a b : A) (s s' : S) → done a s ≡ (some b, s') → (a ≡ b) × (s ≡ s')
done-eq-some a b s s' h = (some-injective a b (ap (λ o. o.0) h), ap (λ o. o.1) h)

when_ready-eq-some : (o : Waited) {u : Unit {0}} → when_ready o ≡ some u → o ≡ ready
when_ready-eq-some ready h = refl
when_ready-eq-some interrupted h = absurd (cc)
when_ready-eq-some waiting h = absurd (cc)

-- The keys are read, and their texts are no longer in the environment.
pub record HasRead (env : Env) (c : Config) (env' : Env) : Type 0 where
  pub tunnel_named : env.interface_name ≡ some c.tunnel
  pub wan_named : env.wan_interface ≡ some c.wan
  pub url_given : env.database_url ≡ some c.url
  pub accepted :
      (hex : Text) × (env.proxy_addr_key_hex ≡ some hex) × (parse_proxy_key_hex hex ≡ some c.active)
  pub key_removed : env'.proxy_addr_key_hex ≡ none
  pub prev_removed : env'.proxy_addr_prev_key_hex ≡ none

abbrev variables : Text → Text → Text → Option Text → Option Text → Env
variables url tunnel wan key prev = record {
  database_url = some url;
  interface_name = some tunnel;
  wan_interface = some wan;
  proxy_addr_key_hex = key;
  proxy_addr_prev_key_hex = prev;
}

made-HasRead :
    (url tunnel wan hex : Text) (t : Option Text) (key : ProxySrcKey) (prev : Option ProxySrcKey)
    (c : Config) (env' : Env)
    → parse_proxy_key_hex hex ≡ some key
    → done
        (record { url = url; tunnel = tunnel; wan = wan; active = key; prev = prev })
        (variables url tunnel wan none none)
      ≡ (some c, env')
    → HasRead (variables url tunnel wan (some hex) t) c env'
made-HasRead url tunnel wan hex t key prev c env' parsed h =
    let made = done-eq-some _ c _ env' h in
    record {
      tunnel_named = ap (λ y. some y.tunnel) made.0;
      wan_named = ap (λ y. some y.wan) made.0;
      url_given = ap (λ y. some y.url) made.0;
      accepted = (hex, refl, parsed ∙ ap (λ y. some y.active) made.0);
      key_removed = sym (ap (λ e. e.proxy_addr_key_hex) made.1);
      prev_removed = sym (ap (λ e. e.proxy_addr_prev_key_hex) made.1);
    }

read_env-HasRead :
    (url tunnel wan key prev : Option Text) (c : Config) (env' : Env)
    → read_env (record {
      database_url = url;
      interface_name = tunnel;
      wan_interface = wan;
      proxy_addr_key_hex = key;
      proxy_addr_prev_key_hex = prev;
    })
      ≡ (some c, env')
    → HasRead
        (record {
          database_url = url;
          interface_name = tunnel;
          wan_interface = wan;
          proxy_addr_key_hex = key;
          proxy_addr_prev_key_hex = prev;
        })
        c
        env'
unfolding read_env
read_env-HasRead none tunnel wan key prev c env' h = absurd (ground arith)
read_env-HasRead (some url) none wan key prev c env' h = absurd (ground arith)
read_env-HasRead (some url) (some tunnel) none key prev c env' h = absurd (ground arith)
read_env-HasRead (some url) (some tunnel) (some wan) none prev c env' h = absurd (ground arith)
read_env-HasRead (some url) (some tunnel) (some wan) (some hex) none c env' h =
    let p = proceed-eq-some (parse_proxy_key_hex hex) _ _ env' h in
    made-HasRead url tunnel wan hex none p.0 none c env' p.1 p.2
read_env-HasRead (some url) (some tunnel) (some wan) (some hex) (some t) c env' h =
    let p = proceed-eq-some (parse_proxy_key_hex hex) _ _ env' h in
    let q = proceed-eq-some (given (parse_proxy_key_hex t)) _ _ env' p.2 in
    made-HasRead url tunnel wan hex (some t) p.0 q.0 c env' p.1 q.2

pub read_env-eq-some :
    (env : Env) (c : Config) (env' : Env) → read_env env ≡ (some c, env') → HasRead env c env'
read_env-eq-some env c env' h =
    read_env-HasRead env.database_url env.interface_name env.wan_interface env.proxy_addr_key_hex
      env.proxy_addr_prev_key_hex c env' h

module _ (a : Aya) where
  -- The state in which the tasks are spawned.
  pub record IsReady (rounds : List Round) (env env' : Env) (s : Started) : Type 0 where
    pub waited : wait_for_interface rounds ≡ ready
    pub tunnel : env.interface_name ≡ some s.config.tunnel
    pub wan : env.wan_interface ≡ some s.config.wan
    pub attached : s.bpf.attached ≡ all_attached s.config.tunnel s.config.wan
    pub key_in_use :
        (hex : Text) × (env.proxy_addr_key_hex ≡ some hex)
        × (active_key s.bpf.maps ≡ parse_proxy_key_hex hex)
    pub redirects_to_tunnel : s.bpf.maps.xfrm_ifindex 0 ≡ ifindex a s.config.tunnel
    pub keys_removed : (env'.proxy_addr_key_hex ≡ none) × (env'.proxy_addr_prev_key_hex ≡ none)
    pub domains_loaded :
        (id : ℕ)
        → (r : Row) → row_of_id id s.db.rows ≡ some r
        → s.bpf.maps.nat_map id ≡ some (record { origin_ipv6 = r.origin_ipv6 })

module _ (a : Aya) (b : BpfHash) (x : Texts) (connect : Text → Option Db) (has_nat_map : Bool)
    (room : HasRoom b) (w : IsTexts x) where
  bulk_load-eq-some :
      (c : Config) (db : Db) (bpf : Ebpf) (s : Started) (n : ℕ) (m : NatMap)
      → bulk_load_from_db b x db bpf.maps.nat_map ≡ (some n, m)
      → (bulk_load b x c db bpf).0 ≡ some s
      → record {
        config = c;
        bpf = record bpf { maps = record bpf.maps { nat_map = m } };
        loaded = n;
        db = db;
      }
        ≡ s
  bulk_load-eq-some c db bpf s n m loaded h = some-injective _ _ (rw loaded at h)

  start_up-IsReady :
      (dev : Bool) (rounds : List Round) (env e env' : Env) (c : Config) (s : Started)
      → ((url : Text) (db : Db) → connect url ≡ some db → Loadable db.rows)
      → HasRead env c e
      → start_up a b x connect has_nat_map dev rounds c e ≡ (some s, env')
      → IsReady a rounds env env' s
  unfolding start_up active_key
  start_up-IsReady dev rounds env e env' c s loadable read h =
      let r = proceed-eq-some (when_ready (wait_for_interface rounds)) _ e env' h in
      let l = proceed-eq-some (load_and_attach a dev c.tunnel c.wan c.active c.prev) _ e env' r.2 in
      let d = proceed-eq-some (connect c.url) _ e env' l.2 in
      let n = proceed-eq-some (succeeds has_nat_map) _ e env' d.2 in
      let loads = bulk_load-loaded_entry b room x w d.0 l.0.maps.nat_map (loadable c.url d.0 d.1) in
      let made = bulk_load-eq-some c d.0 l.0 s _ loads.0 loads.1 (ap (λ o. o.0) n.2) in
      let left = load_and_attach-eq-some a dev c.tunnel c.wan c.active c.prev l.0 l.1 in
      let written =
        accepted_key_is_active dev left.1 left.2 read.accepted.0 c.active c.prev left.0
          read.accepted.2 in
      subst (IsReady a rounds env env') made (record {
        waited = when_ready-eq-some (wait_for_interface rounds) r.1;
        tunnel = read.tunnel_named;
        wan = read.wan_named;
        attached = ap (λ y. y.attached) left.5;
        key_in_use = (
          read.accepted.0,
          read.accepted.1,
          ap (λ y. active_key y.maps) left.5 ∙ written.0 ∙ sym read.accepted.2,
        );
        redirects_to_tunnel = ap (λ y. y.maps.xfrm_ifindex 0) left.5 ∙ written.1 ∙ sym left.4;
        keys_removed = (
          sym (ap (λ o. o.1.proxy_addr_key_hex) n.2) ∙ read.key_removed,
          sym (ap (λ o. o.1.proxy_addr_prev_key_hex) n.2) ∙ read.prev_removed,
        );
        domains_loaded = λ id row found. loads.2 id ∙ ap (loaded_entry (l.0.maps.nat_map id)) found;
      })

  -- Whenever `main` comes to the point where it spawns its tasks, into a map with room and with
  -- tables of distinct ids and IPv6 origins: the interface was there, all three programs are attached
  -- to the interfaces of the environment, the packet programs use the key of the environment and
  -- redirect to the tunnel's index, both key texts are gone from the environment, and NAT_MAP has the
  -- origin of each row that was fetched.
  pub main-IsReady :
      (dev : Bool) (rounds : List Round) (env env' : Env) (s : Started)
      → ((url : Text) (db : Db) → connect url ≡ some db → Loadable db.rows)
      → main a b x connect has_nat_map dev rounds env ≡ (some s, env')
      → IsReady a rounds env env' s
  unfolding main
  main-IsReady dev rounds env env' s loadable h =
      let r = proceed-eq-some (read_env env).0 _ (read_env env).1 env' h in
      start_up-IsReady dev rounds env (read_env env).1 env' r.0 s loadable
        (read_env-eq-some env r.0 (read_env env).1 (ap (λ o. (o, (read_env env).1)) r.1)) r.2
