-- ===== src/Control/Daemon/Startup/Main.antt =====
-- `main` of daemon/src/main.rs, up to the tasks that it spawns.
use prototype_net.Base.{ℕ, Bool, List, Option, none, some}
use prototype_net.Common.Types.{ProxySrcKey}
use prototype_net.Control.Run.{Run, done, lift, proceed, ◌>>=◌, ◌>>◌}
use prototype_net.Control.Text.{Text, Texts}
use prototype_net.Control.Database.{Db}
use prototype_net.Control.Daemon.Key.{parse_proxy_key_hex}
use prototype_net.Control.Daemon.NatMap.{BpfHash, bulk_load_from_db}
use prototype_net.Control.Daemon.Startup.{
  Aya, Ebpf, Round, Waited, ready, interrupted, waiting, wait_for_interface, load_and_attach,
  succeeds,
}

-- The environment variables that `main` reads.
pub record Env : Type 0 where
  pub database_url : Option Text
  pub interface_name : Option Text
  pub wan_interface : Option Text
  pub proxy_addr_key_hex : Option Text
  pub proxy_addr_prev_key_hex : Option Text

pub record Config : Type 0 where
  pub url : Text
  pub tunnel : Text
  pub wan : Text
  pub active : ProxySrcKey
  pub prev : Option ProxySrcKey

-- The value `bpf` of `main`, when the tasks are spawned, and the count that it logs.
pub record Started : Type 0 where
  pub config : Config
  pub bpf : Ebpf
  pub loaded : ℕ
  pub db : Db

abbrev pub var : (Env → Option Text) → Run Env Text
var name env = (name env, env)

-- A key's variable is removed once it is read, also if its text is no key.
abbrev pub take_active : Option Text → Run Env ProxySrcKey
take_active none env = (none, env)
take_active (some hex) env = (parse_proxy_key_hex hex, record env { proxy_addr_key_hex = none })

abbrev pub given : Option ProxySrcKey → Option (Option ProxySrcKey)
given none = none
given (some key) = some (some key)

abbrev pub take_prev : Option Text → Run Env (Option ProxySrcKey)
take_prev none env = (some none, env)
take_prev (some hex) env =
    (given (parse_proxy_key_hex hex), record env { proxy_addr_prev_key_hex = none })

unfoldable pub read_env : Run Env Config
read_env = do
  url ← var (λ e. e.database_url)
  tunnel ← var (λ e. e.interface_name)
  wan ← var (λ e. e.wan_interface)
  active ← λ e. take_active e.proxy_addr_key_hex e
  prev ← λ e. take_prev e.proxy_addr_prev_key_hex e
  done (record { url = url; tunnel = tunnel; wan = wan; active = active; prev = prev })

-- An interrupted wait is an `Err`, and a wait that goes on has not come further.
abbrev pub when_ready : Waited → Option (Unit {0})
when_ready ready = some tt
when_ready interrupted = none
when_ready waiting = none

-- `bulk_load_from_db` on the loaded object.
abbrev pub bulk_load : BpfHash → Texts → Config → Db → Run Ebpf Started
bulk_load b x config db bpf =
    let load = bulk_load_from_db b x db bpf.maps.nat_map in
    let bpf' = record bpf { maps = record bpf.maps { nat_map = load.1 } } in
    proceed load.0 (λ count. done (record { config = config; bpf = bpf'; loaded = count; db = db }))
      bpf'

-- The pool that a database URL gives, and the table as the bulk load fetches it; and whether
-- NAT_MAP is among the maps of the object.
module _ (a : Aya) (b : BpfHash) (x : Texts) (connect : Text → Option Db) (has_nat_map : Bool) where
  unfoldable pub start_up : Bool → List Round → Config → Run Env Started
  unfolding wait_for_interface load_and_attach bulk_load_from_db
  start_up dev rounds c = do
    lift (when_ready (wait_for_interface rounds))
    bpf ← lift (load_and_attach a dev c.tunnel c.wan c.active c.prev)
    db ← lift (connect c.url)
    lift (succeeds has_nat_map)
    lift (bulk_load b x c db bpf).0

  unfoldable pub main : Bool → List Round → Run Env Started
  unfolding read_env start_up
  main dev rounds = do config ← read_env; start_up dev rounds config
