-- ===== src/Control/Daemon/Startup.antt =====
-- How the daemon starts: daemon/src/loader.rs, and `main` of daemon/src/main.rs up to the tasks that
-- it spawns.
pub mod Attach
pub mod Main
pub mod Ready
pub mod Healthy
pub mod Starts
pub mod Wait
use prototype_net.Base.{
  ℕ, ◌+◌, ◌^◌, ◌/◌, ◌==◌, ◌&&◌, not, Bool, true, false, if◌then◌else◌, List, [], ◌∷◌, ◌++◌, length,
  slice, bit_and, Option, none, some, eq_bytes,
}
use prototype_net.Word.{from_be_bytes}
use prototype_net.Common.Types.{ProxySrcKey}
use prototype_net.Ebpf.Exec.{Maps}
use prototype_net.Control.Text.{Text, Addr, Texts}
use prototype_net.Control.Number.{parse_unsigned}
use prototype_net.Control.Daemon.Key.{trim, parse_proxy_key_hex}
use prototype_net.Control.Daemon.Load.{set_at, write_prev_key, write_dev_wan}

-- One round of `wait_for_interface`: whether the interface is there, and what `select!` gets first.
pub data Wake : Type 0 where
  ctrl_c : Wake
  sigterm : Wake
  tick : Wake

pub record Round : Type 0 where
  pub exists : Bool
  pub wake : Wake

pub data Waited : Type 0 where
  ready : Waited
  interrupted : Waited
  waiting : Waited

abbrev pub on_wake : Wake → Waited → Waited
on_wake ctrl_c next = interrupted
on_wake sigterm next = interrupted
on_wake tick next = next

-- The loop, over the rounds that have been so far.
unfoldable pub wait_for_interface : List Round → Waited
wait_for_interface [] = waiting
wait_for_interface (r ∷ rs) =
    let next = wait_for_interface rs in if r.exists then ready else on_wake r.wake next

-- An entry of `getifaddrs`: an address, if there is one, as an IPv6 address, if it is one.
pub record IfAddr : Type 0 where
  pub interface_name : Text
  pub address : Option (Option Addr)

-- `fe80::/10`
unfoldable pub is_unicast_link_local : Addr → Bool
is_unicast_link_local ip = bit_and (from_be_bytes (slice ip 0 2)) 0xffc0 == 0xfe80

abbrev pub global_ip : Option (Option Addr) → Option Addr
global_ip none = none
global_ip (some none) = none
global_ip (some (some ip)) = if is_unicast_link_local ip then none else some ip

abbrev pub or_else : Option Addr → Option Addr → Option Addr
or_else none next = next
or_else (some ip) next = some ip

unfoldable pub get_wan_ipv6 : Text → List IfAddr → Option Addr
unfolding is_unicast_link_local
get_wan_ipv6 iface [] = none
get_wan_ipv6 iface (i ∷ addrs) =
    or_else (if eq_bytes i.interface_name iface then global_ip i.address else none)
      (get_wan_ipv6 iface addrs)

pub data Program : Type 0 where
  tc_ingress : Program
  tc_ingress_wan : Program
  xdp_wan : Program

pub data MapName : Type 0 where
  xfrm_ifindex : MapName
  obfs_keys : MapName
  dev_wan_ipv6 : MapName

-- The crate `aya` and the system, as `load_and_attach` meets them: `Ebpf::load` with the maps that it
-- makes, the directory of pins, each program found, loaded and attached, a map opened and a slot
-- of it set, the file with the index of an interface, and the addresses of the interfaces.
pub record Aya : Type 0 where
  pub load_object : Option Maps
  pub create_dir : Bool
  pub program : Program → Bool
  pub load : Program → Bool
  pub attach : Program → Text → Bool
  pub open_map : MapName → Bool
  pub set_slot : MapName → ℕ → Bool
  pub read_ifindex : Text → Option Text
  pub getifaddrs : Option (List IfAddr)

-- The value `Ebpf`: its maps, and the programs that stay attached as long as it lives.
pub record Ebpf : Type 0 where
  pub maps : Maps
  pub attached : List (Program × Text)

-- Fallible steps: `none` is an `Err`, with which `Ebpf` and all that is attached is dropped.
infixl 10 ◌>>=◌ ◌>>◌
abbrev pub ◌>>=◌ {ℓ κ} : {A : Type ℓ} {B : Type κ} → Option A → (A → Option B) → Option B
none >>= f = none
some a >>= f = f a

abbrev pub ◌>>◌ {ℓ} : {B : Type ℓ} → Option (Unit {0}) → Option B → Option B
m >> next = m >>= λ _. next

abbrev pub succeeds : Bool → Option (Unit {0})
succeeds false = none
succeeds true = some tt

module _ (a : Aya) where
  unfoldable pub ifindex : Text → Option ℕ
  unfolding trim parse_unsigned
  ifindex name = do s ← a.read_ifindex name; parse_unsigned (2 ^ 32) (trim s)

  unfoldable pub attach_program : Program → Text → Ebpf → Option Ebpf
  attach_program p iface bpf = do
    succeeds (a.program p)
    succeeds (a.load p)
    succeeds (a.attach p iface)
    some (record bpf { attached = bpf.attached ++ ((p, iface) ∷ []) })

  unfoldable pub set_xfrm_ifindex : ℕ → Ebpf → Option Ebpf
  set_xfrm_ifindex xfrm_idx bpf = do
    succeeds (a.open_map xfrm_ifindex)
    succeeds (a.set_slot xfrm_ifindex 0)
    some (record bpf {
      maps = record bpf.maps { xfrm_ifindex = set_at bpf.maps.xfrm_ifindex 0 xfrm_idx };
    })

  unfoldable pub set_prev_key : Option ProxySrcKey → Ebpf → Option Ebpf
  set_prev_key none bpf = some bpf
  set_prev_key (some prev) bpf = do
    succeeds (a.set_slot obfs_keys 1)
    some (record bpf { maps = write_prev_key (some prev) bpf.maps })

  unfoldable pub set_keys : ProxySrcKey → Option ProxySrcKey → Ebpf → Option Ebpf
  unfolding set_prev_key
  set_keys active prev bpf = do
    succeeds (a.open_map obfs_keys)
    succeeds (a.set_slot obfs_keys 0)
    set_prev_key prev
        (record bpf { maps = record bpf.maps { obfs_keys = set_at bpf.maps.obfs_keys 0 active } })

  -- The block of the feature dev-mode.
  unfoldable pub set_dev_wan : Bool → Text → Ebpf → Option Ebpf
  unfolding get_wan_ipv6
  set_dev_wan false wan_iface bpf = some bpf
  set_dev_wan true wan_iface bpf = do
    addrs ← a.getifaddrs
    wan_ipv6 ← get_wan_ipv6 wan_iface addrs
    succeeds (a.open_map dev_wan_ipv6)
    succeeds (a.set_slot dev_wan_ipv6 0)
    some (record bpf { maps = write_dev_wan true wan_ipv6 bpf.maps })

  unfoldable pub load_and_attach :
      Bool → Text → Text → ProxySrcKey → Option ProxySrcKey → Option Ebpf
  unfolding ifindex attach_program set_xfrm_ifindex set_keys set_dev_wan
  load_and_attach dev tunnel_iface wan_iface active_key prev_key = do
    maps ← a.load_object
    succeeds a.create_dir
    bpf ← attach_program tc_ingress tunnel_iface (record { maps = maps; attached = [] })
    bpf ← attach_program tc_ingress_wan wan_iface bpf
    bpf ← attach_program xdp_wan wan_iface bpf
    xfrm_idx ← ifindex tunnel_iface
    bpf ← set_xfrm_ifindex xfrm_idx bpf
    bpf ← set_keys active_key prev_key bpf
    set_dev_wan dev wan_iface bpf
