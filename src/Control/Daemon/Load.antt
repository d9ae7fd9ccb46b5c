-- ===== src/Control/Daemon/Load.antt =====
-- The end of `load_and_attach` in daemon/src/loader.rs: what the daemon writes into the maps
-- before any packet is handled.
use prototype_net.Base.{
  ℕ, arith, ◌==◌, ◌≡◌, refl, Bool, true, false, if◌then◌else◌, Option, none, some,
}
use prototype_net.Common.Types.{ProxySrcKey, is_zero}
use prototype_net.Ebpf.Exec.{Maps}
use prototype_net.Ebpf.Ingress.{active_key, usable}
use prototype_net.Control.Text.{Text, Addr}
use prototype_net.Control.Daemon.Key.{parse_proxy_key_hex, key_of_hex, nonzero_key}

-- `Array::set` of the crate `aya`, inside the array.
abbrev pub set_at {ℓ} : {A : Type ℓ} → (ℕ → Option A) → ℕ → A → ℕ → Option A
set_at m i a j = if j == i then some a else m j

abbrev pub write_prev_key : Option ProxySrcKey → Maps → Maps
write_prev_key none maps = maps
write_prev_key (some prev) maps = record maps { obfs_keys = set_at maps.obfs_keys 1 prev }

abbrev pub write_dev_wan : Bool → Addr → Maps → Maps
write_dev_wan false wan_ipv6 maps = maps
write_dev_wan true wan_ipv6 maps = record maps {
  dev_wan_ipv6 = set_at maps.dev_wan_ipv6 0 wan_ipv6;
}

-- `XFRM_IFINDEX[0]`, the two keys, and in dev-mode the WAN address.
unfoldable pub write_maps : Bool → ℕ → Addr → ProxySrcKey → Option ProxySrcKey → Maps → Maps
write_maps dev xfrm_idx wan_ipv6 active prev maps =
    let maps = record maps { xfrm_ifindex = set_at maps.xfrm_ifindex 0 xfrm_idx } in
    let maps = record maps { obfs_keys = set_at maps.obfs_keys 0 active } in
    let maps = write_prev_key prev maps in write_dev_wan dev wan_ipv6 maps

nonzero_key-is_zero :
    (o : Option ProxySrcKey) (key : ProxySrcKey) → nonzero_key o ≡ some key → is_zero key ≡ false
unfolding nonzero_key
nonzero_key-is_zero none key h = absurd (cc)
nonzero_key-is_zero (some k) key h = ground arith

-- A key that the daemon accepts is, once the maps are written, the key that the packet programs
-- use, whatever the previous key and the build are; and the tunnel's index is in place.
pub accepted_key_is_active :
    (dev : Bool) (xfrm_idx : ℕ) (wan_ipv6 : Addr) (hex : Text) (key : ProxySrcKey)
    (prev : Option ProxySrcKey) (maps : Maps)
    → parse_proxy_key_hex hex ≡ some key
    → (active_key (write_maps dev xfrm_idx wan_ipv6 key prev maps) ≡ some key)
      × ((write_maps dev xfrm_idx wan_ipv6 key prev maps).xfrm_ifindex 0 ≡ some xfrm_idx)
unfolding parse_proxy_key_hex write_maps active_key usable
accepted_key_is_active dev xfrm_idx wan_ipv6 hex key prev maps h =
    let nonzero = nonzero_key-is_zero (key_of_hex hex) key h in written dev prev nonzero
  where
    written :
        (dev : Bool) (prev : Option ProxySrcKey)
        → is_zero key ≡ false
        → (active_key (write_maps dev xfrm_idx wan_ipv6 key prev maps) ≡ some key)
          × ((write_maps dev xfrm_idx wan_ipv6 key prev maps).xfrm_ifindex 0 ≡ some xfrm_idx)
    written true none nonzero = (rw nonzero refl, refl)
    written true (some p) nonzero = (rw nonzero refl, refl)
    written false none nonzero = (rw nonzero refl, refl)
    written false (some p) nonzero = (rw nonzero refl, refl)
