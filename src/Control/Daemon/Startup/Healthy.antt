-- ===== src/Control/Daemon/Startup/Healthy.antt =====
-- When `load_and_attach` of daemon/src/loader.rs succeeds.
use prototype_net.Base.{ℕ, ◌≡◌, refl, ap, ◌∙◌, Bool, true, false, List, [], Option, none, some}
use prototype_net.Common.Types.{ProxySrcKey}
use prototype_net.Ebpf.Exec.{Maps}
use prototype_net.Control.Run.{Run, proceed}
use prototype_net.Control.Daemon.Load.{write_dev_wan}
use prototype_net.Control.Text.{Text, Addr}
use prototype_net.Control.Daemon.Startup.{
  Aya, Ebpf, Program, MapName, IfAddr, ifindex, attach_program, set_xfrm_ifindex, set_prev_key,
  set_keys, set_dev_wan, get_wan_ipv6, load_and_attach, succeeds, ◌>>=◌, ◌>>◌, tc_ingress,
  tc_ingress_wan, xdp_wan, xfrm_ifindex, obfs_keys, dev_wan_ipv6,
}

-- Every call of `aya` and of the system succeeds, the tunnel has an index, and in dev mode the WAN
-- interface has a global address.
pub record IsHealthy (a : Aya) (dev : Bool) (tunnel wan : Text) : Type 0 where
  pub load_object : (maps : Maps) × (a.load_object ≡ some maps)
  pub create_dir : a.create_dir ≡ true
  pub program : (p : Program) → a.program p ≡ true
  pub load : (p : Program) → a.load p ≡ true
  pub attach : (p : Program) (iface : Text) → a.attach p iface ≡ true
  pub open_map : (m : MapName) → a.open_map m ≡ true
  pub set_slot : (m : MapName) (i : ℕ) → a.set_slot m i ≡ true
  pub tunnel_index : (idx : ℕ) × (ifindex a tunnel ≡ some idx)
  pub wan_address :
      dev ≡ true
      → (addrs : List IfAddr) × (ip : Addr) × (a.getifaddrs ≡ some addrs)
        × (get_wan_ipv6 wan addrs ≡ some ip)

abbrev pub HasResult {ℓ} : {A : Type ℓ} → Option A → Type ℓ
HasResult {A} o = (a : A) × (o ≡ some a)

>>=-HasResult {ℓ κ} :
    {A : Type ℓ} {B : Type κ} {m : Option A} {f : A → Option B}
    → HasResult m
    → ((a : A) → HasResult (f a))
    → HasResult (m >>= f)
>>=-HasResult {f} m next = let r = next m.0 in (r.0, ap (λ o. o >>= f) m.1 ∙ r.1)

pub succeeds-HasResult : {b : Bool} → b ≡ true → HasResult (succeeds b)
succeeds-HasResult h = (tt, ap succeeds h)

-- A `?` that passes, where the next step may use which result it was.
pub proceed-HasResult_of :
    {S A B : Type 0} {m : Option A} (f : A → Run S B) (s : S)
    → HasResult m
    → ((a : A) → m ≡ some a → HasResult (f a s).0)
    → HasResult (proceed m f s).0
proceed-HasResult_of f s m next =
    let r = next m.0 m.1 in (r.0, ap (λ o. (proceed o f s).0) m.1 ∙ r.1)

pub proceed-HasResult :
    {S A B : Type 0} {m : Option A} (f : A → Run S B) (s : S)
    → HasResult m
    → ((a : A) → HasResult (f a s).0)
    → HasResult (proceed m f s).0
proceed-HasResult f s m next = proceed-HasResult_of f s m (λ a result. next a)

module _ (a : Aya) (tunnel wan : Text) where
  attach_program-HasResult :
      (dev : Bool)
      → IsHealthy a dev tunnel wan
      → (p : Program) (iface : Text) (bpf : Ebpf) → HasResult (attach_program a p iface bpf)
  unfolding attach_program
  attach_program-HasResult dev h p iface bpf =
      >>=-HasResult (succeeds-HasResult (h.program p)) (λ _.
        >>=-HasResult (succeeds-HasResult (h.load p))
          (λ _. >>=-HasResult (succeeds-HasResult (h.attach p iface)) (λ _. (_, refl))))

  set_xfrm_ifindex-HasResult :
      (dev : Bool)
      → IsHealthy a dev tunnel wan
      → (idx : ℕ) (bpf : Ebpf) → HasResult (set_xfrm_ifindex a idx bpf)
  unfolding set_xfrm_ifindex
  set_xfrm_ifindex-HasResult dev h idx bpf =
      >>=-HasResult (succeeds-HasResult (h.open_map xfrm_ifindex))
        (λ _. >>=-HasResult (succeeds-HasResult (h.set_slot xfrm_ifindex 0)) (λ _. (_, refl)))

  set_prev_key-HasResult :
      (dev : Bool)
      → IsHealthy a dev tunnel wan
      → (prev : Option ProxySrcKey) (bpf : Ebpf) → HasResult (set_prev_key a prev bpf)
  unfolding set_prev_key
  set_prev_key-HasResult dev h none bpf = (bpf, refl)
  set_prev_key-HasResult dev h (some prev) bpf =
      >>=-HasResult (succeeds-HasResult (h.set_slot obfs_keys 1)) (λ _. (_, refl))

  set_keys-HasResult :
      (dev : Bool)
      → IsHealthy a dev tunnel wan
      → (active : ProxySrcKey) (prev : Option ProxySrcKey) (bpf : Ebpf)
      → HasResult (set_keys a active prev bpf)
  unfolding set_keys
  set_keys-HasResult dev h active prev bpf =
      >>=-HasResult (succeeds-HasResult (h.open_map obfs_keys)) (λ _.
        >>=-HasResult (succeeds-HasResult (h.set_slot obfs_keys 0))
          (λ _. set_prev_key-HasResult dev h prev _))

  set_dev_wan-HasResult :
      (dev : Bool)
      → IsHealthy a dev tunnel wan
      → (bpf : Ebpf) → HasResult (set_dev_wan a dev wan bpf)
  unfolding set_dev_wan
  set_dev_wan-HasResult false h bpf = (bpf, refl)
  set_dev_wan-HasResult true h bpf =
      let i = h.wan_address refl in
      (
        _,
        ap (λ o. o >>= λ addrs. get_wan_ipv6 wan addrs >>= opened) i.2
            ∙ ap (λ o. o >>= opened) i.3
            ∙ (>>=-HasResult (succeeds-HasResult (h.open_map dev_wan_ipv6)) (λ _.
                >>=-HasResult (succeeds-HasResult (h.set_slot dev_wan_ipv6 0)) (λ _. (_, refl)))).1,
      )
    where
      opened : Addr → Option Ebpf
      opened ip =
          succeeds (a.open_map dev_wan_ipv6)
          >> (succeeds (a.set_slot dev_wan_ipv6 0)
              >> some (record bpf { maps = write_dev_wan true ip bpf.maps }))

  pub load_and_attach-HasResult :
      (dev : Bool)
      → IsHealthy a dev tunnel wan
      → (active : ProxySrcKey) (prev : Option ProxySrcKey)
      → HasResult (load_and_attach a dev tunnel wan active prev)
  unfolding load_and_attach
  load_and_attach-HasResult dev h active prev = >>=-HasResult h.load_object (λ maps.
      >>=-HasResult (succeeds-HasResult h.create_dir) (λ _.
        >>=-HasResult
          (attach_program-HasResult dev h tc_ingress tunnel (record { maps = maps; attached = [] }))
          (λ bpf. >>=-HasResult (attach_program-HasResult dev h tc_ingress_wan wan bpf) (λ bpf.
            >>=-HasResult (attach_program-HasResult dev h xdp_wan wan bpf) (λ bpf.
              >>=-HasResult h.tunnel_index (λ idx.
                >>=-HasResult (set_xfrm_ifindex-HasResult dev h idx bpf) (λ bpf.
                  >>=-HasResult (set_keys-HasResult dev h active prev bpf)
                    (λ bpf. set_dev_wan-HasResult dev h bpf))))))))
