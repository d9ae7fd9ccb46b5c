-- ===== src/Control/Daemon/Startup/Attach.antt =====
-- What `load_and_attach` of daemon/src/loader.rs leaves behind when it succeeds.
use mathlib.Core.Option.{some-injective}
use prototype_net.Base.{
  ℕ, ◌≡◌, refl, ap, sym, ◌∙◌, Bool, true, false, List, [], ◌∷◌, ◌++◌, Option, none, some, arith,
}
use prototype_net.Common.Types.{ProxySrcKey}
use prototype_net.Ebpf.Exec.{Maps}
use prototype_net.Control.Text.{Text, Addr}
use prototype_net.Control.Daemon.Load.{write_maps, write_prev_key, write_dev_wan, set_at}
use prototype_net.Control.Daemon.Startup.{
  Aya, Ebpf, Program, tc_ingress, tc_ingress_wan, xdp_wan, ◌>>=◌, ◌>>◌, succeeds, ifindex,
  attach_program, set_xfrm_ifindex, set_prev_key, set_keys, set_dev_wan, get_wan_ipv6, obfs_keys,
  dev_wan_ipv6, load_and_attach,
}

>>=-eq-some {ℓ κ} :
    {A : Type ℓ} {B : Type κ} (m : Option A) (f : A → Option B) {b : B}
    → (m >>= f) ≡ some b
    → (a : A) × (m ≡ some a) × (f a ≡ some b)
>>=-eq-some none f h = absurd (cc)
>>=-eq-some (some a) f h = (a, refl, h)

-- The three programs and their interfaces.
abbrev pub all_attached : Text → Text → List (Program × Text)
all_attached tunnel wan = (tc_ingress, tunnel) ∷ (tc_ingress_wan, wan) ∷ (xdp_wan, wan) ∷ []

module _ (a : Aya) where
  attach_program-eq-some :
      (p : Program) (iface : Text) (bpf bpf' : Ebpf)
      → attach_program a p iface bpf ≡ some bpf'
      → bpf' ≡ record bpf { attached = bpf.attached ++ ((p, iface) ∷ []) }
  unfolding attach_program
  attach_program-eq-some p iface bpf bpf' h = ground arith

  set_xfrm_ifindex-eq-some :
      (idx : ℕ) (bpf bpf' : Ebpf)
      → set_xfrm_ifindex a idx bpf ≡ some bpf'
      → bpf' ≡ record bpf {
        maps = record bpf.maps { xfrm_ifindex = set_at bpf.maps.xfrm_ifindex 0 idx };
      }
  unfolding set_xfrm_ifindex
  set_xfrm_ifindex-eq-some idx bpf bpf' h = ground arith

  set_prev_key-eq-some :
      (prev : Option ProxySrcKey) (bpf bpf' : Ebpf)
      → set_prev_key a prev bpf ≡ some bpf'
      → bpf' ≡ record bpf { maps = write_prev_key prev bpf.maps }
  unfolding set_prev_key
  set_prev_key-eq-some none bpf bpf' h = ground arith
  set_prev_key-eq-some (some prev) bpf bpf' h = ground arith

  set_keys-eq-some :
      (active : ProxySrcKey) (prev : Option ProxySrcKey) (bpf bpf' : Ebpf)
      → set_keys a active prev bpf ≡ some bpf'
      → bpf' ≡ record bpf {
        maps =
            write_prev_key prev
              (record bpf.maps { obfs_keys = set_at bpf.maps.obfs_keys 0 active });
      }
  unfolding set_keys
  set_keys-eq-some active prev bpf bpf' h =
      let o = >>=-eq-some (succeeds (a.open_map obfs_keys)) _ h in
      let w = >>=-eq-some (succeeds (a.set_slot obfs_keys 0)) _ o.2 in
      set_prev_key-eq-some prev _ bpf' w.2

  set_dev_wan-eq-some :
      (dev : Bool) (iface : Text) (bpf bpf' : Ebpf)
      → set_dev_wan a dev iface bpf ≡ some bpf'
      → (wan : Addr) × (bpf' ≡ record bpf { maps = write_dev_wan dev wan bpf.maps })
  unfolding set_dev_wan
  set_dev_wan-eq-some false iface bpf bpf' h = ([], ground arith)
  set_dev_wan-eq-some true iface bpf bpf' h =
      let g = >>=-eq-some a.getifaddrs _ h in
      let wan = >>=-eq-some (get_wan_ipv6 iface g.0) _ g.2 in
      let o = >>=-eq-some (succeeds (a.open_map dev_wan_ipv6)) _ wan.2 in
      let w = >>=-eq-some (succeeds (a.set_slot dev_wan_ipv6 0)) _ o.2 in
      (wan.0, sym (some-injective _ _ w.2))

  -- What `load_and_attach` does after the programs are attached.
  abbrev write_all : Bool → Text → Text → ProxySrcKey → Option ProxySrcKey → Ebpf → Option Ebpf
  write_all dev tunnel wan active prev bpf = ifindex a tunnel >>= λ idx.
      set_xfrm_ifindex a idx bpf >>= λ bpf.
      set_keys a active prev bpf >>= λ bpf. set_dev_wan a dev wan bpf

  write_all-eq-some :
      (dev : Bool) (tunnel wan : Text) (active : ProxySrcKey) (prev : Option ProxySrcKey)
      (bpf bpf' : Ebpf)
      → write_all dev tunnel wan active prev bpf ≡ some bpf'
      → (idx : ℕ) × (wan_ipv6 : Addr) × (ifindex a tunnel ≡ some idx)
        × (bpf' ≡ record bpf { maps = write_maps dev idx wan_ipv6 active prev bpf.maps })
  unfolding write_maps
  write_all-eq-some dev tunnel wan active prev bpf bpf' h =
      let i =
        >>=-eq-some (ifindex a tunnel)
          (λ idx. set_xfrm_ifindex a idx bpf >>= λ bpf.
            set_keys a active prev bpf >>= λ bpf. set_dev_wan a dev wan bpf)
          h in
      let x =
        >>=-eq-some (set_xfrm_ifindex a i.0 bpf)
          (λ bpf. set_keys a active prev bpf >>= λ bpf. set_dev_wan a dev wan bpf) i.2 in
      let k = >>=-eq-some (set_keys a active prev x.0) (set_dev_wan a dev wan) x.2 in
      let d = set_dev_wan-eq-some dev wan k.0 bpf' k.2 in
      (
        i.0,
        d.0,
        i.1,
        d.1
            ∙ ap {A = Ebpf} (λ b. record b { maps = write_dev_wan dev d.0 b.maps })
                (set_keys-eq-some active prev x.0 k.0 k.1
                  ∙ ap {A = Ebpf}
                      (λ b. record b {
                        maps =
                            write_prev_key prev
                              (record b.maps { obfs_keys = set_at b.maps.obfs_keys 0 active });
                      })
                      (set_xfrm_ifindex-eq-some i.0 bpf x.0 x.1)),
      )

  -- The three attachments, and then `next`.
  abbrev attach_all : Text → Text → (Ebpf → Option Ebpf) → Ebpf → Option Ebpf
  attach_all tunnel wan next bpf = attach_program a tc_ingress tunnel bpf >>= λ bpf.
      attach_program a tc_ingress_wan wan bpf >>= λ bpf. attach_program a xdp_wan wan bpf >>= next

  attach_all-eq-some :
      (tunnel wan : Text) (next : Ebpf → Option Ebpf) (maps : Maps) (bpf' : Ebpf)
      → attach_all tunnel wan next (record { maps = maps; attached = [] }) ≡ some bpf'
      → next (record { maps = maps; attached = all_attached tunnel wan }) ≡ some bpf'
  attach_all-eq-some tunnel wan next maps bpf' h =
      let p =
        >>=-eq-some (attach_program a tc_ingress tunnel (record { maps = maps; attached = [] }))
          (λ bpf. attach_program a tc_ingress_wan wan bpf >>= λ bpf.
            attach_program a xdp_wan wan bpf >>= next)
          h in
      let q =
        >>=-eq-some (attach_program a tc_ingress_wan wan p.0)
          (λ bpf. attach_program a xdp_wan wan bpf >>= next) p.2 in
      let r = >>=-eq-some (attach_program a xdp_wan wan q.0) next q.2 in
      ap next (
        sym (
          attach_program-eq-some xdp_wan wan q.0 r.0 r.1
          ∙ ap {A = Ebpf} (λ b. record b { attached = b.attached ++ ((xdp_wan, wan) ∷ []) })
              (attach_program-eq-some tc_ingress_wan wan p.0 q.0 q.1
                ∙ ap {A = Ebpf}
                    (λ b. record b { attached = b.attached ++ ((tc_ingress_wan, wan) ∷ []) })
                    (attach_program-eq-some tc_ingress tunnel
                      (record { maps = maps; attached = [] }) p.0 p.1))))
      ∙ r.2

  -- The maps that the kernel made, with the index of the tunnel, the keys and in dev mode a WAN
  -- address written into them, and all three programs attached.
  pub load_and_attach-eq-some :
      (dev : Bool) (tunnel wan : Text) (active : ProxySrcKey) (prev : Option ProxySrcKey)
      (bpf : Ebpf)
      → load_and_attach a dev tunnel wan active prev ≡ some bpf
      → (maps : Maps) × (idx : ℕ) × (wan_ipv6 : Addr) × (a.load_object ≡ some maps)
        × (ifindex a tunnel ≡ some idx)
        × (bpf ≡ record {
          maps = write_maps dev idx wan_ipv6 active prev maps;
          attached = all_attached tunnel wan;
        })
  unfolding load_and_attach
  load_and_attach-eq-some dev tunnel wan active prev bpf h =
      let o =
        >>=-eq-some a.load_object
          (λ maps.
            succeeds a.create_dir
            >> attach_all tunnel wan (write_all dev tunnel wan active prev)
                (record { maps = maps; attached = [] }))
          h in
      let c =
        >>=-eq-some (succeeds a.create_dir)
          (λ _.
            attach_all tunnel wan (write_all dev tunnel wan active prev)
              (record { maps = o.0; attached = [] }))
          o.2 in
      let w =
        write_all-eq-some dev tunnel wan active prev
          (record { maps = o.0; attached = all_attached tunnel wan }) bpf
          (attach_all-eq-some tunnel wan (write_all dev tunnel wan active prev) o.0 bpf c.2) in
      (o.0, w.0, w.1, o.1, w.2, w.3)
