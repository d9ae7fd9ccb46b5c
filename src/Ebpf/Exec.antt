-- ===== src/Ebpf/Exec.antt =====
-- Runs of the packet programs: the packet and the maps, and what a run of some code ends with.
-- What was written before an error stays written, so the state comes back beside it.
use prototype_net.Base.{ℕ, Option, none, some, List}
use prototype_net.Common.Types.{ProxySrcKey, NatEntry}
use prototype_net.Ebpf.Kernel.{ReplyTrack}

-- The maps, as the lookups of the programs see them.
pub record Maps : Type 0 where
  pub nat_map : ℕ → Option NatEntry
  pub xfrm_ifindex : ℕ → Option ℕ
  pub obfs_keys : ℕ → Option ProxySrcKey
  pub dev_wan_ipv6 : ℕ → Option (List ℕ)
  pub reply_track : ReplyTrack
  pub dbg_counters : List ℕ

pub record State : Type 0 where
  pub packet : List ℕ
  pub maps : Maps

-- `Ok`, `Err(())`, and undefined behaviour: `unreachable_unchecked` reached, or a read or a write
-- through a pointer that leaves the packet.
pub data Outcome {ℓ} (A : Type ℓ) : Type ℓ where
  ok : A → Outcome A
  err : Outcome A
  undefined : Outcome A

abbrev pub Exec {ℓ} : Type ℓ → Type ℓ
Exec A = State → Outcome A × State

module _ {ℓ} {A : Type ℓ} where
  abbrev pub pure : A → Exec A
  pure a s = (ok a, s)

  abbrev pub fail : Exec A
  fail s = (err, s)

  abbrev pub unreachable : Exec A
  unreachable s = (undefined, s)

  abbrev pub gets : (State → A) → Exec A
  gets f s = (ok (f s), s)

  -- `.map_err(|_| ())?` on a helper's result.
  abbrev pub try_get : Option A → Exec A
  try_get none s = (err, s)
  try_get (some a) s = (ok a, s)

abbrev pub try_put : Option (List ℕ) → Exec (Unit {0})
try_put none s = (err, s)
try_put (some p) s = (ok tt, record s { packet = p })

module _ {ℓ κ} {A : Type ℓ} {B : Type κ} where
  abbrev pub continue : Outcome A → (A → Exec B) → Exec B
  continue (ok a) f s = f a s
  continue err f s = (err, s)
  continue undefined f s = (undefined, s)

  infixl 10 ◌>>=◌
  abbrev pub ◌>>=◌ : Exec A → (A → Exec B) → Exec B
  ◌>>=◌ m f s = continue (m s).0 f (m s).1

infixl 10 ◌>>◌
abbrev pub ◌>>◌ {ℓ} : {B : Type ℓ} → Exec (Unit {0}) → Exec B → Exec B
m >> n = m >>= λ _. n

-- What a classifier returns: TC_ACT_OK, TC_ACT_SHOT, or the value of `bpf_redirect`.
pub data TcAction : Type 0 where
  act_ok : TcAction
  act_shot : TcAction
  act_redirect : ℕ → TcAction

pub data XdpAction : Type 0 where
  xdp_pass : XdpAction
  xdp_drop : XdpAction

-- The `match` of an entry point, with the action for `Err`. `none` is undefined behaviour.
unfoldable pub settle : {A : Type 0} → A → Outcome A → Option A
settle a (ok b) = some b
settle a err = some a
settle a undefined = none
