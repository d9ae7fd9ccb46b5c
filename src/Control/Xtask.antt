-- ===== src/Control/Xtask.antt =====
-- The commands `verify-contract` and `build-ebpf` of xtask/src/main.rs.
pub mod Strings
pub mod Substring
pub mod Consistent
pub mod Decode
use prototype_net.Base.{
  ℕ, ◌==◌, ◌&&◌, ◌||◌, Bool, true, false, if◌then◌else◌, List, [], ◌∷◌, ◌++◌, ◌⊎◌, inl, inr, Option,
  none, some,
}
use prototype_net.Control.Text.{Text}
use prototype_net.Control.Number.Decimal.{decimal}
use prototype_net.Control.Daemon.Key.{trim}
use prototype_net.Control.Xtask.Strings.{
  contract_path, client_swanctl, client_entrypoint, swanctl_template, xfrm0_template,
  local_ts_prefix, if_id_in_prefix, if_id_out_prefix, link_prefix, link_suffix,
  pool_start_placeholder, pool_end_placeholder, prefix_placeholder, xfrm_j2_placeholder, nightly,
  build, unstable, build_std, target_flag, target, release, features, dev_mode, ebpf_dir,
  target_dir,
}

-- The fields of contract.toml that this program reads.
pub record ContractView : Type 0 where
  pub synthetic_prefix_cidr : Text
  pub if_id : ℕ

pub record Check : Type 0 where
  pub rel_path : Text
  pub pattern : Text

pub data Failure : Type 0 where
  unreadable : Text → Failure
  not_found : Text → Text → Failure

-- A run of cargo that builds.
pub record Build : Type 0 where
  pub args : List Text
  pub cargo_target_dir : Text
  pub current_dir : Text

-- What the program takes from outside: `cargo locate-project`, files, the crate `toml`, and cargo's
-- exit status.
pub record Host : Type 0 where
  pub locate_project : Option Text
  pub read_to_string : Text → Option Text
  pub from_toml : Text → Option ContractView
  pub status : Build → Option Bool

pub data TaskError : Type 0 where
  no_cargo : TaskError
  no_parent : TaskError
  no_contract : TaskError
  bad_contract : TaskError
  checks_failed : List Failure → TaskError
  build_not_run : TaskError
  build_failed : TaskError

abbrev pub Fallible : Type 0 → Type 0
Fallible A = TaskError ⊎ A

infixl 10 ◌>>=◌
abbrev pub ◌>>=◌ : {A B : Type 0} → Fallible A → (A → Fallible B) → Fallible B
inl e >>= f = inl e
inr a >>= f = f a

abbrev pub or_error : {A : Type 0} → TaskError → Option A → Fallible A
or_error e none = inl e
or_error e (some a) = inr a

-- What stands before the last slash.
unfoldable pub before_slash : Text → Option Text
before_slash [] = none
before_slash (c ∷ cs) = elim (before_slash cs) [
  | some d ↦ some (c ∷ d)
  | none ↦ (if c == 47 then some [] else none)
]

-- `Path::parent`, for a path without repeated or final slashes.
unfoldable pub parent : Text → Option Text
unfolding before_slash
parent [] = none
parent (c ∷ []) = if c == 47 then none else some []
parent (c ∷ d ∷ cs) = elim (before_slash (c ∷ d ∷ cs)) [
  | none ↦ some []
  | some [] ↦ some (47 ∷ [])
  | some (e ∷ es) ↦ some (e ∷ es)
]

-- `Path::join` with a relative path.
unfoldable pub join : Text → Text → Text
join [] rel = rel
join (c ∷ []) rel = if c == 47 then c ∷ rel else c ∷ 47 ∷ rel
join (c ∷ d ∷ cs) rel = c ∷ join (d ∷ cs) rel

unfoldable pub is_prefix : Text → Text → Bool
is_prefix [] t = true
is_prefix (c ∷ p) [] = false
is_prefix (c ∷ p) (d ∷ t) = (c == d) && is_prefix p t

-- `str::contains`
unfoldable pub contains : Text → Text → Bool
unfolding is_prefix
contains [] pattern = is_prefix pattern []
contains (c ∷ cs) pattern = is_prefix pattern (c ∷ cs) || contains cs pattern

unfoldable pub checks : ContractView → List Check
unfolding decimal
checks c =
    record { rel_path = client_swanctl; pattern = local_ts_prefix ++ c.synthetic_prefix_cidr }
    ∷ record { rel_path = client_swanctl; pattern = if_id_in_prefix ++ decimal c.if_id }
    ∷ record { rel_path = client_swanctl; pattern = if_id_out_prefix ++ decimal c.if_id }
    ∷ record {
      rel_path = client_entrypoint;
      pattern = link_prefix ++ (decimal c.if_id ++ link_suffix);
    }
    ∷ record { rel_path = swanctl_template; pattern = pool_start_placeholder }
    ∷ record { rel_path = swanctl_template; pattern = pool_end_placeholder }
    ∷ record { rel_path = swanctl_template; pattern = prefix_placeholder }
    ∷ record { rel_path = swanctl_template; pattern = xfrm_j2_placeholder }
    ∷ record { rel_path = xfrm0_template; pattern = xfrm_j2_placeholder }
    ∷ []

-- The failures of one check, with the text of its file.
abbrev pub failure_in : Check → Option Text → List Failure
failure_in check none = unreadable check.rel_path ∷ []
failure_in check (some content) =
    if contains content check.pattern then [] else not_found check.rel_path check.pattern ∷ []

abbrev pub conclude : List Failure → Fallible (Unit {0})
conclude [] = inr tt
conclude (f ∷ failures) = inl (checks_failed (f ∷ failures))

abbrev pub build_args : Bool → List Text
build_args dev =
    nightly
    ∷ build
    ∷ unstable
    ∷ build_std
    ∷ target_flag
    ∷ target
    ∷ release
    ∷ (if dev then features ∷ dev_mode ∷ [] else [])

abbrev pub build_in : Text → Bool → Build
build_in workspace dev = record {
  args = build_args dev;
  cargo_target_dir = join workspace target_dir;
  current_dir = join workspace ebpf_dir;
}

abbrev pub check_status : Option Bool → Fallible (Unit {0})
check_status none = inl build_not_run
check_status (some false) = inl build_failed
check_status (some true) = inr tt

module _ (h : Host) where
  unfoldable pub workspace_root : Fallible Text
  unfolding parent trim
  workspace_root = do
    path ← or_error no_cargo h.locate_project
    or_error no_parent (parent (trim path))

  -- The loop over the checks.
  unfoldable pub failures : Text → List Check → List Failure
  unfolding contains join
  failures workspace [] = []
  failures workspace (c ∷ cs) =
      failure_in c (h.read_to_string (join workspace c.rel_path)) ++ failures workspace cs

  unfoldable pub verify_contract : Fallible (Unit {0})
  unfolding workspace_root failures checks
  verify_contract = do
    workspace ← workspace_root
    src ← or_error no_contract (h.read_to_string (join workspace contract_path))
    c ← or_error bad_contract (h.from_toml src)
    conclude (failures workspace (checks c))

  -- With the runs of cargo that it makes.
  abbrev pub build_from : Bool → Fallible Text → List Build × Fallible (Unit {0})
  build_from dev (inl e) = ([], inl e)
  build_from dev (inr workspace) =
      (build_in workspace dev ∷ [], check_status (h.status (build_in workspace dev)))

  unfoldable pub build_ebpf : Bool → List Build × Fallible (Unit {0})
  unfolding verify_contract workspace_root
  build_ebpf dev = build_from dev (verify_contract >>= λ verified. workspace_root)
