-- ===== src/Control/Xtask/Consistent.antt =====
-- When `verify-contract` of xtask/src/main.rs succeeds, and what `build-ebpf` then runs.
use mathlib.Core.Option.{some-injective}
use mathlib.Core.Sum.{inr-injective}
use prototype_net.Base.{
  ◌≡◌, refl, ap, subst, sym, ◌∙◌, Bool-cases, Bool, true, false, inl, inr, ◌⊎◌, ◌↔◌, List, [], ◌∷◌,
  ◌++◌, Option, none, some, arith,
}
use prototype_net.Control.Text.{Text}
use prototype_net.Control.Xtask.{
  Host, Check, ContractView, Failure, Fallible, TaskError, ◌>>=◌, or_error, no_contract,
  bad_contract, failure_in, failures, conclude, contains, join, checks, workspace_root,
  verify_contract, build_ebpf, build_in, check_status,
}
use prototype_net.Control.Xtask.Strings.{contract_path}
use prototype_net.Control.Xtask.Substring.{IsPart, contains_iff}

or_error-inr :
    {A : Type 0} (e : TaskError) (o : Option A) (a : A) → or_error e o ≡ inr a → o ≡ some a
or_error-inr e none a h = absurd (cc)
or_error-inr e (some b) a h = ap some (inr-injective _ _ h)

>>=-eq-inr :
    {A B : Type 0} (m : Fallible A) (f : A → Fallible B) {b : B}
    → (m >>= f) ≡ inr b
    → (a : A) × (m ≡ inr a) × (f a ≡ inr b)
>>=-eq-inr (inl e) f h = absurd (cc)
>>=-eq-inr (inr a) f h = (a, refl, h)

module _ (h : Host) where
  -- A file that can be read and has the pattern of the check.
  abbrev pub Passes : Text → Check → Type 0
  Passes workspace c =
      (content : Text) × (h.read_to_string (join workspace c.rel_path) ≡ some content)
      × IsPart c.pattern content

  unfoldable pub AllPass : Text → List Check → Type 0
  AllPass workspace [] = Unit
  AllPass workspace (c ∷ cs) = Passes workspace c × AllPass workspace cs

  -- The workspace is found, its contract.toml is read, and every file has what it must have.
  pub record IsConsistent : Type 0 where
    pub workspace : Text
    pub located : workspace_root h ≡ inr workspace
    pub src : Text
    pub read : h.read_to_string (join workspace contract_path) ≡ some src
    pub contract : ContractView
    pub parsed : h.from_toml src ≡ some contract
    pub passed : AllPass workspace (checks contract)

  different : {x : Bool} → x ≡ false → x ≡ true → ⊥
  different is_false is_true = absurd (cc)

  append-nil : {A : Type 0} (xs ys : List A) → (xs ++ ys) ≡ [] → (xs ≡ []) × (ys ≡ [])
  append-nil [] ys e = (refl, e)
  append-nil (x ∷ xs) ys e = absurd (cc)

  no_failure :
      (c : Check) (o : Option Text)
      → (failure_in c o ≡ []) ↔ ((content : Text) × (o ≡ some content) × IsPart c.pattern content)
  no_failure c none = (λ e. absurd (cc), λ q. absurd (cc))
  no_failure c (some content) = elim (Bool-cases (contains content c.pattern)) [
    | inl found ↦
        (λ e. (content, refl, (contains_iff content c.pattern).0 found), λ q. rw found refl)
    | inr missing ↦ (
      λ e. absurd (ground arith),
      λ q. absurd (
          different missing (
            (contains_iff content c.pattern).1
              (subst (IsPart c.pattern) (sym (some-injective _ _ q.1)) q.2))),
    )
  ]

  failures-AllPass :
      (workspace : Text) (cs : List Check) → failures h workspace cs ≡ [] → AllPass workspace cs
  unfolding failures AllPass
  failures-AllPass workspace [] e = tt
  failures-AllPass workspace (c ∷ cs) e =
      let none_failed =
        append-nil (failure_in c (h.read_to_string (join workspace c.rel_path)))
          (failures h workspace cs) e in
      (
        (no_failure c (h.read_to_string (join workspace c.rel_path))).0 none_failed.0,
        failures-AllPass workspace cs none_failed.1,
      )

  AllPass-failures :
      (workspace : Text) (cs : List Check) → AllPass workspace cs → failures h workspace cs ≡ []
  unfolding failures AllPass
  AllPass-failures workspace [] e = refl
  AllPass-failures workspace (c ∷ cs) e =
      rw ((no_failure c (h.read_to_string (join workspace c.rel_path))).1 e.0)
        (AllPass-failures workspace cs e.1)

  conclude-nil : (fs : List Failure) → conclude fs ≡ inr tt → fs ≡ []
  conclude-nil [] e = refl
  conclude-nil (f ∷ fs) e = absurd (cc)

  -- `verify-contract` succeeds exactly when the workspace is found, its contract.toml is read and
  -- parsed, and every file of the checks can be read and has its pattern somewhere in it.
  pub verify_contract-IsConsistent : (verify_contract h ≡ inr tt) ↔ IsConsistent
  unfolding verify_contract
  verify_contract-IsConsistent = (sound, complete)
    where
      sound : verify_contract h ≡ inr tt → IsConsistent
      sound e =
          let w = >>=-eq-inr (workspace_root h) _ e in
          let s =
            >>=-eq-inr (or_error no_contract (h.read_to_string (join w.0 contract_path))) _ w.2 in
          let c = >>=-eq-inr (or_error bad_contract (h.from_toml s.0)) _ s.2 in
          record {
            workspace = w.0;
            located = w.1;
            src = s.0;
            read = or_error-inr _ _ s.0 s.1;
            contract = c.0;
            parsed = or_error-inr _ _ c.0 c.1;
            passed = failures-AllPass w.0 (checks c.0) (conclude-nil _ c.2);
          }

      complete : IsConsistent → verify_contract h ≡ inr tt
      complete i =
          rw
            (i.located, i.read, i.parsed, AllPass-failures i.workspace (checks i.contract) i.passed)
            refl

  consistent_or_not :
      IsConsistent ⊎ ((¬ IsConsistent) × ((e : TaskError) × (verify_contract h ≡ inl e)))
  consistent_or_not = by_result (verify_contract h) refl
    where
      by_result :
          (o : Fallible (Unit {0}))
          → verify_contract h ≡ o
          → IsConsistent ⊎ ((¬ IsConsistent) × ((e : TaskError) × (verify_contract h ≡ inl e)))
      by_result (inl e) failed =
          inr (
            λ i. absurd (one_result e (sym failed ∙ verify_contract-IsConsistent.1 i)),
            (e, failed),
          )
        where
          one_result : (e : TaskError) {o : Unit {0}} → ¬ (or_error {A = Unit {0}} e none ≡ inr o)
          one_result e both = absurd (cc)
      by_result (inr done) verified = inl (verify_contract-IsConsistent.0 verified)

  -- If the configuration is consistent, as `verify-contract` checks it, then `build-ebpf` runs cargo
  -- once, in the directory of the packet programs, with the feature dev-mode if it is asked for,
  -- and has the result of that run; if not, it fails and runs no build.
  pub build_ebpf-IsConsistent :
      (dev : Bool)
      → ((i : IsConsistent) × (build_ebpf h dev
            ≡ (build_in i.workspace dev ∷ [], check_status (h.status (build_in i.workspace dev)))))
        ⊎ ((¬ IsConsistent) × ((e : TaskError) × (build_ebpf h dev ≡ ([], inl e))))
  unfolding build_ebpf
  build_ebpf-IsConsistent dev = elim consistent_or_not [
    | inl i ↦ inl (i, rw (verify_contract-IsConsistent.1 i, i.located) refl)
    | inr (broken, (e, failed)) ↦ inr (broken, (e, rw failed refl))
  ]
