-- ===== src/Control/Daemon/Startup/Wait.antt =====
-- How the loop `wait_for_interface` of daemon/src/loader.rs ends.
use prototype_net.Base.{
  ◌≡◌, refl, ap, ◌∙◌, ◌⊎◌, inl, inr, Bool, true, false, if◌then◌else◌, List, [], ◌∷◌, ◌++◌,
}
use prototype_net.Control.Daemon.Startup.{
  Round, Wake, ctrl_c, sigterm, tick, ready, interrupted, waiting, wait_for_interface,
}

-- The interface is not there, and the interval passes without a signal.
abbrev pub IsPending : Round → Type 0
IsPending r = (r.exists ≡ false) × (r.wake ≡ tick)

unfoldable pub AllPending : List Round → Type 0
AllPending [] = Unit
AllPending (r ∷ rounds) = IsPending r × AllPending rounds

-- A first round that is not pending, and what it ends the wait with.
pub record EndsIn (rounds : List Round) : Type 0 where
  pub before : List Round
  pub last : Round
  pub rest : List Round
  pub decomposed : rounds ≡ before ++ last ∷ rest
  pub pending_before : AllPending before
  pub ends : ¬ IsPending last
  pub outcome : wait_for_interface rounds ≡ (if last.exists then ready else interrupted)

later :
    (r : Round) (rounds : List Round)
    → IsPending r
    → wait_for_interface (r ∷ rounds) ≡ wait_for_interface rounds
unfolding wait_for_interface
later r rounds p = rw (p.0, p.1) refl

at_once : (r : Round) (rounds : List Round) → ¬ IsPending r → EndsIn (r ∷ rounds)
unfolding wait_for_interface AllPending
at_once r rounds ends = record {
  before = [];
  last = r;
  rest = rounds;
  decomposed = refl;
  pending_before = tt;
  ends = ends;
  outcome = by_cases r.exists r.wake ends;
}
  where
    by_cases :
        (exists : Bool) (wake : Wake)
        → ¬ IsPending (record { exists = exists; wake = wake })
        → wait_for_interface (record { exists = exists; wake = wake } ∷ rounds)
          ≡ (if exists then ready else interrupted)
    by_cases true wake ends = refl
    by_cases false ctrl_c ends = refl
    by_cases false sigterm ends = refl
    by_cases false tick ends = absurd (ends (refl, refl))

after : (r : Round) (rounds : List Round) → IsPending r → EndsIn rounds → EndsIn (r ∷ rounds)
unfolding AllPending
after r rounds p e = record {
  before = r ∷ e.before;
  last = e.last;
  rest = e.rest;
  decomposed = ap (λ rs. r ∷ rs) e.decomposed;
  pending_before = (p, e.pending_before);
  ends = e.ends;
  outcome = later r rounds p ∙ e.outcome;
}

IsPending-or_not : (r : Round) → IsPending r ⊎ (¬ IsPending r)
IsPending-or_not r = by_cases r.exists r.wake
  where
    by_cases :
        (exists : Bool) (wake : Wake)
        → IsPending (record { exists = exists; wake = wake })
          ⊎ (¬ IsPending (record { exists = exists; wake = wake }))
    by_cases true wake = inr (λ p. absurd (cc))
    by_cases false ctrl_c = inr (λ p. absurd (cc))
    by_cases false sigterm = inr (λ p. absurd (cc))
    by_cases false tick = inl (refl, refl)

-- The wait goes on as long as every round so far is pending, that is the interface was not there
-- and the interval passed without a signal; the first round that is not pending ends it, with
-- success if the interface is there, and else as interrupted.
pub wait_for_interface-EndsIn :
    (rounds : List Round)
    → (AllPending rounds × (wait_for_interface rounds ≡ waiting)) ⊎ EndsIn rounds
unfolding wait_for_interface AllPending
wait_for_interface-EndsIn [] = inl (tt, refl)
wait_for_interface-EndsIn (r ∷ rounds) = elim (IsPending-or_not r) [
  | inr ends ↦ inr (at_once r rounds ends)
  | inl p ↦ elim (wait_for_interface-EndsIn rounds) [
    | inl (all, goes_on) ↦ inl ((p, all), later r rounds p ∙ goes_on)
    | inr e ↦ inr (after r rounds p e)
  ]
]
