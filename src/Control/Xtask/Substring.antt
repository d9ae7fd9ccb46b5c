-- ===== src/Control/Xtask/Substring.antt =====
-- `contains` of xtask/src/main.rs as a search for a part of a text.
use prototype_net.Base.{
  ◌≡◌, refl, ap, ◌∙◌, ==_iff, ◌||◌, Bool-cases, Bool, true, false, inl, inr, ◌↔◌, [], ◌∷◌, ◌++◌,
  arith,
}
use prototype_net.Control.Text.{Text}
use prototype_net.Control.Xtask.{is_prefix, contains}

-- The text has the pattern somewhere.
abbrev pub IsPart : Text → Text → Type 0
IsPart pattern t = (before : Text) × (after : Text) × (t ≡ before ++ (pattern ++ after))

is_prefix-rest : (p t : Text) → is_prefix p t ≡ true → (after : Text) × (t ≡ p ++ after)
unfolding is_prefix
is_prefix-rest [] t h = (t, refl)
is_prefix-rest (c ∷ p) [] h = absurd (cc)
is_prefix-rest (c ∷ p) (d ∷ t) h =
    let ih = is_prefix-rest p t (ground arith) in
    let same = (==_iff c d).0 (ground arith) in (ih.0, rw (same, ← ih.1) refl)

is_prefix-append : (p after : Text) → is_prefix p (p ++ after) ≡ true
unfolding is_prefix
is_prefix-append [] after = refl
is_prefix-append (c ∷ p) after = rw ((==_iff c c).1 refl) (is_prefix-append p after)

contains-IsPart : (t p : Text) → contains t p ≡ true → IsPart p t
unfolding contains
contains-IsPart [] p h = let r = is_prefix-rest p [] h in ([], r.0, r.1)
contains-IsPart (c ∷ t) p h = elim (Bool-cases (is_prefix p (c ∷ t))) [
  | inl here ↦ let r = is_prefix-rest p (c ∷ t) here in ([], r.0, r.1)
  | inr not_here ↦ let r = contains-IsPart t p (ground arith) in (c ∷ r.0, r.1, ap (λ s. c ∷ s) r.2)
]

or_true : (x : Bool) → (x || true) ≡ true
or_true true = refl
or_true false = refl

contains-append : (before p after : Text) → contains (before ++ (p ++ after)) p ≡ true
unfolding contains
contains-append [] [] [] = refl
contains-append [] [] (c ∷ after) = refl
contains-append [] (c ∷ p) after = rw (is_prefix-append (c ∷ p) after) refl
contains-append (b ∷ before) p after =
    rw (contains-append before p after) (or_true (is_prefix p (b ∷ before ++ (p ++ after))))

pub contains_iff : (t p : Text) → (contains t p ≡ true) ↔ IsPart p t
contains_iff t p =
    (contains-IsPart t p, λ q. ap (λ s. contains s p) q.2 ∙ contains-append q.0 p q.1)
