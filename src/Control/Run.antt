-- ===== src/Control/Run.antt =====
-- Fallible code on a state, as the async functions of dns-server/src and daemon/src: `none` is
-- an `Err` passed on by `?`, and what was written before it stays written.
use prototype_net.Base.{Option, none, some}

abbrev pub Run {ℓ} : Type 0 → Type ℓ → Type ℓ
Run S A = S → Option A × S

module _ {S : Type 0} where
  abbrev pub done {ℓ} : {A : Type ℓ} → A → Run S A
  done a s = (some a, s)

  abbrev pub stop {ℓ} : {A : Type ℓ} → Run S A
  stop s = (none, s)

  abbrev pub lift {ℓ} : {A : Type ℓ} → Option A → Run S A
  lift o s = (o, s)

  abbrev pub proceed {ℓ κ} : {A : Type ℓ} {B : Type κ} → Option A → (A → Run S B) → Run S B
  proceed none f s = (none, s)
  proceed (some a) f s = f a s

  infixl 10 ◌>>=◌
  abbrev pub ◌>>=◌ {ℓ κ} : {A : Type ℓ} {B : Type κ} → Run S A → (A → Run S B) → Run S B
  ◌>>=◌ m f s = proceed (m s).0 f (m s).1

  infixl 10 ◌>>◌
  abbrev pub ◌>>◌ {ℓ κ} : {A : Type ℓ} {B : Type κ} → Run S A → Run S B → Run S B
  ◌>>◌ m next = m >>= λ _. next
