-- ===== src/Control/Daemon/Backoff.antt =====
-- The delays of `listen_for_changes` in daemon/src/db.rs, in seconds.
use native.Mathlib.Nat.{pow-suc}
use prototype_net.Base.{
  ℕ, zero, suc, ◌+◌, ◌*◌, ◌^◌, ◌≤◌, ◌<◌, ◌≡◌, ◌∙◌, ap, length, get_or, arith, min, leb,
  if◌then◌else◌, List, [], ◌∷◌,
}

abbrev pub healthy_run_threshold : ℕ
healthy_run_threshold = 5

abbrev pub initial_backoff : ℕ
initial_backoff = 1

abbrev pub max_backoff : ℕ
max_backoff = 30

-- The delay after a run of `elapsed` seconds.
unfoldable pub next_backoff : ℕ → ℕ → ℕ
next_backoff elapsed backoff =
    if leb healthy_run_threshold elapsed then initial_backoff else min (backoff * 2) max_backoff

-- The supervisor's loop over the runs of the listener: the delay after each of them.
unfoldable pub delays : ℕ → List ℕ → List ℕ
unfolding next_backoff
delays backoff [] = []
delays backoff (elapsed ∷ runs) =
    next_backoff elapsed backoff ∷ delays (next_backoff elapsed backoff) runs

next_backoff_bounds :
    (elapsed backoff : ℕ)
    → 1 ≤ backoff
    → (1 ≤ next_backoff elapsed backoff) × (next_backoff elapsed backoff ≤ 30)
unfolding next_backoff
next_backoff_bounds elapsed backoff h = (ground arith, ground arith)

delays_bounds :
    (backoff : ℕ) (runs : List ℕ) (i : ℕ)
    → 1 ≤ backoff
    → i < length runs
    → (1 ≤ get_or (delays backoff runs) i 0) × (get_or (delays backoff runs) i 0 ≤ 30)
unfolding delays
delays_bounds backoff [] i h inside = absurd (omega arith)
delays_bounds backoff (elapsed ∷ runs) zero h inside = next_backoff_bounds elapsed backoff h
delays_bounds backoff (elapsed ∷ runs) (suc i) h inside =
    delays_bounds (next_backoff elapsed backoff) runs i (next_backoff_bounds elapsed backoff h).0
      (omega arith)

-- The supervisor never sleeps for less than one second or for more than thirty.
pub delays_in_range :
    (runs : List ℕ) (i : ℕ)
    → i < length runs
    → (1 ≤ get_or (delays initial_backoff runs) i 0)
      × (get_or (delays initial_backoff runs) i 0 ≤ 30)
delays_in_range runs i inside = delays_bounds initial_backoff runs i (omega arith) inside

-- A short run doubles the delay.
next_backoff-double :
    (elapsed k : ℕ) → elapsed < 5 → next_backoff elapsed (min (2 ^ k) 30) ≡ min (2 ^ suc k) 30
unfolding next_backoff
next_backoff-double elapsed k short = let p = pow-suc 2 k in ground arith

delays_from :
    (k : ℕ) (runs : List ℕ) (i : ℕ)
    → ((j : ℕ) → get_or runs j 0 < 5)
    → i < length runs
    → get_or (delays (min (2 ^ k) 30) runs) i 0 ≡ min (2 ^ suc (k + i)) 30
unfolding delays
delays_from k [] i short inside = absurd (omega arith)
delays_from k (elapsed ∷ runs) zero short inside =
    next_backoff-double elapsed k (short 0)
    ∙ ap (λ (j : ℕ). min (2 ^ suc j) 30) {y = k + 0} (omega arith)
delays_from k (elapsed ∷ runs) (suc i) short inside =
    ap (λ (b : ℕ). get_or (delays b runs) i 0) (next_backoff-double elapsed k (short 0))
    ∙ delays_from (suc k) runs i (λ j. short (suc j)) (omega arith)
    ∙ ap (λ (j : ℕ). min (2 ^ suc j) 30) {y = k + suc i} (omega arith)

-- While every run of the listener is shorter than five seconds, the delay after run `i` is
-- 2 ^ (i + 1) seconds, up to thirty.
pub delays_double :
    (runs : List ℕ) (i : ℕ)
    → ((j : ℕ) → get_or runs j 0 < 5)
    → i < length runs
    → get_or (delays initial_backoff runs) i 0 ≡ min (2 ^ suc i) 30
delays_double runs i short inside =
    delays_from 0 runs i short inside ∙ ap (λ (j : ℕ). min (2 ^ suc j) 30) {y = i} (omega arith)
