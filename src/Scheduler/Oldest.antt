-- ===== src/Scheduler/Oldest.antt =====
-- The loop of `oldest_non_stolen_frame_in_stacklet` (runtime/scheduler.c).
use multicilk.Base.{
  ℕ, zero, suc, ◌<◌, ◌≡◌, ◌⊎◌, inl, inr, true, false, none, some, Bool-cases, Option-cases, arith,
}
use multicilk.Runtime.{State, ok}
use multicilk.Scheduler.Stacklet.{oldest_non_stolen_frame_in_stacklet}

-- The loop ends at `x`: it is the detached frame of the stacklet, or has no caller, or a stolen one.
pub Stops : State → ℕ → Type 0
Stops s x =
    ((s.frames x).flags.detached ≡ true)
    ⊎ (((s.frames x).call_parent ≡ none)
        ⊎ ((p : ℕ) × ((s.frames x).call_parent ≡ some p) × ((s.frames p).flags.stolen ≡ true)))

-- From `x` callers that are not stolen lead to `y`, the last of them.
pub data Climbs (s : State) : ℕ → ℕ → Type 0 where
  here : {x : ℕ} → Stops s x → Climbs s x x
  up :
      {x p y : ℕ}
      → (s.frames x).flags.detached ≡ false
      → (s.frames x).call_parent ≡ some p
      → (s.frames p).flags.stolen ≡ false
      → Climbs s p y
      → Climbs s x y

Reaches : ℕ → State → ℕ → Type 0
Reaches n s x = (y : ℕ) × (oldest_non_stolen_frame_in_stacklet n x s ≡ ok y s) × Climbs s x y

at_last : (n : ℕ) (s : State) (x : ℕ) → Stops s x → Reaches (suc n) s x
unfolding Stops Reaches oldest_non_stolen_frame_in_stacklet
at_last n s x (inl e) = (x, ground (arith, e), here (inl e))
at_last n s x (inr (inl e)) = (x, ground (arith, e), here (inr (inl e)))
at_last n s x (inr (inr (p, e, stolen))) =
    (x, ground (arith, e, stolen), here (inr (inr (p, e, stolen))))

one_up :
    (n : ℕ) (s : State) (x p : ℕ)
    → (s.frames x).flags.detached ≡ false
    → (s.frames x).call_parent ≡ some p
    → (s.frames p).flags.stolen ≡ false
    → Reaches n s p
    → Reaches (suc n) s x
unfolding Reaches oldest_non_stolen_frame_in_stacklet
one_up n s x p d e stolen (y, run, o) = (y, ground (arith, d, e, stolen, run), up d e stolen o)

-- `oldest_non_stolen_frame_in_stacklet` ends, with the oldest frame of the stacklet that is not stolen
-- and the state as it was, if a caller has a smaller rank than the frame that it called, and the fuel
-- is more than the rank of the frame that it starts from.
pub oldest_frame_found :
    (rank : ℕ → ℕ) (n : ℕ) (s : State) (x : ℕ)
    → ((a b : ℕ) → (s.frames a).call_parent ≡ some b → rank b < rank a)
    → rank x < n
    → (y : ℕ) × (oldest_non_stolen_frame_in_stacklet n x s ≡ ok y s) × Climbs s x y
unfolding Reaches Stops
oldest_frame_found rank zero s x smaller h = absurd (omega (arith, h))
oldest_frame_found rank (suc n) s x smaller h = elim (Bool-cases (s.frames x).flags.detached) [
  | inl d ↦ at_last n s x (inl d)
  | inr d ↦ elim (Option-cases (s.frames x).call_parent) [
    | inl e ↦ at_last n s x (inr (inl e))
    | inr (p, e) ↦ elim (Bool-cases (s.frames p).flags.stolen) [
      | inl stolen ↦ at_last n s x (inr (inr (p, e, stolen)))
      | inr stolen ↦
          one_up n s x p d e stolen
            (oldest_frame_found rank n s p smaller (omega (arith, h, smaller x p e)))
    ]
  ]
]
