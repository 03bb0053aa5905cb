-- ===== src/Scheduler/ReturnOnly.antt =====
-- `Closure_return` (runtime/scheduler.c) of the only child left of its parent, on both branches.
use multicilk.Base.{ℕ, ◌-◌, ◌<◌, ◌≡◌, true, false, Option, none, some}
use multicilk.Runtime.{Status, status_eq, Closure, Worker, State}
use multicilk.Closure.{is_valid}
use multicilk.Scheduler.Unlink.{left_fiber}
use multicilk.Scheduler.HandOver.{passed_exn, passed_map}

-- The parent has a real frame, and a child; the worker has not just made a provably good steal.
pub record HasChild (pv : Closure) (wv : Worker) : Type 0 where
  pub valid : is_valid pv.status ≡ true
  pub not_returning : status_eq pv.status Status.returning ≡ false
  pub frame : (f : ℕ) × (pv.frame ≡ some f)
  pub child : 0 < pv.join_counter
  pub real : pv.simulated_stolen ≡ false
  pub no_steal : wv.provably_good_steal ≡ false

-- The parent is where it was, with what the child has passed on, and the child is gone.
pub record Deposited (join : Option ℕ → Option ℕ → Option ℕ) (p c w : ℕ) (s t : State)
    : Type 0 where
  pub status : (t.closures p).status ≡ (s.closures p).status
  pub children : (t.closures p).join_counter ≡ (s.closures p).join_counter - 1
  pub fiber :
      ((t.closures p).fiber_child ≡ left_fiber (s.closures p).fiber_child (s.closures c).fiber)
      × ((t.closures p).fiber ≡ (s.closures p).fiber)
  pub exn :
      ((t.closures p).child_exn ≡ passed_exn (s.closures p) (s.closures c))
      × ((t.closures p).user_exn ≡ (s.closures p).user_exn)
  pub map :
      ((t.closures p).child_rmap ≡ passed_map join (s.closures p) (s.closures c) (s.workers w))
      × ((t.workers w).reducer_map ≡ none)
  pub unlocked : ((t.closures p).locked ≡ false) × ((t.closures c).locked ≡ false)
  pub child_gone : (t.closures c).status ≡ Status.post_invalid
