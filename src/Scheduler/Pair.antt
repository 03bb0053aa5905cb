-- ===== src/Scheduler/Pair.antt =====
-- A returning child and its parent in `Closure_return` (runtime/scheduler.c): what the four objects that
-- the call changes hold, and how the locks change them.
use multicilk.Base.{ℕ, ◌≡◌, ◌≢◌, true, false, arith}
use multicilk.Runtime.{no_worker, Closure, Worker, Frame, State, ok}
use multicilk.Closure.{is_valid, closure_lock, closure_unlock}
use multicilk.Closure.Lock.{released, unlock-owned}
use multicilk.Scheduler.Locks.{closure_locked, closure_lock-eq}

-- The parent `p`, the child `c`, the worker `w` and the frame `f` hold these values.
pub record Hold (p c w f : ℕ) (pv cv : Closure) (wv : Worker) (fv : Frame) (s : State)
    : Type 0 where
  pub apart : p ≢ c
  pub parent : s.closures p ≡ pv
  pub child : s.closures c ≡ cv
  pub worker : s.workers w ≡ wv
  pub frame : s.frames f ≡ fv

-- A closure that `w` has locked, and one that nobody has.
abbrev pub owned : ℕ → Closure → Closure
owned w v = record v { locked = true; lock_wait = false; mutex_owner = w }

abbrev pub freed : Closure → Closure
freed v = record v { locked = false; mutex_owner = no_worker }

pub lock_parent-Hold :
    (p c w f : ℕ) (pv cv : Closure) (wv : Worker) (fv : Frame) (s : State)
    → Hold p c w f pv cv wv fv s
    → is_valid pv.status ≡ true
    → pv.locked ≡ false
    → (t : State) × (closure_lock w p s ≡ ok tt t) × Hold p c w f (owned w pv) cv wv fv t
unfolding closure_locked
lock_parent-Hold p c w f pv cv wv fv s h v l = (
  closure_locked w p s,
  closure_lock-eq w p s (ground (arith, h.parent, v)) (ground (arith, h.parent, l)),
  record {
    apart = h.apart;
    parent = ground (arith, h.parent);
    child = ground (arith, h.child, h.apart);
    worker = h.worker;
    frame = h.frame;
  },
)

pub lock_child-Hold :
    (p c w f : ℕ) (pv cv : Closure) (wv : Worker) (fv : Frame) (s : State)
    → Hold p c w f pv cv wv fv s
    → is_valid cv.status ≡ true
    → cv.locked ≡ false
    → (t : State) × (closure_lock w c s ≡ ok tt t) × Hold p c w f pv (owned w cv) wv fv t
unfolding closure_locked
lock_child-Hold p c w f pv cv wv fv s h v l = (
  closure_locked w c s,
  closure_lock-eq w c s (ground (arith, h.child, v)) (ground (arith, h.child, l)),
  record {
    apart = h.apart;
    parent = ground (arith, h.parent, h.apart);
    child = ground (arith, h.child);
    worker = h.worker;
    frame = h.frame;
  },
)

pub unlock_parent-Hold :
    (p c w f : ℕ) (pv cv : Closure) (wv : Worker) (fv : Frame) (s : State)
    → Hold p c w f pv cv wv fv s
    → is_valid pv.status ≡ true
    → pv.mutex_owner ≡ w
    → (t : State) × (closure_unlock w p s ≡ ok tt t) × Hold p c w f (freed pv) cv wv fv t
unfolding released
unlock_parent-Hold p c w f pv cv wv fv s h v o = (
  released p s,
  unlock-owned w p s (ground (arith, h.parent, v)) (ground (arith, h.parent, o)),
  record {
    apart = h.apart;
    parent = ground (arith, h.parent);
    child = ground (arith, h.child, h.apart);
    worker = h.worker;
    frame = h.frame;
  },
)

pub unlock_child-Hold :
    (p c w f : ℕ) (pv cv : Closure) (wv : Worker) (fv : Frame) (s : State)
    → Hold p c w f pv cv wv fv s
    → is_valid cv.status ≡ true
    → cv.mutex_owner ≡ w
    → (t : State) × (closure_unlock w c s ≡ ok tt t) × Hold p c w f pv (freed cv) wv fv t
unfolding released
unlock_child-Hold p c w f pv cv wv fv s h v o = (
  released c s,
  unlock-owned w c s (ground (arith, h.child, v)) (ground (arith, h.child, o)),
  record {
    apart = h.apart;
    parent = ground (arith, h.parent, h.apart);
    child = ground (arith, h.child);
    worker = h.worker;
    frame = h.frame;
  },
)
