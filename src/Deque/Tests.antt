-- ===== src/Deque/Tests.antt =====
-- A worker with two closures in its ready deque: the theorems at it.
use multicilk.Base.{true, false, none, some, [], ◌∷◌, ◌≡◌, refl, ◌==◌, if◌then◌else◌, arith}
use multicilk.Closure.{blank_closure}
use multicilk.Runtime.{no_worker, Status, Closure, Flags, WorkerState, Worker, State, ok}
use multicilk.Deque.{deque_xtract_top}
use multicilk.Deque.Links.{Holds}
use multicilk.Deque.Frame.{Untouched, Released}
use multicilk.Deque.Top.{xtract_top_refines}
use multicilk.Deque.Bottom.{Extracted, xtract_bottom_refines}
use multicilk.Deque.Push.{Pushed, add_bottom_refines}

abbrev pub blank : Closure
blank = record blank_closure { status = Status.running }

abbrev no_flags : Flags
no_flags = record {
  stolen = false;
  unsynched = false;
  detached = false;
  exception_pending = false;
  excepting = false;
  last = false;
}

abbrev fresh_worker : Worker
fresh_worker = record {
  tail = 0;
  head = 0;
  exc = 0;
  ltq_limit = 1024;
  shadow_stack = λ _. none;
  current_stack_frame = none;
  reducer_map = none;
  state = WorkerState.sched;
  lock_wait = false;
  provably_good_steal = false;
  fiber_to_free = none;
  rand_next = 0;
}

-- Deque 0 holds the closures 1 and 2, and worker 0 holds its mutex.
abbrev pub two_ready : State
two_ready = record {
  closures = λ p.
      if p == 1
      then record blank { owner_ready_deque = 0; next_ready = some 2 }
      else if p == 2
      then record blank { owner_ready_deque = 0; prev_ready = some 1 }
      else blank;
  frames = λ _. record {
    flags = no_flags;
    magic = true;
    call_parent = none;
    worker = none;
    sp = none;
    fp = none;
  };
  deques = λ pn.
      if pn == 0
      then record { locked = true; top = some 1; bottom = some 2; mutex_owner = 0 }
      else record { locked = false; top = none; bottom = none; mutex_owner = no_worker };
  workers = λ _. fresh_worker;
  root_closure = none;
  root_closure_initialized = false;
  done = false;
  nworkers = 1;
}

two_ready-Holds : Holds two_ready 0 (1 ∷ 2 ∷ [])
two_ready-Holds = record {
  top = refl;
  bottom = refl;
  linked = (refl, refl, refl, (refl, refl, refl, tt));
  distinct = ((omega arith, tt), (tt, tt));
}

xtract_top_refines_example :
    (t : State) × (deque_xtract_top 0 0 two_ready ≡ ok (some 1) t)
    × Holds t 0 (2 ∷ [])
    × Released t (some 1)
    × Untouched 0 (1 ∷ 2 ∷ []) two_ready t
xtract_top_refines_example = xtract_top_refines 0 0 (1 ∷ 2 ∷ []) two_ready refl two_ready-Holds

xtract_bottom_refines_example : (t : State) × Extracted 0 0 (1 ∷ 2 ∷ []) two_ready t
xtract_bottom_refines_example =
    xtract_bottom_refines 0 0 (1 ∷ 2 ∷ []) two_ready refl two_ready-Holds

add_bottom_refines_example : (t : State) × Pushed 0 7 0 (1 ∷ 2 ∷ []) two_ready t
add_bottom_refines_example =
    add_bottom_refines 0 7 0 (1 ∷ 2 ∷ []) two_ready refl refl (omega arith, (omega arith, tt))
      two_ready-Holds
