-- ===== src/Closure/Tests.antt =====
-- A closure with three children, and a deque whose last closure is suspended: the results at them.
use multicilk.Base.{true, false, none, some, [], ◌∷◌, ◌≡◌, refl, ◌==◌, if◌then◌else◌, arith}
use multicilk.Runtime.{no_worker, Status, Closure, State, WorkerState, ok}
use multicilk.Deque.Links.{Holds}
use multicilk.Deque.Frame.{Untouched}
use multicilk.Closure.{blank_closure, closure_remove_child}
use multicilk.Closure.Children.{Removed, remove_child_joins}
use multicilk.Closure.Suspend.{Suspended, suspend_victim_refines}
use multicilk.Closure.Callee.{closure_suspend_victim}

abbrev blank : Closure
blank = record blank_closure { status = Status.running }

-- Closure 1 has the children 2, 3 and 4, and worker 0 holds the locks of 1 and 3. Closure 5 is new.
-- Closure 4 stands in the deque of worker 0.
abbrev family : State
family = record {
  closures = λ p.
      if p == 1
      then record blank { right_most_child = some 4; mutex_owner = 0 }
      else if p == 2
      then record blank { right_sib = some 3; spawn_parent = some 1 }
      else if p == 3
      then record blank {
        left_sib = some 2;
        right_sib = some 4;
        spawn_parent = some 1;
        mutex_owner = 0;
      }
      else if p == 4
      then record blank {
        left_sib = some 3;
        spawn_parent = some 1;
        owner_ready_deque = 0;
        mutex_owner = 0;
      }
      else blank;
  frames = λ _. record {
    flags = record {
      stolen = false;
      unsynched = false;
      detached = false;
      exception_pending = false;
      excepting = false;
      last = false;
    };
    magic = true;
    call_parent = none;
    worker = none;
    sp = none;
    fp = none;
  };
  deques = λ pn.
      if pn == 0
      then record { locked = true; top = some 4; bottom = some 4; mutex_owner = 0 }
      else record { locked = false; top = none; bottom = none; mutex_owner = no_worker };
  workers = λ _. record {
    tail = 0;
    head = 0;
    exc = 0;
    ltq_limit = 1024;
    shadow_stack = λ _. none;
    current_stack_frame = none;
    reducer_map = none;
    state = WorkerState.sched;
    lock_wait = false;
    provably_good_steal = false;
    fiber_to_free = none;
    rand_next = 0;
  };
  root_closure = none;
  root_closure_initialized = false;
  done = false;
  nworkers = 1;
}

remove_child_joins_example :
    (t : State) × (closure_remove_child 0 1 3 family ≡ ok tt t) × Removed 1 2 3 4 family t
remove_child_joins_example =
    remove_child_joins 0 1 2 3 4 4 family
      record {
        parent = refl;
        parent_lock = refl;
        child_lock = refl;
        left = refl;
        right = refl;
        left_back = refl;
        right_back = refl;
        apart = (omega arith, omega arith, omega arith, omega arith);
        reduced = refl;
      }
      refl (omega arith)

suspend_victim_refines_example :
    (t : State) × (closure_suspend_victim 0 0 4 family ≡ ok tt t)
    × Holds t 0 []
    × Untouched 0 (4 ∷ []) family t
    × Suspended 4 family t
suspend_victim_refines_example =
    suspend_victim_refines 0 0 4 [] family
      record { views = refl; running = refl; lock = refl; deque_lock = refl; placed = refl }
      record { top = refl; bottom = refl; linked = (refl, refl, refl, tt); distinct = (tt, tt) }
