-- ===== src/Scheduler/Tests.antt =====
-- A worker with one closure and a frame, a parent with a child, and a chain of frames: the results at
-- them.
mod Return
use multicilk.Base.{
  ℕ, ◌+◌, ◌<◌, ◌≤◌, true, false, Option, none, some, ◌≡◌, ◌⊎◌, inl, refl, ◌==◌, if◌then◌else◌,
  arith,
}
use multicilk.Runtime.{
  no_worker, Status, Closure, Frame, WorkerState, Worker, State, ok, blocked, pure,
}
use multicilk.Closure.{blank_closure, closure_has_children, closure_lock}
use multicilk.Deque.{deque_lock}
use multicilk.Scheduler.{Services}
use multicilk.Scheduler.Resume.{provably_good_steal_maybe}
use multicilk.Scheduler.Turns.{reduce_rmaps}
use multicilk.Scheduler.Return.{After, cilk_exception_handler}
use multicilk.Scheduler.Steal.{try_closure, closure_steal}
use multicilk.Scheduler.Run.{Sync, cilk_sync}
use multicilk.Scheduler.Handler.{Handled, handler_decides}
use multicilk.Scheduler.Fail.{GivenUp, try_closure_gives_up, root_keeps_locks}
use multicilk.Scheduler.Slots.{Held, Maps}
use multicilk.Scheduler.Loops.{reduce_rmaps_ends}
use multicilk.Scheduler.Good.{may_go_on, GoesOn, provably_good_steal_decides}
use multicilk.Scheduler.Joining.{TakesOver}
use multicilk.Scheduler.Ready.{sync_ready_joins}
use multicilk.Scheduler.Sync.{SetAside, sync_not_ready_suspends}

-- A map is its sum.
abbrev pub sum_maps : Option ℕ → Option ℕ → Option ℕ
sum_maps none r = r
sum_maps (some l) none = some l
sum_maps (some l) (some r) = some (l + r)

instance pub quiet : Services
quiet = record {
  allocate_closure = λ w. pure (some 100);
  allocate_fiber = λ w. pure (some 200);
  deallocate_fiber = λ w f. pure tt;
  merge_two_rmaps = λ w l r. pure (sum_maps l r);
  delete_exception = λ e. pure tt;
  in_fiber = λ f p. true;
  reset_stack = λ f p. pure none;
}

abbrev pub blank : Closure
blank = record blank_closure { status = Status.running }

abbrev pub idle_worker : Worker
idle_worker = record {
  tail = 0;
  head = 0;
  exc = 0;
  ltq_limit = 1024;
  shadow_stack = λ _. none;
  current_stack_frame = none;
  reducer_map = none;
  state = WorkerState.run;
  lock_wait = false;
  provably_good_steal = false;
  fiber_to_free = none;
  rand_next = 0;
}

abbrev pub stolen_frame : Frame
stolen_frame = record {
  flags = record {
    stolen = true;
    unsynched = true;
    detached = false;
    exception_pending = false;
    excepting = false;
    last = false;
  };
  magic = true;
  call_parent = none;
  worker = none;
  sp = none;
  fp = none;
}

-- Closure 1, given, is in the deque of worker 0, which is given.
abbrev alone_with : Closure → Worker → State
alone_with c v = record {
  closures = λ p. if p == 1 then record c { owner_ready_deque = 0 } else blank;
  frames = λ _. record stolen_frame { worker = some 0 };
  deques = λ pn. record { locked = false; top = some 1; bottom = some 1; mutex_owner = no_worker };
  workers = λ w. if w == 0 then v else idle_worker;
  root_closure = some 1;
  root_closure_initialized = true;
  done = false;
  nworkers = 2;
}

abbrev stolen_from : State
stolen_from = alone_with blank (record idle_worker { head = 1; exc = 2 })

handler_decides_example :
    (r : State) × Handled 0 1 stolen_from r
    × ((0 < 1)
          × (cilk_exception_handler 0 (some 7) stolen_from ≡ ok After.to_runtime r)
          × ((r.closures 1).status ≡ Status.returning)
          × ((r.closures 1).user_exn ≡ some 7)
        ⊎ (1 ≤ 0)
          × (cilk_exception_handler 0 (some 7) stolen_from ≡ ok After.to_user r)
          × ((r.closures 1).status ≡ Status.running)
          × ((r.closures 1).user_exn ≡ none))
handler_decides_example = handler_decides 0 1 (some 7) stolen_from record {
  deque = refl;
  bottom = refl;
  placed = refl;
  closure = refl;
  status = refl;
  frame = inl refl;
  childless = unfold closure_has_children in refl;
}

try_closure_gives_up_example :
    (t : State) × (try_closure 5 1 0 1 stolen_from ≡ ok none t) × GivenUp 0 1 stolen_from t
try_closure_gives_up_example =
    try_closure_gives_up 5 1 0 1 stolen_from refl (inl (refl, omega arith))

abbrev starting : State
starting = alone_with (record blank { status = Status.ready }) (record idle_worker { tail = 1 })

root_keeps_locks_example :
    (t : State) × (closure_steal 5 1 0 starting ≡ ok none t)
    × ((v : ℕ) → closure_lock v 1 t ≡ blocked)
    × ((v : ℕ) → deque_lock v 0 t ≡ blocked)
root_keeps_locks_example = root_keeps_locks 5 1 0 1 starting record {
  work = omega arith;
  deque = refl;
  top = refl;
  closure = refl;
  root = refl;
  other = λ e. omega arith;
  status = inl refl;
}

-- Closure 1 with its only child 2, both locked by worker 0, which has the map 2; the slot of the parent
-- holds 1 and that of the child 3.
abbrev joining : State
joining = record (alone_with blank (record idle_worker { reducer_map = some 2 })) {
  closures = λ p.
      if p == 1
      then record blank { child_rmap = some 1; mutex_owner = 0 }
      else record blank { right_rmap = some 3; mutex_owner = 0 };
}

reduce_rmaps_ends_example :
    (t : State) × (reduce_rmaps 2 0 1 2 joining ≡ ok tt t)
    × Held 0 1 2 none t
    × Maps 0 1 2 none (some 6) none none t
unfolding quiet
reduce_rmaps_ends_example =
    reduce_rmaps_ends sum_maps (λ w l r s. refl) 0 1 2 none (some 1) (some 3) (some 2) joining
      record { sibling = refl; apart = omega arith; parent = (refl, refl); child = (refl, refl) }
      record { left_slot = refl; right_slot = refl; active = refl }

abbrev waiting : State
waiting = record (alone_with blank (record idle_worker { current_stack_frame = some 9 })) {
  closures = λ p. record blank {
    status = Status.suspended;
    mutex_owner = 0;
    frame = some 9;
    fiber_child = some 4;
    orig_rsp = some 64;
  };
  frames = λ _. stolen_frame;
}

provably_good_steal_decides_example :
    (may_go_on (waiting.closures 1) ≡ true)
      × ((t : State) × (provably_good_steal_maybe 0 1 waiting ≡ ok (some 1) t)
          × GoesOn 0 1 9 waiting t)
    ⊎ (may_go_on (waiting.closures 1) ≡ false)
      × (provably_good_steal_maybe 0 1 waiting ≡ ok none waiting)
provably_good_steal_decides_example = provably_good_steal_decides 0 1 9 waiting refl refl λ e.
    record {
      can = record {
        frame = refl;
        current = refl;
        real = refl;
        nothing_to_free = refl;
        fibers = refl;
        stack = refl;
      };
      poisoned = refl;
      placed = refl;
    }

-- Frame 2 was called by frame 1, and that by frame 0, which is stolen.
abbrev called : State
called = record starting {
  frames = λ p.
      if p == 2
      then record stolen_frame {
        flags = record stolen_frame.flags { stolen = false };
        call_parent = some 1;
      }
      else if p == 1
      then record stolen_frame {
        flags = record stolen_frame.flags { stolen = false };
        call_parent = some 0;
      }
      else stolen_frame;
}

abbrev syncing : State
syncing =
    alone_with
      (record blank { frame = some 9; join_counter = 1; fiber = some 3; spawn_parent = some 8 })
      (record idle_worker {
        current_stack_frame = some 9;
        reducer_map = some 5;
        fiber_to_free = some 7;
      })

sync_not_ready_suspends_example :
    (r : State) × (cilk_sync 0 9 syncing ≡ ok Sync.sync_not_ready r) × SetAside 0 1 9 syncing r
unfolding quiet
sync_not_ready_suspends_example =
    sync_not_ready_suspends (λ w f s. refl) 0 1 9 syncing
      record {
        frame = refl;
        worker = refl;
        stolen = refl;
        status = refl;
        real = refl;
        callee = refl;
        user_rmap = refl;
        placed = refl;
        alone = (refl, refl, refl);
        tree = refl;
      }
      record { empty = refl; current = refl } record { deque = refl; closure = refl } refl
      (unfold closure_has_children in refl)

abbrev last_sync : State
last_sync =
    alone_with
      (record blank {
        frame = some 9;
        fiber = some 3;
        fiber_child = some 4;
        spawn_parent = some 8;
        child_rmap = some 6;
        child_exn = some 70;
      })
      (record idle_worker {
        current_stack_frame = some 9;
        reducer_map = some 5;
        fiber_to_free = some 7;
      })

sync_ready_joins_example :
    (r : State) × (cilk_sync 0 9 last_sync ≡ ok Sync.sync_ready r)
    × TakesOver sum_maps 0 1 last_sync r
    × ((r.closures 1).locked ≡ false)
    × ((r.deques 0).locked ≡ false)
    × ((r.closures 1).fiber ≡ some 4)
unfolding quiet
sync_ready_joins_example =
    sync_ready_joins sum_maps (λ w l r s. refl) (λ e s. refl) (λ w f s. refl) 0 1 9 last_sync
      record {
        frame = refl;
        worker = refl;
        stolen = refl;
        status = refl;
        real = refl;
        callee = refl;
        user_rmap = refl;
        placed = refl;
        alone = (refl, refl, refl);
        tree = refl;
      }
      record { empty = refl; current = refl } record { deque = refl; closure = refl } refl
      record { different = refl; there = refl } (unfold closure_has_children in refl)
