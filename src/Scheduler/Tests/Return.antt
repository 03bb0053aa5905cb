-- ===== src/Scheduler/Tests/Return.antt =====
-- A child that returns to a parent which waits for it: the result at them.
use multicilk.Base.{true, false, none, some, ◌==◌, if◌then◌else◌}
use multicilk.Runtime.{no_worker, Status, State}
use multicilk.Scheduler.Tests.{blank, idle_worker, stolen_frame}

-- Closure 1 is suspended, on worker 0, with its only child 2, which has the map 2 and the exception 8; the
-- slots of the parent hold the map 1, and that of the child holds the map 3.
abbrev waiting : State
waiting = record {
  closures = λ p.
      if p == 1
      then record blank {
        status = Status.suspended;
        frame = some 9;
        fiber = some 5;
        join_counter = 1;
        right_most_child = some 2;
        child_rmap = some 1;
        user_rmap = some 10;
        orig_rsp = some 77;
      }
      else record blank {
        status = Status.returning;
        fiber = some 6;
        spawn_parent = some 1;
        right_rmap = some 3;
        user_exn = some 8;
      };
  frames = λ _. stolen_frame;
  deques = λ _. record { locked = false; top = none; bottom = none; mutex_owner = no_worker };
  workers = λ _. record idle_worker { reducer_map = some 2; current_stack_frame = some 9 };
  root_closure = some 1;
  root_closure_initialized = true;
  done = false;
  nworkers = 2;
}
