-- ===== src/Abi/Tests.antt =====
-- A spawn on a fresh worker, and three callbacks: the results at them.
use multicilk.Base.{true, false, none, some, ◌≡◌, [], ◌∷◌, arith}
use multicilk.Closure.{blank_closure}
use multicilk.Runtime.{no_worker, Status, WorkerState, State, ok}
use multicilk.Scheduler.Return.{After}
use multicilk.Abi.{no_flags}
use multicilk.Abi.Spawn.{begin_spawn, end_spawn, Exposed, Restored, spawn-return}
use multicilk.Abi.Callbacks.{register_all, run_init, run_exit, registered_in_order}

abbrev fresh : State
fresh = record {
  closures = λ p. record blank_closure { status = Status.running };
  frames = λ p. record {
    flags = no_flags;
    magic = true;
    call_parent = none;
    worker = some 0;
    sp = none;
    fp = none;
  };
  deques = λ pn. record { locked = false; top = none; bottom = none; mutex_owner = no_worker };
  workers = λ w. record {
    tail = 0;
    head = 0;
    exc = 0;
    ltq_limit = 1024;
    shadow_stack = λ _. none;
    current_stack_frame = some 1;
    reducer_map = none;
    state = WorkerState.run;
    lock_wait = false;
    provably_good_steal = false;
    fiber_to_free = none;
    rand_next = 0;
  };
  root_closure = none;
  root_closure_initialized = true;
  done = false;
  nworkers = 1;
}

spawn-return_example :
    (a t : State) × (begin_spawn 0 2 fresh ≡ ok tt a)
    × Exposed 0 2 fresh a
    × (end_spawn 0 2 a ≡ ok After.to_user t)
    × Restored 0 2 fresh t
spawn-return_example = spawn-return 0 2 fresh (omega arith) (omega arith)

registered_in_order_example :
    (run_init (register_all (7 ∷ 8 ∷ 9 ∷ []) (record { last = 0; slots = λ _. 0 }))
      ≡ 7 ∷ 8 ∷ 9 ∷ [])
    × (run_exit (register_all (7 ∷ 8 ∷ 9 ∷ []) (record { last = 0; slots = λ _. 0 }))
        ≡ 9 ∷ 8 ∷ 7 ∷ [])
registered_in_order_example = registered_in_order (7 ∷ 8 ∷ 9 ∷ []) (λ _. 0)
