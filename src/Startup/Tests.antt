-- ===== src/Startup/Tests.antt =====
-- The start of the runtime with four processors and three workers: the results at them.
use multicilk.Base.{
  ℕ, ◌+◌, ◌≡◌, refl, ◌⊎◌, true, false, none, some, List, [], ◌∷◌, length, ltb, arith, if◌then◌else◌,
  count_below,
}
use multicilk.Base.Int.{pos}
use multicilk.Runtime.{WorkerState}
use multicilk.Closure.{blank_closure}
use multicilk.Abi.{no_flags}
use multicilk.Startup.CpuSet.{CpuSet, cpu_count}
use multicilk.Startup.Pin.{Host, threads_init}
use multicilk.Startup.Pin.Shares.{Shares, threads_init-Shares}
use multicilk.Startup.Options.{Environment, global_state_init}
use multicilk.Startup.Options.Bounds.{accepts, initial, global_state_init_decides}
use multicilk.Startup.Boot.{Boot, Raw, empty_deque, startup}
use multicilk.Startup.Boot.Started.{Booted, startup-decides}
use multicilk.Startup.Region.{Boss, WorkerPlace, Region, Step, start_region, Reachable}
use multicilk.Startup.Region.Once.{Runs, outside_all_ended, waiting_can_end}
use multicilk.Startup.Config.{cilk_cfg_from_env}
use multicilk.Startup.Config.Roundtrip.{print_config, cpus_of, cilk_cfg_from_env-print}

abbrev four : CpuSet
four i = ltb i 4

abbrev willing : Host
willing = record { affinity = some four; pin = pos 0; created = λ _. true; bound = λ _ _. true }

four-cpu_count : cpu_count four ≡ 4
unfolding cpu_count count_below
four-cpu_count = refl

threads_init-Shares_example :
    (masks : List CpuSet) × (threads_init willing 3 ≡ some masks)
    × (length masks ≡ 3)
    × Shares four masks
threads_init-Shares_example =
    threads_init-Shares willing 3 four refl (λ e. ground (arith, e)) (λ _. refl) (λ _ _. refl)
      (omega arith) (omega (arith, four-cpu_count))

abbrev small_stacks : Environment
small_stacks = record {
  cilk_stacksize = pos 16384;
  cilk_deqdepth = pos 0;
  cilk_fiber_pool = pos 8;
  cilk_force_reduce = pos 0;
  process_mask = some four;
  online = pos 4;
}

global_state_init_decides_example :
    global_state_init small_stacks (pos 3)
    ≡ (if accepts small_stacks (pos 3) then some (initial small_stacks (pos 3)) else none)
global_state_init_decides_example = global_state_init_decides small_stacks (pos 3)

abbrev raw : Raw ℕ
raw = record {
  store = record {
    closures = λ _. blank_closure;
    frames = λ _. record {
      flags = no_flags;
      magic = true;
      call_parent = none;
      worker = none;
      sp = none;
      fp = none;
    };
    deques = λ _. empty_deque;
    workers = λ _. record {
      tail = 0;
      head = 0;
      exc = 0;
      ltq_limit = 0;
      shadow_stack = λ _. none;
      current_stack_frame = none;
      reducer_map = none;
      state = WorkerState.run;
      lock_wait = false;
      provably_good_steal = false;
      fiber_to_free = none;
      rand_next = 7;
    };
    root_closure = none;
    root_closure_initialized = true;
    done = true;
    nworkers = 0;
  };
  fiber_pools = λ _. record {
    mutex_owner = 0;
    shared = true;
    stack_size = 0;
    fibers = λ _. 0;
    capacity = 0;
    size = 0;
    in_use = pos 0;
    max_in_use = pos 0;
    max_free = 0;
  };
  id_num = λ _. 0;
  leftmost = λ key. key;
}

startup-decides_example :
    ((accepts small_stacks (pos 3) ≡ true)
      × ((b : Boot ℕ) × (startup (λ n. 100 + n) (some 1) 2 raw small_stacks (pos 3) ≡ some b)
          × Booted (initial small_stacks (pos 3)) 1 2 b))
    ⊎ ((accepts small_stacks (pos 3) ≡ false)
        × (startup (λ n. 100 + n) (some 1) 2 raw small_stacks (pos 3) ≡ none))
startup-decides_example = startup-decides (λ n. 100 + n) 1 2 raw small_stacks (pos 3)

cilk_cfg_from_env-print_example :
    cilk_cfg_from_env four (some (print_config 3 (0 ∷ 2 ∷ 2000 ∷ [])))
    ≡ some (record { n_workers = 3; boss_affinity = cpus_of (0 ∷ 2 ∷ 2000 ∷ []) })
cilk_cfg_from_env-print_example =
    cilk_cfg_from_env-print four 3 (0 ∷ 2 ∷ 2000 ∷ []) (omega arith)
      (omega arith, (omega arith, (omega arith, tt)))

-- A region that was started, and that worker 0 took up and ended.
abbrev unleashed : (s : Region) × Reachable s × (s.boss ≡ Boss.waiting)
unfolding start_region
unleashed = (
  _,
  Reachable.next (Reachable.next (Reachable.next Reachable.first (Step.mark refl)) (Step.undo refl))
      (Step.unleash refl),
  refl,
)

abbrev ended_once : (s : Region) × Reachable s × (s.boss ≡ Boss.outside)
unfolding start_region
ended_once = (
  _,
  Reachable.next
      (Reachable.next
        (Reachable.next
          (Reachable.next
            (Reachable.next
              (Reachable.next
                (Reachable.next
                  (Reachable.next (Reachable.next unleashed.1 (Step.wake 0 refl refl))
                    (Step.stay 0 refl refl))
                  (Step.begin_root 0 refl refl))
                (Step.exit_record 0 refl refl))
              (Step.exit_stop 0 refl))
            (Step.exit_done 0 refl))
          (Step.leave 0 refl refl))
        (Step.report 0 refl refl))
      (Step.resume refl refl),
  refl,
)

outside_all_ended_example :
    (ended_once.0.begun ≡ ended_once.0.invoked)
    × (ended_once.0.finished ≡ ended_once.0.invoked)
    × (ended_once.0.start ≡ false)
    × (ended_once.0.runner ≡ none)
    × (ended_once.0.pcs ended_once.0.exiting_worker ≡ WorkerPlace.asleep)
outside_all_ended_example = outside_all_ended ended_once.1 ended_once.2

waiting_can_end_example :
    (t : Region) × Runs unleashed.0 t × (t.boss ≡ Boss.outside) × (t.finished ≡ t.invoked)
waiting_can_end_example = waiting_can_end unleashed.1 unleashed.2
