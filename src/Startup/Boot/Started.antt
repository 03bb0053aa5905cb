-- ===== src/Startup/Boot/Started.antt =====
-- The state that `__cilkrts_startup` (runtime/init.c) leaves.
use multicilk.Base.{
  ℕ, zero, suc, ◌+◌, ◌*◌, ◌/◌, ◌≤◌, ◌<◌, ◌≡◌, refl, ap, subst, ◌∙◌, true, false, none, some, [],
  update, arith, ◌⊎◌, inl, inr, Bool-cases,
}
use multicilk.Base.Int.{ℤ}
use native.Mathlib.Decide.{ℕ_discrete}
use multicilk.Runtime.{no_worker, Status, Worker, WorkerState, ReadyDeque, State}
use multicilk.Closure.{blank_closure, closure_create, closure_init}
use multicilk.Deque.Links.{Holds}
use multicilk.Fibers.{Pools, batch_fraction, cilk_fiber_pool_global_init}
use multicilk.Fibers.Start.{Spare, Half, Started, global_init-Spare, per_worker_init-Started}
use multicilk.Reducer.Ids.{IdManager, in_use, init_reducer_id_manager}
use multicilk.Reducer.Ids.Alloc.{IsValid, init-IsValid}
use multicilk.Reducer.Hyper.{reducers_import}
use multicilk.Startup.Options.{GlobalState, Environment}
use multicilk.Startup.Options.Bounds.{accepts, initial, wanted_nproc-lt, global_state_init_decides}
use multicilk.Startup.Boot.{
  Boot, worker_local_init, empty_deque, deques_init, Workers, worker_init, workers_init,
  reducer_limit, Raw, startup_from, startup,
}

deques_init-below : (n i : ℕ) (d : ℕ → ReadyDeque) (j : ℕ) → j < i → deques_init n i d j ≡ d j
unfolding deques_init
deques_init-below zero i d j l = refl
deques_init-below (suc n) i d j l =
    deques_init-below n (i + 1) (update d i empty_deque) j (omega arith) ∙ ground (arith, l)

deques_init-empty :
    (n i : ℕ) (d : ℕ → ReadyDeque) (j : ℕ) → i ≤ j → j < i + n → deques_init n i d j ≡ empty_deque
unfolding deques_init
deques_init-empty zero i d j l h = absurd (omega arith)
deques_init-empty (suc n) i d j l h = elim (ℕ_discrete j i) [
  | yes e ↦ deques_init-below n (i + 1) (update d i empty_deque) j (omega arith) ∙ ground (arith, e)
  | no ne ↦ deques_init-empty n (i + 1) (update d i empty_deque) j (omega arith) (omega arith)
]

-- The first `n` workers are ready.
record Ready (g : GlobalState) (n : ℕ) (ws : Workers) : Type 0 where
  worker : (i : ℕ) → i < n → ws.workers i ≡ worker_local_init g
  pool : (i : ℕ) → i < n → Half g.options.fiber_pool_cap (ws.fiber_pools i)
  spare : Spare g.options.stacksize ws.fiber_pool
  count : ws.made ≡ n * (g.options.fiber_pool_cap / batch_fraction)

Ready-next :
    (g : GlobalState) (i : ℕ) (ws : Workers) (t : Pools)
    → Ready g i ws
    → Started g.options.stacksize g.options.fiber_pool_cap ws.made t
    → Ready g (i + 1) (record {
      workers = update ws.workers i (worker_local_init g);
      fiber_pools = update ws.fiber_pools i t.own;
      fiber_pool = t.parent;
      made = t.made;
    })
unfolding Started
Ready-next g i ws t r (half, spare, made) = record {
  worker = λ j l. elim (ℕ_discrete j i) [
    | yes e ↦ ground (arith, e)
    | no ne ↦ let q = r.worker j (omega arith) in ground (arith, ne, q)
  ];
  pool = λ j l. elim (ℕ_discrete j i) [
    | yes e ↦ subst (λ p. Half g.options.fiber_pool_cap p) (ground (arith, e)) half
    | no ne ↦
        subst (λ p. Half g.options.fiber_pool_cap p) (ground (arith, ne)) (r.pool j (omega arith))
  ];
  spare = spare;
  count = let q = r.count in grind (arith, made, q);
}

workers_init-Ready :
    (make : ℕ → ℕ) (g : GlobalState) (n i : ℕ) (ws : Workers)
    → i + n ≤ no_worker
    → Ready g i ws
    → (out : Workers) × (workers_init make g n i ws ≡ some out) × Ready g (i + n) out
unfolding workers_init worker_init
workers_init-Ready make g zero i ws h r = (ws, refl, subst (λ k. Ready g k ws) (omega arith) r)
workers_init-Ready make g (suc n) i ws h r =
    let (t, run, started) =
      per_worker_init-Started make i g.options.stacksize g.options.fiber_pool_cap ws.fiber_pool
        ws.made r.spare (omega (arith, h)) in
    let (out, run', ready) =
      workers_init-Ready make g n (i + 1) _ (omega (arith, h)) (Ready-next g i ws t r started) in
    (out, rw run run', subst (λ k. Ready g k out) (omega arith) ready)

empty_deque-Holds : (s : State) (i : ℕ) → s.deques i ≡ empty_deque → Holds s i []
empty_deque-Holds s i e = record {
  top = ground (arith, e);
  bottom = ground (arith, e);
  linked = tt;
  distinct = tt;
}

-- A worker before it schedules: idle, with `head`, `tail` and `exc` at the second slot of an empty
-- shadow stack that has room for `depth` frames, without a frame, a map, a fiber to free or a mark.
pub record Idle (depth : ℕ) (v : Worker) : Type 0 where
  pub state : v.state ≡ WorkerState.idle
  pub stack : (v.head ≡ 1) × (v.tail ≡ 1) × (v.exc ≡ 1)
  pub limit : v.ltq_limit ≡ depth
  pub empty : (i : ℕ) → v.shadow_stack i ≡ none
  pub frame : v.current_stack_frame ≡ none
  pub map : v.reducer_map ≡ none
  pub fiber : v.fiber_to_free ≡ none
  pub marks : (v.lock_wait ≡ false) × (v.provably_good_steal ≡ false)

worker_local_init-Idle :
    (g : GlobalState) (v : Worker) → v ≡ worker_local_init g → Idle g.options.deqdepth v
unfolding worker_local_init
worker_local_init-Idle g v e = record {
  state = ap (λ u. u.state) e;
  stack = (ap (λ u. u.head) e, ap (λ u. u.tail) e, ap (λ u. u.exc) e);
  limit = ap (λ u. u.ltq_limit) e;
  empty = λ i. ap (λ u. u.shadow_stack i) e;
  frame = ap (λ u. u.current_stack_frame) e;
  map = ap (λ u. u.reducer_map) e;
  fiber = ap (λ u. u.fiber_to_free) e;
  marks = (ap (λ u. u.lock_wait) e, ap (λ u. u.provably_good_steal) e);
}

-- A deque whose mutex no one holds.
pub record Unlocked (d : ReadyDeque) : Type 0 where
  pub locked : d.locked ≡ false
  pub owner : d.mutex_owner ≡ no_worker

-- What the start promises, for a runtime with `nproc` workers whose root closure is `root`.
pub record Booted {A : Type 0} (g : GlobalState) (root fiber : ℕ) (b : Boot A) : Type 0 where
  pub state : b.g ≡ g
  pub worker : (i : ℕ) → i < g.options.nproc → Idle g.options.deqdepth (b.store.workers i)
  pub deque : (i : ℕ) → i < g.options.nproc → Unlocked (b.store.deques i)
  pub holds : (i : ℕ) → i < g.options.nproc → Holds b.store i []
  pub pool : (i : ℕ) → i < g.options.nproc → Half g.options.fiber_pool_cap (b.fiber_pools i)
  pub spare : Spare g.options.stacksize b.fiber_pool
  pub made : b.made ≡ g.options.nproc * (g.options.fiber_pool_cap / batch_fraction)
  pub ids : IsValid b.hyper.manager
  pub ids_free : (id : ℕ) → in_use b.hyper.manager.used id ≡ false
  pub no_map : b.hyper.reducer_map ≡ none
  pub root_closure : b.store.root_closure ≡ some root
  pub root_fiber : (b.store.closures root).fiber ≡ some fiber
  pub root_status : (b.store.closures root).status ≡ Status.pre_invalid
  pub root_alone : (b.store.closures root).join_counter ≡ 0

id_manager_run :
    (m : IdManager) × (init_reducer_id_manager reducer_limit ≡ some m)
    × IsValid m
    × (m.hwm ≡ 0)
    × ((id : ℕ) → in_use m.used id ≡ false)
id_manager_run =
    let (m, run, valid, room, free) = init-IsValid reducer_limit (omega arith) (omega arith) in
    (m, run, valid, (unfold init_reducer_id_manager in ground (arith, run)), free)

module _ {A : Type 0} where
  startup_from-Booted :
      (make : ℕ → ℕ) (root fiber : ℕ) (raw : Raw A) (g : GlobalState)
      → g.options.nproc ≤ no_worker
      → g.exiting_worker ≡ 0
      → (b : Boot A) × (startup_from make (some root) fiber raw g ≡ some b) × Booted g root fiber b
  unfolding startup_from reducers_import closure_create closure_init
  startup_from-Booted make root fiber raw g small first =
      let (m, run_m, valid, none_yet, free) = id_manager_run in
      let (ws, run, all) =
        workers_init-Ready make g g.options.nproc 0
          (record {
            workers = raw.store.workers;
            fiber_pools = raw.fiber_pools;
            fiber_pool = cilk_fiber_pool_global_init g.options.stacksize g.options.fiber_pool_cap;
            made = 0;
          })
          (omega (arith, small))
          (record {
            worker = λ i l. absurd (omega (arith, l));
            pool = λ i l. absurd (omega (arith, l));
            spare = global_init-Spare g.options.stacksize g.options.fiber_pool_cap;
            count = omega arith;
          }) in
      let ready : Ready g g.options.nproc ws = subst (λ k. Ready g k ws) (omega arith) all in
      let b : Boot A = record {
        g = g;
        store = record raw.store {
          workers = ws.workers;
          deques = deques_init g.options.nproc 0 raw.store.deques;
          root_closure_initialized = g.root_closure_initialized;
          done = g.done;
          nworkers = g.nworkers;
          closures =
              update (update raw.store.closures root blank_closure) root
                (record (update raw.store.closures root blank_closure root) { fiber = some fiber });
          root_closure = some root;
        };
        fiber_pools = ws.fiber_pools;
        fiber_pool = ws.fiber_pool;
        made = ws.made;
        hyper = record { id_num = raw.id_num; manager = m; reducer_map = none };
      } in
      let empty : (i : ℕ) → i < g.options.nproc → b.store.deques i ≡ empty_deque = λ i l.
        deques_init-empty g.options.nproc 0 raw.store.deques i (omega arith) (omega (arith, l)) in
      (
        b,
        rw run_m (rw run (rw first (rw none_yet refl))),
        record {
          state = refl;
          worker = λ i l. worker_local_init-Idle g (ws.workers i) (ready.worker i l);
          deque = λ i l. record {
            locked = ap (λ d. d.locked) (empty i l);
            owner = ap (λ d. d.mutex_owner) (empty i l);
          };
          holds = λ i l. empty_deque-Holds b.store i (empty i l);
          pool = ready.pool;
          spare = ready.spare;
          made = ready.count;
          ids = valid;
          ids_free = free;
          no_map = refl;
          root_closure = refl;
          root_fiber = ground arith;
          root_status = ground arith;
          root_alone = ground arith;
        },
      )

  -- __cilkrts_startup, with the memory that it asks for, succeeds exactly if the options are
  -- accepted. Then every worker is idle with an empty shadow stack, which starts at its second slot
  -- and is bounded by the depth of the options, and has no frame, no map and no fiber to free; every
  -- deque is empty and unlocked; every worker has a pool that is half full, while the shared pool is
  -- empty; the id manager is valid with no id in use; and the root closure exists with its fiber.
  pub startup-decides :
      (make : ℕ → ℕ) (root fiber : ℕ) (raw : Raw A) (env : Environment) (argc : ℤ)
      → ((accepts env argc ≡ true)
          × ((b : Boot A) × (startup make (some root) fiber raw env argc ≡ some b)
              × Booted (initial env argc) root fiber b))
        ⊎ ((accepts env argc ≡ false) × (startup make (some root) fiber raw env argc ≡ none))
  unfolding startup
  startup-decides make root fiber raw env argc = elim (Bool-cases (accepts env argc)) [
    | inl accepted ↦
        let (b, run, booted) =
          startup_from-Booted make root fiber raw (initial env argc)
            (unfold initial in omega (arith, wanted_nproc-lt env argc)) (unfold initial in refl) in
        inl (accepted, (b, rw (global_state_init_decides env argc) (rw accepted run), booted))
    | inr refused ↦ inr (refused, rw (global_state_init_decides env argc) (rw refused refl))
  ]
