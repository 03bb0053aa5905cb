-- ===== src/Fibers/Start.antt =====
-- The start of the pools (runtime/fiber-pool.c): `cilk_fiber_pool_global_init`, and
-- `cilk_fiber_pool_per_worker_init` while the shared pool is empty.
use multicilk.Base.{ℕ, ◌+◌, ◌-◌, ◌/◌, ◌≤◌, ◌≡◌, ◌≢◌, refl, sym, ◌∙◌, true, false, some, [], arith}
use multicilk.Base.Int.{pos, ◌+ℤ◌}
use multicilk.Runtime.{no_worker}
use multicilk.Fibers.{
  FiberPool, Pools, fiber_pool_init, move_fibers, min_ℕ, note_in_use, note_free, batch_fraction,
  fiber_pool_allocate_batch, cilk_fiber_pool_global_init, cilk_fiber_pool_per_worker_init,
}
use multicilk.Fibers.Bounds.{make_fibers_ok}
use multicilk.Fibers.Batch.{
  locked_pool, unlocked_pool, grown, lock-eq, unlock-eq, grow-eq, alloc-run,
}

-- A shared pool without fibers that no one holds.
pub record Spare (stacksize : ℕ) (p : FiberPool) : Type 0 where
  pub size : p.size ≡ 0
  pub shared : p.shared ≡ true
  pub unlocked : p.mutex_owner ≡ no_worker
  pub stack_size : p.stack_size ≡ stacksize

pub global_init-Spare :
    (stacksize cap : ℕ) → Spare stacksize (cilk_fiber_pool_global_init stacksize cap)
unfolding cilk_fiber_pool_global_init fiber_pool_init
global_init-Spare stacksize cap = record {
  size = refl;
  shared = refl;
  unlocked = refl;
  stack_size = refl;
}

-- The pool of a worker, half full.
pub record Half (cap : ℕ) (p : FiberPool) : Type 0 where
  pub size : p.size ≡ cap / batch_fraction
  pub capacity : p.capacity ≡ cap
  pub private : p.shared ≡ false

-- What the first pool of a worker leaves.
unfoldable pub Started : ℕ → ℕ → ℕ → Pools → Type 0
Started stacksize cap made t =
    Half cap t.own × Spare stacksize t.parent × (t.made ≡ made + cap / batch_fraction)

module _ (make : ℕ → ℕ) (w : ℕ) (s : Pools) (batch : ℕ) (private : s.own.shared ≡ false)
    (empty : s.own.size ≡ 0) (fits : batch ≤ s.own.capacity) (stacksize : ℕ)
    (spare : Spare stacksize s.parent) (ne : w ≢ no_worker) where
  none_there : min_ℕ (locked_pool w s.parent).size batch ≡ 0
  unfolding locked_pool
  none_there = ground (arith, spare.size)

  -- The whole batch is made, since the shared pool has no fibers.
  fresh_batch :
      (t : Pools) × (fiber_pool_allocate_batch make w s batch ≡ some t)
      × (t.own.size ≡ batch)
      × (t.own.capacity ≡ s.own.capacity)
      × (t.own.shared ≡ false)
      × Spare stacksize t.parent
      × (t.made ≡ s.made + batch)
  fresh_batch =
      let g = grown s.own (batch + s.own.size) in
      let l = locked_pool w s.parent in
      let k = min_ℕ l.size batch in
      let (q, eq, sq) =
        make_fibers_ok make (batch - k) g s.made
          (unfold grown in ground (arith, none_there, empty, fits)) in
      let c = note_in_use l (l.in_use +ℤ pos k) in
      let moved : move_fibers k l g ≡ some (l, g) = rw none_there (unfold move_fibers in refl) in
      (
        record s { own = note_free q; parent = unlocked_pool c; made = s.made + (batch - k) },
        alloc-run make w s batch private (grow-eq w s.own (batch + s.own.size) private)
            (lock-eq w s.parent spare.shared (λ e. ne (sym e ∙ spare.unlocked))) moved
            (unlock-eq w c (unfold locked_pool in spare.shared) (unfold locked_pool in refl)) eq,
        unfold grown in ground (arith, sq.size, none_there, empty),
        unfold grown in ground (arith, sq.capacity, none_there, empty, fits),
        sq.shared ∙ (unfold grown in private),
        record {
          size = unfold unlocked_pool locked_pool in spare.size;
          shared = unfold unlocked_pool locked_pool in spare.shared;
          unlocked = unfold unlocked_pool in refl;
          stack_size = unfold unlocked_pool locked_pool in spare.stack_size;
        },
        unfold locked_pool in ground (arith, none_there),
      )

-- The first pool of a worker is half full, all of it made, and the shared pool stays empty.
pub per_worker_init-Started :
    (make : ℕ → ℕ) (w stacksize cap : ℕ) (parent : FiberPool) (made : ℕ)
    → Spare stacksize parent
    → w ≢ no_worker
    → (t : Pools) × (cilk_fiber_pool_per_worker_init make w stacksize cap parent made ≡ some t)
      × Started stacksize cap made t
unfolding cilk_fiber_pool_per_worker_init fiber_pool_init Started
per_worker_init-Started make w stacksize cap parent made spare ne =
    let s : Pools = record {
      own = fiber_pool_init stacksize cap false;
      parent = parent;
      made = made;
      dropped = [];
    } in
    let (t, run, size, capacity, private, spare', count) =
      fresh_batch make w s (cap / batch_fraction) refl refl (omega arith) stacksize spare ne in
    (
      record t { own = record t.own { in_use = pos 0; max_in_use = pos 0; max_free = 0 } },
      ground (arith, run, spare.stack_size),
      (record { size = size; capacity = capacity; private = private }, spare', count),
    )
