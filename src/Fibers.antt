-- ===== src/Fibers.antt =====
-- runtime/fiber-pool.c: the pool of fibers of one worker and the pool that the workers share. An
-- access past the array of a pool, or below it, is `none`, as a failed assertion is. The code that
-- makes a fiber is a parameter: `make n` is the address of the n-th fiber made.
pub mod Bounds
pub mod Batch
pub mod Return
pub mod Start
mod Tests
use multicilk.Base.{
  ℕ, zero, suc, ◌+◌, ◌-◌, ◌*◌, ◌/◌, ◌%◌, ◌^◌, Bool, true, false, not, Option, none, some, ltb, leb,
  ◌==◌, if◌then◌else◌, update, List, [], ◌∷◌,
}
use multicilk.Base.Fallible.{◌>>=◌, ◌>>◌, assert}
use multicilk.Base.Int.{ℤ, pos, ◌+ℤ◌, ◌-ℤ◌, ltb_ℤ}
use multicilk.Runtime.{no_worker}

-- `struct cilk_fiber_pool` with its `stats`.
pub record FiberPool : Type 0 where
  pub mutex_owner : ℕ
  pub shared : Bool
  pub stack_size : ℕ
  pub fibers : ℕ → ℕ
  pub capacity : ℕ
  pub size : ℕ
  pub in_use : ℤ
  pub max_in_use : ℤ
  pub max_free : ℕ

-- The pool of the worker, its parent, how many fibers were made, and the fibers that were given back.
pub record Pools : Type 0 where
  pub own : FiberPool
  pub parent : FiberPool
  pub made : ℕ
  pub dropped : List ℕ

-- BATCH_FRACTION, GLOBAL_POOL_RATIO
abbrev pub batch_fraction : ℕ
batch_fraction = 2

abbrev pub global_pool_ratio : ℕ
global_pool_ratio = 10

-- `fiber_pool_init` and `fiber_pool_stat_init`
unfoldable pub fiber_pool_init : ℕ → ℕ → Bool → FiberPool
fiber_pool_init stacksize bufsize is_shared = record {
  mutex_owner = no_worker;
  shared = is_shared;
  stack_size = stacksize;
  fibers = λ _. 0;
  capacity = bufsize;
  size = 0;
  in_use = pos 0;
  max_in_use = pos 0;
  max_free = 0;
}

abbrev pub fiber_pool_assert_ownership : ℕ → FiberPool → Option (Unit {0})
fiber_pool_assert_ownership w p = assert (if p.shared then p.mutex_owner == w else true)

abbrev pub fiber_pool_assert_alienation : ℕ → FiberPool → Option (Unit {0})
fiber_pool_assert_alienation w p = assert (if p.shared then not (p.mutex_owner == w) else true)

pub fiber_pool_lock : ℕ → FiberPool → Option FiberPool
fiber_pool_lock w p =
    fiber_pool_assert_alienation w p
    >> some (record p { mutex_owner = if p.shared then w else p.mutex_owner })

pub fiber_pool_unlock : ℕ → FiberPool → Option FiberPool
fiber_pool_unlock w p =
    fiber_pool_assert_ownership w p
    >> some (record p { mutex_owner = if p.shared then no_worker else p.mutex_owner })

-- `realloc` is taken to succeed.
pub fiber_pool_increase_capacity : ℕ → FiberPool → ℕ → Option FiberPool
fiber_pool_increase_capacity w p new_size =
    fiber_pool_assert_ownership w p
    >> some (record p { capacity = if ltb p.capacity new_size then new_size else p.capacity })

-- `pool->fibers[pool->size++] = fiber`
pub push : FiberPool → ℕ → Option FiberPool
push p fiber =
    assert (ltb p.size p.capacity)
    >> some (record p { fibers = update p.fibers p.size fiber; size = p.size + 1 })

-- `pool->fibers[--pool->size]`
pub pop : FiberPool → Option (ℕ × FiberPool)
pop p = assert (ltb 0 p.size) >> some (p.fibers (p.size - 1), record p { size = p.size - 1 })

-- The loops that move `n` fibers from one pool to another.
unfoldable pub move_fibers : ℕ → FiberPool → FiberPool → Option (FiberPool × FiberPool)
unfolding push pop
move_fibers zero from into = some (from, into)
move_fibers (suc n) from into = pop from >>= λ r. push into r.0 >>= λ q. move_fibers n r.1 q

-- The loop that makes `n` fibers.
pub make_fibers : (ℕ → ℕ) → ℕ → FiberPool → ℕ → Option (FiberPool × ℕ)
unfolding push
make_fibers make zero p made = some (p, made)
make_fibers make (suc n) p made = push p (make made) >>= λ q. make_fibers make n q (made + 1)

-- The loop that gives `n` fibers back.
pub drop_fibers : ℕ → FiberPool → List ℕ → Option (FiberPool × List ℕ)
unfolding pop
drop_fibers zero p dropped = some (p, dropped)
drop_fibers (suc n) p dropped = pop p >>= λ r. drop_fibers n r.1 (r.0 ∷ dropped)

abbrev pub min_ℕ : ℕ → ℕ → ℕ
min_ℕ a b = if leb a b then a else b

abbrev pub note_in_use : FiberPool → ℤ → FiberPool
note_in_use p in_use = record p {
  in_use = in_use;
  max_in_use = if ltb_ℤ p.max_in_use in_use then in_use else p.max_in_use;
}

abbrev pub note_free : FiberPool → FiberPool
note_free p = record p { max_free = if ltb p.max_free p.size then p.size else p.max_free }

pub fiber_pool_allocate_batch : (ℕ → ℕ) → ℕ → Pools → ℕ → Option Pools
fiber_pool_allocate_batch make w s batch_size = do
  fiber_pool_assert_ownership w s.own
  own ← fiber_pool_increase_capacity w s.own (batch_size + s.own.size)
  parent ← fiber_pool_lock w s.parent
  let from_parent = min_ℕ parent.size batch_size
  (left, filled) ← move_fibers from_parent parent own
  unlocked ← fiber_pool_unlock w (note_in_use left (left.in_use +ℤ pos from_parent))
  (full, made) ← make_fibers make (batch_size - from_parent) filled s.made
  some (record s { own = note_free full; parent = unlocked; made = made })

pub fiber_pool_free_batch : ℕ → Pools → ℕ → Option Pools
fiber_pool_free_batch w s batch_size = do
  fiber_pool_assert_ownership w s.own
  assert (leb batch_size s.own.size)
  parent ← fiber_pool_lock w s.parent
  let to_parent = min_ℕ batch_size (parent.capacity - parent.size)
  (left, filled) ← move_fibers to_parent s.own parent
  assert (leb filled.size filled.capacity)
  unlocked ←
      fiber_pool_unlock w (note_free (record filled { in_use = filled.in_use -ℤ pos to_parent }))
  (rest, dropped) ← drop_fibers (batch_size - to_parent) left s.dropped
  some (record s { own = rest; parent = unlocked; dropped = dropped })

-- `bufsize` is `unsigned int`.
unfoldable pub cilk_fiber_pool_global_init : ℕ → ℕ → FiberPool
unfolding fiber_pool_init
cilk_fiber_pool_global_init stacksize cap =
    fiber_pool_init stacksize (global_pool_ratio * cap % 2 ^ 32) true

unfoldable pub cilk_fiber_pool_per_worker_init : (ℕ → ℕ) → ℕ → ℕ → ℕ → FiberPool → ℕ → Option Pools
unfolding fiber_pool_init fiber_pool_allocate_batch
cilk_fiber_pool_per_worker_init make w stacksize cap parent made = do
  assert (parent.stack_size == stacksize)
  s ←
      fiber_pool_allocate_batch make w
        (record {
          own = fiber_pool_init stacksize cap false;
          parent = parent;
          made = made;
          dropped = [];
        })
        (cap / batch_fraction)
  some (record s { own = record s.own { in_use = pos 0; max_in_use = pos 0; max_free = 0 } })

-- The loops `while (pool->size > 0)` of both terminations.
pub cilk_fiber_pool_terminate : FiberPool → List ℕ → Option (FiberPool × List ℕ)
unfolding drop_fibers
cilk_fiber_pool_terminate p dropped = drop_fibers p.size p dropped

pub cilk_fiber_allocate_from_pool : (ℕ → ℕ) → ℕ → Pools → Option (ℕ × Pools)
cilk_fiber_allocate_from_pool make w s = do
  t ←
      (if s.own.size == 0
        then fiber_pool_allocate_batch make w s (s.own.capacity / batch_fraction)
        else some s)
  (ret, own) ← pop t.own
  assert (not (ret == 0))
  some (ret, record t { own = note_in_use own (own.in_use +ℤ pos 1) })

pub cilk_fiber_deallocate_to_pool : ℕ → Pools → Option ℕ → Option Pools
cilk_fiber_deallocate_to_pool w s fiber = do
  t ←
      (if s.own.size == s.own.capacity
        then fiber_pool_free_batch w s (s.own.capacity / batch_fraction) >>= (λ u.
          assert (leb (s.own.capacity / batch_fraction) (u.own.capacity - u.own.size)) >> some u)
        else some s)
  elim fiber [
    | none ↦ some t
    | some f ↦ push t.own f >>= λ own.
        some (record t { own = note_free (record own { in_use = own.in_use -ℤ pos 1 }) })
  ]
