-- ===== src/Scheduler.antt =====
-- runtime/scheduler.c over the store of module Runtime, in a run in which no other worker moves: a
-- mutex that another worker holds makes a call end in `blocked`. The worker `w` of a call is the one
-- of its thread, so that `__cilkrts_get_tls_worker` is `w`. An exception is the pointer `exn` of its
-- `struct closure_exception`.
pub mod Resume
pub mod Turns
pub mod Return
pub mod Stacklet
pub mod Steal
pub mod Run
pub mod Locks
pub mod Handler
pub mod Fail
pub mod Slots
pub mod Loops
pub mod Good
pub mod Oldest
mod Tests
pub mod Suspend
pub mod Entered
pub mod Sync
pub mod Joining
pub mod Pair
pub mod Exceptions
pub mod Views
pub mod Unlink
pub mod GoOn
pub mod HandOver
pub mod LastChild
pub mod ReturnOnly
pub mod Ready
use multicilk.Base.{
  ℕ, ◌+◌, ◌-◌, ◌*◌, ◌/◌, ◌%◌, ◌^◌, Bool, true, false, ◌||◌, not, Option, none, some, ◌==◌, is_null,
  ptr_eq, leb,
}
use multicilk.Runtime.{
  Status, status_eq, WorkerState, Closure, Frame, Worker, State, M, pure, ◌>>=◌, ◌>>◌, check,
  branch, null_or, get_closure, get_worker, get_frame, get_root, deref, modify_closure,
  modify_frame, modify_worker, set_synced,
}
use multicilk.Closure.{closure_assert_ownership, closure_set_status}

-- The parts of the runtime that the scheduler calls and whose state is not in the store.
pub record Services : Type 0 where
  -- `cilk_internal_malloc` in `Closure_create`
  pub allocate_closure : ℕ → M (Option ℕ)
  -- `cilk_fiber_allocate_from_pool`
  pub allocate_fiber : ℕ → M (Option ℕ)
  -- `cilk_fiber_deallocate_to_pool`
  pub deallocate_fiber : ℕ → Option ℕ → M (Unit {0})
  -- `merge_two_rmaps`
  pub merge_two_rmaps : ℕ → Option ℕ → Option ℕ → M (Option ℕ)
  -- `_Unwind_DeleteException`
  pub delete_exception : ℕ → M (Unit {0})
  -- `in_fiber`
  pub in_fiber : Option ℕ → Option ℕ → Bool
  -- `sysdep_reset_stack_for_resume`
  pub reset_stack : Option ℕ → ℕ → M (Option ℕ)

-- `rand_next` is an `unsigned int`.
pub rts_rand : ℕ → M ℕ
rts_rand w = do
  modify_worker w λ v. record v { rand_next = (v.rand_next * 1103515245 + 12345) % 2 ^ 32 }
  v ← get_worker w
  pure (v.rand_next / 2 ^ 16)

pub rts_srand : ℕ → ℕ → M (Unit {0})
rts_srand w seed = modify_worker w λ v. record v { rand_next = seed % 2 ^ 32 }

abbrev pub state_eq : WorkerState → WorkerState → Bool
state_eq WorkerState.idle WorkerState.idle = true
state_eq WorkerState.sched WorkerState.sched = true
state_eq WorkerState.steal WorkerState.steal = true
state_eq WorkerState.run WorkerState.run = true
state_eq _ _ = false

pub worker_change_state : ℕ → WorkerState → M (Unit {0})
worker_change_state w state = do
  v ← get_worker w
  check (not (state_eq v.state state))
  modify_worker w λ u. record u { state = state }

-- EXCEPTION_INFINITY is stored nowhere, so that the tests for it are always true.
unfoldable pub increment_exception_pointer : ℕ → ℕ → ℕ → M (Unit {0})
increment_exception_pointer w victim cl = do
  closure_assert_ownership w cl
  c ← get_closure cl
  check (status_eq c.status Status.running)
  modify_worker victim λ v. record v { exc = v.exc + 1 }

unfoldable pub decrement_exception_pointer : ℕ → ℕ → ℕ → M (Unit {0})
decrement_exception_pointer w victim cl = do
  closure_assert_ownership w cl
  c ← get_closure cl
  root ← get_root
  check (status_eq c.status Status.running || ptr_eq (some cl) root)
  modify_worker victim λ v. record v { exc = v.exc - 1 }

unfoldable pub reset_exception_pointer : ℕ → ℕ → M (Unit {0})
reset_exception_pointer w cl = do
  closure_assert_ownership w cl
  c ← get_closure cl
  null_or c.frame (pure tt) λ f. do v ← get_frame f; check (ptr_eq v.worker (some w))
  modify_worker w λ v. record v { exc = v.head }

-- The shadow stack starts at index 0.
pub setup_for_execution : ℕ → ℕ → M (Unit {0})
setup_for_execution w t = do
  c ← get_closure t
  f ← deref c.frame
  modify_frame f λ v. record v { worker = some w }
  closure_set_status t Status.running
  modify_worker w λ v. record v { head = 0; tail = 0 }
  modify_worker w λ v. record v { current_stack_frame = c.frame }
  reset_exception_pointer w t

unfoldable pub setup_for_sync : ℕ → ℕ → M (Unit {0})
setup_for_sync w t = do
  closure_assert_ownership w t
  v ← get_worker w
  check (is_null v.fiber_to_free)
  c ← get_closure t
  check (not (ptr_eq c.fiber c.fiber_child))
  branch c.simulated_stolen (pure tt) (do
    modify_worker w λ u. record u { fiber_to_free = c.fiber }
    modify_closure t λ d. record d { fiber = d.fiber_child }
    modify_closure t λ d. record d { fiber_child = none })
  c' ← get_closure t
  check (not (is_null c'.fiber))
  f ← deref c'.frame
  set_synced f
  v' ← get_worker w
  check (ptr_eq v'.current_stack_frame (some f))
  modify_frame f λ u. record u { sp = c'.orig_rsp }
  modify_closure t λ d. record d { orig_rsp = none }
  modify_frame f λ u. record u { worker = some w }
