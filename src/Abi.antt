-- ===== src/Abi.antt =====
-- What compiled code calls (runtime/cilk2c_inlined.c and runtime/cilk2c.c): the frames of Cilk
-- functions and spawn helpers, their detachment and their end, and the exceptions at a sync. A call is
-- made by the worker `w` of the frame `sf`. Pedigrees are not compiled in.
pub mod Spawn
pub mod Callbacks
mod Tests
use multicilk.Base.{
  ℕ, ◌+◌, ◌-◌, Bool, true, false, Option, none, some, update, ◌==◌, is_null, ptr_eq, ltb,
}
use multicilk.Runtime.{
  Flags, Frame, Closure, Worker, M, pure, ◌>>=◌, ◌>>◌, check, branch, null_or, get_closure,
  get_worker, get_frame, deref, modify_closure, modify_frame, modify_worker,
}
use multicilk.Deque.{deque_lock_self, deque_unlock_self, deque_peek_bottom}
use multicilk.Closure.{closure_lock, closure_unlock}
use multicilk.Scheduler.{Services}
use multicilk.Scheduler.Resume.{cilk_set_return}
use multicilk.Scheduler.Return.{After, cilk_exception_handler}
use multicilk.Scheduler.Run.{Sync, cilk_sync}

abbrev pub no_flags : Flags
no_flags = record {
  stolen = false;
  unsynched = false;
  detached = false;
  exception_pending = false;
  excepting = false;
  last = false;
}

-- `__cilkrts_enter_frame_fast`, and `__cilkrts_enter_frame` on a worker.
pub enter_frame_fast : ℕ → ℕ → M (Unit {0})
enter_frame_fast w sf = do
  v ← get_worker w
  modify_frame sf λ f. record f { flags = no_flags }
  modify_frame sf λ f. record f { magic = true }
  modify_frame sf λ f. record f { call_parent = v.current_stack_frame }
  modify_frame sf λ f. record f { worker = some w }
  modify_worker w λ u. record u { current_stack_frame = some sf }

pub detach : ℕ → ℕ → M (Unit {0})
detach w sf = do
  f ← get_frame sf
  check f.magic
  check (ptr_eq f.worker (some w))
  v ← get_worker w
  check (ptr_eq v.current_stack_frame (some sf))
  modify_frame sf λ g. record g { flags = record g.flags { detached = true } }
  check (ltb (v.tail + 1) v.ltq_limit)
  modify_worker w λ u. record u { shadow_stack = update u.shadow_stack u.tail f.call_parent }
  modify_worker w λ u. record u { tail = u.tail + 1 }

-- Gives whether the frame is the last one, where `uncilkify` ends the region.
pub pop_frame : ℕ → ℕ → M Bool
pop_frame w sf = do
  f ← get_frame sf
  check f.magic
  check (ptr_eq f.worker (some w))
  modify_worker w λ u. record u { current_stack_frame = f.call_parent }
  modify_frame sf λ g. record g { call_parent = none }
  pure f.flags.last

-- The pop of `__cilkrts_pause_frame` and of `__cilkrts_leave_frame`; the tail is above the bottom of
-- the shadow stack, since this frame pushed its parent.
pub pop_detached : ℕ → ℕ → Option ℕ → M After
pop_detached w sf exn = do
  modify_worker w λ u. record u { tail = u.tail - 1 }
  v ← get_worker w
  modify_frame sf λ g. record g { flags = record g.flags { detached = false } }
  branch (ltb v.tail v.exc) (cilk_exception_handler w exn) (pure After.to_user)

pub pause_frame : ℕ → ℕ → Option ℕ → M After
pause_frame w sf exn = do
  f ← get_frame sf
  check f.magic
  check (ptr_eq f.worker (some w))
  check f.flags.detached
  pop_detached w sf exn

-- `Cilk_set_return` as `__cilkrts_leave_frame` calls it, with the assertion after it.
pub set_return : ℕ → ℕ → M After
set_return w sf = do cilk_set_return w; f ← get_frame sf; check f.magic; pure After.to_user

pub leave_frame : ℕ → ℕ → M After
leave_frame w sf = do
  f ← get_frame sf
  check f.magic
  check (ptr_eq f.worker (some w))
  branch f.flags.detached (pop_detached w sf none)
      (branch f.flags.stolen (set_return w sf) (pure After.to_user))

-- `__cilkrts_check_exception_raise` and `__cilkrts_check_exception_resume`: the exception that is
-- raised, or resumed, at their end.
pub check_exception : ℕ → ℕ → M (Option ℕ)
check_exception w sf = do
  deque_lock_self w
  b ← deque_peek_bottom w w
  t ← deref b
  closure_lock w t
  c ← get_closure t
  modify_closure t λ d. record d { user_exn = none }
  modify_frame sf λ g. record g { flags = record g.flags { exception_pending = false } }
  closure_unlock w t
  deque_unlock_self w
  pure c.user_exn

abbrev pub after_sync : Sync → After
after_sync Sync.sync_ready = After.to_user
after_sync Sync.sync_not_ready = After.to_runtime

module _ ⦃services : Services⦄ where
  -- The part of `__cilkrts_cleanup_fiber` after its test of `parent_rsp`.
  pub restore_stack : ℕ → ℕ → ℕ → ℕ → M (Unit {0})
  restore_stack w sf t rsp = do
    modify_frame sf λ g. record g { sp = some rsp }
    modify_closure t λ d. record d { parent_rsp = none }
    c ← get_closure t
    null_or c.saved_throwing_fiber (pure tt) λ f. do
      services.deallocate_fiber w (some f)
      modify_closure t λ d. record d { saved_throwing_fiber = none }
    deque_unlock_self w

  -- `__cilkrts_cleanup_fiber`, and whether it jumps to the frame.
  pub cleanup_fiber : ℕ → ℕ → ℕ → M Bool
  cleanup_fiber w sf sel = branch (sel == 0) (pure false) (do
    deque_lock_self w
    b ← deque_peek_bottom w w
    t ← deref b
    c ← get_closure t
    null_or c.parent_rsp (do deque_unlock_self w; pure false)
        λ rsp. do restore_stack w sf t rsp; pure true)

  -- `__cilkrts_sync`: it jumps to the frame or to the runtime.
  pub sync : ℕ → ℕ → M After
  sync w sf = do
    f ← get_frame sf
    check (ptr_eq f.worker (some w))
    check f.magic
    v ← get_worker w
    check (ptr_eq v.current_stack_frame (some sf))
    res ← cilk_sync w sf
    pure (after_sync res)
