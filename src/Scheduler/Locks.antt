-- ===== src/Scheduler/Locks.antt =====
-- The locks that the scheduler takes on its own deque and on a closure, as changes of the state.
use multicilk.Base.{ℕ, true, false, some, ◌≡◌, update, arith}
use multicilk.Runtime.{no_worker, State, ok}
use multicilk.Deque.{
  deque_lock, deque_unlock, deque_lock_self, deque_unlock_self, deque_peek_bottom,
  deque_assert_ownership,
}
use multicilk.Closure.{is_valid, closure_lock, closure_checkmagic}

unfoldable pub closure_locked : ℕ → ℕ → State → State
closure_locked w t s =
    let a = update s.closures t (record (s.closures t) { lock_wait = true }) in
    record s {
      closures =
          update a t (record (s.closures t) { locked = true; lock_wait = false; mutex_owner = w });
    }

unfoldable pub deque_locked : ℕ → State → State
deque_locked w s =
    let a = update s.workers w (record (s.workers w) { lock_wait = true }) in
    record s {
      workers = update a w (record (a w) { lock_wait = false });
      deques = update s.deques w (record (s.deques w) { locked = true; mutex_owner = w });
    }

unfoldable pub deque_unlocked : ℕ → State → State
deque_unlocked w s = record s {
  deques = update s.deques w (record (s.deques w) { locked = false; mutex_owner = no_worker });
}

pub closure_lock-eq :
    (w t : ℕ) (s : State)
    → is_valid (s.closures t).status ≡ true
    → (s.closures t).locked ≡ false
    → closure_lock w t s ≡ ok tt (closure_locked w t s)
unfolding closure_lock closure_checkmagic closure_locked
closure_lock-eq w t s v f = ground arith

pub lock_self-eq :
    (w : ℕ) (s : State)
    → (s.deques w).locked ≡ false
    → deque_lock_self w s ≡ ok tt (deque_locked w s)
unfolding deque_lock_self deque_lock deque_locked
lock_self-eq w s f = ground arith

pub unlock_self-eq : (w : ℕ) (s : State) → deque_unlock_self w s ≡ ok tt (deque_unlocked w s)
unfolding deque_unlock_self deque_unlock deque_unlocked
unlock_self-eq w s = ground arith

pub peek_bottom-eq :
    (w t : ℕ) (s : State)
    → (s.deques w).mutex_owner ≡ w
    → (s.deques w).bottom ≡ some t
    → (s.closures t).owner_ready_deque ≡ w
    → deque_peek_bottom w w s ≡ ok (some t) s
unfolding deque_peek_bottom deque_assert_ownership
peek_bottom-eq w t s own bottom placed = ground arith
