-- ===== src/Scheduler/Handler.antt =====
-- `Cilk_exception_handler` of runtime/scheduler.c, on both of its branches.
use multicilk.Base.{ℕ, ◌≤◌, ◌<◌, false, Option, none, some, ◌≡◌, ◌⊎◌, inl, inr, update, arith}
use multicilk.Runtime.{Status, State, ok}
use multicilk.Deque.{deque_peek_bottom}
use multicilk.Closure.{
  closure_lock, closure_set_status, closure_has_children, closure_assert_ownership, closure_unlock,
}
use multicilk.Closure.Lock.{released, unlock-owned}
use multicilk.Scheduler.{reset_exception_pointer}
use native.Mathlib.Decide.{dec_lt}
use multicilk.Scheduler.Return.{After, note_steal, cilk_exception_handler}
use multicilk.Scheduler.Locks.{
  closure_locked, deque_locked, deque_unlocked, closure_lock-eq, lock_self-eq, unlock_self-eq,
  peek_bottom-eq,
}

-- The closure `t` runs at the bottom of the deque of `w`, and nobody holds the locks.
pub record Running (w t : ℕ) (s : State) : Type 0 where
  pub deque : (s.deques w).locked ≡ false
  pub bottom : (s.deques w).bottom ≡ some t
  pub placed : (s.closures t).owner_ready_deque ≡ w
  pub closure : (s.closures t).locked ≡ false
  pub status : (s.closures t).status ≡ Status.running
  pub frame :
      ((s.closures t).frame ≡ none)
      ⊎ ((f : ℕ) × ((s.closures t).frame ≡ some f) × ((s.frames f).worker ≡ some w))
  pub childless : closure_has_children (s.closures t) ≡ false

-- With both locks, and `exc` reset.
entered : ℕ → ℕ → State → State
entered w t s =
    let a = closure_locked w t (deque_locked w s) in
    record a { workers = update a.workers w (record (a.workers w) { exc = (a.workers w).head }) }

abbrev pub kept_exn : Option ℕ → Option ℕ → Option ℕ
kept_exn none old = old
kept_exn (some e) old = some e

unlocked : ℕ → ℕ → State → State
unlocked w t s = deque_unlocked w (released t s)

-- The exception is noted, and the closure is returning.
marked : ℕ → Option ℕ → State → State
marked t exn s = record s {
  closures = update s.closures t (record (s.closures t) {
    status = Status.returning;
    user_exn = kept_exn exn (s.closures t).user_exn;
  });
}

reset-eq :
    (w t : ℕ) (s : State)
    → ((s.closures t).frame ≡ none)
      ⊎ ((f : ℕ) × ((s.closures t).frame ≡ some f) × ((s.frames f).worker ≡ some w))
    → reset_exception_pointer w t (closure_locked w t (deque_locked w s)) ≡ ok tt (entered w t s)
unfolding reset_exception_pointer closure_assert_ownership closure_locked deque_locked entered
reset-eq w t s (inl e) = ground (arith, e)
reset-eq w t s (inr (f, e, o)) = ground (arith, e, o)

peeked :
    (w t : ℕ) (s : State)
    → Running w t s
    → deque_peek_bottom w w (deque_locked w s) ≡ ok (some t) (deque_locked w s)
peeked w t s h =
    peek_bottom-eq w t (deque_locked w s) (unfold deque_locked in ground arith)
      (unfold deque_locked in ground (arith, h.bottom)) (unfold deque_locked in h.placed)

taken :
    (w t : ℕ) (s : State)
    → Running w t s
    → closure_lock w t (deque_locked w s) ≡ ok tt (closure_locked w t (deque_locked w s))
unfolding deque_locked
taken w t s h = closure_lock-eq w t (deque_locked w s) (ground (arith, h.status)) h.closure

-- What the state with both locks keeps.
record Prepared (w t : ℕ) (s : State) : Type 0 where
  head : ((entered w t s).workers w).head ≡ (s.workers w).head
  tail : ((entered w t s).workers w).tail ≡ (s.workers w).tail
  exc : ((entered w t s).workers w).exc ≡ (s.workers w).head
  status : ((entered w t s).closures t).status ≡ Status.running
  owner : ((entered w t s).closures t).mutex_owner ≡ w
  childless : closure_has_children ((entered w t s).closures t) ≡ false
  exn : ((entered w t s).closures t).user_exn ≡ (s.closures t).user_exn

entered-Prepared : (w t : ℕ) (s : State) → Running w t s → Prepared w t s
unfolding entered closure_locked deque_locked closure_has_children
entered-Prepared w t s h = record {
  head = ground arith;
  tail = ground arith;
  exc = ground arith;
  status = ground (arith, h.status);
  owner = ground arith;
  childless = ground (arith, h.childless);
  exn = ground arith;
}

false_alarm-eq :
    (w t : ℕ) (exn : Option ℕ) (s : State)
    → Running w t s
    → (s.workers w).head ≤ (s.workers w).tail
    → cilk_exception_handler w exn s ≡ ok After.to_user (unlocked w t (entered w t s))
unfolding cilk_exception_handler unlocked
false_alarm-eq w t exn s h le =
    let e = entered-Prepared w t s h in
    ground (
      arith,
      lock_self-eq w s h.deque,
      peeked w t s h,
      taken w t s h,
      reset-eq w t s h.frame,
      e.status,
      e.head,
      e.tail,
      unlock-owned w t (entered w t s) (ground (arith, e.status)) e.owner,
      unlock_self-eq w (released t (entered w t s)),
    )

marked-unlock :
    (w t : ℕ) (exn : Option ℕ) (s : State)
    → (s.closures t).mutex_owner ≡ w
    → closure_unlock w t (marked t exn s) ≡ ok tt (released t (marked t exn s))
unfolding marked
marked-unlock w t exn s own = unlock-owned w t (marked t exn s) (ground arith) (ground arith)

note_steal-eq :
    (w t : ℕ) (exn : Option ℕ) (s : State)
    → (s.closures t).mutex_owner ≡ w
    → (s.closures t).status ≡ Status.running
    → closure_has_children (s.closures t) ≡ false
    → note_steal w t exn s ≡ ok After.to_runtime (unlocked w t (marked t exn s))
unfolding note_steal unlocked marked closure_set_status closure_has_children
note_steal-eq w t none s own run less = ground (
  arith,
  run,
  less,
  marked-unlock w t none s own,
  unlock_self-eq w (released t (marked t none s)),
)
note_steal-eq w t (some x) s own run less = ground (
  arith,
  run,
  less,
  marked-unlock w t (some x) s own,
  unlock_self-eq w (released t (marked t (some x) s)),
)

steal-eq :
    (w t : ℕ) (exn : Option ℕ) (s : State)
    → Running w t s
    → (s.workers w).tail < (s.workers w).head
    → cilk_exception_handler w exn s
      ≡ ok After.to_runtime (unlocked w t (marked t exn (entered w t s)))
unfolding cilk_exception_handler
steal-eq w t exn s h lt =
    let e = entered-Prepared w t s h in
    ground (
      arith,
      lock_self-eq w s h.deque,
      peeked w t s h,
      taken w t s h,
      reset-eq w t s h.frame,
      e.status,
      e.head,
      e.tail,
      note_steal-eq w t exn (entered w t s) e.owner e.status e.childless,
    )

-- The exception pointer is reset, and nobody holds the locks.
pub record Handled (w t : ℕ) (s r : State) : Type 0 where
  pub exc : (r.workers w).exc ≡ (s.workers w).head
  pub deque : (r.deques w).locked ≡ false
  pub closure : (r.closures t).locked ≡ false

unlocked-Handled :
    (w t : ℕ) (s a : State)
    → (a.workers w).exc ≡ (s.workers w).head
    → Handled w t s (unlocked w t a)
unfolding unlocked deque_unlocked released
unlocked-Handled w t s a e = record { exc = e; deque = ground arith; closure = ground arith }

-- `Cilk_exception_handler` of a closure that runs with no children, at the bottom of the free deque
-- of `w`: it leaves user code exactly if `head` is above `tail`; then the closure is returning and
-- keeps the given exception, if there is one. Otherwise the closure is as it was. On both branches
-- `exc` is reset to `head`, and the locks of the deque and of the closure are released.
pub handler_decides :
    (w t : ℕ) (exn : Option ℕ) (s : State)
    → Running w t s
    → (r : State) × Handled w t s r
      × (((s.workers w).tail < (s.workers w).head)
            × (cilk_exception_handler w exn s ≡ ok After.to_runtime r)
            × ((r.closures t).status ≡ Status.returning)
            × ((r.closures t).user_exn ≡ kept_exn exn (s.closures t).user_exn)
          ⊎ ((s.workers w).head ≤ (s.workers w).tail)
            × (cilk_exception_handler w exn s ≡ ok After.to_user r)
            × ((r.closures t).status ≡ Status.running)
            × ((r.closures t).user_exn ≡ (s.closures t).user_exn))
handler_decides w t exn s h = elim (dec_lt (s.workers w).tail (s.workers w).head) [
  | yes lt ↦
      let e = entered-Prepared w t s h in
      let b = marked t exn (entered w t s) in
      (
        unlocked w t b,
        unlocked-Handled w t s b (unfold marked in e.exc),
        inl (
          lt,
          steal-eq w t exn s h lt,
          unfold unlocked deque_unlocked released marked in ground arith,
          unfold unlocked deque_unlocked released marked in ground (arith, e.exn),
        ),
      )
  | no le ↦
      let e = entered-Prepared w t s h in
      let b = entered w t s in
      (
        unlocked w t b,
        unlocked-Handled w t s b e.exc,
        inr (
          omega (arith, le),
          false_alarm-eq w t exn s h (omega (arith, le)),
          unfold unlocked deque_unlocked released in ground (arith, e.status),
          unfold unlocked deque_unlocked released in ground (arith, e.exn),
        ),
      )
]
