-- ===== src/Scheduler/Fail.antt =====
-- How `Closure_steal` of runtime/scheduler.c ends without a closure, once it holds the lock of the
-- victim's deque.
use multicilk.Closure.Lock.{locked_by, released, trylock-free, unlock-owned}
use multicilk.Base.{
  ◌+◌, ◌-◌, update, ℕ, ◌≤◌, ◌<◌, ◌≢◌, ◌≡◌, ◌⊎◌, inl, inr, refl, subst, true, false, none, some,
  arith,
}
use multicilk.Runtime.{no_worker, Status, State, ok, blocked}
use multicilk.Deque.{
  deque_unlock, deque_lock, deque_trylock, deque_peek_top, deque_assert_ownership,
}
use multicilk.Closure.{
  is_valid, closure_trylock, closure_checkmagic, closure_assert_ownership, closure_lock,
}
use multicilk.Scheduler.{Services, increment_exception_pointer, decrement_exception_pointer}
use multicilk.Scheduler.Steal.{do_dekker_on, give_up, steal_status, try_closure, closure_steal}

-- Nobody holds the locks of the closure and of the deque, and the victim's pointers are as before.
pub record GivenUp (victim cl : ℕ) (s t : State) : Type 0 where
  pub closure : (t.closures cl).locked ≡ false
  pub status : (t.closures cl).status ≡ (s.closures cl).status
  pub deque : (t.deques victim).locked ≡ false
  pub links :
      ((t.deques victim).top ≡ (s.deques victim).top)
      × ((t.deques victim).bottom ≡ (s.deques victim).bottom)
  pub exc : (t.workers victim).exc ≡ (s.workers victim).exc

-- The state after an attempt of Dekker's protocol that failed.
probed : ℕ → State → State
probed victim s =
    let a =
      update s.workers victim (record (s.workers victim) { exc = (s.workers victim).exc + 1 }) in
    record s { workers = update a victim (record (a victim) { exc = (a victim).exc - 1 }) }

deque_free : ℕ → State → State
deque_free victim s = record s {
  deques =
      update s.deques victim (record (s.deques victim) { locked = false; mutex_owner = no_worker });
}

dekker-fails :
    (w victim cl : ℕ) (s : State)
    → (s.closures cl).mutex_owner ≡ w
    → (s.closures cl).status ≡ Status.running
    → (s.workers victim).tail ≤ (s.workers victim).head
    → do_dekker_on w victim cl s ≡ ok false (probed victim s)
unfolding do_dekker_on closure_assert_ownership increment_exception_pointer
    decrement_exception_pointer probed
dekker-fails w victim cl s own running empty = ground arith

-- Both locks are released.
let_go : ℕ → ℕ → State → State
unfolding deque_free
let_go victim cl s = deque_free victim (released cl s)

module _ ⦃services : Services⦄ where
  give_up-eq :
      (w victim cl : ℕ) (s : State)
      → is_valid (s.closures cl).status ≡ true
      → (s.closures cl).mutex_owner ≡ w
      → give_up w victim cl s ≡ ok none (let_go victim cl s)
  unfolding give_up deque_unlock let_go deque_free
  give_up-eq w victim cl s valid own = ground (arith, unlock-owned w cl s valid own)

  try_closure-eq :
      (n w victim cl : ℕ) (s t : State)
      → closure_trylock w cl s ≡ ok true (locked_by w cl s)
      → steal_status n w victim cl ((locked_by w cl s).closures cl).status (locked_by w cl s)
        ≡ ok none t
      → try_closure n w victim cl s ≡ ok none t
  unfolding try_closure
  try_closure-eq n w victim cl s t e f = ground (arith, e, f)

  running-fails :
      (n w victim cl : ℕ) (s : State)
      → (s.closures cl).mutex_owner ≡ w
      → (s.closures cl).status ≡ Status.running
      → (s.workers victim).tail ≤ (s.workers victim).head
      → steal_status n w victim cl (s.closures cl).status s
        ≡ ok none (let_go victim cl (probed victim s))
  unfolding steal_status probed
  running-fails n w victim cl s own running empty = ground (
    arith,
    running,
    dekker-fails w victim cl s own running empty,
    give_up-eq w victim cl (probed victim s) (ground (arith, running)) own,
  )

  -- When the closure at the top is running and Dekker's protocol fails, or is returning, the attempt
  -- gives NULL, releases both locks, and leaves the exception pointer as it was.
  pub try_closure_gives_up :
      (n w victim cl : ℕ) (s : State)
      → (s.closures cl).locked ≡ false
      → ((s.closures cl).status ≡ Status.running)
          × ((s.workers victim).tail ≤ (s.workers victim).head)
        ⊎ ((s.closures cl).status ≡ Status.returning)
      → (t : State) × (try_closure n w victim cl s ≡ ok none t) × GivenUp victim cl s t
  unfolding locked_by
  try_closure_gives_up n w victim cl s free (inl (running, empty)) =
      let a = locked_by w cl s in
      (
        let_go victim cl (probed victim a),
        try_closure-eq n w victim cl s (let_go victim cl (probed victim a))
            (trylock-free w cl s (ground (arith, running)) free)
            (running-fails n w victim cl a (ground arith) (ground (arith, running)) empty),
        unfold probed let_go deque_free released in
            record {
              closure = ground arith;
              status = ground arith;
              deque = ground arith;
              links = (ground arith, ground arith);
              exc = ground arith;
            },
      )
  try_closure_gives_up n w victim cl s free (inr returning) =
      let a = locked_by w cl s in
      let same : (a.closures cl).status ≡ Status.returning = ground (arith, returning) in
      (
        let_go victim cl a,
        try_closure-eq n w victim cl s (let_go victim cl a)
            (trylock-free w cl s (ground (arith, returning)) free)
            (unfold steal_status in
              rw same (give_up-eq w victim cl a (ground (arith, same)) (ground arith))),
        unfold let_go deque_free released in
            record {
              closure = ground arith;
              status = ground arith;
              deque = ground arith;
              links = (ground arith, ground arith);
              exc = refl;
            },
      )

  -- What a thief finds that peeks at the root closure while a Cilkified region starts.
  pub record RootOnTop (w victim cl : ℕ) (s : State) : Type 0 where
    pub work : (s.workers victim).head < (s.workers victim).tail
    pub deque : (s.deques victim).locked ≡ false
    pub top : (s.deques victim).top ≡ some cl
    pub closure : (s.closures cl).locked ≡ false
    pub root : s.root_closure ≡ some cl
    pub other : w ≢ victim
    pub status :
        ((s.closures cl).status ≡ Status.ready) ⊎ ((s.closures cl).status ≡ Status.suspended)

  deque_taken : ℕ → ℕ → State → State
  deque_taken w victim s = record s {
    deques = update s.deques victim (record (s.deques victim) { locked = true; mutex_owner = w });
  }

  root_status :
      (n w victim cl : ℕ) (s : State)
      → s.root_closure ≡ some cl
      → ((s.closures cl).status ≡ Status.ready) ⊎ ((s.closures cl).status ≡ Status.suspended)
      → steal_status n w victim cl (s.closures cl).status s ≡ ok none s
  unfolding steal_status
  root_status n w victim cl s root (inl e) = ground (arith, root, e)
  root_status n w victim cl s root (inr e) = ground (arith, root, e)

  root_valid :
      (cl : ℕ) (s : State)
      → ((s.closures cl).status ≡ Status.ready) ⊎ ((s.closures cl).status ≡ Status.suspended)
      → is_valid (s.closures cl).status ≡ true
  root_valid cl s (inl e) = ground (arith, e)
  root_valid cl s (inr e) = ground (arith, e)

  steal-eq :
      (n w victim cl : ℕ) (s t : State)
      → RootOnTop w victim cl s
      → try_closure n w victim cl (deque_taken w victim s) ≡ ok none t
      → closure_steal n w victim s ≡ ok none t
  unfolding closure_steal deque_trylock deque_peek_top deque_assert_ownership deque_taken
  steal-eq n w victim cl s t h e = ground (arith, h.work, h.deque, h.top, h.root, h.other, e)

  -- A thief that finds both locks free, work in the victim's deque, and at its top the root closure,
  -- while that is ready or suspended, gives up with NULL and
  -- keeps both locks: whoever wants one of them next waits.
  pub root_keeps_locks :
      (n w victim cl : ℕ) (s : State)
      → RootOnTop w victim cl s
      → (t : State) × (closure_steal n w victim s ≡ ok none t)
        × ((v : ℕ) → closure_lock v cl t ≡ blocked)
        × ((v : ℕ) → deque_lock v victim t ≡ blocked)
  unfolding deque_taken locked_by
  root_keeps_locks n w victim cl s h =
      let a = deque_taken w victim s in
      let valid = root_valid cl s h.status in
      let same : (s.closures cl).status ≡ ((locked_by w cl a).closures cl).status = ground arith in
      (
        locked_by w cl a,
        steal-eq n w victim cl s (locked_by w cl a) h (
            try_closure-eq n w victim cl a (locked_by w cl a) (trylock-free w cl a valid h.closure)
              (root_status n w victim cl (locked_by w cl a) h.root
                (subst (λ st. (st ≡ Status.ready) ⊎ (st ≡ Status.suspended)) same h.status))),
        λ v. unfold closure_lock closure_checkmagic in ground (arith, valid),
        λ v. unfold deque_lock in ground (arith),
      )
