-- ===== src/Closure/Lock.antt =====
-- The lock of a closure (runtime/closure.c).
use multicilk.Base.{ℕ, true, false, ◌≡◌, ◌⊎◌, inl, inr, update, Bool-cases, arith}
use multicilk.Runtime.{State, no_worker, ok}
use multicilk.Closure.{
  closure_trylock, closure_unlock, closure_checkmagic, closure_assert_ownership, is_valid,
}

-- The state after `w` has taken the lock of `t`.
unfoldable pub locked_by : ℕ → ℕ → State → State
locked_by w t s = record s {
  closures = update s.closures t (record (s.closures t) { locked = true; mutex_owner = w });
}

unfoldable pub released : ℕ → State → State
released t s = record s {
  closures =
      update s.closures t (record (s.closures t) { locked = false; mutex_owner = no_worker });
}

pub trylock-free :
    (w t : ℕ) (s : State)
    → is_valid (s.closures t).status ≡ true
    → (s.closures t).locked ≡ false
    → closure_trylock w t s ≡ ok true (locked_by w t s)
unfolding closure_trylock closure_checkmagic locked_by
trylock-free w t s v f = ground arith

pub trylock-held :
    (w t : ℕ) (s : State)
    → is_valid (s.closures t).status ≡ true
    → (s.closures t).locked ≡ true
    → closure_trylock w t s ≡ ok false s
unfolding closure_trylock closure_checkmagic
trylock-held w t s v f = ground arith

pub unlock-owned :
    (w t : ℕ) (s : State)
    → is_valid (s.closures t).status ≡ true
    → (s.closures t).mutex_owner ≡ w
    → closure_unlock w t s ≡ ok tt (released t s)
unfolding closure_unlock closure_checkmagic closure_assert_ownership released
unlock-owned w t s v f = ground arith

-- For a closure in a valid status, `Closure_trylock` either finds the lock free, and then the worker
-- owns it, another `Closure_trylock` gives 0 and changes nothing, and the owner's `Closure_unlock`
-- succeeds; or it finds the lock held, gives 0 and changes nothing.
pub trylock-excludes :
    (w v t : ℕ) (s : State)
    → is_valid (s.closures t).status ≡ true
    → ((a b : State) × (closure_trylock w t s ≡ ok true a)
        × ((a.closures t).mutex_owner ≡ w)
        × (closure_trylock v t a ≡ ok false a)
        × (closure_unlock w t a ≡ ok tt b)
        × ((b.closures t).locked ≡ false))
      ⊎ ((s.closures t).locked ≡ true) × (closure_trylock w t s ≡ ok false s)
trylock-excludes w v t s ok_status = elim (Bool-cases (s.closures t).locked) [
  | inl held ↦ inr (held, trylock-held w t s ok_status held)
  | inr free ↦
      let a = locked_by w t s in
      let same : is_valid (a.closures t).status ≡ true =
        unfold locked_by in ground (arith, ok_status) in
      let owner : (a.closures t).mutex_owner ≡ w = unfold locked_by in ground arith in
      let held : (a.closures t).locked ≡ true = unfold locked_by in ground arith in
      inl (
        a,
        released t a,
        trylock-free w t s ok_status free,
        owner,
        trylock-held v t a same held,
        unlock-owned w t a same owner,
        unfold released in ground arith,
      )
]
