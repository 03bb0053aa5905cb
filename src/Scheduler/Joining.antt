-- ===== src/Scheduler/Joining.antt =====
-- What `Cilk_sync` (runtime/scheduler.c) makes of the exception and the map of the children.
use multicilk.Base.{ℕ, ◌≡◌, ◌∙◌, refl, true, false, Option, none, some, update, arith}
use multicilk.Runtime.{State, ok}
use multicilk.Scheduler.{Services}
use multicilk.Scheduler.Run.{sync_join, join_exn, join_rmap}
use multicilk.Scheduler.Turns.{delete_if}

abbrev pub joined : (Option ℕ → Option ℕ → Option ℕ) → Option ℕ → Option ℕ → Option ℕ
joined join none m = m
joined join (some c) m = join (some c) m

abbrev pub kept : Option ℕ → Option ℕ → Option ℕ
kept none user = user
kept (some e) user = some e

-- What is left when the locks are released: the exception and the map of the children are taken.
pub record TakesOver (join : Option ℕ → Option ℕ → Option ℕ) (w t : ℕ) (s r : State) : Type 0 where
  pub map :
      (r.workers w).reducer_map ≡ joined join (s.closures t).child_rmap (s.workers w).reducer_map
  pub exn : (r.closures t).user_exn ≡ kept (s.closures t).child_exn (s.closures t).user_exn
  pub taken : ((r.closures t).child_rmap ≡ none) × ((r.closures t).child_exn ≡ none)

unfoldable pub with_exn : Option ℕ → ℕ → ℕ → State → State
with_exn none t f s = s
with_exn (some e) t f s = record s {
  closures = update s.closures t (record (s.closures t) { user_exn = some e; child_exn = none });
  frames =
      update s.frames f
        (record (s.frames f) { flags = record (s.frames f).flags { exception_pending = true } });
}

unfoldable pub with_rmap : (Option ℕ → Option ℕ → Option ℕ) → Option ℕ → ℕ → ℕ → State → State
with_rmap join none w t s = s
with_rmap join (some m) w t s = record s {
  closures = update s.closures t (record (s.closures t) { child_rmap = none });
  workers =
      update s.workers w
        (record (s.workers w) { reducer_map = join (some m) (s.workers w).reducer_map });
}

unfoldable pub real : ℕ → State → State
real t s = record s {
  closures = update s.closures t (record (s.closures t) { simulated_stolen = false });
}

with_exn-rmap :
    (e : Option ℕ) (t f : ℕ) (s : State)
    → ((with_exn e t f s).closures t).child_rmap ≡ (s.closures t).child_rmap
unfolding with_exn
with_exn-rmap none t f s = refl
with_exn-rmap (some e) t f s = ground arith

pub joined-TakesOver :
    (join : Option ℕ → Option ℕ → Option ℕ) (e m : Option ℕ) (w t f : ℕ) (s : State)
    → (s.closures t).child_exn ≡ e
    → (s.closures t).child_rmap ≡ m
    → TakesOver join w t s (real t (with_rmap join m w t (with_exn e t f s)))
unfolding real with_rmap with_exn
joined-TakesOver join none none w t f s h k = record {
  map = ground (arith, k);
  exn = ground (arith, h);
  taken = (ground (arith, k), ground (arith, h));
}
joined-TakesOver join none (some m) w t f s h k = record {
  map = ground (arith, k);
  exn = ground (arith, h);
  taken = (ground (arith, k), ground (arith, h));
}
joined-TakesOver join (some e) none w t f s h k = record {
  map = ground (arith, k);
  exn = ground (arith, h);
  taken = (ground (arith, k), ground (arith, h));
}
joined-TakesOver join (some e) (some m) w t f s h k = record {
  map = ground (arith, k);
  exn = ground (arith, h);
  taken = (ground (arith, k), ground (arith, h));
}

-- What the state keeps from the release of the locks on.
pub rest-kept :
    (join : Option ℕ → Option ℕ → Option ℕ) (e m : Option ℕ) (w t f : ℕ) (s : State)
    → let r = real t (with_rmap join m w t (with_exn e t f s)) in
      ((r.closures t).locked ≡ (s.closures t).locked)
      × ((r.closures t).fiber ≡ (s.closures t).fiber)
      × ((r.deques w).locked ≡ (s.deques w).locked)
unfolding real with_rmap with_exn
rest-kept join none none w t f s = (ground arith, ground arith, refl)
rest-kept join none (some m) w t f s = (ground arith, ground arith, refl)
rest-kept join (some e) none w t f s = (ground arith, ground arith, refl)
rest-kept join (some e) (some m) w t f s = (ground arith, ground arith, refl)

module _ ⦃services : Services⦄ (join : Option ℕ → Option ℕ → Option ℕ)
    (merges : (w : ℕ) (l r : Option ℕ) (s : State)
      → services.merge_two_rmaps w l r s ≡ ok (join l r) s)
    (deletes : (e : ℕ) (s : State) → services.delete_exception e s ≡ ok tt s) where
  delete-eq : (e : Option ℕ) (s : State) → delete_if e s ≡ ok tt s
  unfolding delete_if
  delete-eq none s = refl
  delete-eq (some e) s = deletes e s

  join_exn-eq :
      (e : Option ℕ) (t f : ℕ) (s : State)
      → (s.closures t).child_exn ≡ e
      → join_exn t f s ≡ ok tt (with_exn e t f s)
  unfolding join_exn with_exn
  join_exn-eq none t f s h = ground (arith, h)
  join_exn-eq (some e) t f s h = ground (arith, h, delete-eq (s.closures t).user_exn s)

  join_rmap-eq :
      (m : Option ℕ) (w t : ℕ) (s : State)
      → (s.closures t).child_rmap ≡ m
      → join_rmap w t s ≡ ok tt (with_rmap join m w t s)
  unfolding join_rmap with_rmap
  join_rmap-eq none w t s h = ground (arith, h)
  join_rmap-eq (some m) w t s h =
      let a = record s {
        closures = update s.closures t (record (s.closures t) { child_rmap = none });
      } in
      ground (arith, h, merges w (some m) (s.workers w).reducer_map a)

  pub join-eq :
      (e m : Option ℕ) (w t f : ℕ) (s : State)
      → (s.closures t).child_exn ≡ e
      → (s.closures t).child_rmap ≡ m
      → sync_join w t f s ≡ ok tt (real t (with_rmap join m w t (with_exn e t f s)))
  unfolding sync_join real
  join-eq e m w t f s h k = ground (
    arith,
    join_exn-eq e t f s h,
    join_rmap-eq m w t (with_exn e t f s) (with_exn-rmap e t f s ∙ k),
  )
