-- ===== src/Fibers/Return.antt =====
-- `cilk_fiber_deallocate_to_pool` of runtime/fiber-pool.c.
use multicilk.Base.{
  ℕ, ◌+◌, ◌-◌, ◌/◌, ◌≤◌, ◌<◌, ◌≡◌, ◌≢◌, ◌∙◌, inl, inr, some, ◌==◌, Bool-cases, le→leb, arith, [],
  ◌∷◌, bit, refl,
}
use multicilk.Base.Int.{pos, ◌-ℤ◌}
use multicilk.Runtime.{no_worker}
use multicilk.Fibers.{
  FiberPool, Pools, push, fiber_pool_free_batch, cilk_fiber_deallocate_to_pool, note_free,
  batch_fraction,
}
use multicilk.Fibers.Bounds.{Sized, copies, push_ok, Bounded, Moved}
use multicilk.Fibers.Batch.{free_batch_ok}

returned_to : Pools → FiberPool → Pools
returned_to t q = record t { own = note_free (record q { in_use = q.in_use -ℤ pos 1 }) }

room-run :
    (w f : ℕ) (s : Pools) {q : FiberPool}
    → s.own.size < s.own.capacity
    → push s.own f ≡ some q
    → cilk_fiber_deallocate_to_pool w s (some f) ≡ some (returned_to s q)
unfolding cilk_fiber_deallocate_to_pool returned_to
room-run w f s h e = ground (arith, e)

full-run :
    (w f : ℕ) (s t : Pools) {q : FiberPool}
    → s.own.size ≡ s.own.capacity
    → fiber_pool_free_batch w s (s.own.capacity / batch_fraction) ≡ some t
    → s.own.capacity / batch_fraction ≤ t.own.capacity - t.own.size
    → push t.own f ≡ some q
    → cilk_fiber_deallocate_to_pool w s (some f) ≡ some (returned_to t q)
unfolding cilk_fiber_deallocate_to_pool returned_to
full-run w f s t h a b e = ground (arith, a, le→leb _ _ b, e)

push-Moved :
    (w f : ℕ) (s t : Pools) (q : FiberPool)
    → Moved w s [] t
    → Sized t.own (t.own.size + 1) q
    → ((x : ℕ) → copies x q ≡ copies x t.own + bit (x == f))
    → t.own.size < t.own.capacity
    → Moved w s (f ∷ []) (returned_to t q)
unfolding returned_to
push-Moved w f s t q m z c h = record {
  bounded = record {
    own_fits = ground (arith, z.size, z.capacity);
    parent_fits = m.bounded.parent_fits;
    private = z.shared ∙ m.bounded.private;
    parent_shared = m.bounded.parent_shared;
    unlocked = m.bounded.unlocked;
  };
  total = omega (arith, z.size, m.total);
  each = λ x. let p = c x in let r = m.each x in unfold copies in omega (arith, p, r);
  made = m.made;
}

-- Where the pool has room for two fibers at least, both pools are within their arrays and the lock
-- of the shared one is free, `cilk_fiber_deallocate_to_pool` of a fiber fails no assertion and
-- keeps both pools within their arrays; that fiber is in the two pools or among those given back
-- once more than before, every other fiber is there as often as before, and none is made.
pub deallocate_to_pool_ok :
    (w f : ℕ) (s : Pools)
    → Bounded w s
    → w ≢ no_worker
    → 2 ≤ s.own.capacity
    → (t : Pools) × (cilk_fiber_deallocate_to_pool w s (some f) ≡ some t) × Moved w s (f ∷ []) t
deallocate_to_pool_ok w f s b ne two = elim (Bool-cases (s.own.size == s.own.capacity)) [
  | inr free ↦
      let h : s.own.size < s.own.capacity = ground (arith, b.own_fits) in
      let (q, e, z, c) = push_ok s.own f h in
      let stays : Moved w s [] s = record {
        bounded = b;
        total = omega arith;
        each = λ x. omega arith;
        made = refl;
      } in
      (returned_to s q, room-run w f s h e, push-Moved w f s s q stays z c h)
  | inl full ↦
      let same : s.own.size ≡ s.own.capacity = ground arith in
      let (t, run, moved, size, capacity) =
        free_batch_ok w s (s.own.capacity / batch_fraction) b ne (omega arith) in
      let h : t.own.size < t.own.capacity = omega arith in
      let (q, e, z, c) = push_ok t.own f h in
      (returned_to t q, full-run w f s t same run (omega arith) e, push-Moved w f s t q moved z c h)
]
