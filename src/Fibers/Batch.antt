-- ===== src/Fibers/Batch.antt =====
-- The batches of runtime/fiber-pool.c.
use multicilk.Base.{
  ℕ, ◌+◌, ◌-◌, ◌≤◌, ◌≡◌, ◌≢◌, refl, sym, ◌∙◌, true, false, some, ltb, if◌then◌else◌, le→leb, arith,
  List, [],
}
use multicilk.Base.Int.{pos, ◌+ℤ◌, ◌-ℤ◌}
use multicilk.Runtime.{no_worker}
use multicilk.Fibers.{
  FiberPool, Pools, move_fibers, make_fibers, drop_fibers, fiber_pool_lock, fiber_pool_unlock,
  fiber_pool_increase_capacity, fiber_pool_allocate_batch, fiber_pool_free_batch, min_ℕ,
  note_in_use, note_free,
}
use multicilk.Fibers.Bounds.{
  copies, move_fibers_ok, make_fibers_ok, drop_fibers_ok, Bounded, total, Moved,
}

unfoldable pub locked_pool : ℕ → FiberPool → FiberPool
locked_pool w p = record p { mutex_owner = w }

unfoldable pub unlocked_pool : FiberPool → FiberPool
unlocked_pool p = record p { mutex_owner = no_worker }

pub lock-eq :
    (w : ℕ) (p : FiberPool)
    → p.shared ≡ true
    → p.mutex_owner ≢ w
    → fiber_pool_lock w p ≡ some (locked_pool w p)
unfolding fiber_pool_lock locked_pool
lock-eq w p s n = ground arith

pub unlock-eq :
    (w : ℕ) (p : FiberPool)
    → p.shared ≡ true
    → p.mutex_owner ≡ w
    → fiber_pool_unlock w p ≡ some (unlocked_pool p)
unfolding fiber_pool_unlock unlocked_pool
unlock-eq w p s n = ground arith

unfoldable pub grown : FiberPool → ℕ → FiberPool
grown p n = record p { capacity = if ltb p.capacity n then n else p.capacity }

pub grow-eq :
    (w : ℕ) (p : FiberPool) (n : ℕ)
    → p.shared ≡ false
    → fiber_pool_increase_capacity w p n ≡ some (grown p n)
unfolding fiber_pool_increase_capacity grown
grow-eq w p n s = ground arith

-- The run, from the runs of its parts.
pub alloc-run :
    (make : ℕ → ℕ) (w : ℕ) (s : Pools) (batch : ℕ) {g l f i u q : FiberPool} {made : ℕ}
    → s.own.shared ≡ false
    → fiber_pool_increase_capacity w s.own (batch + s.own.size) ≡ some g
    → fiber_pool_lock w s.parent ≡ some l
    → move_fibers (min_ℕ l.size batch) l g ≡ some (f, i)
    → fiber_pool_unlock w (note_in_use f (f.in_use +ℤ pos (min_ℕ l.size batch))) ≡ some u
    → make_fibers make (batch - min_ℕ l.size batch) i s.made ≡ some (q, made)
    → fiber_pool_allocate_batch make w s batch
      ≡ some (record s { own = note_free q; parent = u; made = made })
unfolding fiber_pool_allocate_batch
alloc-run make w s batch p a b c d e = ground (arith, p, a, b, c, d, e)

-- A batch from the parent, and from the system what the parent does not have, comes into the pool,
-- whose array grows where it must.
pub allocate_batch_ok :
    (make : ℕ → ℕ) (w : ℕ) (s : Pools) (batch : ℕ)
    → Bounded w s
    → w ≢ no_worker
    → (t : Pools) × (fiber_pool_allocate_batch make w s batch ≡ some t)
      × Bounded w t
      × (total t + s.made ≡ total s + t.made)
      × (t.own.size ≡ s.own.size + batch)
allocate_batch_ok make w s batch b ne =
    let g = grown s.own (batch + s.own.size) in
    let l = locked_pool w s.parent in
    let k = min_ℕ l.size batch in
    let (f, i, em, sf, si, c_move) =
      move_fibers_ok k l g (unfold locked_pool in ground arith) (unfold grown in ground arith) in
    let c = note_in_use f (f.in_use +ℤ pos k) in
    let (q, eq, sq) =
      make_fibers_ok make (batch - k) i s.made
        (unfold grown locked_pool in ground (arith, si.size, si.capacity)) in
    (
      record s { own = note_free q; parent = unlocked_pool c; made = s.made + (batch - k) },
      alloc-run make w s batch b.private (grow-eq w s.own (batch + s.own.size) b.private)
          (lock-eq w s.parent b.parent_shared (λ e. ne (sym e ∙ b.unlocked))) em
          (unlock-eq w c (sf.shared ∙ (unfold locked_pool in b.parent_shared))
            (sf.mutex_owner ∙ (unfold locked_pool in refl)))
          eq,
      record {
        own_fits =
            unfold grown locked_pool in ground (arith, sq.size, sq.capacity, si.size, si.capacity);
        parent_fits =
            unfold unlocked_pool locked_pool in ground (arith, sf.size, sf.capacity, b.parent_fits);
        private = sq.shared ∙ si.shared ∙ (unfold grown in b.private);
        parent_shared =
            unfold unlocked_pool in (sf.shared ∙ (unfold locked_pool in b.parent_shared));
        unlocked = unfold unlocked_pool in refl;
      },
      unfold unlocked_pool locked_pool grown in ground (arith, sq.size, si.size, sf.size),
      unfold grown locked_pool in ground (arith, sq.size, si.size),
    )

free-run :
    (w : ℕ) (s : Pools) (batch : ℕ) {l f i u q : FiberPool} {dropped : List ℕ}
    → s.own.shared ≡ false
    → batch ≤ s.own.size
    → fiber_pool_lock w s.parent ≡ some l
    → move_fibers (min_ℕ batch (l.capacity - l.size)) s.own l ≡ some (f, i)
    → i.size ≤ i.capacity
    → fiber_pool_unlock w
        (note_free (record i { in_use = i.in_use -ℤ pos (min_ℕ batch (l.capacity - l.size)) }))
      ≡ some u
    → drop_fibers (batch - min_ℕ batch (l.capacity - l.size)) f s.dropped ≡ some (q, dropped)
    → fiber_pool_free_batch w s batch ≡ some (record s { own = q; parent = u; dropped = dropped })
unfolding fiber_pool_free_batch
free-run w s batch p h a b fits c d =
    ground (arith, p, le→leb batch s.own.size h, a, b, le→leb _ _ fits, c, d)

-- `fiber_pool_free_batch` of as many fibers as the pool holds, or less, where both pools are
-- within their arrays and the lock of the shared one is free, fails no assertion, keeps both pools
-- within their arrays, and takes that many out of the pool of the worker; each fiber is in the two
-- pools or among those given back as often as before, and none is made.
pub free_batch_ok :
    (w : ℕ) (s : Pools) (batch : ℕ)
    → Bounded w s
    → w ≢ no_worker
    → batch ≤ s.own.size
    → (t : Pools) × (fiber_pool_free_batch w s batch ≡ some t)
      × Moved w s [] t
      × (t.own.size ≡ s.own.size - batch)
      × (t.own.capacity ≡ s.own.capacity)
free_batch_ok w s batch b ne h =
    let l = locked_pool w s.parent in
    let k = min_ℕ batch (l.capacity - l.size) in
    let (f, i, em, sf, si, c_move) =
      move_fibers_ok k s.own l (unfold locked_pool in ground arith)
        (unfold locked_pool in ground (arith, b.parent_fits)) in
    let c = note_free (record i { in_use = i.in_use -ℤ pos k }) in
    let fits : i.size ≤ i.capacity =
      unfold locked_pool in ground (arith, si.size, si.capacity, b.parent_fits) in
    let (q, out, eq, sq, number, c_drop) =
      drop_fibers_ok (batch - k) f s.dropped (unfold locked_pool in ground (arith, sf.size)) in
    (
      record s { own = q; parent = unlocked_pool c; dropped = out },
      free-run w s batch b.private h
          (lock-eq w s.parent b.parent_shared (λ e. ne (sym e ∙ b.unlocked))) em fits
          (unlock-eq w c (si.shared ∙ (unfold locked_pool in b.parent_shared))
            (si.mutex_owner ∙ (unfold locked_pool in refl)))
          eq,
      record {
        bounded = record {
          own_fits =
              unfold locked_pool in
              ground (arith, sq.size, sq.capacity, sf.size, sf.capacity, b.own_fits);
          parent_fits = unfold unlocked_pool in fits;
          private = sq.shared ∙ sf.shared ∙ b.private;
          parent_shared =
              unfold unlocked_pool in (si.shared ∙ (unfold locked_pool in b.parent_shared));
          unlocked = unfold unlocked_pool in refl;
        };
        total =
            unfold unlocked_pool locked_pool in
            ground (arith, sq.size, si.size, sf.size, b.parent_fits, number);
        each = λ x.
            let p = c_move x in
            let r = c_drop x in unfold unlocked_pool locked_pool copies in omega (arith, p, r);
        made = refl;
      },
      unfold locked_pool in ground (arith, sq.size, sf.size),
      sq.capacity ∙ sf.capacity,
    )
