-- ===== src/Scheduler/Slots.antt =====
-- The state in the second loop of `Closure_return` (runtime/scheduler.c): the two slots of the child,
-- the map of the worker, and the locks, and what one turn of the loop makes of them.
use multicilk.Base.{ℕ, ◌≡◌, ◌≢◌, true, Option, none, some, update, arith}
use multicilk.Runtime.{State, ok}
use multicilk.Closure.{is_valid, closure_lock, closure_unlock}
use multicilk.Closure.Lock.{released, unlock-owned}
use multicilk.Scheduler.Locks.{closure_locked, closure_lock-eq}

-- The slot for a map to the left of a child: that of its parent, or of its left sibling.
abbrev pub slot : ℕ → Option ℕ → State → Option ℕ
slot p none s = (s.closures p).child_rmap
slot p (some l) s = (s.closures l).right_rmap

unfoldable pub put_slot : ℕ → Option ℕ → Option ℕ → State → State
put_slot p none m s = record s {
  closures = update s.closures p (record (s.closures p) { child_rmap = m });
}
put_slot p (some l) m s = record s {
  closures = update s.closures l (record (s.closures l) { right_rmap = m });
}

abbrev Apart : ℕ → ℕ → Option ℕ → Type 0
Apart p c none = p ≢ c
Apart p c (some l) = (p ≢ c) × (l ≢ c) × (l ≢ p)

-- `w` holds the locks of the parent and of the child, whose left sibling is given.
pub record Held (w p c : ℕ) (left : Option ℕ) (s : State) : Type 0 where
  pub sibling : (s.closures c).left_sib ≡ left
  pub apart : Apart p c left
  pub parent : ((s.closures p).mutex_owner ≡ w) × (is_valid (s.closures p).status ≡ true)
  pub child : ((s.closures c).mutex_owner ≡ w) × (is_valid (s.closures c).status ≡ true)

-- The two slots of the child and the map of the worker.
pub record Maps (w p c : ℕ) (left l r m : Option ℕ) (s : State) : Type 0 where
  pub left_slot : slot p left s ≡ l
  pub right_slot : (s.closures c).right_rmap ≡ r
  pub active : (s.workers w).reducer_map ≡ m

-- The slots are emptied.
unfoldable pub emptied : ℕ → ℕ → ℕ → Option ℕ → State → State
emptied w p c left s =
    let a = record s {
      closures = update s.closures c (record (s.closures c) { right_rmap = none });
    } in
    let b = put_slot p left none a in
    record b { workers = update b.workers w (record (b.workers w) { reducer_map = none }) }

pub emptied-Held :
    (w p c : ℕ) (left : Option ℕ) (s : State)
    → Held w p c left s
    → Held w p c left (emptied w p c left s)
unfolding emptied put_slot
emptied-Held w p c none s h = record {
  sibling = ground (arith, h.sibling);
  apart = h.apart;
  parent = (ground (arith, h.parent.0), ground (arith, h.parent.1));
  child = (ground (arith, h.child.0), ground (arith, h.child.1));
}
emptied-Held w p c (some l) s h = record {
  sibling = ground (arith, h.sibling);
  apart = h.apart;
  parent = (ground (arith, h.parent.0), ground (arith, h.parent.1));
  child = (ground (arith, h.child.0), ground (arith, h.child.1));
}

pub emptied-Maps :
    (w p c : ℕ) (left : Option ℕ) (s : State)
    → Apart p c left
    → Maps w p c left none none none (emptied w p c left s)
unfolding emptied put_slot
emptied-Maps w p c none s a = record {
  left_slot = ground arith;
  right_slot = ground arith;
  active = ground arith;
}
emptied-Maps w p c (some l) s a = record {
  left_slot = ground arith;
  right_slot = ground arith;
  active = ground arith;
}

-- The worker takes the result of the merges, and both locks again.
unfoldable pub retaken : ℕ → ℕ → ℕ → Option ℕ → State → State
retaken w p c m s =
    let a = released p (released c s) in
    let b = record a { workers = update a.workers w (record (a.workers w) { reducer_map = m }) } in
    closure_locked w c (closure_locked w p b)

pub retaken-Held :
    (w p c : ℕ) (left m : Option ℕ) (s : State)
    → Held w p c left s
    → Held w p c left (retaken w p c m s)
unfolding retaken closure_locked released
retaken-Held w p c none m s h = record {
  sibling = ground (arith, h.sibling);
  apart = h.apart;
  parent = (ground (arith, h.apart), ground (arith, h.parent.1));
  child = (ground arith, ground (arith, h.child.1));
}
retaken-Held w p c (some l) m s h = record {
  sibling = ground (arith, h.sibling);
  apart = h.apart;
  parent = (ground (arith, h.apart), ground (arith, h.parent.1));
  child = (ground arith, ground (arith, h.child.1));
}

pub retaken-Maps :
    (w p c : ℕ) (left l r m n : Option ℕ) (s : State)
    → Maps w p c left l r m s
    → Maps w p c left l r n (retaken w p c n s)
unfolding retaken closure_locked released
retaken-Maps w p c none l r m n s h = record {
  left_slot = ground (arith, h.left_slot);
  right_slot = ground (arith, h.right_slot);
  active = ground arith;
}
retaken-Maps w p c (some x) l r m n s h = record {
  left_slot = ground (arith, h.left_slot);
  right_slot = ground (arith, h.right_slot);
  active = ground arith;
}

Apart-ne : (p c : ℕ) (left : Option ℕ) → Apart p c left → p ≢ c
Apart-ne p c none a = a
Apart-ne p c (some l) a = a.0

pub put_slot-Held :
    (w p c : ℕ) (left m : Option ℕ) (s : State)
    → Held w p c left s
    → Held w p c left (put_slot p left m s)
unfolding put_slot
put_slot-Held w p c none m s h = record {
  sibling = ground (arith, h.sibling);
  apart = h.apart;
  parent = (ground (arith, h.parent.0), ground (arith, h.parent.1));
  child = (ground (arith, h.child.0), ground (arith, h.child.1));
}
put_slot-Held w p c (some l) m s h = record {
  sibling = ground (arith, h.sibling);
  apart = h.apart;
  parent = (ground (arith, h.parent.0), ground (arith, h.parent.1));
  child = (ground (arith, h.child.0), ground (arith, h.child.1));
}

pub put_slot-Maps :
    (w p c : ℕ) (left l r m n : Option ℕ) (s : State)
    → Apart p c left
    → Maps w p c left l r m s
    → Maps w p c left n r m (put_slot p left n s)
unfolding put_slot
put_slot-Maps w p c none l r m n s a h = record {
  left_slot = ground arith;
  right_slot = ground (arith, h.right_slot);
  active = h.active;
}
put_slot-Maps w p c (some x) l r m n s a h = record {
  left_slot = ground arith;
  right_slot = ground (arith, h.right_slot);
  active = h.active;
}

pub relock-eq :
    (w p c : ℕ) (left m : Option ℕ) (s : State)
    → Held w p c left s
    → let a = released p (released c s) in
      let b = record a {
        workers = update a.workers w (record (a.workers w) { reducer_map = m });
      } in
      (closure_unlock w c s ≡ ok tt (released c s))
      × (closure_unlock w p (released c s) ≡ ok tt a)
      × (closure_lock w p b ≡ ok tt (closure_locked w p b))
      × (closure_lock w c (closure_locked w p b)
          ≡ ok tt (closure_locked w c (closure_locked w p b)))
relock-eq w p c left m s h =
    let a = released p (released c s) in
    let b = record a { workers = update a.workers w (record (a.workers w) { reducer_map = m }) } in
    let ne : p ≢ c = Apart-ne p c left h.apart in
    (
      unlock-owned w c s h.child.1 h.child.0,
      unlock-owned w p (released c s) (unfold released in ground (arith, h.parent.1))
          (unfold released in ground (arith, h.parent.0, ne)),
      closure_lock-eq w p b (unfold released in ground (arith, h.parent.1))
          (unfold released in ground arith),
      closure_lock-eq w c (closure_locked w p b)
          (unfold released closure_locked in ground (arith, h.child.1))
          (unfold released closure_locked in ground (arith, ne)),
    )
