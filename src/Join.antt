-- ===== src/Join.antt =====
-- How the views and the exceptions of parallel strands are put together: the loops of
-- `Closure_return`, and what `Closure_steal`, `Cilk_sync` and `Closure_return` do with the maps at
-- the ends of a strand (runtime/scheduler.c). One step is one critical section under the locks of the
-- parent and the child, or one merge outside of them, in any order that the children come in.
-- There is one parent: what the children of a child add is within its own map. A parent may take steps
-- here that it does not take while it is suspended.
pub mod Spec
pub mod Refine
pub mod Loop
pub mod Lost
pub mod Maps
mod Tests
use multicilk.Base.{ℕ, Option, none, some, List, [], ◌∷◌, ◌++◌, ◌≡◌, ◌≢◌, ◌⊎◌}

-- What a reducer map holds for one reducer: the view that the user's monoid combines. A map without
-- a view holds `empty`.
pub record Views (V : Type 0) : Type 0 where
  pub empty : V
  pub join : V → V → V
  pub empty-join : (a : V) → join empty a ≡ a
  pub join-empty : (a : V) → join a empty ≡ a
  pub join_assoc : (a b c : V) → join (join a b) c ≡ join a (join b c)

module _ {V : Type 0} ⦃views : Views V⦄ where
  infixl 65 ◌⊕◌
  abbrev pub ◌⊕◌ : V → V → V
  a ⊕ b = views.join a b

  -- `merge_two_rmaps`: a NULL map gives the other one.
  abbrev pub merge : Option V → Option V → Option V
  merge none r = r
  merge (some l) none = some l
  merge (some l) (some r) = some (l ⊕ r)

  abbrev pub content : Option V → V
  content none = views.empty
  content (some v) = v

-- Where a child of the parent stands. In `took` it holds what it took from its left and its right
-- neighbour, and no lock.
pub data Phase (V : Type 0) : Type 0 where
  running : Phase V
  exceptions : Phase V
  took_exceptions : (left right : Option ℕ) → Phase V
  maps : Phase V
  took_maps : (left right : Option V) → Phase V

-- A child: its `right_rmap`, the `reducer_map` of the worker that runs or returns it, its
-- `right_exn` and its `user_exn`.
pub record Child (V : Type 0) : Type 0 where
  pub right_rmap : Option V
  pub active : Option V
  pub right_exn : Option ℕ
  pub user_exn : Option ℕ
  pub phase : Phase V

-- The slots to which `left_ptr` points: the `child_rmap` and `child_exn` of the parent, or the
-- `right_rmap` and `right_exn` of the left sibling.
pub record Slots (V : Type 0) : Type 0 where
  pub rmap : Option V
  pub exn : Option ℕ

abbrev pub right_slots : {V : Type 0} → Child V → Slots V
right_slots k = record { rmap = k.right_rmap; exn = k.right_exn }

abbrev pub with_slots : {V : Type 0} → Child V → Slots V → Child V
with_slots k s = record k { right_rmap = s.rmap; right_exn = s.exn }

-- The exception that survives of three in serial order.
abbrev pub first_exn : Option ℕ → Option ℕ → Option ℕ → Option ℕ
first_exn (some l) active right = some l
first_exn none (some a) right = some a
first_exn none none right = right

-- One step of a child, with the slots to its left, and the children from it on.
pub data ChildStep {V : Type 0} ⦃views : Views V⦄
    : Slots V → List (Child V) → Slots V → List (Child V) → Type 0 where
  -- The strand updates its view.
  work :
      {s : Slots V} {k : Child V} {ks : List (Child V)} (x : V)
      → k.phase ≡ running
      → ChildStep s (k ∷ ks) s (record k { active = merge k.active (some x) } ∷ ks)
  throw :
      {s : Slots V} {k : Child V} {ks : List (Child V)} (e : ℕ)
      → k.phase ≡ running
      → ChildStep s (k ∷ ks) s (record k { user_exn = some e } ∷ ks)
  -- The closure is returning and `Closure_return` is called.
  finish :
      {s : Slots V} {k : Child V} {ks : List (Child V)}
      → k.phase ≡ running
      → ChildStep s (k ∷ ks) s (record k { phase = exceptions } ∷ ks)
  -- The first loop: one of the two exceptions is there.
  take_exceptions :
      {s : Slots V} {k : Child V} {ks : List (Child V)}
      → k.phase ≡ exceptions
      → (s.exn ≢ none) ⊎ (k.right_exn ≢ none)
      → ChildStep s
          (k ∷ ks)
          (record s { exn = none })
          (record k { right_exn = none; phase = took_exceptions s.exn k.right_exn } ∷ ks)
  reduce_exceptions :
      {s : Slots V} {k : Child V} {ks : List (Child V)} {l r : Option ℕ}
      → k.phase ≡ took_exceptions l r
      → ChildStep s
          (k ∷ ks)
          s
          (record k { user_exn = first_exn l k.user_exn r; phase = exceptions } ∷ ks)
  deposit_exception :
      {s : Slots V} {k : Child V} {ks : List (Child V)}
      → k.phase ≡ exceptions
      → s.exn ≡ none
      → k.right_exn ≡ none
      → ChildStep s (k ∷ ks) (record s { exn = k.user_exn }) (record k { phase = maps } ∷ ks)
  -- The second loop: one of the two maps is there.
  take_maps :
      {s : Slots V} {k : Child V} {ks : List (Child V)}
      → k.phase ≡ maps
      → (s.rmap ≢ none) ⊎ (k.right_rmap ≢ none)
      → ChildStep s
          (k ∷ ks)
          (record s { rmap = none })
          (record k { right_rmap = none; phase = took_maps s.rmap k.right_rmap } ∷ ks)
  reduce_maps :
      {s : Slots V} {k : Child V} {ks : List (Child V)} {l r : Option V}
      → k.phase ≡ took_maps l r
      → ChildStep s (k ∷ ks) s (record k { active = merge (merge l k.active) r; phase = maps } ∷ ks)
  -- The views are deposited, and `Closure_remove_child` unlinks the child.
  leave :
      {s : Slots V} {k : Child V} {ks : List (Child V)}
      → k.phase ≡ maps
      → s.rmap ≡ none
      → k.right_rmap ≡ none
      → ChildStep s (k ∷ ks) (record s { rmap = k.active }) ks
  -- A child further to the right moves; the slots to its left are those of `k`.
  next :
      {s t : Slots V} {k : Child V} {ks js : List (Child V)}
      → ChildStep (right_slots k) ks t js
      → ChildStep s (k ∷ ks) s (with_slots k t ∷ js)

-- A parent with its children from left to right. `main` is the map of its own strand: the
-- `reducer_map` of its worker, or its `user_rmap` while it is suspended.
pub record Family (V : Type 0) : Type 0 where
  pub slots : Slots V
  pub children : List (Child V)
  pub main : Option V

-- The child that `Closure_steal` makes: it goes on with the map of the victim.
abbrev pub spawned : {V : Type 0} → Option V → Child V
spawned m = record {
  right_rmap = none;
  active = m;
  right_exn = none;
  user_exn = none;
  phase = running;
}

pub data Step {V : Type 0} ⦃views : Views V⦄ (f : Family V) : Family V → Type 0 where
  child :
      {t : Slots V} {ks : List (Child V)}
      → ChildStep f.slots f.children t ks
      → Step f (record f { slots = t; children = ks })
  -- The parent's own strand updates its view.
  work_main : (x : V) → Step f (record f { main = merge f.main (some x) })
  -- The parent is stolen inside a spawn: the thief goes on with no map.
  steal : Step f (record f { children = f.children ++ (spawned f.main ∷ []); main = none })
  -- `Cilk_sync` that is ready, or the `Closure_return` of the last child.
  sync :
      f.children ≡ []
      → Step f
          (record f { slots = record f.slots { rmap = none }; main = merge f.slots.rmap f.main })

-- A parent that has spawned nothing yet.
abbrev pub alone : {V : Type 0} → Family V
alone = record { slots = record { rmap = none; exn = none }; children = []; main = none }

pub data Reach {V : Type 0} ⦃views : Views V⦄ : Family V → Type 0 where
  here : Reach alone
  later : {f g : Family V} → Reach f → Step f g → Reach g
