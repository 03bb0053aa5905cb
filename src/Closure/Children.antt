-- ===== src/Closure/Children.antt =====
-- The children of a closure (runtime/closure.c): a list that is doubly linked by `left_sib` and
-- `right_sib`, whose last one is the parent's `right_most_child`.
use multicilk.Base.{ℕ, none, some, ◌≡◌, ◌≢◌, update, arith}
use multicilk.Runtime.{State, ok}
use multicilk.Closure.{closure_add_child, closure_remove_child, unlink_child}

-- The child `y` becomes the left sibling of the new last child `x` of `p`.
added : ℕ → ℕ → ℕ → State → State
added p y x s =
    let a = update s.closures y (record (s.closures y) { right_sib = some x }) in
    let b = update a x (record (a x) { left_sib = some y }) in
    record s { closures = update b p (record (b p) { right_most_child = some x }) }

add_child-eq :
    (w p y x : ℕ) (s : State)
    → (s.closures p).mutex_owner ≡ w
    → (s.closures x).mutex_owner ≢ w
    → (s.closures p).right_most_child ≡ some y
    → (s.closures y).right_sib ≡ none
    → (s.closures x).left_sib ≡ none
    → x ≢ y
    → closure_add_child w p x s ≡ ok tt (added p y x s)
unfolding closure_add_child added
add_child-eq w p y x s o a r n l d = ground arith

-- The child `x` between `y` and `z` is taken out.
removed : ℕ → ℕ → ℕ → State → State
removed y x z s =
    let a = update s.closures y (record (s.closures y) { right_sib = some z }) in
    let b = update a z (record (a z) { left_sib = some y }) in
    record s { closures = update b x (record (b x) { left_sib = none; right_sib = none }) }

unlink_child-eq :
    (y x z : ℕ) (s : State)
    → (s.closures x).left_sib ≡ some y
    → (s.closures x).right_sib ≡ some z
    → (s.closures y).right_sib ≡ some x
    → (s.closures z).left_sib ≡ some x
    → y ≢ z
    → unlink_child x s ≡ ok tt (removed y x z s)
unfolding unlink_child removed
unlink_child-eq y x z s l r yl zl d = ground arith

remove_child-eq :
    (w p y x z q : ℕ) (s : State)
    → (s.closures x).spawn_parent ≡ some p
    → (s.closures p).mutex_owner ≡ w
    → (s.closures x).mutex_owner ≡ w
    → (s.closures p).right_most_child ≡ some q
    → x ≢ q
    → (s.closures x).right_rmap ≡ none
    → unlink_child x s ≡ ok tt (removed y x z s)
    → closure_remove_child w p x s ≡ ok tt (removed y x z s)
unfolding closure_remove_child
remove_child-eq w p y x z q s sp po xo rm ne rr e = ground (arith, e)

-- `x` is a child of `p` between its siblings `y` and `z`, and the worker `w` holds the locks of both.
pub record Between (w p y x z : ℕ) (s : State) : Type 0 where
  pub parent : (s.closures x).spawn_parent ≡ some p
  pub parent_lock : (s.closures p).mutex_owner ≡ w
  pub child_lock : (s.closures x).mutex_owner ≡ w
  pub left : (s.closures x).left_sib ≡ some y
  pub right : (s.closures x).right_sib ≡ some z
  pub left_back : (s.closures y).right_sib ≡ some x
  pub right_back : (s.closures z).left_sib ≡ some x
  pub apart : (x ≢ y) × (x ≢ z) × (y ≢ z) × (p ≢ x)
  pub reduced : (s.closures x).right_rmap ≡ none

-- What the removal leaves.
pub record Removed (p y x z : ℕ) (s t : State) : Type 0 where
  pub joined : ((t.closures y).right_sib ≡ some z) × ((t.closures z).left_sib ≡ some y)
  pub alone : ((t.closures x).left_sib ≡ none) × ((t.closures x).right_sib ≡ none)
  pub last : (t.closures p).right_most_child ≡ (s.closures p).right_most_child
  pub outer :
      ((t.closures y).left_sib ≡ (s.closures y).left_sib)
      × ((t.closures z).right_sib ≡ (s.closures z).right_sib)
  pub others : (a : ℕ) → a ≢ x → a ≢ y → a ≢ z → t.closures a ≡ s.closures a

removed-Removed :
    (w p y x z : ℕ) (s : State) → Between w p y x z s → Removed p y x z s (removed y x z s)
unfolding removed
removed-Removed w p y x z s b =
    let (xy, xz, yz, px) = b.apart in
    record {
      joined = (ground arith, ground arith);
      alone = (ground arith, ground arith);
      last = ground arith;
      outer = (ground arith, ground arith);
      others = λ a ax ay az. ground arith;
    }

-- `Closure_remove_child` of a child between two others, which is not the last one and whose views
-- are reduced, fails no assertion, joins its siblings, and leaves every other closure as it was.
pub remove_child_joins :
    (w p y x z q : ℕ) (s : State)
    → Between w p y x z s
    → (s.closures p).right_most_child ≡ some q
    → x ≢ q
    → (t : State) × (closure_remove_child w p x s ≡ ok tt t) × Removed p y x z s t
remove_child_joins w p y x z q s b last ne = (
  removed y x z s,
  remove_child-eq w p y x z q s b.parent b.parent_lock b.child_lock last ne b.reduced
      (unlink_child-eq y x z s b.left b.right b.left_back b.right_back b.apart.2),
  removed-Removed w p y x z s b,
)

-- What the addition of `x` after the last child `y` leaves.
pub record Added (p y x : ℕ) (s t : State) : Type 0 where
  pub linked : ((t.closures y).right_sib ≡ some x) × ((t.closures x).left_sib ≡ some y)
  pub last : (t.closures p).right_most_child ≡ some x
  pub end : (t.closures x).right_sib ≡ (s.closures x).right_sib
  pub others : (a : ℕ) → a ≢ x → a ≢ y → a ≢ p → t.closures a ≡ s.closures a

-- `Closure_add_child` of a closure without a left sibling, whose lock the worker does not hold, fails
-- no assertion where the last child has no right sibling, and makes it the last child of the parent.
pub add_child_links :
    (w p y x : ℕ) (s : State)
    → (s.closures p).mutex_owner ≡ w
    → (s.closures x).mutex_owner ≢ w
    → (s.closures p).right_most_child ≡ some y
    → (s.closures y).right_sib ≡ none
    → (s.closures x).left_sib ≡ none
    → x ≢ y
    → (t : State) × (closure_add_child w p x s ≡ ok tt t) × Added p y x s t
add_child_links w p y x s o a r n l d = (
  added p y x s,
  add_child-eq w p y x s o a r n l d,
  unfold added in
      record {
        linked = (ground arith, ground arith);
        last = ground arith;
        end = ground arith;
        others = λ b bx by bp. ground arith;
      },
)
