-- ===== src/Closure/Suspend.antt =====
-- `Closure_suspend_victim` of runtime/closure.c against the sequence that the victim's deque holds.
use multicilk.Base.{
  ℕ, true, Option, none, some, List, [], ◌∷◌, ◌++◌, front, subst, ap, ◌≡◌, ◌≢◌, refl, ◌∙◌, update,
  arith,
}
use multicilk.Runtime.{no_worker, Closure, State, Status, ok}
use multicilk.Deque.{deque_assert_ownership, deque_xtract_bottom}
use multicilk.Deque.Links.{Linked, Holds, last_or-snoc}
use multicilk.Deque.Frame.{Owned, Untouched, Released}
use multicilk.Deque.Bottom.{xtract_bottom_refines}
use multicilk.Closure.{closure_checkmagic, closure_assert_ownership, closure_change_status}
use multicilk.Closure.Callee.{closure_suspend_victim, in_tree}

-- Closures that agree on the links of the deques are linked alike.
Linked-same :
    (f g : ℕ → Closure) (pn : ℕ) (p : Option ℕ) (xs : List ℕ) (n : Option ℕ)
    → ((a : ℕ)
        → ((g a).prev_ready ≡ (f a).prev_ready)
          × ((g a).next_ready ≡ (f a).next_ready)
          × ((g a).owner_ready_deque ≡ (f a).owner_ready_deque))
    → Linked f pn p xs n
    → Linked g pn p xs n
Linked-same f g pn p [] n e h = tt
Linked-same f g pn p (x ∷ xs) n e h =
    let (a, b, c) = e x in (a ∙ h.0, b ∙ h.1, c ∙ h.2, Linked-same f g pn (some x) xs n e h.3)

-- The closure is suspended, before it leaves the deque.
suspended_in : ℕ → State → State
suspended_in cl s = record s {
  closures = update s.closures cl (record (s.closures cl) { status = Status.suspended });
}

suspended-Holds :
    (cl pn : ℕ) (xs : List ℕ) (s : State) → Holds s pn xs → Holds (suspended_in cl s) pn xs
unfolding suspended_in
suspended-Holds cl pn xs s h = record {
  top = h.top;
  bottom = h.bottom;
  linked =
      Linked-same s.closures
        (update s.closures cl (record (s.closures cl) { status = Status.suspended })) pn none xs
        none (λ a. (ground arith, ground arith, ground arith)) h.linked;
  distinct = h.distinct;
}

-- What the thief needs to know of the closure.
pub record Suspendable (thief victim cl : ℕ) (s : State) : Type 0 where
  pub views : (s.closures cl).user_rmap ≡ none
  pub running : (s.closures cl).status ≡ Status.running
  pub lock : (s.closures cl).mutex_owner ≡ thief
  pub deque_lock : Owned s thief victim
  pub placed : in_tree cl (s.closures cl) s.root_closure ≡ true

suspend_victim-eq :
    (thief victim cl : ℕ) (s t : State)
    → Suspendable thief victim cl s
    → deque_xtract_bottom thief victim (suspended_in cl s) ≡ ok (some cl) t
    → closure_suspend_victim thief victim cl s ≡ ok tt t
unfolding closure_suspend_victim closure_checkmagic closure_assert_ownership closure_change_status
    deque_assert_ownership suspended_in
suspend_victim-eq thief victim cl s t b e =
    ground (arith, b.views, b.running, b.lock, b.deque_lock, b.placed, e)

-- What the call does to the closures, beside the links of the deques: `cl` is suspended and in no
-- deque, and every other closure keeps its status.
pub record Suspended (cl : ℕ) (s t : State) : Type 0 where
  pub status : (t.closures cl).status ≡ Status.suspended
  pub in_no_deque : (t.closures cl).owner_ready_deque ≡ no_worker
  pub others : (a : ℕ) → a ≢ cl → (t.closures a).status ≡ (s.closures a).status

front-snoc : (zs : List ℕ) (b : ℕ) → front (zs ++ (b ∷ [])) ≡ zs
front-snoc [] b = refl
front-snoc (x ∷ []) b = refl
front-snoc (x ∷ y ∷ ys) b = ap (λ l. x ∷ l) (front-snoc (y ∷ ys) b)

-- `Closure_suspend_victim` of the last closure in the deque of the victim, which is running, has
-- no views of its user, and is the root closure or has a parent, with the locks of both held,
-- fails no assertion, leaves the closure suspended and in no deque, takes it and no other out of
-- the deque of the victim, and keeps the status of every other closure and every deque that shares
-- no closure with this one.
pub suspend_victim_refines :
    (thief victim cl : ℕ) (zs : List ℕ) (s : State)
    → Suspendable thief victim cl s
    → Holds s victim (zs ++ (cl ∷ []))
    → (t : State) × (closure_suspend_victim thief victim cl s ≡ ok tt t)
      × Holds t victim zs
      × Untouched victim (zs ++ (cl ∷ [])) s t
      × Suspended cl s t
suspend_victim_refines thief victim cl zs s b h =
    let xs = zs ++ (cl ∷ []) in
    let (t, e) =
      xtract_bottom_refines thief victim xs (suspended_in cl s)
        (unfold suspended_in in b.deque_lock) (suspended-Holds cl victim xs s h) in
    (
      t,
      suspend_victim-eq thief victim cl s t b (e.run ∙ ap (λ o. ok o t) (last_or-snoc none zs cl)),
      subst (Holds t victim) (front-snoc zs cl) e.holds,
      λ qn ys ne a k. e.untouched qn ys ne a (suspended-Holds cl qn ys s k),
      record {
        status = e.statuses cl ∙ (unfold suspended_in in ground arith);
        in_no_deque = subst (Released t) (last_or-snoc none zs cl) e.marked;
        others = λ a ne. e.statuses a ∙ (unfold suspended_in in ground (arith, ne));
      },
    )
