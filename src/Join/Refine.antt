-- ===== src/Join/Refine.antt =====
-- The return protocol keeps the serial order of all views.
use multicilk.Base.{Option, none, some, List, [], ◌∷◌, ◌++◌, ◌≡◌, refl, sym, ap, subst}
use multicilk.Join.{
  Views, ◌⊕◌, merge, content, Phase, running, exceptions, took_exceptions, maps, took_maps, Child,
  Slots, ChildStep, work, throw, finish, take_exceptions, reduce_exceptions, deposit_exception,
  take_maps, reduce_maps, leave, next, Family, spawned, Step, child, work_main, steal, sync,
}
use multicilk.Join.Spec.{
  Event, silent, updates, ends, forks, beside, child_event, at_end, event, Serial, same,
  update_view, end_strand, fork, after, from_right, upto, beyond, strands, emit, strands_of,
  strands-push,
}

module _ {V : Type 0} ⦃views : Views V⦄ where
  pub merge-content : (l r : Option V) → content (merge l r) ≡ content l ⊕ content r
  merge-content none r = sym (views.empty-join (content r))
  merge-content (some l) none = sym (views.join-empty l)
  merge-content (some l) (some r) = refl

  -- An update comes last in its strand.
  update-last :
      (p h : V) (a : Option V) (x : V)
      → (p ⊕ (h ⊕ content a)) ⊕ x ≡ p ⊕ (h ⊕ content (merge a (some x)))
  update-last p h a x = simp (views.join_assoc, merge-content)

  -- What is taken from the slots stays where it was.
  take-same :
      (p l a r : V)
      → ((p ⊕ l) ⊕ (views.empty ⊕ a)) ⊕ (views.empty ⊕ r)
        ≡ ((p ⊕ views.empty) ⊕ (l ⊕ a)) ⊕ (r ⊕ views.empty)
  take-same p l a r = simp (views.join_assoc, views.empty-join, views.join-empty)

  reduce-same :
      (p : V) (l a r right : Option V)
      → (p ⊕ (content l ⊕ content a)) ⊕ (content r ⊕ content right)
        ≡ (p ⊕ (views.empty ⊕ content (merge (merge l a) r))) ⊕ (views.empty ⊕ content right)
  reduce-same p l a r right =
      simp (views.join_assoc, views.empty-join, views.join-empty, merge-content)

  leave-same :
      (p a : V) → ((p ⊕ views.empty) ⊕ (views.empty ⊕ a)) ⊕ (views.empty ⊕ views.empty) ≡ p ⊕ a
  leave-same p a = simp (views.join_assoc, views.empty-join, views.join-empty)

  by_eq : {gs hs : List V} → gs ≡ hs → Serial silent gs hs
  by_eq e = subst (Serial silent _) e same

  regroup :
      (e : Event V) (u held : V) (a b : Option V) (ks js : List (Child V)) (main : V)
      → ((q : V) → Serial e (strands (q ⊕ content a) ks main) (strands (q ⊕ content b) js main))
      → Serial e
          (strands (u ⊕ (held ⊕ content a)) ks main)
          (strands (u ⊕ (held ⊕ content b)) js main)
  regroup e u held a b ks js main ih =
      rw (sym (views.join_assoc u held (content a)))
        (rw (sym (views.join_assoc u held (content b))) (ih (u ⊕ held)))

  -- A step of a later child is a step after what comes before it.
  emit-Serial :
      (e : Event V) (h : Phase V) (u held : V) (a b : Option V) (ks js : List (Child V)) (main : V)
      → ((q : V) → Serial e (strands (q ⊕ content a) ks main) (strands (q ⊕ content b) js main))
      → Serial
          (beside h e)
          (emit h u (held ⊕ content a) (λ v. strands v ks main))
          (emit h u (held ⊕ content b) (λ v. strands v js main))
  emit-Serial e running u held a b ks js main ih = after (ih held)
  emit-Serial e exceptions u held a b ks js main ih = regroup e u held a b ks js main ih
  emit-Serial e (took_exceptions x y) u held a b ks js main ih = regroup e u held a b ks js main ih
  emit-Serial e maps u held a b ks js main ih = regroup e u held a b ks js main ih
  emit-Serial e (took_maps x y) u held a b ks js main ih = regroup e u held a b ks js main ih

  -- A child's step is a step of the spec, after any product `p` that comes before its left slot.
  pub child-Serial :
      {s t : Slots V} {ks js : List (Child V)} (p main : V)
      → (st : ChildStep s ks t js)
      → Serial
          (child_event st)
          (strands (p ⊕ content s.rmap) ks main)
          (strands (p ⊕ content t.rmap) js main)
  child-Serial p main (work {s = s} {k = k} {ks = ks} x e) = rw e (
      subst (Serial (updates x) _)
        (ap (λ v. v ∷ strands (views.empty ⊕ content k.right_rmap) ks main)
          (update-last (p ⊕ content s.rmap) views.empty k.active x))
        (update_view x))
  child-Serial p main (throw x e) = same
  child-Serial p main (finish {s = s} {k = k} {ks = ks} e) = rw e (
      subst (Serial ends _)
        (sym (
          strands-push ((p ⊕ content s.rmap) ⊕ (views.empty ⊕ content k.active))
            (views.empty ⊕ content k.right_rmap) ks main))
        end_strand)
  child-Serial p main (take_exceptions e h) = rw e same
  child-Serial p main (reduce_exceptions e) = rw e same
  child-Serial p main (deposit_exception e h g) = rw e same
  child-Serial p main (take_maps {s = s} {k = k} {ks = ks} e h) = rw e (
      by_eq (
        ap (λ v. strands v ks main)
          (take-same p (content s.rmap) (content k.active) (content k.right_rmap))))
  child-Serial p main (reduce_maps {s = s} {k = k} {ks = ks} {l = l} {r = r} e) = rw e (
      by_eq
        (ap (λ v. strands v ks main) (reduce-same (p ⊕ content s.rmap) l k.active r k.right_rmap)))
  child-Serial p main (leave {s = s} {k = k} {ks = ks} e h g) =
      rw e (rw h (rw g (by_eq (ap (λ v. strands v ks main) (leave-same p (content k.active))))))
  child-Serial p main (next {s = s} {t = t} {k = k} {ks = ks} {js = js} st) =
      emit-Serial (child_event st) k.phase ((p ⊕ content s.rmap) ⊕ upto k) (from_right k.phase)
        k.right_rmap t.rmap ks js main (λ q. child-Serial q main st)

  emit-after :
      (e : Event V) (h : Phase V) (u right : V) (f g : V → List V)
      → ((v : V) → Serial e (f v) (g v))
      → Serial (beside h e) (emit h u right f) (emit h u right g)
  emit-after e running u right f g ih = after (ih right)
  emit-after e exceptions u right f g ih = ih (u ⊕ right)
  emit-after e (took_exceptions x y) u right f g ih = ih (u ⊕ right)
  emit-after e maps u right f g ih = ih (u ⊕ right)
  emit-after e (took_maps x y) u right f g ih = ih (u ⊕ right)

  fork-last :
      (acc : V) (ks : List (Child V)) (m : Option V)
      → Serial
          (at_end ks forks)
          (strands acc ks (content m))
          (strands acc (ks ++ (spawned m ∷ [])) views.empty)
  fork-last acc [] m =
      rw (views.empty-join (content m))
        (rw (views.empty-join views.empty) (rw (views.empty-join views.empty) fork))
  fork-last acc (k ∷ ks) m =
      emit-after (at_end ks forks) k.phase (acc ⊕ upto k) (beyond k) _ _ (λ v. fork-last v ks m)

  update-main :
      (acc : V) (ks : List (Child V)) (m : Option V) (x : V)
      → Serial
          (at_end ks (updates x))
          (strands acc ks (content m))
          (strands acc ks (content (merge m (some x))))
  update-main acc [] m x =
      rw (merge-content m (some x)) (rw (sym (views.join_assoc acc (content m) x)) (update_view x))
  update-main acc (k ∷ ks) m x =
      emit-after (at_end ks (updates x)) k.phase (acc ⊕ upto k) (beyond k) _ _
        (λ v. update-main v ks m x)

  synced : (c m : Option V) → (content c ⊕ content m) ≡ views.empty ⊕ content (merge c m)
  synced c m = simp (views.empty-join, merge-content)

  -- Every step of a parent and its children is the step of the spec on their strands that its kind
  -- names: work of a running child updates the last view of that child's strand by the same view, and
  -- work of the parent that of the last strand; the strand of a child that begins to return ends, and
  -- its product comes before what follows it; a steal adds a strand at the end; and throwing, every
  -- later step of a return, and a sync leave all products as they were.
  pub Step-Serial :
      {f g : Family V} (st : Step f g) → Serial (event st) (strands_of f) (strands_of g)
  unfolding strands_of
  Step-Serial {f = f} (child {t = t} st) =
      let r = child-Serial views.empty (content f.main) st in
      rw (views.empty-join (content f.slots.rmap), views.empty-join (content t.rmap)) at r
  Step-Serial {f = f} (work_main x) = update-main (content f.slots.rmap) f.children f.main x
  Step-Serial {f = f} steal = fork-last (content f.slots.rmap) f.children f.main
  Step-Serial {f = f} (sync e) = rw e (by_eq (ap (λ v. v ∷ []) (synced f.slots.rmap f.main)))
