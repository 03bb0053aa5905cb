-- ===== src/Join/Spec.antt =====
-- What the return protocol promises for views: the strands of a parent in serial order. The spec
-- keeps one product for each strand that may still update its view, of everything that comes after
-- the strand before it and up to this one; the last one is the parent's own strand.
use multicilk.Base.{List, [], ◌∷◌, ◌≡◌, refl, ap, ◌∙◌}
use multicilk.Join.{
  Views, ◌⊕◌, content, Phase, running, exceptions, took_exceptions, maps, took_maps, Child, Slots,
  ChildStep, work, throw, finish, take_exceptions, reduce_exceptions, deposit_exception, take_maps,
  reduce_maps, leave, next, Family, Step, child, work_main, steal, sync,
}

-- What a step does to the strands: nothing, an update of the view of the first strand, the end of
-- the first strand, a new strand at the end, or any of these past the first strand.
pub data Event (V : Type 0) : Type 0 where
  silent : Event V
  updates : V → Event V
  ends : Event V
  forks : Event V
  past : Event V → Event V

module _ {V : Type 0} ⦃views : Views V⦄ where
  -- A product goes to the left of the first one.
  abbrev pub push : V → List V → List V
  push v [] = v ∷ []
  push v (g ∷ gs) = (v ⊕ g) ∷ gs

  -- The product of all strands, in serial order.
  abbrev pub total : List V → V
  total [] = views.empty
  total (g ∷ gs) = g ⊕ total gs

  pub total-push : (v : V) (gs : List V) → total (push v gs) ≡ v ⊕ total gs
  total-push v [] = refl
  total-push v (g ∷ gs) = views.join_assoc v g (total gs)

  -- The steps of the spec. A strand updates its view; a strand ends, and what it did comes before what
  -- the next strand does; or the parent is stolen, and its continuation is a new last strand.
  pub data Serial : Event V → List V → List V → Type 0 where
    same : {gs : List V} → Serial silent gs gs
    update_view : {g : V} {gs : List V} (x : V) → Serial (updates x) (g ∷ gs) ((g ⊕ x) ∷ gs)
    end_strand : {g : V} {gs : List V} → Serial ends (g ∷ gs) (push g gs)
    fork : {g : V} → Serial forks (g ∷ []) (g ∷ views.empty ∷ [])
    after :
        {e : Event V} {g : V} {gs hs : List V} → Serial e gs hs → Serial (past e) (g ∷ gs) (g ∷ hs)

  -- An event to the right of a child: past its strand if it is running.
  abbrev pub beside : Phase V → Event V → Event V
  beside running e = past e
  beside _ e = e

  -- What a step of a child does: only a strand that works updates its view, and only one that begins
  -- to return ends.
  abbrev pub child_event : {s t : Slots V} {ks js : List (Child V)} → ChildStep s ks t js → Event V
  child_event (work x e) = updates x
  child_event (throw x e) = silent
  child_event (finish e) = ends
  child_event (take_exceptions e h) = silent
  child_event (reduce_exceptions e) = silent
  child_event (deposit_exception e h g) = silent
  child_event (take_maps e h) = silent
  child_event (reduce_maps e) = silent
  child_event (leave e h g) = silent
  child_event (next {k = k} st) = beside k.phase (child_event st)

  -- An event of the parent's own strand, which is the last one.
  abbrev pub at_end : List (Child V) → Event V → Event V
  at_end [] e = e
  at_end (k ∷ ks) e = beside k.phase (at_end ks e)

  abbrev pub event : {f g : Family V} → Step f g → Event V
  event (child st) = child_event st
  event {f = f} (work_main x) = at_end f.children (updates x)
  event {f = f} steal = at_end f.children forks
  event (sync e) = silent

  -- What a child holds from its left, and what it holds or keeps from its right.
  abbrev pub from_left : Phase V → V
  from_left (took_maps l r) = content l
  from_left _ = views.empty

  abbrev pub from_right : Phase V → V
  from_right (took_maps l r) = content r
  from_right _ = views.empty

  abbrev pub upto : Child V → V
  upto k = from_left k.phase ⊕ content k.active

  abbrev pub beyond : Child V → V
  beyond k = from_right k.phase ⊕ content k.right_rmap

  -- A running child is a strand of its own; what a returning child has done belongs to what follows.
  abbrev pub emit : Phase V → V → V → (V → List V) → List V
  emit running before right rest = before ∷ rest right
  emit _ before right rest = rest (before ⊕ right)

  -- The strands, after the product `acc`.
  abbrev pub strands : V → List (Child V) → V → List V
  strands acc [] main = (acc ⊕ main) ∷ []
  strands acc (k ∷ ks) main = emit k.phase (acc ⊕ upto k) (beyond k) (λ v. strands v ks main)

  unfoldable pub strands_of : Family V → List V
  strands_of f = strands (content f.slots.rmap) f.children (content f.main)

  emit-push :
      (h : Phase V) (a b : V) (u right : V) (ks : List (Child V)) (main : V)
      → ((v : V) → strands (a ⊕ v) ks main ≡ push a (strands v ks main))
      → emit h ((a ⊕ b) ⊕ u) right (λ v. strands v ks main)
        ≡ push a (emit h (b ⊕ u) right (λ v. strands v ks main))
  emit-push running a b u right ks main ih =
      ap (λ v. v ∷ strands right ks main) (views.join_assoc a b u)
  emit-push exceptions a b u right ks main ih =
      ap (λ v. strands v ks main) (simp views.join_assoc) ∙ ih ((b ⊕ u) ⊕ right)
  emit-push (took_exceptions x y) a b u right ks main ih =
      ap (λ v. strands v ks main) (simp views.join_assoc) ∙ ih ((b ⊕ u) ⊕ right)
  emit-push maps a b u right ks main ih =
      ap (λ v. strands v ks main) (simp views.join_assoc) ∙ ih ((b ⊕ u) ⊕ right)
  emit-push (took_maps x y) a b u right ks main ih =
      ap (λ v. strands v ks main) (simp views.join_assoc) ∙ ih ((b ⊕ u) ⊕ right)

  pub strands-push :
      (a b : V) (ks : List (Child V)) (main : V)
      → strands (a ⊕ b) ks main ≡ push a (strands b ks main)
  strands-push a b [] main = ap (λ v. v ∷ []) (views.join_assoc a b main)
  strands-push a b (k ∷ ks) main =
      emit-push k.phase a b (upto k) (beyond k) ks main (λ v. strands-push a v ks main)
