-- ===== src/Deque/Push.antt =====
-- `deque_add_bottom` and the peeks of runtime/readydeque.c against a sequence of closures.
use multicilk.Base.{ℕ, Option, none, some, List, [], ◌∷◌, ◌++◌, ◌≡◌, ◌∙◌, update, arith}
use multicilk.Runtime.{Closure, State, ok, no_worker}
use multicilk.Deque.{deque_add_bottom}
use multicilk.Deque.Links.{
  Fresh, Linked, Holds, Linked-update, Linked-snoc, Linked-set_next, last_or-snoc, first_or-snoc,
  first_or-some, first_or_any, Distinct-snoc, Fresh-front, Ends, nil, one, more, ends,
}
use multicilk.Deque.Frame.{Untouched, Owned, Apart-snoc, Holds-put_closure, Holds-put_deque}

linked_below : Closure → Option ℕ → ℕ → Closure
linked_below c p pn = record c { prev_ready = p; next_ready = none; owner_ready_deque = pn }

push_empty : ℕ → ℕ → State → State
push_empty pn x s = record s {
  closures = update s.closures x (linked_below (s.closures x) (s.deques pn).bottom pn);
  deques =
      update (update s.deques pn (record (s.deques pn) { bottom = some x })) pn
        (record (s.deques pn) { bottom = some x; top = some x });
}

push_more : ℕ → ℕ → ℕ → State → State
push_more pn x y s =
    let cl = update s.closures x (linked_below (s.closures x) (s.deques pn).bottom pn) in
    record s {
      closures = update cl y (record (cl y) { next_ready = some x });
      deques = update s.deques pn (record (s.deques pn) { bottom = some x });
    }

add_bottom_empty :
    (w pn x : ℕ) (s : State)
    → Owned s w pn
    → (s.closures x).owner_ready_deque ≡ no_worker
    → (s.deques pn).top ≡ none
    → deque_add_bottom w x pn s ≡ ok tt (push_empty pn x s)
unfolding deque_add_bottom push_empty linked_below
add_bottom_empty w pn x s o f ht = ground arith

add_bottom_more :
    (w pn x y z : ℕ) (s : State)
    → Owned s w pn
    → (s.closures x).owner_ready_deque ≡ no_worker
    → (s.deques pn).top ≡ some z
    → (s.deques pn).bottom ≡ some y
    → deque_add_bottom w x pn s ≡ ok tt (push_more pn x y s)
unfolding deque_add_bottom push_more linked_below
add_bottom_more w pn x y z s o f ht hb = ground arith

-- What the call promises when the deque held `xs`.
pub record Pushed (w x pn : ℕ) (xs : List ℕ) (s t : State) : Type 0 where
  pub run : deque_add_bottom w x pn s ≡ ok tt t
  pub holds : Holds t pn (xs ++ (x ∷ []))
  pub untouched : Untouched pn (x ∷ xs) s t

Pushed-empty :
    (w x pn : ℕ) (s : State)
    → Owned s w pn
    → (s.closures x).owner_ready_deque ≡ no_worker
    → Holds s pn []
    → Pushed w x pn [] s (push_empty pn x s)
Pushed-empty w x pn s o f h = record {
  run = add_bottom_empty w pn x s o f h.top;
  holds =
      unfold push_empty linked_below in
      record {
        top = ground arith;
        bottom = ground arith;
        linked = (ground arith, ground arith, ground arith, tt);
        distinct = (tt, tt);
      };
  untouched =
      unfold push_empty in
      λ qn ys ne a k.
        Holds-put_closure _ qn ys x _ a.0
          (Holds-put_deque _ qn pn ys _ ne (Holds-put_deque s qn pn ys _ ne k));
}

module _ (w x pn : ℕ) (zs : List ℕ) (y : ℕ) (s : State) (own : Owned s w pn)
    (free : (s.closures x).owner_ready_deque ≡ no_worker) (out : Fresh x (zs ++ (y ∷ [])))
    (h : Holds s pn (zs ++ (y ∷ []))) where
  bottom_is : (s.deques pn).bottom ≡ some y
  bottom_is = h.bottom ∙ last_or-snoc none zs y

  top_is : (z : ℕ) × ((s.deques pn).top ≡ some z)
  top_is = let (z, e) = first_or-some zs y in (z, h.top ∙ e)

  -- The links after the first write, and after the second.
  base : ℕ → Closure
  base = update s.closures x (linked_below (s.closures x) (s.deques pn).bottom pn)

  Linked-more : Linked (push_more pn x y s).closures pn none ((zs ++ (y ∷ [])) ++ (x ∷ [])) none
  unfolding push_more linked_below base
  Linked-more =
      let out_y = Fresh-front x y zs out in
      Linked-snoc (update base y (record (base y) { next_ready = some x })) pn none (zs ++ (y ∷ []))
        x none
        (Linked-set_next base pn y none zs none (some x) h.distinct
          (Linked-update s.closures pn none (zs ++ (y ∷ [])) none x _ out h.linked))
        (ground (arith, out_y.1, h.bottom)) (ground (arith, out_y.1)) (ground (arith, out_y.1))

  Pushed-more : Pushed w x pn (zs ++ (y ∷ [])) s (push_more pn x y s)
  Pushed-more = record {
    run = add_bottom_more w pn x y top_is.0 s own free top_is.1 bottom_is;
    holds = record {
      top =
          unfold push_more in
          ground
            (arith, h.top, first_or-snoc (zs ++ (y ∷ [])) x none, first_or_any zs y none (some x));
      bottom = unfold push_more in ground (arith, last_or-snoc none (zs ++ (y ∷ [])) x);
      linked = Linked-more;
      distinct = Distinct-snoc x (zs ++ (y ∷ [])) h.distinct out;
    };
    untouched =
        unfold push_more in
        λ qn ys ne a k.
          Holds-put_closure _ qn ys y _ (Apart-snoc zs y ys a.1).0
            (Holds-put_closure _ qn ys x _ a.0 (Holds-put_deque s qn pn ys _ ne k));
  }

-- With the deque's mutex held, `deque_add_bottom` of a closure that is in no deque fails no
-- assertion and puts it at the end of the sequence that the deque holds; every deque that shares
-- no closure with the new sequence holds what it held.
pub add_bottom_refines :
    (w x pn : ℕ) (xs : List ℕ) (s : State)
    → Owned s w pn
    → (s.closures x).owner_ready_deque ≡ no_worker
    → Fresh x xs
    → Holds s pn xs
    → (t : State) × Pushed w x pn xs s t
add_bottom_refines w x pn xs s o f out h = go xs (ends xs) out h
  where
    go : (ys : List ℕ) → Ends ys → Fresh x ys → Holds s pn ys → (t : State) × Pushed w x pn ys s t
    go _ nil n k = (_, Pushed-empty w x pn s o f k)
    go _ (one y) n k = (_, Pushed-more w x pn [] y s o f n k)
    go _ (more zs y b) n k = (_, Pushed-more w x pn (zs ++ (y ∷ [])) b s o f n k)
