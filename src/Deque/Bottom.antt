-- ===== src/Deque/Bottom.antt =====
-- `deque_xtract_bottom` of runtime/readydeque.c against a sequence of closures.
use multicilk.Base.{
  ℕ, none, some, List, [], ◌∷◌, ◌++◌, ◌≡◌, ◌≢◌, refl, ◌∙◌, ap, update, front, arith,
}
use multicilk.Runtime.{State, ok}
use multicilk.Deque.{deque_xtract_bottom, unlink_bottom}
use multicilk.Deque.Links.{
  first_or, last_or, Fresh, Distinct, Linked, Holds, Linked-update, Linked-split, Linked-set_next,
  last_or-snoc, first_or-snoc, first_or_any, Distinct-front, Fresh-front, Ends, nil, one, more,
  ends,
}
use multicilk.Deque.Frame.{
  Untouched, Owned, Released, released, Apart-snoc, Holds-put_closure, Holds-put_deque,
}

bottom_one : ℕ → ℕ → State → State
bottom_one pn x s = record s {
  closures = update s.closures x (released (s.closures x));
  deques =
      update (update s.deques pn (record (s.deques pn) { bottom = none })) pn
        (record (s.deques pn) { bottom = none; top = none });
}

bottom_more : ℕ → ℕ → ℕ → State → State
bottom_more pn x y s = record s {
  closures =
      update (update s.closures y (record (s.closures y) { next_ready = none })) x
        (released (s.closures x));
  deques = update s.deques pn (record (s.deques pn) { bottom = some y });
}

unlink_bottom_one :
    (pn x : ℕ) (s : State)
    → (s.closures x).prev_ready ≡ none
    → (s.deques pn).top ≡ some x
    → unlink_bottom pn x s ≡ ok tt (bottom_one pn x s)
unfolding unlink_bottom bottom_one
unlink_bottom_one pn x s hn hb = ground arith

unlink_bottom_more :
    (pn x y z : ℕ) (s : State)
    → (s.closures x).prev_ready ≡ some y
    → (s.deques pn).top ≡ some z
    → x ≢ z
    → x ≢ y
    → unlink_bottom pn x s ≡ ok tt (bottom_more pn x y s)
unfolding unlink_bottom bottom_more
unlink_bottom_more pn x y z s hn hb nz ny = ground arith

-- The checks before the unlinking pass.
xtract_bottom_checks :
    (w pn x : ℕ) (s t : State)
    → Owned s w pn
    → (s.deques pn).bottom ≡ some x
    → (s.closures x).owner_ready_deque ≡ pn
    → unlink_bottom pn x s ≡ ok tt t
    → deque_xtract_bottom w pn s ≡ ok (some x) t
unfolding deque_xtract_bottom
xtract_bottom_checks w pn x s t o ht ho u = ground arith

xtract_bottom_empty :
    (w pn : ℕ) (s : State)
    → Owned s w pn
    → (s.deques pn).top ≡ none
    → (s.deques pn).bottom ≡ none
    → deque_xtract_bottom w pn s ≡ ok none s
unfolding deque_xtract_bottom
xtract_bottom_empty w pn s o ht hb = ground arith

-- What the call promises of a deque that held `xs`.
pub record Extracted (w pn : ℕ) (xs : List ℕ) (s t : State) : Type 0 where
  pub run : deque_xtract_bottom w pn s ≡ ok (last_or none xs) t
  pub holds : Holds t pn (front xs)
  pub marked : Released t (last_or none xs)
  pub untouched : Untouched pn xs s t
  pub statuses : (a : ℕ) → (t.closures a).status ≡ (s.closures a).status

extract_empty : (w pn : ℕ) (s : State) → Owned s w pn → Holds s pn [] → Extracted w pn [] s s
extract_empty w pn s o h = record {
  run = xtract_bottom_empty w pn s o h.top h.bottom;
  holds = h;
  marked = tt;
  untouched = λ qn ys ne a k. k;
  statuses = λ a. refl;
}

extract_one :
    (w pn x : ℕ) (s : State)
    → Owned s w pn
    → Holds s pn (x ∷ [])
    → Extracted w pn (x ∷ []) s (bottom_one pn x s)
unfolding bottom_one
extract_one w pn x s o h = record {
  run =
      xtract_bottom_checks w pn x s _ o h.bottom h.linked.2
        (unfold bottom_one in unlink_bottom_one pn x s h.linked.0 h.top);
  holds = ground arith;
  marked = ground arith;
  untouched = λ qn ys ne a k.
      Holds-put_closure _ qn ys x _ a.0
        (Holds-put_deque _ qn pn ys _ ne (Holds-put_deque s qn pn ys _ ne k));
  statuses = λ a. ground arith;
}

front-snoc : (xs : List ℕ) (b : ℕ) → front (xs ++ (b ∷ [])) ≡ xs
front-snoc [] b = refl
front-snoc (x ∷ []) b = refl
front-snoc (x ∷ y ∷ xs) b = ap (λ r. x ∷ r) (front-snoc (y ∷ xs) b)

-- The top of a longer sequence is not its bottom.
top_ne :
    (zs : List ℕ) (y b : ℕ)
    → Fresh b (zs ++ (y ∷ []))
    → (z : ℕ) × (first_or ((zs ++ (y ∷ [])) ++ (b ∷ [])) none ≡ some z) × (b ≢ z)
top_ne [] y b f = (y, refl, f.0)
top_ne (z ∷ zs) y b f = (z, refl, f.0)

module _ (w pn : ℕ) (zs : List ℕ) (y b : ℕ) (s : State) (own : Owned s w pn)
    (h : Holds s pn ((zs ++ (y ∷ [])) ++ (b ∷ []))) where
  kept : List ℕ
  kept = zs ++ (y ∷ [])

  links :
      Linked s.closures pn none (zs ++ (y ∷ [])) (some b)
      × ((s.closures b).prev_ready ≡ last_or none (zs ++ (y ∷ [])))
      × ((s.closures b).next_ready ≡ none)
      × ((s.closures b).owner_ready_deque ≡ pn)
  links = Linked-split s.closures pn none (zs ++ (y ∷ [])) b none h.linked

  apart : Distinct (zs ++ (y ∷ [])) × Fresh b (zs ++ (y ∷ []))
  apart = Distinct-front b (zs ++ (y ∷ [])) h.distinct

  more_run :
      deque_xtract_bottom w pn s
      ≡ ok (last_or none ((zs ++ (y ∷ [])) ++ (b ∷ []))) (bottom_more pn b y s)
  more_run =
      let (z, top, ne) = top_ne zs y b apart.1 in
      let ends = last_or-snoc none (zs ++ (y ∷ [])) b in
      rw ends (
        xtract_bottom_checks w pn b s _ own (h.bottom ∙ ends) links.3 (
          unlink_bottom_more pn b y z s (links.1 ∙ last_or-snoc none zs y) (h.top ∙ top) ne
            (Fresh-front b y zs apart.1).1))

  more-Holds : Holds (bottom_more pn b y s) pn (front ((zs ++ (y ∷ [])) ++ (b ∷ [])))
  unfolding bottom_more
  more-Holds = rw (front-snoc (zs ++ (y ∷ [])) b) (record {
    top = ground (arith, h.top, first_or-snoc (zs ++ (y ∷ [])) b none, top_any);
    bottom = ground (arith, last_or-snoc none zs y);
    linked =
        Linked-update (update s.closures y (record (s.closures y) { next_ready = none })) pn none
          (zs ++ (y ∷ [])) none b (released (s.closures b)) apart.1
          (Linked-set_next s.closures pn y none zs (some b) none apart.0 links.0);
    distinct = apart.0;
  })
    where
      top_any : first_or (zs ++ (y ∷ [])) (some b) ≡ first_or (zs ++ (y ∷ [])) none
      top_any = first_or_any zs y (some b) none

  more-Untouched : Untouched pn ((zs ++ (y ∷ [])) ++ (b ∷ [])) s (bottom_more pn b y s)
  unfolding bottom_more
  more-Untouched qn ys ne a k =
      let r = Apart-snoc (zs ++ (y ∷ [])) b ys a in
      Holds-put_closure _ qn ys b _ r.0 (
        Holds-put_closure _ qn ys y _ (Apart-snoc zs y ys r.1).0
          (Holds-put_deque s qn pn ys _ ne k))

  more-Released : Released (bottom_more pn b y s) (last_or none ((zs ++ (y ∷ [])) ++ (b ∷ [])))
  unfolding bottom_more
  more-Released = rw (last_or-snoc none (zs ++ (y ∷ [])) b) (ground arith)

  more_statuses : (a : ℕ) → ((bottom_more pn b y s).closures a).status ≡ (s.closures a).status
  unfolding bottom_more
  more_statuses a = ground arith

  extract_more : Extracted w pn ((zs ++ (y ∷ [])) ++ (b ∷ [])) s (bottom_more pn b y s)
  extract_more = record {
    run = more_run;
    holds = more-Holds;
    marked = more-Released;
    untouched = more-Untouched;
    statuses = more_statuses;
  }

-- With the deque's mutex held, `deque_xtract_bottom` returns the last closure of the sequence that
-- the deque holds (NULL if it is empty) and fails no assertion; it leaves the sequence without it,
-- marks what it returns as in no deque, leaves every deque that shares no closure with this one, and
-- keeps the status of every closure.
pub xtract_bottom_refines :
    (w pn : ℕ) (xs : List ℕ) (s : State)
    → Owned s w pn
    → Holds s pn xs
    → (t : State) × Extracted w pn xs s t
xtract_bottom_refines w pn xs s o h = go xs (ends xs) h
  where
    go : (ys : List ℕ) → Ends ys → Holds s pn ys → (t : State) × Extracted w pn ys s t
    go _ nil k = (_, extract_empty w pn s o k)
    go _ (one x) k = (_, extract_one w pn x s o k)
    go _ (more zs y b) k = (_, extract_more w pn zs y b s o k)
