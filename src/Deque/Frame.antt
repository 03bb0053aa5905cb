-- ===== src/Deque/Frame.antt =====
-- What the operations of runtime/readydeque.c leave alone, and the state of an extracted closure.
use multicilk.Base.{
  ℕ, Option, none, some, List, [], ◌∷◌, ◌++◌, ◌≡◌, ◌≢◌, refl, last_from, update, arith,
}
use multicilk.Runtime.{Closure, ReadyDeque, State, no_worker}
use multicilk.Deque.Links.{last_or, Fresh, Holds, Linked-update}

-- No closure of `xs` is in `ys`.
abbrev pub Apart : List ℕ → List ℕ → Type 0
Apart [] ys = Unit
Apart (x ∷ xs) ys = Fresh x ys × Apart xs ys

-- Every other deque holds what it held, if it shares no closure with the sequence `xs`.
abbrev pub Untouched : ℕ → List ℕ → State → State → Type 0
Untouched pn xs s t = (qn : ℕ) (ys : List ℕ) → qn ≢ pn → Apart xs ys → Holds s qn ys → Holds t qn ys

abbrev pub Owned : State → ℕ → ℕ → Type 0
Owned s w pn = (s.deques pn).mutex_owner ≡ w

-- A closure that has left its deque is marked so.
abbrev pub Released : State → Option ℕ → Type 0
Released s none = Unit
Released s (some x) = (s.closures x).owner_ready_deque ≡ no_worker

abbrev pub released : Closure → Closure
released c = record c { owner_ready_deque = no_worker }

pub Fresh→last_ne : (x y : ℕ) (ys : List ℕ) → Fresh x (y ∷ ys) → x ≢ last_from y ys
Fresh→last_ne x y [] f e = f.0 e
Fresh→last_ne x y (z ∷ ys) f e = Fresh→last_ne x z ys f.1 e

pub last_or-cons : (p : Option ℕ) (x : ℕ) (xs : List ℕ) → last_or p (x ∷ xs) ≡ some (last_from x xs)
last_or-cons p x [] = refl
last_or-cons p x (y ∷ xs) = last_or-cons (some x) y xs

-- A closure outside a deque may change, and so may another deque.
pub Holds-put_closure :
    (s : State) (qn : ℕ) (ys : List ℕ) (a : ℕ) (c : Closure)
    → Fresh a ys
    → Holds s qn ys
    → Holds (record s { closures = update s.closures a c }) qn ys
Holds-put_closure s qn ys a c f h = record {
  top = h.top;
  bottom = h.bottom;
  linked = Linked-update s.closures qn none ys none a c f h.linked;
  distinct = h.distinct;
}

pub Holds-put_deque :
    (s : State) (qn pn : ℕ) (ys : List ℕ) (d : ReadyDeque)
    → qn ≢ pn
    → Holds s qn ys
    → Holds (record s { deques = update s.deques pn d }) qn ys
Holds-put_deque s qn pn ys d ne h = record {
  top = ground (arith, h.top);
  bottom = ground (arith, h.bottom);
  linked = h.linked;
  distinct = h.distinct;
}

pub Apart-snoc :
    (xs : List ℕ) (b : ℕ) (ys : List ℕ) → Apart (xs ++ (b ∷ [])) ys → Fresh b ys × Apart xs ys
Apart-snoc [] b ys a = (a.0, tt)
Apart-snoc (x ∷ xs) b ys a = let r = Apart-snoc xs b ys a.1 in (r.0, (a.0, r.1))
