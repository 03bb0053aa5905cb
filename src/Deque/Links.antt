-- ===== src/Deque/Links.antt =====
-- When the links of runtime/readydeque.c hold a given sequence of closures, top first.
use multicilk.Base.{
  ℕ, Option, none, some, List, [], ◌∷◌, ◌++◌, ◌≡◌, ◌≢◌, refl, sym, ◌∙◌, update, arith,
}
use multicilk.Runtime.{Closure, State}

-- What follows a part of the sequence: its own first closure, or `n`.
abbrev pub first_or : List ℕ → Option ℕ → Option ℕ
first_or [] n = n
first_or (x ∷ xs) n = some x

abbrev pub last_or : Option ℕ → List ℕ → Option ℕ
last_or p [] = p
last_or p (x ∷ xs) = last_or (some x) xs

-- The closures `xs` stand in the deque of `pn` in this order, after `p` and before `n`.
abbrev pub Linked : (ℕ → Closure) → ℕ → Option ℕ → List ℕ → Option ℕ → Type 0
Linked cl pn p [] n = Unit
Linked cl pn p (x ∷ xs) n =
    ((cl x).prev_ready ≡ p)
    × ((cl x).next_ready ≡ first_or xs n)
    × ((cl x).owner_ready_deque ≡ pn)
    × Linked cl pn (some x) xs n

abbrev pub Fresh : ℕ → List ℕ → Type 0
Fresh a [] = Unit
Fresh a (x ∷ xs) = (a ≢ x) × Fresh a xs

abbrev pub Distinct : List ℕ → Type 0
Distinct [] = Unit
Distinct (x ∷ xs) = Fresh x xs × Distinct xs

-- The deque of `pn` holds the closures `xs`.
pub record Holds (s : State) (pn : ℕ) (xs : List ℕ) : Type 0 where
  pub top : (s.deques pn).top ≡ first_or xs none
  pub bottom : (s.deques pn).bottom ≡ last_or none xs
  pub linked : Linked s.closures pn none xs none
  pub distinct : Distinct xs

-- A write to a closure outside the sequence keeps the links.
pub Linked-update :
    (cl : ℕ → Closure) (pn : ℕ) (p : Option ℕ) (xs : List ℕ) (n : Option ℕ) (a : ℕ) (c : Closure)
    → Fresh a xs
    → Linked cl pn p xs n
    → Linked (update cl a c) pn p xs n
Linked-update cl pn p [] n a c f h = tt
Linked-update cl pn p (x ∷ xs) n a c f h =
    let ih = Linked-update cl pn (some x) xs n a c f.1 h.3 in
    (ground arith, ground arith, ground arith, ih)

pub Fresh-snoc : (a b : ℕ) (xs : List ℕ) → Fresh a xs → a ≢ b → Fresh a (xs ++ (b ∷ []))
Fresh-snoc a b [] f h = (h, tt)
Fresh-snoc a b (x ∷ xs) f h = (f.0, Fresh-snoc a b xs f.1 h)

pub Distinct-snoc : (b : ℕ) (xs : List ℕ) → Distinct xs → Fresh b xs → Distinct (xs ++ (b ∷ []))
Distinct-snoc b [] d f = (tt, tt)
Distinct-snoc b (x ∷ xs) d f =
    (Fresh-snoc x b xs d.0 (λ e. f.0 (omega arith)), Distinct-snoc b xs d.1 f.1)

pub Fresh-front : (a b : ℕ) (xs : List ℕ) → Fresh a (xs ++ (b ∷ [])) → Fresh a xs × (a ≢ b)
Fresh-front a b [] f = (tt, f.0)
Fresh-front a b (x ∷ xs) f = let g = Fresh-front a b xs f.1 in ((f.0, g.0), g.1)

pub Distinct-front : (b : ℕ) (xs : List ℕ) → Distinct (xs ++ (b ∷ [])) → Distinct xs × Fresh b xs
Distinct-front b [] d = (tt, tt)
Distinct-front b (x ∷ xs) d =
    let g = Distinct-front b xs d.1 in
    let f = Fresh-front x b xs d.0 in ((f.0, g.0), ((λ e. f.1 (omega arith)), g.1))

pub last_or-snoc : (p : Option ℕ) (xs : List ℕ) (b : ℕ) → last_or p (xs ++ (b ∷ [])) ≡ some b
last_or-snoc p [] b = refl
last_or-snoc p (x ∷ xs) b = last_or-snoc (some x) xs b

pub first_or-snoc :
    (xs : List ℕ) (b : ℕ) (n : Option ℕ) → first_or (xs ++ (b ∷ [])) n ≡ first_or xs (some b)
first_or-snoc [] b n = refl
first_or-snoc (x ∷ xs) b n = refl

-- A sequence with `b` at its end is the sequence before `b`, and the links of `b`.
pub Linked-snoc :
    (cl : ℕ → Closure) (pn : ℕ) (p : Option ℕ) (xs : List ℕ) (b : ℕ) (n : Option ℕ)
    → Linked cl pn p xs (some b)
    → ((cl b).prev_ready ≡ last_or p xs)
    → ((cl b).next_ready ≡ n)
    → ((cl b).owner_ready_deque ≡ pn)
    → Linked cl pn p (xs ++ (b ∷ [])) n
Linked-snoc cl pn p [] b n h hp hn ho = (hp, hn, ho, tt)
Linked-snoc cl pn p (x ∷ xs) b n h hp hn ho =
    (h.0, h.1 ∙ sym (first_or-snoc xs b n), h.2, Linked-snoc cl pn (some x) xs b n h.3 hp hn ho)

pub Linked-split :
    (cl : ℕ → Closure) (pn : ℕ) (p : Option ℕ) (xs : List ℕ) (b : ℕ) (n : Option ℕ)
    → Linked cl pn p (xs ++ (b ∷ [])) n
    → Linked cl pn p xs (some b)
      × ((cl b).prev_ready ≡ last_or p xs)
      × ((cl b).next_ready ≡ n)
      × ((cl b).owner_ready_deque ≡ pn)
Linked-split cl pn p [] b n h = (tt, h.0, h.1, h.2)
Linked-split cl pn p (x ∷ xs) b n h =
    let g = Linked-split cl pn (some x) xs b n h.3 in
    ((h.0, h.1 ∙ first_or-snoc xs b n, h.2, g.0), g.1, g.2, g.3)

-- Changing only the link of the first closure to what is above it.
pub Linked-set_prev :
    (cl : ℕ → Closure) (pn x : ℕ) (p q : Option ℕ) (xs : List ℕ) (n : Option ℕ)
    → Fresh x xs
    → Linked cl pn p (x ∷ xs) n
    → Linked (update cl x (record (cl x) { prev_ready = q })) pn q (x ∷ xs) n
Linked-set_prev cl pn x p q xs n f h =
    let ih = Linked-update cl pn (some x) xs n x (record (cl x) { prev_ready = q }) f h.3 in
    (ground arith, ground arith, ground arith, ih)

-- Changing only the link of the last closure to what is below it.
pub Linked-set_next :
    (cl : ℕ → Closure) (pn x : ℕ) (p : Option ℕ) (xs : List ℕ) (m n : Option ℕ)
    → Distinct (xs ++ (x ∷ []))
    → Linked cl pn p (xs ++ (x ∷ [])) m
    → Linked (update cl x (record (cl x) { next_ready = n })) pn p (xs ++ (x ∷ [])) n
Linked-set_next cl pn x p xs m n d h =
    let g = Linked-split cl pn p xs x m h in
    let c = record (cl x) { next_ready = n } in
    Linked-snoc (update cl x c) pn p xs x n
      (Linked-update cl pn p xs (some x) x c (Distinct-front x xs d).1 g.0) (ground arith)
      (ground arith) (ground arith)

pub first_or_any :
    (xs : List ℕ) (b : ℕ) (m n : Option ℕ)
    → first_or (xs ++ (b ∷ [])) m ≡ first_or (xs ++ (b ∷ [])) n
first_or_any [] b m n = refl
first_or_any (x ∷ xs) b m n = refl

-- A sequence by its end: at most one closure, or its last two.
pub data Ends : List ℕ → Type 0 where
  nil : Ends []
  one : (x : ℕ) → Ends (x ∷ [])
  more : (zs : List ℕ) (y b : ℕ) → Ends ((zs ++ (y ∷ [])) ++ (b ∷ []))

Ends-cons : (x : ℕ) (xs : List ℕ) → Ends xs → Ends (x ∷ xs)
Ends-cons x _ nil = one x
Ends-cons x _ (one y) = more [] x y
Ends-cons x _ (more zs y b) = more (x ∷ zs) y b

pub ends : (xs : List ℕ) → Ends xs
ends [] = nil
ends (x ∷ xs) = Ends-cons x xs (ends xs)

pub first_or-some : (zs : List ℕ) (y : ℕ) → (z : ℕ) × (first_or (zs ++ (y ∷ [])) none ≡ some z)
first_or-some [] y = (y, refl)
first_or-some (z ∷ zs) y = (z, refl)
