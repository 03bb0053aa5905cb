-- ===== src/Fibers/Bounds.antt =====
-- The pools of runtime/fiber-pool.c within their arrays, and the fibers that they hold.
use multicilk.Base.{
  ℕ, zero, suc, ◌+◌, ◌-◌, ◌≤◌, ◌<◌, ◌≡◌, refl, ap, ◌∙◌, true, false, some, update, lt→ltb, arith,
  length, count_below, count_below-update_ge, bit, List, [], ◌∷◌, ◌==◌,
}
use native.Mathlib.Numerals.{unary_clauses}
use multicilk.Runtime.{no_worker}
use multicilk.Fibers.{FiberPool, Pools, push, pop, move_fibers, make_fibers, drop_fibers}

-- How often the fiber `x` is in a list, and in a pool.
abbrev pub copies_in : ℕ → List ℕ → ℕ
copies_in x [] = 0
copies_in x (y ∷ ys) = copies_in x ys + bit (x == y)

unfoldable pub copies : ℕ → FiberPool → ℕ
copies x p = count_below (λ y. x == y) p.size p.fibers

-- `q` is `p` with `n` fibers.
pub record Sized (p : FiberPool) (n : ℕ) (q : FiberPool) : Type 0 where
  pub size : q.size ≡ n
  pub capacity : q.capacity ≡ p.capacity
  pub shared : q.shared ≡ p.shared
  pub mutex_owner : q.mutex_owner ≡ p.mutex_owner

Sized-trans : {p q r : FiberPool} {m n : ℕ} → Sized p m q → Sized q n r → Sized p n r
Sized-trans a b = record {
  size = b.size;
  capacity = b.capacity ∙ a.capacity;
  shared = b.shared ∙ a.shared;
  mutex_owner = b.mutex_owner ∙ a.mutex_owner;
}

-- The item after the first `n` counts once.
count_below-push :
    (x n f : ℕ) (fs : ℕ → ℕ)
    → count_below (λ y. x == y) (n + 1) (update fs n f)
      ≡ count_below (λ y. x == y) n fs + bit (x == f)
unfolding count_below
count_below-push x n f fs =
    ground (arith, count_below-update_ge (λ y. x == y) n fs n f (omega arith))

count_below-pop :
    (x n : ℕ) (fs : ℕ → ℕ)
    → 0 < n
    → count_below (λ y. x == y) n fs ≡ count_below (λ y. x == y) (n - 1) fs + bit (x == fs (n - 1))
unfolding count_below
count_below-pop x zero fs h = absurd (omega arith)
count_below-pop x (suc n) fs h = simp unary_clauses refl

pub push_ok :
    (p : FiberPool) (f : ℕ)
    → p.size < p.capacity
    → (q : FiberPool) × (push p f ≡ some q)
      × Sized p (p.size + 1) q
      × ((x : ℕ) → copies x q ≡ copies x p + bit (x == f))
unfolding push copies
push_ok p f h = (
  record p { fibers = update p.fibers p.size f; size = p.size + 1 },
  rw (lt→ltb p.size p.capacity h) refl,
  record { size = refl; capacity = refl; shared = refl; mutex_owner = refl },
  λ x. count_below-push x p.size f p.fibers,
)

pub pop_ok :
    (p : FiberPool)
    → 0 < p.size
    → (q : FiberPool) × (pop p ≡ some (p.fibers (p.size - 1), q))
      × Sized p (p.size - 1) q
      × ((x : ℕ) → copies x p ≡ copies x q + bit (x == p.fibers (p.size - 1)))
unfolding pop copies
pop_ok p h = (
  record p { size = p.size - 1 },
  rw (lt→ltb 0 p.size h) refl,
  record { size = refl; capacity = refl; shared = refl; mutex_owner = refl },
  λ x. count_below-pop x p.size p.fibers h,
)

resize : {p q : FiberPool} {m n : ℕ} → Sized p m q → m ≡ n → Sized p n q
resize a e = record {
  size = a.size ∙ e;
  capacity = a.capacity;
  shared = a.shared;
  mutex_owner = a.mutex_owner;
}

itself : (p : FiberPool) (n : ℕ) → p.size ≡ n → Sized p n p
itself p n e = record { size = e; capacity = refl; shared = refl; mutex_owner = refl }

pub move_fibers_ok :
    (n : ℕ) (from into : FiberPool)
    → n ≤ from.size
    → into.size + n ≤ into.capacity
    → (f i : FiberPool) × (move_fibers n from into ≡ some (f, i))
      × Sized from (from.size - n) f
      × Sized into (into.size + n) i
      × ((x : ℕ) → copies x f + copies x i ≡ copies x from + copies x into)
unfolding move_fibers
move_fibers_ok zero from into a b = (
  from,
  into,
  refl,
  itself from (from.size - 0) (omega arith),
  itself into (into.size + 0) (omega arith),
  λ x. refl,
)
move_fibers_ok (suc n) from into a b =
    let (f, ef, sf, cf) = pop_ok from (omega arith) in
    let (i, ei, si, ci) = push_ok into (from.fibers (from.size - 1)) (omega arith) in
    let (g, j, e, sg, sj, c) =
      move_fibers_ok n f i (omega (arith, sf.size)) (omega (arith, si.size, si.capacity)) in
    (
      g,
      j,
      rw ef (rw ei e),
      resize (Sized-trans sf sg) (omega (arith, sf.size)),
      resize (Sized-trans si sj) (omega (arith, si.size)),
      λ x. omega (arith, c x, cf x, ci x),
    )

pub make_fibers_ok :
    (make : ℕ → ℕ) (n : ℕ) (p : FiberPool) (made : ℕ)
    → p.size + n ≤ p.capacity
    → (q : FiberPool) × (make_fibers make n p made ≡ some (q, made + n)) × Sized p (p.size + n) q
unfolding make_fibers
make_fibers_ok make zero p made h =
    (p, ap (λ k. some (p, k)) (omega arith), itself p (p.size + 0) (omega arith))
make_fibers_ok make (suc n) p made h =
    let (i, ei, si, ci) = push_ok p (make made) (omega arith) in
    let (q, e, sq) = make_fibers_ok make n i (made + 1) (omega (arith, si.size, si.capacity)) in
    (
      q,
      rw ei (e ∙ ap (λ k. some (q, k)) (omega arith)),
      resize (Sized-trans si sq) (omega (arith, si.size)),
    )

pub drop_fibers_ok :
    (n : ℕ) (p : FiberPool) (dropped : List ℕ)
    → n ≤ p.size
    → (q : FiberPool) × (out : List ℕ) × (drop_fibers n p dropped ≡ some (q, out))
      × Sized p (p.size - n) q
      × (length out ≡ length dropped + n)
      × ((x : ℕ) → copies x q + copies_in x out ≡ copies x p + copies_in x dropped)
unfolding drop_fibers
drop_fibers_ok zero p dropped h =
    (p, dropped, refl, itself p (p.size - 0) (omega arith), omega arith, λ x. refl)
drop_fibers_ok (suc n) p dropped h =
    let (i, ei, si, ci) = pop_ok p (omega arith) in
    let (q, out, e, sq, number, c) =
      drop_fibers_ok n i (p.fibers (p.size - 1) ∷ dropped) (omega (arith, si.size)) in
    (
      q,
      out,
      rw ei e,
      resize (Sized-trans si sq) (omega (arith, si.size)),
      omega (arith, number),
      λ x. omega (arith, c x, ci x),
    )

-- The pools of the worker `w` while no one holds the lock of the shared one.
pub record Bounded (w : ℕ) (s : Pools) : Type 0 where
  pub own_fits : s.own.size ≤ s.own.capacity
  pub parent_fits : s.parent.size ≤ s.parent.capacity
  pub private : s.own.shared ≡ false
  pub parent_shared : s.parent.shared ≡ true
  pub unlocked : s.parent.mutex_owner ≡ no_worker

-- How many fibers the two pools hold and were given back.
abbrev pub total : Pools → ℕ
total s = s.own.size + s.parent.size + length s.dropped

-- How often the fiber `x` is in the two pools and among those given back.
abbrev pub everywhere : ℕ → Pools → ℕ
everywhere x s = copies x s.own + copies x s.parent + copies_in x s.dropped

-- What a call that moves fibers and makes none promises: the new fibers `put` come in, and every
-- fiber is as often in the pools or among those given back as before.
pub record Moved (w : ℕ) (s : Pools) (put : List ℕ) (t : Pools) : Type 0 where
  pub bounded : Bounded w t
  pub total : total t ≡ total s + length put
  pub each : (x : ℕ) → everywhere x t ≡ everywhere x s + copies_in x put
  pub made : t.made ≡ s.made
