-- ===== src/Abi/Callbacks.antt =====
-- The callbacks of the runtime (runtime/cilk2c.c, `__cilkrts_atinit` and `__cilkrts_atexit`), and the
-- loops that call them (runtime/init.c). A callback is a number, and a loop gives those that it calls.
use multicilk.Base.{
  ℕ, zero, suc, ◌+◌, ◌≤◌, ◌<◌, ◌≡◌, refl, ap, ◌∙◌, sym, List, [], ◌∷◌, ◌++◌, leb, if◌then◌else◌,
  update, arith,
}
use multicilk.Base.Int.{ℤ, pos, negsuc}
use mathlib.Core.List.{append_assoc, append-nil}

-- MAX_CALLBACKS
abbrev max_callbacks : ℕ
max_callbacks = 32

-- The counter and the array of `struct cilkrts_callbacks`, for one of its two kinds.
pub record Table : Type 0 where
  pub last : ℕ
  pub slots : ℕ → ℕ

-- `__cilkrts_atinit` and `__cilkrts_atexit`: the result, and the table.
pub register : ℕ → Table → ℤ × Table
register callback t =
    if leb max_callbacks t.last
    then (negsuc 0, t)
    else (pos 0, record t { last = t.last + 1; slots = update t.slots t.last callback })

abbrev pub first : ℕ → (ℕ → ℕ) → List ℕ
first zero f = []
first (suc n) f = first n f ++ (f n ∷ [])

-- The loop over `init`, from the first one on.
pub run_init : Table → List ℕ
run_init t = first t.last t.slots

abbrev pub downwards : ℕ → (ℕ → ℕ) → List ℕ
downwards zero f = []
downwards (suc n) f = f n ∷ downwards n f

-- The loop over `exit`, from the last one down.
pub run_exit : Table → List ℕ
run_exit t = downwards t.last t.slots

abbrev pub register_all : List ℕ → Table → Table
register_all [] t = t
register_all (x ∷ xs) t = register_all xs (register x t).1

abbrev pub take : ℕ → List ℕ → List ℕ
take zero xs = []
take (suc n) [] = []
take (suc n) (x ∷ xs) = x ∷ take n xs

abbrev pub reverse : List ℕ → List ℕ
reverse [] = []
reverse (x ∷ xs) = reverse xs ++ (x ∷ [])

first-update_above : (n : ℕ) (f : ℕ → ℕ) (i x : ℕ) → n ≤ i → first n (update f i x) ≡ first n f
first-update_above zero f i x h = refl
first-update_above (suc n) f i x h = ground (arith, first-update_above n f i x)

reverse-append : (xs ys : List ℕ) → reverse (xs ++ ys) ≡ reverse ys ++ reverse xs
reverse-append [] ys = sym (append-nil (reverse ys))
reverse-append (x ∷ xs) ys =
    ap (λ l. l ++ (x ∷ [])) (reverse-append xs ys) ∙ append_assoc (reverse ys) (reverse xs) (x ∷ [])

downwards-reverse : (n : ℕ) (f : ℕ → ℕ) → downwards n f ≡ reverse (first n f)
downwards-reverse zero f = refl
downwards-reverse (suc n) f =
    ap (λ l. f n ∷ l) (downwards-reverse n f) ∙ sym (reverse-append (first n f) (f n ∷ []))

added : ℕ → Table → Table
added x t = record t { last = suc t.last; slots = update t.slots t.last x }

register-room : (x : ℕ) (t : Table) → t.last < 32 → register x t ≡ (pos 0, added x t)
unfolding register added
register-room x t h = ground (arith, h)

run_init-added : (x : ℕ) (t : Table) → run_init (added x t) ≡ run_init t ++ (x ∷ [])
unfolding run_init added
run_init-added x t = ground (arith, first-update_above t.last t.slots t.last x (omega arith))

register-full : (x : ℕ) (t : Table) → 32 ≤ t.last → register x t ≡ (negsuc 0, t)
unfolding register
register-full x t h = ground (arith, h)

run_init-all_full :
    (xs : List ℕ) (t : Table) → 32 ≤ t.last → run_init (register_all xs t) ≡ run_init t
run_init-all_full [] t h = refl
run_init-all_full (x ∷ xs) t h = rw (register-full x t h) (run_init-all_full xs t h)

run_init-all :
    (room : ℕ) (xs : List ℕ) (t : Table)
    → t.last + room ≡ 32
    → run_init (register_all xs t) ≡ run_init t ++ take room xs
run_init-all zero xs t h = run_init-all_full xs t (omega (arith, h)) ∙ sym (append-nil (run_init t))
run_init-all (suc room) [] t h = sym (append-nil (run_init t))
run_init-all (suc room) (x ∷ xs) t h = rw (register-room x t (omega (arith, h))) (
    run_init-all room xs (added x t) (unfold added in omega (arith, h))
    ∙ ap (λ l. l ++ take room xs) (run_init-added x t)
    ∙ append_assoc (run_init t) (x ∷ []) (take room xs))

run_exit-reverse : (t : Table) → run_exit t ≡ reverse (run_init t)
unfolding run_exit run_init
run_exit-reverse t = downwards-reverse t.last t.slots

-- Of the callbacks that are registered in an empty table, the first 32 are taken; the loop over `init`
-- calls these in the order of their registration, and the loop over `exit` in the reverse order.
pub registered_in_order :
    (xs : List ℕ) (slots : ℕ → ℕ)
    → let t = register_all xs (record { last = 0; slots = slots }) in
      (run_init t ≡ take 32 xs) × (run_exit t ≡ reverse (take 32 xs))
registered_in_order xs slots =
    let t = register_all xs (record { last = 0; slots = slots }) in
    let e : run_init t ≡ take 32 xs =
      unfold run_init in run_init-all 32 xs (record { last = 0; slots = slots }) refl in
    (e, run_exit-reverse t ∙ ap reverse e)
