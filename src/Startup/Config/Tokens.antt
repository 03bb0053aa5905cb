-- ===== src/Startup/Config/Tokens.antt =====
-- What `strtok_r` gives, and the characters that `cilk_cfg_from_env` (runtime/cilk2c.c) keeps.
use multicilk.Base.{
  ℕ, ◌≡◌, refl, ap, Bool, true, false, not, ◌&&◌, some, List, [], ◌∷◌, ◌++◌, ◌==◌, arith,
}
use multicilk.Startup.Config.{
  is_kept, is_upper, filter_chars, skip, token, first_token, strtok, is_digit, digits_only,
}

-- All characters pass a test.
abbrev pub all : (ℕ → Bool) → List ℕ → Bool
all p [] = true
all p (c ∷ cs) = p c && all p cs

pub all-append :
    (p : ℕ → Bool) (xs ys : List ℕ) → all p xs ≡ true → all p ys ≡ true → all p (xs ++ ys) ≡ true
all-append p [] ys a b = b
all-append p (x ∷ xs) ys a b =
    let q : all p xs ≡ true = ground (arith, a) in
    let r = all-append p xs ys q b in ground (arith, a, r)

-- Characters of one kind are of another.
pub all-weaken :
    (p q : ℕ → Bool)
    → ((c : ℕ) → p c ≡ true → q c ≡ true)
    → (xs : List ℕ) → all p xs ≡ true
    → all q xs ≡ true
all-weaken p q f [] a = refl
all-weaken p q f (x ∷ xs) a =
    let r = f x (ground (arith, a)) in
    let ih = all-weaken p q f xs (ground (arith, a)) in ground (arith, r, ih)

abbrev pub differs : ℕ → ℕ → Bool
differs d c = not (c == d)

-- Characters that the first loop leaves as they are.
abbrev pub is_plain : ℕ → Bool
is_plain c = is_kept c && not (is_upper c)

pub filter_plain : (s : List ℕ) → all is_plain s ≡ true → filter_chars s ≡ s
unfolding filter_chars
filter_plain [] h = refl
filter_plain (c ∷ cs) h =
    let k : is_kept c ≡ true = ground (arith, h) in
    let u : is_upper c ≡ false = ground (arith, h) in
    rw k (rw u (ap (λ l. c ∷ l) (filter_plain cs (ground (arith, h)))))

token-ends :
    (d : ℕ) (xs rest : List ℕ) → all (differs d) xs ≡ true → token d (xs ++ (d ∷ rest)) ≡ (xs, rest)
unfolding token
token-ends d [] rest h = ground arith
token-ends d (x ∷ xs) rest h =
    let ih = token-ends d xs rest (ground (arith, h)) in
    let ne : (x == d) ≡ false = ground (arith, h) in rw ne (rw ih refl)

token-last : (d : ℕ) (xs : List ℕ) → all (differs d) xs ≡ true → token d xs ≡ (xs, [])
unfolding token
token-last d [] h = refl
token-last d (x ∷ xs) h =
    let ih = token-last d xs (ground (arith, h)) in
    let ne : (x == d) ≡ false = ground (arith, h) in rw ne (rw ih refl)

skip-none : (d x : ℕ) (xs : List ℕ) → (x == d) ≡ false → skip d (x ∷ xs) ≡ x ∷ xs
unfolding skip
skip-none d x xs h = rw h refl

-- The token up to the next delimiter, and the last one.
pub strtok_ends :
    (d x : ℕ) (xs rest : List ℕ)
    → all (differs d) (x ∷ xs) ≡ true
    → strtok d ((x ∷ xs) ++ (d ∷ rest)) ≡ some (x ∷ xs, rest)
unfolding strtok first_token
strtok_ends d x xs rest h =
    rw (skip-none d x (xs ++ (d ∷ rest)) (ground (arith, h)))
      (ap some (token-ends d (x ∷ xs) rest h))

pub strtok_last :
    (d x : ℕ) (xs : List ℕ)
    → all (differs d) (x ∷ xs) ≡ true
    → strtok d (x ∷ xs) ≡ some (x ∷ xs, [])
unfolding strtok first_token
strtok_last d x xs h = rw (skip-none d x xs (ground (arith, h))) (ap some (token-last d (x ∷ xs) h))

pub digits_only-all : (xs : List ℕ) → all is_digit xs ≡ true → digits_only xs ≡ xs
unfolding digits_only
digits_only-all [] h = refl
digits_only-all (c ∷ cs) h =
    let k : is_digit c ≡ true = ground (arith, h) in
    rw k (ap (λ l. c ∷ l) (digits_only-all cs (ground (arith, h))))
