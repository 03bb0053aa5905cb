-- ===== src/Startup/Config/Decimal.antt =====
-- Decimal numbers: `atoi` as runtime/cilk2c.c uses it is a left inverse of printing.
use multicilk.Base.{
  ℕ, zero, suc, ◌+◌, ◌-◌, ◌*◌, ◌/◌, ◌%◌, ◌≤◌, ◌<◌, ◌≡◌, refl, ◌∙◌, true, some, List, [], ◌∷◌, ◌++◌,
  ltb, if◌then◌else◌, arith, Bool-cases, inl, inr,
}
use multicilk.Startup.Config.{is_digit, atoi_from, atoi}
use multicilk.Startup.Config.Tokens.{all, all-append}

-- The decimal digits of a number, on fuel: every turn divides it by 10.
unfoldable pub digits_from : ℕ → ℕ → List ℕ
digits_from zero n = []
digits_from (suc k) n =
    let rest = digits_from k (n / 10) in
    if ltb n 10 then (48 + n) ∷ [] else rest ++ ((48 + n % 10) ∷ [])

pub digits : ℕ → List ℕ
digits n = digits_from (suc n) n

digits_from-all : (k n : ℕ) → all is_digit (digits_from k n) ≡ true
unfolding digits_from
digits_from-all zero n = refl
digits_from-all (suc k) n = elim (Bool-cases (ltb n 10)) [
  | inl e ↦ rw e (ground (arith, e))
  | inr e ↦ rw e (
      all-append is_digit (digits_from k (n / 10)) ((48 + n % 10) ∷ []) (digits_from-all k (n / 10))
        (ground arith))
]

pub digits-all : (n : ℕ) → all is_digit (digits n) ≡ true
unfolding digits
digits-all n = digits_from-all (suc n) n

atoi_from-append :
    (acc : ℕ) (xs : List ℕ) (c : ℕ)
    → all is_digit xs ≡ true
    → is_digit c ≡ true
    → atoi_from acc (xs ++ (c ∷ [])) ≡ 10 * atoi_from acc xs + (c - 48)
unfolding atoi_from
atoi_from-append acc [] c h d = rw d refl
atoi_from-append acc (x ∷ xs) c h d =
    let q : is_digit x ≡ true = ground (arith, h) in
    rw q (atoi_from-append (10 * acc + (x - 48)) xs c (ground (arith, h)) d)

atoi_from-digits : (k n : ℕ) → n < k → atoi_from 0 (digits_from k n) ≡ n
unfolding digits_from
atoi_from-digits zero n h = absurd (omega arith)
atoi_from-digits (suc k) n h = elim (Bool-cases (ltb n 10)) [
  | inl e ↦ rw e (unfold atoi_from in ground (arith, e))
  | inr e ↦
      let ih = atoi_from-digits k (n / 10) (ground (arith, e, h)) in
      let last =
        atoi_from-append 0 (digits_from k (n / 10)) (48 + n % 10) (digits_from-all k (n / 10))
          (ground arith) in
      rw e (last ∙ omega (arith, ih))
]

pub atoi-digits : (n : ℕ) → n ≤ 0x7fffffff → atoi (digits n) ≡ some n
unfolding atoi digits
atoi-digits n h = let e = atoi_from-digits (suc n) n (omega arith) in ground (arith, e, h)

append-first : (xs : List ℕ) (c : ℕ) → (x : ℕ) × (ys : List ℕ) × ((xs ++ (c ∷ [])) ≡ x ∷ ys)
append-first [] c = (c, [], refl)
append-first (x ∷ xs) c = (x, xs ++ (c ∷ []), refl)

-- A number has a first digit.
pub digits-first : (n : ℕ) → (x : ℕ) × (ys : List ℕ) × (digits n ≡ x ∷ ys)
unfolding digits digits_from
digits-first n = elim (Bool-cases (ltb n 10)) [
  | inl e ↦ (48 + n, [], rw e refl)
  | inr e ↦ let (x, ys, q) = append-first (digits_from n (n / 10)) (48 + n % 10) in (x, ys, rw e q)
]
