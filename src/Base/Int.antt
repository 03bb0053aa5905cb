-- ===== src/Base/Int.antt =====
-- Signed C integers over the native numbers, under the library's names (its ℤ stands on the unary
-- ℕ). Sums and orders go through the two parts of an integer, which are numbers that `omega` reads.
use multicilk.Base.{
  ℕ, zero, suc, ◌+◌, ◌-◌, ◌*◌, ◌≤◌, ◌≡◌, refl, ap, sym, ◌≢◌, ◌⊎◌, Bool, arith, ltb, leb, ◌==◌,
  if◌then◌else◌, update, ◌<◌,
}
use native.Mathlib.Decide.{ℕ_discrete}

-- `negsuc n` is -(n + 1).
pub data ℤ : Type 0 where
  pos : ℕ → ℤ
  negsuc : ℕ → ℤ

abbrev pub pos_part : ℤ → ℕ
pos_part (pos n) = n
pos_part (negsuc n) = 0

abbrev pub neg_part : ℤ → ℕ
neg_part (pos n) = 0
neg_part (negsuc n) = suc n

-- a - b, as an integer.
abbrev pub sub_ℕ : ℕ → ℕ → ℤ
sub_ℕ a b = if leb b a then pos (a - b) else negsuc (b - a - 1)

infixl 65 ◌+ℤ◌ ◌-ℤ◌
infix 50 ◌≤ℤ◌
unfoldable pub ◌+ℤ◌ : ℤ → ℤ → ℤ
a +ℤ b = sub_ℕ (pos_part a + pos_part b) (neg_part a + neg_part b)

unfoldable pub ◌-ℤ◌ : ℤ → ℤ → ℤ
a -ℤ b = sub_ℕ (pos_part a + neg_part b) (neg_part a + pos_part b)

abbrev pub ◌≤ℤ◌ : ℤ → ℤ → Type 0
a ≤ℤ b = pos_part a + neg_part b ≤ pos_part b + neg_part a

abbrev pub ltb_ℤ : ℤ → ℤ → Bool
ltb_ℤ a b = ltb (pos_part a + neg_part b) (pos_part b + neg_part a)

abbrev pub leb_ℤ : ℤ → ℤ → Bool
leb_ℤ a b = leb (pos_part a + neg_part b) (pos_part b + neg_part a)

abbrev pub eq_ℤ : ℤ → ℤ → Bool
eq_ℤ a b = pos_part a + neg_part b == pos_part b + neg_part a

-- One lemma for each operation lets `omega` work with the operations shut, at any depth.
pub +ℤ_parts :
    (a b : ℤ)
    → pos_part (a +ℤ b) + neg_part a + neg_part b ≡ neg_part (a +ℤ b) + pos_part a + pos_part b
unfolding ◌+ℤ◌
+ℤ_parts a b = ground arith

pub -ℤ_parts :
    (a b : ℤ)
    → pos_part (a -ℤ b) + neg_part a + pos_part b ≡ neg_part (a -ℤ b) + pos_part a + neg_part b
unfolding ◌-ℤ◌
-ℤ_parts a b = ground arith

pub eq_of_parts : (a b : ℤ) → pos_part a + neg_part b ≡ pos_part b + neg_part a → a ≡ b
eq_of_parts a b h = ground arith

pub ruleset int_laws = (arith, +ℤ_parts, -ℤ_parts, eq_of_parts)

-- The sum of `f 0`, ..., `f (n - 1)`.
pub sum : ℕ → (ℕ → ℤ) → ℤ
sum zero f = pos 0
sum (suc n) f = sum n f +ℤ f n

-- Sums of equal items.
pub sum-congr : (n : ℕ) (f g : ℕ → ℤ) → ((i : ℕ) → i < n → f i ≡ g i) → sum n f ≡ sum n g
unfolding sum
sum-congr zero f g h = refl
sum-congr (suc n) f g h =
    ground (arith, h n (omega arith), sum-congr n f g (λ i l. h i (omega arith)))

swap_last : (x y c d a : ℤ) → x +ℤ d ≡ y +ℤ a → x +ℤ c +ℤ d ≡ y +ℤ c +ℤ a
swap_last x y c d a h =
    let p : pos_part (x +ℤ d) ≡ pos_part (y +ℤ a) = ap pos_part h in
    let q : neg_part (x +ℤ d) ≡ neg_part (y +ℤ a) = ap neg_part h in omega int_laws

swap_two : (x a b : ℤ) → x +ℤ a +ℤ b ≡ x +ℤ b +ℤ a
swap_two x a b = omega int_laws

-- Two families that agree but at `i`.
pub sum-change :
    (n : ℕ) (f g : ℕ → ℤ) (i : ℕ)
    → i < n
    → ((j : ℕ) → j ≢ i → g j ≡ f j)
    → sum n g +ℤ f i ≡ sum n f +ℤ g i
unfolding sum
sum-change zero f g i h same = absurd (omega arith)
sum-change (suc n) f g i h same = elim (ℕ_discrete i n) [
  | yes e ↦ rw e (
      rw (sum-congr n g f (λ j l. same j (λ q. omega (arith, q, e))))
        (swap_two (sum n f) (g n) (f n)))
  | no ne ↦
      rw (same n (λ q. ne (sym q)))
        (swap_last (sum n g) (sum n f) (f n) (f i) (g i) (sum-change n f g i (omega arith) same))
]

add_sums :
    (a b c d x y z : ℤ) → d ≡ a +ℤ b +ℤ c → d +ℤ (x +ℤ y +ℤ z) ≡ a +ℤ x +ℤ (b +ℤ y) +ℤ (c +ℤ z)
add_sums a b c d x y z h = let p = ap pos_part h in let q = ap neg_part h in omega int_laws

pub sum-add :
    (n : ℕ) (f g h : ℕ → ℤ) → sum n (λ i. f i +ℤ g i +ℤ h i) ≡ sum n f +ℤ sum n g +ℤ sum n h
unfolding sum
sum-add zero f g h = omega int_laws
sum-add (suc n) f g h =
    add_sums (sum n f) (sum n g) (sum n h) (sum n (λ i. f i +ℤ g i +ℤ h i)) (f n) (g n) (h n)
      (sum-add n f g h)

pub sum-zero : (n : ℕ) (f : ℕ → ℤ) → ((i : ℕ) → f i ≡ pos 0) → sum n f ≡ pos 0
unfolding sum ◌+ℤ◌
sum-zero zero f h = refl
sum-zero (suc n) f h = rw (sum-zero n f h) (rw (h n) refl)
