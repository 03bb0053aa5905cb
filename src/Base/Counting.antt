-- ===== src/Base/Counting.antt =====
-- Families `ℕ → A` as C arrays: how many of the first `n` items pass a test.
use Prim.Native.Nat.{ℕ, zero, suc, ◌+◌, ◌≤◌, ◌<◌}
use mathlib.Core.Path.{◌≡◌, refl}
use mathlib.Core.Logic.{◌≢◌}
use mathlib.Core.Bool.{Bool, true, false, ◌||◌}
use mathlib.Core.List.{List, [], ◌∷◌}
use native.Mathlib.Decide.{dec_lt, ℕ_discrete}
use native.Mathlib.Omega.{arith}
use multicilk.Base.Tests.{◌==◌, update}

abbrev pub bit : Bool → ℕ
bit true = 1
bit false = 0

module _ {ℓ} {A : Type ℓ} (p : A → Bool) where
  unfoldable pub count_below : ℕ → (ℕ → A) → ℕ
  count_below zero f = 0
  count_below (suc n) f = count_below n f + bit (p (f n))

  pub count_below-update_ge :
      (n : ℕ) (f : ℕ → A) (i : ℕ) (a : A) → n ≤ i → count_below n (update f i a) ≡ count_below n f
  unfolding count_below
  count_below-update_ge zero f i a h = refl
  count_below-update_ge (suc n) f i a h = ground (arith, count_below-update_ge n f i a)

  pub count_below-update :
      (n : ℕ) (f : ℕ → A) (i : ℕ) (a : A)
      → i < n
      → count_below n (update f i a) + bit (p (f i)) ≡ count_below n f + bit (p a)
  unfolding count_below
  count_below-update zero f i a h = absurd (omega arith)
  count_below-update (suc n) f i a h = elim (dec_lt i n) [
    | yes below ↦ ground (arith, count_below-update n f i a below)
    | no last ↦ ground (arith, count_below-update_ge n f i a)
  ]

  pub count_below-le : (n : ℕ) (f : ℕ → A) → count_below n f ≤ n
  unfolding count_below
  count_below-le zero f = omega arith
  count_below-le (suc n) f = ground (arith, count_below-le n f)

  -- One item that fails the test leaves room.
  pub count_below-lt : (n : ℕ) (f : ℕ → A) (i : ℕ) → i < n → p (f i) ≡ false → count_below n f < n
  unfolding count_below
  count_below-lt zero f i h e = absurd (omega arith)
  count_below-lt (suc n) f i h e = elim (dec_lt i n) [
    | yes below ↦ ground (arith, count_below-lt n f i below e)
    | no last ↦ ground (arith, count_below-le n f)
  ]

-- The items from index `j` on, `n` of them.
unfoldable pub window {ℓ} : {A : Type ℓ} → (ℕ → A) → ℕ → ℕ → List A
window f zero j = []
window f (suc n) j = f j ∷ window f n (j + 1)

abbrev pub member : ℕ → List ℕ → Bool
member i [] = false
member i (x ∷ xs) = (i == x) || member i xs

pub count_below-eq_zero {ℓ} :
    {A : Type ℓ} (p : A → Bool) (n : ℕ) (f : ℕ → A)
    → count_below p n f ≡ 0
    → (i : ℕ) → i < n
    → p (f i) ≡ false
unfolding count_below
count_below-eq_zero p zero f e i h = absurd (omega arith)
count_below-eq_zero p (suc n) f e i h = elim (dec_lt i n) [
  | yes below ↦ count_below-eq_zero p n f (omega arith) i below
  | no last ↦ ground arith
]

-- No item occurs twice.
abbrev pub NoDup : List ℕ → Type 0
NoDup [] = Unit
NoDup (x ∷ xs) = (member x xs ≡ false) × NoDup xs

pub member-window : (f : ℕ → ℕ) (n j k : ℕ) → j ≤ k → k < j + n → member (f k) (window f n j) ≡ true
unfolding window
member-window f zero j k l h = absurd (omega arith)
member-window f (suc n) j k l h = elim (ℕ_discrete k j) [
  | yes e ↦ ground arith
  | no ne ↦ ground (arith, member-window f n (j + 1) k (omega arith) (omega arith))
]

-- An item that no index gives is not in the window.
pub member-window_not :
    (f : ℕ → ℕ) (a n j : ℕ)
    → ((k : ℕ) → j ≤ k → k < j + n → a ≢ f k)
    → member a (window f n j) ≡ false
unfolding window
member-window_not f a zero j h = refl
member-window_not f a (suc n) j h = ground (
  arith,
  h j (omega arith) (omega arith),
  member-window_not f a n (j + 1) (λ k l m. h k (omega arith) (omega arith)),
)

pub window-NoDup :
    (f : ℕ → ℕ) (n j : ℕ)
    → ((a b : ℕ) → a < j + n → b < j + n → f a ≡ f b → a ≡ b)
    → NoDup (window f n j)
unfolding window
window-NoDup f zero j once = tt
window-NoDup f (suc n) j once = (
  member-window_not f (f j) n (j + 1)
      (λ k l m e. absurd (omega (arith, once j k (omega arith) (omega arith) e))),
  window-NoDup f n (j + 1) (λ a b p q e. once a b (omega arith) (omega arith) e),
)
