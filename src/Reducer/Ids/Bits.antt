-- ===== src/Reducer/Ids/Bits.antt =====
-- The search of runtime/reducer_impl.c for a clear bit.
use multicilk.Base.{
  ℕ, zero, suc, ◌+◌, ◌*◌, ◌/◌, ◌%◌, ◌≤◌, ◌<◌, true, false, none, some, ◌≡◌, Bool-cases,
  Option-cases, inl, inr, arith,
}
use native.Mathlib.Decide.{ℕ_discrete}
use multicilk.Reducer.Ids.{Word, long_bit, in_use, lowest_clear, scan_words}

pub lowest_clear-some :
    (word : Word) (n k : ℕ) {b : ℕ}
    → lowest_clear word n k ≡ some b
    → (word b ≡ false) × (k ≤ b) × (b < k + n)
unfolding lowest_clear
lowest_clear-some word zero k e = cc
lowest_clear-some word (suc n) k {b} e = elim (Bool-cases (word k)) [
  | inl set ↦
      let r = lowest_clear-some word n (k + 1) {b = b} (ground arith) in
      (r.0, omega arith, omega arith)
  | inr clear ↦ ground arith
]

pub lowest_clear-none :
    (word : Word) (n k : ℕ)
    → lowest_clear word n k ≡ none
    → (b : ℕ) → k ≤ b
    → b < k + n
    → word b ≡ true
unfolding lowest_clear
lowest_clear-none word zero k e b l h = absurd (omega arith)
lowest_clear-none word (suc n) k e b l h = elim (ℕ_discrete b k) [
  | yes p ↦ ground arith
  | no p ↦
      ground (arith, lowest_clear-none word n (k + 1) (ground arith) b (omega arith) (omega arith))
]

pub scan_words-some :
    (used : ℕ → Word) (n i : ℕ) {id : ℕ}
    → scan_words used n i ≡ some id
    → (in_use used id ≡ false) × (id < (i + n) * long_bit)
unfolding scan_words
scan_words-some used zero i e = cc
scan_words-some used (suc n) i {id} e = elim (Option-cases (lowest_clear (used i) long_bit 0)) [
  | inl full ↦ let r = scan_words-some used n (i + 1) {id = id} (ground arith) in (r.0, omega arith)
  | inr (b, found) ↦ let r = lowest_clear-some (used i) long_bit 0 found in ground arith
]

pub scan_words-none :
    (used : ℕ → Word) (n i : ℕ)
    → scan_words used n i ≡ none
    → (id : ℕ) → i ≤ id / long_bit
    → id / long_bit < i + n
    → in_use used id ≡ true
unfolding scan_words
scan_words-none used zero i e id l h = absurd (omega arith)
scan_words-none used (suc n) i e id l h = elim (Option-cases (lowest_clear (used i) long_bit 0)) [
  | inr (b, found) ↦ ground arith
  | inl full ↦ elim (ℕ_discrete (id / long_bit) i) [
    | yes p ↦ ground (arith, lowest_clear-none (used i) long_bit 0 full (id % long_bit))
    | no p ↦ scan_words-none used n (i + 1) (ground arith) id (omega arith) (omega arith)
  ]
]
