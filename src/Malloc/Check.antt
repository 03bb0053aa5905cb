-- ===== src/Malloc/Check.antt =====
-- The start of the allocator, and `internal_malloc_global_check` of runtime/internal-malloc.c against
-- the invariant.
use multicilk.Base.{ℕ, ◌≡◌, refl, ap, sym, subst, ◌∙◌, true, ◌==◌, arith}
use multicilk.Base.Int.{
  ℤ, pos, pos_part, neg_part, ◌+ℤ◌, ◌≤ℤ◌, leb_ℤ, eq_ℤ, sum, sum-zero, int_laws,
}
use multicilk.Malloc.{Desc, Memory, init_im_buckets}
use multicilk.Malloc.Pool.{cilk_internal_malloc_global_init}
use multicilk.Malloc.Balance.{
  DescOk, Balanced, free_bytes, wasted_bytes, worker_total, workers_total, workers_total_lem,
  workers_used_and_free, internal_malloc_global_check,
}

init-DescOk : DescOk init_im_buckets
unfolding init_im_buckets
init-DescOk = record { counted = λ i. refl; limited = λ i. refl }

free_bytes-init : free_bytes init_im_buckets ≡ pos 0
unfolding free_bytes init_im_buckets
free_bytes-init = sum-zero 7 _ (λ i. ap pos (omega arith))

pub wasted_bytes-init : wasted_bytes init_im_buckets ≡ pos 0
unfolding wasted_bytes init_im_buckets
wasted_bytes-init = sum-zero 7 _ (λ i. refl)

worker_total-init : worker_total init_im_buckets ≡ pos 0
unfolding worker_total
worker_total-init = rw free_bytes-init (rw wasted_bytes-init (unfold init_im_buckets ◌+ℤ◌ in refl))

-- After `cilk_internal_malloc_global_init`, and with every worker's buckets as
-- `cilk_internal_malloc_per_worker_init` leaves them, the accounts are even.
pub init-Balanced :
    (n : ℕ) (locals : ℕ → Desc)
    → ((w : ℕ) → locals w ≡ init_im_buckets)
    → Balanced n (pos 0) (cilk_internal_malloc_global_init locals)
unfolding cilk_internal_malloc_global_init
init-Balanced n locals h = record {
  global_lists = init-DescOk;
  local_lists = λ w. subst DescOk (sym (h w)) init-DescOk;
  in_chunk = omega arith;
  pooled = rw free_bytes-init (unfold init_im_buckets ◌+ℤ◌ in refl);
  shared = sym (
      unfold workers_total init_im_buckets ◌+ℤ◌ in
      sum-zero n (λ w. worker_total (locals w)) (λ w. ap worker_total (h w) ∙ worker_total-init));
}

add_zero : (a : ℤ) → a +ℤ pos 0 ≡ a
add_zero a = omega int_laws

leb_ℤ-true : (a : ℤ) → pos 0 ≤ℤ a → leb_ℤ (pos 0) a ≡ true
leb_ℤ-true a h = ground arith

eq_ℤ_refl : (a b : ℤ) → a ≡ b → eq_ℤ a b ≡ true
eq_ℤ_refl a b h = let p = ap pos_part h in let q = ap neg_part h in ground arith

eq_ℤ_gap : (a b : ℤ) (k : ℕ) → a +ℤ pos k ≡ b → eq_ℤ a b ≡ (k == 0)
unfolding ◌+ℤ◌
eq_ℤ_gap a b k h = let p = ap pos_part h in let q = ap neg_part h in ground arith

-- While the sums that it asserts are not negative, `internal_malloc_global_check` of even accounts
-- succeeds exactly if no bytes were wasted at the end of a chunk.
pub global_check-wasted :
    (n : ℕ) (m : Memory)
    → Balanced n (pos 0) m
    → pos 0 ≤ℤ m.desc.used
    → pos 0 ≤ℤ sum n (λ w. (m.locals w).used)
    → pos 0 ≤ℤ sum n (λ w. wasted_bytes (m.locals w))
    → internal_malloc_global_check n m ≡ (m.pool.wasted == 0)
unfolding internal_malloc_global_check
global_check-wasted n m v a b c =
    let shared : m.desc.used ≡ workers_used_and_free n m =
      sym (add_zero m.desc.used) ∙ v.shared ∙ sym (workers_total_lem n m) in
    let gap = eq_ℤ_gap _ _ m.pool.wasted v.pooled in
    let same = eq_ℤ_refl m.desc.used (workers_used_and_free n m) shared in
    rw (leb_ℤ-true m.desc.used a)
      (rw (leb_ℤ-true _ b) (rw (leb_ℤ-true _ c) (rw gap (rw same (ground arith)))))
