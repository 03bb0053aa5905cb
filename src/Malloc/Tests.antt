-- ===== src/Malloc/Tests.antt =====
-- The allocator at its start, and the results at a small allocation.
use multicilk.Base.{
  ℕ, ◌⊎◌, ◌+◌, ◌*◌, ◌^◌, ◌-◌, [], ◌≤◌, ◌<◌, ◌≡◌, ◌≢◌, refl, length, some, true, arith,
}
use multicilk.Base.Int.{pos, ◌≤ℤ◌, sum, sum-zero}
use multicilk.Malloc.{
  Memory, init_im_buckets, size_to_bucket, size_to_bucket_lem, bucket_to_size, bucket_capacity,
  size_thresh,
}
use multicilk.Malloc.Pool.{cilk_internal_malloc_global_init}
use multicilk.Malloc.Worker.{cilk_internal_malloc, cilk_internal_free}
use multicilk.Malloc.Balance.{Balanced, internal_malloc_global_check, wasted_bytes}
use multicilk.Malloc.Give.{local_list}
use multicilk.Malloc.Check.{init-Balanced, global_check-wasted, wasted_bytes-init}
use multicilk.Malloc.Correct.{malloc_ok}
use multicilk.Malloc.Free.{free_ok}

-- Chunk `k` of the system, 64 KiB apart.
abbrev blocks : ℕ → ℕ → ℕ
blocks size k = (k + 1) * 65536

blocks_given : (size k : ℕ) → blocks size k ≢ 0
blocks_given size k e = omega arith

abbrev fresh : Memory
fresh = record {
  desc = init_im_buckets;
  pool = record {
    mem_begin = 0;
    mem_end = 0;
    mem_list = λ _. 0;
    mem_list_index = 2 ^ 32 - 1;
    mem_list_size = 8;
    allocated = 0;
    wasted = 0;
  };
  locals = λ _. init_im_buckets;
  given = 0;
  returned = [];
}

fresh-Balanced : Balanced 2 (pos 0) fresh
unfolding cilk_internal_malloc_global_init
fresh-Balanced = init-Balanced 2 (λ _. init_im_buckets) (λ _. refl)

malloc_ok_example :
    (p : ℕ) × (t : Memory) × (cilk_internal_malloc blocks fresh 1 100 2 ≡ some (p, t))
    × Balanced 2 (pos 0) t
malloc_ok_example = malloc_ok blocks 2 fresh 1 100 2 blocks_given fresh-Balanced (omega arith)

free_ok_example :
    (t : Memory) × (cilk_internal_free fresh 1 65536 100 2 ≡ some t)
    × Balanced 2 (pos 0) t
    × (100 ≤ size_thresh
        → length (local_list t 1 (size_to_bucket 100)) ≤ bucket_capacity (size_to_bucket 100))
free_ok_example = free_ok 2 fresh 1 65536 100 2 fresh-Balanced (omega arith)

used_none : pos 0 ≤ℤ fresh.desc.used
unfolding init_im_buckets
used_none = omega arith

used_sum : pos 0 ≤ℤ sum 2 (λ w. (fresh.locals w).used)
unfolding init_im_buckets
used_sum = rw (sum-zero 2 (λ w. (fresh.locals w).used) (λ w. refl)) (omega arith)

wasted_sum : pos 0 ≤ℤ sum 2 (λ w. wasted_bytes (fresh.locals w))
wasted_sum =
    rw (sum-zero 2 (λ w. wasted_bytes (fresh.locals w)) (λ w. wasted_bytes-init)) (omega arith)

global_check-wasted_example : internal_malloc_global_check 2 fresh ≡ true
global_check-wasted_example =
    global_check-wasted 2 fresh fresh-Balanced used_none used_sum wasted_sum

size_to_bucket_lem_example :
    (size_to_bucket 100 < 7)
      × (100 ≤ bucket_to_size (size_to_bucket 100))
      × ((j : ℕ) → j < size_to_bucket 100 → bucket_to_size j < 100)
    ⊎ (size_to_bucket 100 ≡ 2 ^ 32 - 1) × (size_thresh < 100)
size_to_bucket_lem_example = size_to_bucket_lem 100
