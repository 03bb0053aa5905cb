-- ===== src/Malloc/Pool.antt =====
-- The global pool of runtime/internal-malloc.c, in the order of the file. `none` is a failed check.
-- The blocks of the system (`mmap` or `malloc`) are a parameter: `system size n` is the address of
-- the block that the n-th call gives, 0 for NULL.
use multicilk.Base.{
  ℕ, zero, suc, ◌+◌, ◌-◌, ◌%◌, ◌^◌, not, Option, none, some, [], ◌∷◌, ltb, leb, ◌==◌, if◌then◌else◌,
  update,
}
use multicilk.Base.Int.{pos, ◌+ℤ◌}
use multicilk.Base.Fallible.{◌>>=◌, ◌>>◌, assert}
use multicilk.Malloc.{
  Bucket, Desc, Memory, set_bucket, remove_from_free_list, init_im_buckets, chunk_size,
  mem_list_step, size_thresh, num_buckets,
}

-- `free_to_system`
unfoldable pub free_to_system : Memory → ℕ → Memory
free_to_system m p = record m { returned = p ∷ m.returned }

module _ (system : ℕ → ℕ → ℕ) where
  unfoldable pub malloc_from_system : Memory → ℕ → Option (ℕ × Memory)
  malloc_from_system m size =
      let mem = system size m.given in
      assert (not (mem == 0)) >> some (mem, record m { given = m.given + 1 })

  unfoldable pub extend_global_pool : Memory → Option Memory
  unfolding malloc_from_system
  extend_global_pool m = do
    (mem, t) ← malloc_from_system m chunk_size
    let index = (m.pool.mem_list_index + 1) % 2 ^ 32
    some (record t {
      pool = record t.pool {
        mem_begin = mem;
        mem_end = mem + chunk_size;
        allocated = t.pool.allocated + chunk_size;
        mem_list_index = index;
        mem_list_size =
            if leb t.pool.mem_list_size index
            then t.pool.mem_list_size + mem_list_step
            else t.pool.mem_list_size;
        mem_list = update t.pool.mem_list index mem;
      };
    })

  -- The part of `global_im_alloc` that takes a piece off the pool's chunk.
  unfoldable pub carve : Memory → ℕ → Option (ℕ × Memory)
  carve m size = do
    t ←
        if ltb m.pool.mem_end (m.pool.mem_begin + size)
        then extend_global_pool (record m {
          pool = record m.pool { wasted = m.pool.wasted + (m.pool.mem_end - m.pool.mem_begin) };
        })
        else some m
    some (
      t.pool.mem_begin,
      record t { pool = record t.pool { mem_begin = t.pool.mem_begin + size } },
    )

  -- The block from the free list of the bucket, or else from the chunk.
  unfoldable pub alloc_from : Option ℕ × Bucket → Memory → ℕ → ℕ → Option (ℕ × Memory)
  alloc_from (some p, bucket) m size i = some (p, record m { desc = set_bucket m.desc i bucket })
  alloc_from (none, bucket) m size i = carve (record m { desc = set_bucket m.desc i bucket }) size

  unfoldable pub global_im_alloc : Memory → ℕ → ℕ → Option (ℕ × Memory)
  unfolding alloc_from
  global_im_alloc m size which_bucket =
      let t : Memory = record m { desc = record m.desc { used = m.desc.used +ℤ pos size } } in
      assert (leb size size_thresh)
      >> assert (ltb which_bucket num_buckets)
      >> alloc_from (remove_from_free_list (m.desc.buckets which_bucket)) t size which_bucket

-- The loop of `global_im_pool_destroy` over the `n` entries from `i` on.
pub free_chunks : ℕ → ℕ → Memory → Memory
unfolding free_to_system
free_chunks zero i m = m
free_chunks (suc n) i m =
    let t = free_to_system m (m.pool.mem_list i) in
    free_chunks n (i + 1)
      (record t { pool = record t.pool { mem_list = update t.pool.mem_list i 0 } })

pub global_im_pool_destroy : Memory → Memory
unfolding free_chunks
global_im_pool_destroy m =
    let t = free_chunks m.pool.mem_list_size 0 m in
    record t {
      pool = record t.pool {
        mem_begin = 0;
        mem_end = 0;
        mem_list_index = 2 ^ 32 - 1;
        mem_list_size = 0;
      };
    }

-- `cilk_internal_malloc_global_init`; `calloc` gives a list of NULL pointers.
unfoldable pub cilk_internal_malloc_global_init : (ℕ → Desc) → Memory
cilk_internal_malloc_global_init locals = record {
  desc = init_im_buckets;
  pool = record {
    mem_begin = 0;
    mem_end = 0;
    mem_list = λ _. 0;
    mem_list_index = 2 ^ 32 - 1;
    mem_list_size = mem_list_step;
    allocated = 0;
    wasted = 0;
  };
  locals = locals;
  given = 0;
  returned = [];
}
