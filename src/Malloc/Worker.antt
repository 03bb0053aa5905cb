-- ===== src/Malloc/Worker.antt =====
-- The per-worker allocator of runtime/internal-malloc.c. `none` is a failed check.
use multicilk.Base.{
  ℕ, zero, suc, ◌+◌, ◌-◌, ◌/◌, Bool, true, false, not, ◌&&◌, Option, none, some, List, [], ◌∷◌, ltb,
  leb, ◌==◌, if◌then◌else◌, update,
}
use multicilk.Base.Int.{pos, ◌+ℤ◌, ◌-ℤ◌, ltb_ℤ, leb_ℤ, eq_ℤ}
use multicilk.Base.Fallible.{◌>>=◌, ◌>>◌, assert}
use multicilk.Malloc.{
  Bucket, Desc, ImPool, Memory, set_bucket, add_to_free_list, remove_from_free_list,
  init_im_buckets, bucket_capacity, bucket_to_size, size_to_bucket, size_thresh, num_buckets,
}
use multicilk.Malloc.Pool.{
  malloc_from_system, free_to_system, global_im_alloc, global_im_pool_destroy,
}

abbrev pub set_local : Memory → ℕ → Desc → Memory
set_local m w d = record m { locals = update m.locals w d }

abbrev pub set_local_bucket : Memory → ℕ → ℕ → Bucket → Memory
set_local_bucket m w i b = set_local m w (set_bucket (m.locals w) i b)

-- IM_NUM_TAGS
abbrev pub num_tags : ℕ
num_tags = 4

module _ (system : ℕ → ℕ → ℕ) where
  -- The loop of `im_allocate_batch`.
  unfoldable pub take_blocks : ℕ → ℕ → ℕ → ℕ → Memory → Option Memory
  take_blocks zero w size i m = some m
  take_blocks (suc n) w size i m = do
    (p, t) ← global_im_alloc system m size i
    take_blocks n w size i (set_local_bucket t w i (add_to_free_list ((t.locals w).buckets i) p))

  unfoldable pub im_allocate_batch : Memory → ℕ → ℕ → ℕ → Option Memory
  im_allocate_batch m w size i = do
    let batch_size = bucket_capacity i / 2
    t ← take_blocks batch_size w size i m
    let b = (t.locals w).buckets i
    let allocated = b.allocated +ℤ pos batch_size
    some (
        set_local_bucket t w i (record b {
          allocated = allocated;
          max_allocated = if ltb_ℤ b.max_allocated allocated then allocated else b.max_allocated;
        }))

  -- The block that the list of a worker gave; the assertion of `cilk_internal_malloc` fails where it
  -- gave none.
  unfoldable pub take_from : Option ℕ × Bucket → Memory → ℕ → ℕ → Option (ℕ × Memory)
  take_from (some p, b) m w i = some (p, set_local_bucket m w i b)
  take_from (none, b) m w i = none

  -- A batch is fetched where the list of the worker gave no block.
  unfoldable pub or_fetch : Option ℕ × Bucket → Memory → ℕ → ℕ → ℕ → Option (ℕ × Memory)
  or_fetch (some p, b) m w csize i = some (p, set_local_bucket m w i b)
  or_fetch (none, b) m w csize i = im_allocate_batch m w csize i >>= λ t.
      take_from (remove_from_free_list ((t.locals w).buckets i)) t w i

  unfoldable pub take_or_fetch : Memory → ℕ → ℕ → ℕ → Option (ℕ × Memory)
  take_or_fetch m w csize i = or_fetch (remove_from_free_list ((m.locals w).buckets i)) m w csize i

  -- The counters of the worker `w` after a block of `size` bytes is given.
  abbrev pub count_malloc : Memory → ℕ → ℕ → ℕ → ℕ → Memory
  count_malloc m w size tag i =
      let d = m.locals w in
      let b = d.buckets i in
      set_local m w (record d {
        buckets =
            update d.buckets i (record b { wasted = b.wasted +ℤ pos (bucket_to_size i - size) });
        used = d.used +ℤ pos size;
        num_malloc = update d.num_malloc tag (d.num_malloc tag +ℤ pos 1);
      })

  unfoldable pub cilk_internal_malloc : Memory → ℕ → ℕ → ℕ → Option (ℕ × Memory)
  cilk_internal_malloc m w size tag =
      let i = size_to_bucket size in
      if leb num_buckets i
      then malloc_from_system system m size
      else take_or_fetch (count_malloc m w size tag i) w (bucket_to_size i) i

-- The memory after the block `p` moves from the worker's list to the global one; `b` is the worker's
-- bucket without it.
abbrev pub return_block : ℕ → Bucket → Memory → ℕ → ℕ → ℕ → Memory
return_block p b m w size i = record m {
  desc = record m.desc {
    buckets = update m.desc.buckets i (add_to_free_list (m.desc.buckets i) p);
    used = m.desc.used -ℤ pos size;
  };
  locals =
      update m.locals w (set_bucket (m.locals w) i (record b { allocated = b.allocated -ℤ pos 1 }));
}

-- One turn of the loop of `im_free_batch`; `none` is its `break`.
unfoldable pub return_one : Option ℕ × Bucket → Memory → ℕ → ℕ → ℕ → Option Memory
return_one (none, b) m w size i = none
return_one (some p, b) m w size i = some (return_block p b m w size i)

-- The loop of `im_free_batch`.
unfoldable pub return_blocks : ℕ → ℕ → ℕ → ℕ → Memory → Memory
return_blocks zero w size i m = m
return_blocks (suc n) w size i m =
    elim (return_one (remove_from_free_list ((m.locals w).buckets i)) m w size i) [
      | none ↦ m
      | some t ↦ return_blocks n w size i t
    ]

unfoldable pub im_free_batch : Memory → ℕ → ℕ → ℕ → Memory
im_free_batch m w size i = return_blocks (bucket_capacity i / 2) w size i m

-- The loop of `cilk_internal_free`, on fuel.
unfoldable pub trim : ℕ → Memory → ℕ → ℕ → ℕ → Option Memory
trim zero m w csize i = none
trim (suc fuel) m w csize i =
    let b = (m.locals w).buckets i in
    let rest = trim fuel (im_free_batch m w csize i) w csize i in
    if ltb b.free_list_limit b.free_list_size then rest else some m

-- The counters and the list of the worker `w` after a block is given back.
abbrev pub count_free : Memory → ℕ → ℕ → ℕ → ℕ → ℕ → Memory
count_free m w p size tag i =
    let d = m.locals w in
    let b = d.buckets i in
    set_local m w (record d {
      buckets =
          update d.buckets i
            (add_to_free_list (record b { wasted = b.wasted -ℤ pos (bucket_to_size i - size) }) p);
      used = d.used -ℤ pos size;
      num_malloc = update d.num_malloc tag (d.num_malloc tag -ℤ pos 1);
    })

-- Each turn of the loop shortens the list, so that its length is fuel enough.
unfoldable pub cilk_internal_free : Memory → ℕ → ℕ → ℕ → ℕ → Option Memory
cilk_internal_free m w p size tag =
    if ltb size_thresh size
    then some (free_to_system m p)
    else let i = size_to_bucket size in
      do
        assert (ltb i num_buckets)
        let t = count_free m w p size tag i
        trim (((t.locals w).buckets i).free_list_size + 1) t w (bucket_to_size i) i

-- `cilk_internal_free_global`; a size above SIZE_THRESH would index past the buckets.
unfoldable pub cilk_internal_free_global : Memory → ℕ → ℕ → ℕ → Option Memory
cilk_internal_free_global m p size tag =
    let i = size_to_bucket size in
    assert (ltb i num_buckets)
    >> some (record m {
      desc = record m.desc {
        buckets = update m.desc.buckets i (add_to_free_list (m.desc.buckets i) p);
        num_malloc = update m.desc.num_malloc tag (m.desc.num_malloc tag -ℤ pos 1);
        used = m.desc.used -ℤ pos (bucket_to_size i);
      };
    })

unfoldable pub cilk_internal_malloc_per_worker_init : Memory → ℕ → Memory
cilk_internal_malloc_per_worker_init m w = set_local m w init_im_buckets

pub assert_global_pool : ImPool → Bool
assert_global_pool p =
    ltb p.mem_list_index p.mem_list_size
    && (if ltb 0 p.wasted then ltb p.wasted p.allocated else true)

abbrev is_empty : List ℕ → Bool
is_empty [] = true
is_empty (_ ∷ _) = false

pub assert_bucket : Bucket → Bool
assert_bucket b =
    (if is_empty b.free_list then b.free_list_size == 0 else not (b.free_list_size == 0))
    && leb b.free_list_size b.free_list_limit
    && leb_ℤ b.allocated b.max_allocated

-- The loop `while (free_list)` of `cilk_internal_malloc_per_worker_terminate`, on fuel.
pub drain : ℕ → Memory → ℕ → ℕ → Option Memory
drain zero m w i = none
drain (suc fuel) m w i =
    let rest = drain fuel (im_free_batch m w (bucket_to_size i) i) w i in
    if is_empty ((m.locals w).buckets i).free_list then some m else rest

-- The loop over the `n` buckets from `i` on.
pub drain_buckets : ℕ → Memory → ℕ → ℕ → Option Memory
unfolding assert_bucket drain
drain_buckets zero m w i = some m
drain_buckets (suc n) m w i = do
  assert (assert_bucket ((m.locals w).buckets i))
  t ← drain (((m.locals w).buckets i).free_list_size + 1) m w i
  drain_buckets n t w (i + 1)

-- The loop over the `n` tags from `i` on.
pub merge_tags : ℕ → Memory → ℕ → ℕ → Memory
merge_tags zero m w i = m
merge_tags (suc n) m w i =
    let d = m.locals w in
    merge_tags n
      (record m {
        desc = record m.desc {
          num_malloc = update m.desc.num_malloc i (m.desc.num_malloc i +ℤ d.num_malloc i);
        };
        locals = update m.locals w (record d { num_malloc = update d.num_malloc i (pos 0) });
      })
      w (i + 1)

pub cilk_internal_malloc_per_worker_terminate : Memory → ℕ → Option Memory
unfolding assert_global_pool drain_buckets merge_tags
cilk_internal_malloc_per_worker_terminate m w = do
  assert (assert_global_pool m.pool)
  t ← drain_buckets num_buckets m w 0
  some (merge_tags num_tags t w 0)

-- `cilk_internal_malloc_per_worker_destroy`: its assertions, over the `n` buckets from `i` on.
pub cilk_internal_malloc_per_worker_destroy : ℕ → Desc → ℕ → Bool
cilk_internal_malloc_per_worker_destroy zero d i = true
cilk_internal_malloc_per_worker_destroy (suc n) d i =
    (d.buckets i).free_list_size == 0
    && is_empty (d.buckets i).free_list
    && cilk_internal_malloc_per_worker_destroy n d (i + 1)

-- The assertions of `cilk_internal_malloc_global_destroy`, over the `n` tags from `i` on.
pub no_mallocs : ℕ → Desc → ℕ → Bool
no_mallocs zero d i = true
no_mallocs (suc n) d i = eq_ℤ (d.num_malloc i) (pos 0) && no_mallocs n d (i + 1)

pub cilk_internal_malloc_global_destroy : Memory → Option Memory
unfolding no_mallocs
cilk_internal_malloc_global_destroy m =
    let t = global_im_pool_destroy m in assert (no_mallocs num_tags t.desc 0) >> some t
