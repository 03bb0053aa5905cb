-- ===== src/Malloc.antt =====
-- The state of the internal memory allocator: runtime/internal-malloc-impl.h, the sizes and the
-- free lists of runtime/internal-malloc.c. A free list, which the source threads through the free
-- blocks, is the list of their addresses.
pub mod Pool
pub mod Worker
pub mod Balance
pub mod Carve
pub mod Take
pub mod Batch
pub mod Give
pub mod Free
pub mod Check
mod Tests
pub mod Correct
use multicilk.Base.{
  ℕ, zero, suc, ◌+◌, ◌-◌, ◌*◌, ◌^◌, ◌/◌, ◌≤◌, Bool, true, false, not, ◌&&◌, Option, none, some,
  List, [], ◌∷◌, ltb, leb, ◌==◌, ◌<◌, ◌≡◌, ◌⊎◌, inl, inr, arith, if◌then◌else◌, update, get_or,
}
use native.Mathlib.Decide.{dec_le}
use multicilk.Base.Int.{ℤ, pos, ◌+ℤ◌, ◌-ℤ◌}

-- NUM_BUCKETS
abbrev pub num_buckets : ℕ
num_buckets = 7

-- MEM_LIST_SIZE
abbrev pub mem_list_step : ℕ
mem_list_step = 8

-- INTERNAL_MALLOC_CHUNK_SIZE
abbrev pub chunk_size : ℕ
chunk_size = 32 * 1024

abbrev pub bucket_sizes : List ℕ
bucket_sizes = 32 ∷ 64 ∷ 128 ∷ 256 ∷ 512 ∷ 1024 ∷ 2048 ∷ []

abbrev pub bucket_capacities : List ℕ
bucket_capacities = 256 ∷ 128 ∷ 64 ∷ 64 ∷ 32 ∷ 16 ∷ 8 ∷ []

-- `bucket_capacity[i]`
unfoldable pub bucket_capacity : ℕ → ℕ
bucket_capacity i = get_or bucket_capacities i 0

-- SIZE_THRESH
abbrev pub size_thresh : ℕ
size_thresh = 2048

unfoldable pub bucket_to_size : ℕ → ℕ
bucket_to_size i = get_or bucket_sizes i 0

-- The loop of `size_to_bucket` over the `n` buckets from `i` on; -1 is the largest `unsigned`.
unfoldable pub find_bucket : ℕ → ℕ → ℕ → ℕ
find_bucket size zero i = 2 ^ 32 - 1
find_bucket size (suc n) i =
    let rest = find_bucket size n (i + 1) in if leb size (bucket_to_size i) then i else rest

unfoldable pub size_to_bucket : ℕ → ℕ
size_to_bucket size = find_bucket size num_buckets 0

-- `struct im_bucket`
pub record Bucket : Type 0 where
  pub free_list : List ℕ
  pub free_list_size : ℕ
  pub free_list_limit : ℕ
  pub allocated : ℤ
  pub max_allocated : ℤ
  pub wasted : ℤ

-- `struct cilk_im_desc`
pub record Desc : Type 0 where
  pub buckets : ℕ → Bucket
  pub used : ℤ
  pub num_malloc : ℕ → ℤ

-- `struct global_im_pool`
pub record ImPool : Type 0 where
  pub mem_begin : ℕ
  pub mem_end : ℕ
  pub mem_list : ℕ → ℕ
  pub mem_list_index : ℕ
  pub mem_list_size : ℕ
  pub allocated : ℕ
  pub wasted : ℕ

-- The global descriptor and pool, the descriptors of the workers, how many blocks the system has
-- given, and the blocks that it got back, the last one first.
pub record Memory : Type 0 where
  pub desc : Desc
  pub pool : ImPool
  pub locals : ℕ → Desc
  pub given : ℕ
  pub returned : List ℕ

abbrev pub set_bucket : Desc → ℕ → Bucket → Desc
set_bucket d i b = record d { buckets = update d.buckets i b }

unfoldable pub add_to_free_list : Bucket → ℕ → Bucket
add_to_free_list b p = record b {
  free_list = p ∷ b.free_list;
  free_list_size = b.free_list_size + 1;
}

-- The block that was at the head, if there was one, and the bucket without it.
unfoldable pub remove_from_free_list : Bucket → Option ℕ × Bucket
remove_from_free_list b = elim b.free_list [
  | [] ↦ (none, b)
  | p ∷ rest ↦ (some p, record b { free_list = rest; free_list_size = b.free_list_size - 1 })
]

unfoldable pub init_im_buckets : Desc
init_im_buckets = record {
  buckets = λ i. record {
    free_list = [];
    free_list_size = 0;
    free_list_limit = bucket_capacity i;
    allocated = pos 0;
    max_allocated = pos 0;
    wasted = pos 0;
  };
  used = pos 0;
  num_malloc = λ _. pos 0;
}

-- `size_to_bucket` gives the smallest bucket that holds `size` bytes, and -1 exactly where none does.
pub size_to_bucket_lem :
    (size : ℕ)
    → (size_to_bucket size < num_buckets)
        × (size ≤ bucket_to_size (size_to_bucket size))
        × ((j : ℕ) → j < size_to_bucket size → bucket_to_size j < size)
      ⊎ (size_to_bucket size ≡ 2 ^ 32 - 1) × (size_thresh < size)
unfolding size_to_bucket find_bucket bucket_to_size
size_to_bucket_lem size = elim (dec_le size 2048) [
  | yes h ↦ inl (ground arith, ground arith, λ j l. ground arith)
  | no h ↦ inr (ground arith, ground arith)
]
