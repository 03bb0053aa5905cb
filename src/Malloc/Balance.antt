-- ===== src/Malloc/Balance.antt =====
-- The accounts of the allocator (`free_bytes`, `wasted_bytes`, `workers_used_and_free` and
-- `internal_malloc_global_check` of runtime/internal-malloc.c) and the invariant behind them.
use multicilk.Base.{
  ℕ, zero, suc, ◌+◌, ◌-◌, ◌*◌, ◌≤◌, ◌<◌, ◌≡◌, ◌≢◌, ap, sym, subst, ◌==◌, Bool, ◌&&◌, List, length,
  if◌then◌else◌, update, arith,
}
use multicilk.Base.Int.{
  ℤ, pos, pos_part, neg_part, ◌+ℤ◌, sum, sum-change, sum-add, int_laws, leb_ℤ, eq_ℤ,
}
use multicilk.Malloc.{Bucket, Desc, Memory, bucket_to_size, bucket_capacity, num_buckets}

abbrev pub free_in : Desc → ℕ → ℤ
free_in d i = pos ((d.buckets i).free_list_size * bucket_to_size i)

abbrev pub wasted_in : Desc → ℕ → ℤ
wasted_in d i = (d.buckets i).wasted

unfoldable pub free_bytes : Desc → ℤ
free_bytes d = sum num_buckets (free_in d)

unfoldable pub wasted_bytes : Desc → ℤ
wasted_bytes d = sum num_buckets (wasted_in d)

-- What one worker adds to the bytes used, free and wasted.
unfoldable pub worker_total : Desc → ℤ
worker_total d = d.used +ℤ free_bytes d +ℤ wasted_bytes d

unfoldable pub workers_total : ℕ → Memory → ℤ
workers_total nworkers m = sum nworkers (λ w. worker_total (m.locals w))

-- `workers_used_and_free`
pub workers_used_and_free : ℕ → Memory → ℤ
workers_used_and_free nworkers m =
    sum nworkers (λ w. (m.locals w).used)
    +ℤ sum nworkers (λ w. free_bytes (m.locals w))
    +ℤ sum nworkers (λ w. wasted_bytes (m.locals w))

pub workers_total_lem : (n : ℕ) (m : Memory) → workers_used_and_free n m ≡ workers_total n m
unfolding workers_used_and_free workers_total worker_total
workers_total_lem n m = sym (
    sum-add n (λ w. (m.locals w).used) (λ w. free_bytes (m.locals w))
      (λ w. wasted_bytes (m.locals w)))

-- `internal_malloc_global_check`
unfoldable pub internal_malloc_global_check : ℕ → Memory → Bool
unfolding workers_used_and_free
internal_malloc_global_check nworkers m =
    leb_ℤ (pos 0) m.desc.used
    && leb_ℤ (pos 0) (sum nworkers (λ w. (m.locals w).used))
    && leb_ℤ (pos 0) (sum nworkers (λ w. wasted_bytes (m.locals w)))
    && eq_ℤ (m.desc.used +ℤ free_bytes m.desc +ℤ pos (m.pool.mem_end - m.pool.mem_begin))
        (pos m.pool.allocated)
    && eq_ℤ m.desc.used (workers_used_and_free nworkers m)

-- The list of every bucket is as long as its counter says, and the limits are those of the start.
pub record DescOk (d : Desc) : Type 0 where
  pub counted : (i : ℕ) → length (d.buckets i).free_list ≡ (d.buckets i).free_list_size
  pub limited : (i : ℕ) → (d.buckets i).free_list_limit ≡ bucket_capacity i

-- The two equations that the comment in `internal_malloc_global_check` asks for, with the bytes at
-- the ends of chunks counted. `debt` is 0 between calls; inside `cilk_internal_malloc` it is the
-- block that a worker has counted as used and not yet taken off its list.
pub record Balanced (nworkers : ℕ) (debt : ℤ) (m : Memory) : Type 0 where
  pub global_lists : DescOk m.desc
  pub local_lists : (w : ℕ) → DescOk (m.locals w)
  pub in_chunk : m.pool.mem_begin ≤ m.pool.mem_end
  pub pooled :
      m.desc.used
        +ℤ free_bytes m.desc
        +ℤ pos (m.pool.mem_end - m.pool.mem_begin)
        +ℤ pos m.pool.wasted
      ≡ pos m.pool.allocated
  pub shared : m.desc.used +ℤ debt ≡ workers_total nworkers m

pub free_bytes-change :
    (d e : Desc) (i : ℕ)
    → i < num_buckets
    → ((j : ℕ) → j ≢ i → e.buckets j ≡ d.buckets j)
    → free_bytes e +ℤ free_in d i ≡ free_bytes d +ℤ free_in e i
unfolding free_bytes
free_bytes-change d e i h same =
    sum-change num_buckets (free_in d) (free_in e) i h
      (λ j n. ap (λ b. pos (b.free_list_size * bucket_to_size j)) (same j n))

pub wasted_bytes-change :
    (d e : Desc) (i : ℕ)
    → i < num_buckets
    → ((j : ℕ) → j ≢ i → e.buckets j ≡ d.buckets j)
    → wasted_bytes e +ℤ wasted_in d i ≡ wasted_bytes d +ℤ wasted_in e i
unfolding wasted_bytes
wasted_bytes-change d e i h same =
    sum-change num_buckets (wasted_in d) (wasted_in e) i h (λ j n. ap (λ b. b.wasted) (same j n))

add_three :
    (u f g u' f' g' a b a' b' : ℤ)
    → f' +ℤ a ≡ f +ℤ a'
    → g' +ℤ b ≡ g +ℤ b'
    → u' +ℤ f' +ℤ g' +ℤ (u +ℤ a +ℤ b) ≡ u +ℤ f +ℤ g +ℤ (u' +ℤ a' +ℤ b')
add_three u f g u' f' g' a b a' b' h k =
    let p = ap pos_part h in
    let q = ap neg_part h in let r = ap pos_part k in let s = ap neg_part k in omega int_laws

-- A change of one bucket and of `used` moves the total by what they move.
pub worker_total-change :
    (d e : Desc) (i : ℕ)
    → i < num_buckets
    → ((j : ℕ) → j ≢ i → e.buckets j ≡ d.buckets j)
    → worker_total e +ℤ (d.used +ℤ free_in d i +ℤ wasted_in d i)
      ≡ worker_total d +ℤ (e.used +ℤ free_in e i +ℤ wasted_in e i)
unfolding worker_total
worker_total-change d e i h same =
    add_three d.used (free_bytes d) (wasted_bytes d) e.used (free_bytes e) (wasted_bytes e)
      (free_in d i) (wasted_in d i) (free_in e i) (wasted_in e i) (free_bytes-change d e i h same)
      (wasted_bytes-change d e i h same)

-- The same with the new bucket named.
pub worker_total-set :
    (d e : Desc) (i : ℕ) (b : Bucket)
    → i < num_buckets
    → e.buckets ≡ update d.buckets i b
    → worker_total e +ℤ (d.used +ℤ free_in d i +ℤ wasted_in d i)
      ≡ worker_total d +ℤ (e.used +ℤ pos (b.free_list_size * bucket_to_size i) +ℤ b.wasted)
worker_total-set d e i b h k =
    let at : (j : ℕ) → e.buckets j ≡ (if i == j then b else d.buckets j) = λ j. ap (λ f. f j) k in
    let here : e.buckets i ≡ b = ground (arith, at i) in
    subst
      (λ c.
        worker_total e +ℤ (d.used +ℤ free_in d i +ℤ wasted_in d i)
        ≡ worker_total d +ℤ (e.used +ℤ pos (c.free_list_size * bucket_to_size i) +ℤ c.wasted))
      here (worker_total-change d e i h (λ j n. ground (arith, at j)))

rebase : (u v s s' a b : ℤ) → u ≡ s → s' +ℤ a ≡ s +ℤ b → v +ℤ a ≡ u +ℤ b → v ≡ s'
rebase u v s s' a b e h k =
    let x = ap pos_part h in
    let y = ap neg_part h in
    let z = ap pos_part k in
    let w = ap neg_part k in let c = ap pos_part e in let d = ap neg_part e in omega int_laws

-- What one worker's change must balance against.
pub shared-change :
    {n : ℕ} {debt : ℤ} {m : Memory} (debt' : ℤ) (t : Memory) (w : ℕ)
    → Balanced n debt m
    → w < n
    → ((v : ℕ) → v ≢ w → t.locals v ≡ m.locals v)
    → t.desc.used +ℤ debt' +ℤ worker_total (m.locals w)
      ≡ m.desc.used +ℤ debt +ℤ worker_total (t.locals w)
    → t.desc.used +ℤ debt' ≡ workers_total n t
unfolding workers_total
shared-change {n = n} {debt = debt} {m = m} debt' t w v h same k =
    rebase (m.desc.used +ℤ debt) (t.desc.used +ℤ debt') (sum n (λ w. worker_total (m.locals w)))
      (sum n (λ w. worker_total (t.locals w))) (worker_total (m.locals w))
      (worker_total (t.locals w)) v.shared
      (sum-change n (λ w. worker_total (m.locals w)) (λ w. worker_total (t.locals w)) w h
        (λ x ne. ap worker_total (same x ne)))
      k

pub pooled-change :
    (u f av wa al u' f' av' wa' al' a a' : ℤ)
    → u +ℤ f +ℤ av +ℤ wa ≡ al
    → f' +ℤ a ≡ f +ℤ a'
    → u' +ℤ a' +ℤ av' +ℤ wa' +ℤ al ≡ u +ℤ a +ℤ av +ℤ wa +ℤ al'
    → u' +ℤ f' +ℤ av' +ℤ wa' ≡ al'
pooled-change u f av wa al u' f' av' wa' al' a a' h k l =
    let x = ap pos_part h in
    let y = ap neg_part h in
    let z = ap pos_part k in
    let w = ap neg_part k in let c = ap pos_part l in let d = ap neg_part l in omega int_laws

-- One block fewer.
pub times_pred : (k s : ℕ) → 0 < k → (k - 1) * s + s ≡ k * s
times_pred zero s h = absurd (omega arith)
times_pred (suc k) s h = grind arith

-- The traffic with the system is not part of the accounts.
pub Balanced-traffic :
    {n : ℕ} {debt : ℤ} {m : Memory} (given : ℕ) (returned : List ℕ)
    → Balanced n debt m
    → Balanced n debt (record m { given = given; returned = returned })
unfolding workers_total
Balanced-traffic given returned v = record {
  global_lists = v.global_lists;
  local_lists = v.local_lists;
  in_chunk = v.in_chunk;
  pooled = v.pooled;
  shared = v.shared;
}
