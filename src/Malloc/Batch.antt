-- ===== src/Malloc/Batch.antt =====
-- `im_allocate_batch` and `cilk_internal_malloc` of runtime/internal-malloc.c keep the accounts, and
-- a worker always gets a block.
use multicilk.Base.{
  ℕ, zero, suc, ◌+◌, ◌-◌, ◌*◌, ◌/◌, ◌<◌, ◌≡◌, ◌≢◌, refl, ap, sym, subst, ◌∙◌, Bool, true, false,
  ◌==◌, length, some, if◌then◌else◌, update, update_same, update_other, arith,
}
use multicilk.Base.Int.{ℤ, pos, pos_part, neg_part, ◌+ℤ◌, ltb_ℤ, int_laws}
use multicilk.Malloc.{
  Bucket, Desc, Memory, set_bucket, bucket_to_size, bucket_capacity, num_buckets, add_to_free_list,
  chunk_size,
}
use multicilk.Malloc.Pool.{global_im_alloc}
use multicilk.Malloc.Worker.{set_local_bucket, take_blocks, im_allocate_batch}
use multicilk.Malloc.Balance.{
  DescOk, Balanced, free_in, wasted_in, worker_total, worker_total-set, times_pred, shared-change,
}
use multicilk.Malloc.Carve.{Pooled}
use multicilk.Malloc.Take.{global_im_alloc_ok, DescOk-set}

-- One worker's descriptor, the global one and the pool change together.
pub Balanced-step :
    {n : ℕ} {debt : ℤ} {m : Memory} (debt' : ℤ) (t : Memory) (w : ℕ) (e : Desc)
    → Balanced n debt m
    → w < n
    → t.locals ≡ update m.locals w e
    → DescOk e
    → DescOk t.desc
    → Pooled t.desc t.pool
    → t.desc.used +ℤ debt' +ℤ worker_total (m.locals w) ≡ m.desc.used +ℤ debt +ℤ worker_total e
    → Balanced n debt' t
Balanced-step {m = m} debt' t w e v h locals ok global_ok acc k =
    let at : (v : ℕ) → t.locals v ≡ (if w == v then e else m.locals v) =
      λ v. ap (λ f. f v) locals in
    let here : t.locals w ≡ e = ground (arith, at w) in
    record {
      global_lists = global_ok;
      local_lists = λ x. subst DescOk (sym (at x)) (go x (w == x));
      in_chunk = acc.in_chunk;
      pooled = acc.even;
      shared = shared-change debt' t w v h (λ x ne. ground (arith, at x)) (rw here k);
    }
  where
    go : (x : ℕ) (b : Bool) → DescOk (if b then e else m.locals x)
    go x true = ok
    go x false = v.local_lists x

same_total : (a b x : ℤ) → b +ℤ x ≡ a +ℤ x → a ≡ b
same_total a b x h = let p = ap pos_part h in let q = ap neg_part h in omega int_laws

gain :
    (u u' s t t' x a a' g : ℤ)
    → t' +ℤ (x +ℤ a +ℤ g) ≡ t +ℤ (x +ℤ a' +ℤ g)
    → a' ≡ a +ℤ s
    → u' ≡ u +ℤ s
    → u' +ℤ t ≡ u +ℤ t'
gain u u' s t t' x a a' g h k l =
    let p = ap pos_part h in
    let q = ap neg_part h in
    let r = ap pos_part k in
    let o = ap neg_part k in let y = ap pos_part l in let z = ap neg_part l in omega int_laws

ride : (u u' d s : ℤ) → u' ≡ u +ℤ s → u' +ℤ d ≡ u +ℤ d +ℤ s
ride u u' d s h = let p = ap pos_part h in let q = ap neg_part h in omega int_laws

pub one_more : (k s : ℕ) → pos ((k + 1) * s) ≡ pos (k * s) +ℤ pos s
one_more k s = let e : (k + 1) * s ≡ k * s + s = grind arith in omega int_laws

-- A block joins the free list of bucket `i` of a worker.
abbrev pub with_block : Desc → ℕ → ℕ → Desc
with_block d i p = set_bucket d i (add_to_free_list (d.buckets i) p)

pub with_block-DescOk : (d : Desc) (i p : ℕ) → DescOk d → DescOk (with_block d i p)
unfolding add_to_free_list
with_block-DescOk d i p ok =
    DescOk-set d i (add_to_free_list (d.buckets i) p) d.used ok (ground (arith, ok.counted i))
      (ok.limited i)

with_block-length :
    (d : Desc) (i p : ℕ)
    → length ((with_block d i p).buckets i).free_list ≡ 1 + length (d.buckets i).free_list
unfolding add_to_free_list
with_block-length d i p = ground arith

pub with_block-total :
    (d : Desc) (i p : ℕ) (u u' : ℤ)
    → i < num_buckets
    → u' ≡ u +ℤ pos (bucket_to_size i)
    → u' +ℤ worker_total d ≡ u +ℤ worker_total (with_block d i p)
unfolding add_to_free_list
with_block-total d i p u u' h e =
    let b = d.buckets i in
    gain u u' (pos (bucket_to_size i)) (worker_total d) (worker_total (with_block d i p)) d.used
      (free_in d i) (pos ((b.free_list_size + 1) * bucket_to_size i)) (wasted_in d i)
      (worker_total-set d (with_block d i p) i (add_to_free_list b p) h refl)
      (one_more b.free_list_size (bucket_to_size i)) e

abbrev pub stocked : Memory → ℕ → ℕ → ℕ → Memory
stocked t w i p = set_local_bucket t w i (add_to_free_list ((t.locals w).buckets i) p)

-- What a part of the allocator that fills the list of bucket `i` of worker `w` promises.
pub record Filled (n : ℕ) (debt : ℤ) (m : Memory) (w i k : ℕ) (t : Memory) : Type 0 where
  pub balanced : Balanced n debt t
  pub longer :
      length ((t.locals w).buckets i).free_list ≡ k + length ((m.locals w).buckets i).free_list
  pub others : (v : ℕ) → v ≢ w → t.locals v ≡ m.locals v

-- The statistics of a bucket are not part of the accounts.
recount :
    {n : ℕ} {debt : ℤ} {m : Memory} {k : ℕ} (t : Memory) (w i : ℕ) (c : Bucket)
    → w < n
    → i < num_buckets
    → Filled n debt m w i k t
    → c.free_list ≡ ((t.locals w).buckets i).free_list
    → c.free_list_size ≡ ((t.locals w).buckets i).free_list_size
    → c.free_list_limit ≡ ((t.locals w).buckets i).free_list_limit
    → c.wasted ≡ ((t.locals w).buckets i).wasted
    → Filled n debt m w i k (set_local_bucket t w i c)
recount {debt = debt} t w i c h l f list size limit wasted =
    let d = t.locals w in
    let e = set_bucket d i c in
    let ok = f.balanced.local_lists w in
    let moved = worker_total-set d e i c l refl in
    let at = update_same t.locals w e in
    record {
      balanced =
          Balanced-step debt (set_local_bucket t w i c) w e f.balanced h refl
            (DescOk-set d i c d.used ok (ap length list ∙ ok.counted i ∙ sym size)
              (limit ∙ ok.limited i))
            f.balanced.global_lists
            record { in_chunk = f.balanced.in_chunk; even = f.balanced.pooled }
            (ap (λ x. t.desc.used +ℤ debt +ℤ x)
              (same_total (worker_total d) (worker_total e) (d.used +ℤ free_in d i +ℤ wasted_in d i)
                (moved
                  ∙ ap (λ x. worker_total d +ℤ (d.used +ℤ pos (x * bucket_to_size i) +ℤ c.wasted))
                      size
                  ∙ ap (λ x. worker_total d +ℤ (d.used +ℤ free_in d i +ℤ x)) wasted)));
      longer =
          ap (λ x. length (x.buckets i).free_list) at
          ∙ ap (λ x. length x.free_list) (update_same d.buckets i c)
          ∙ ap length list
          ∙ f.longer;
      others = λ x ne. update_other t.locals w e x ne ∙ f.others x ne;
    }

module _ (system : ℕ → ℕ → ℕ) (given : (k : ℕ) → system chunk_size k ≢ 0) {n : ℕ} {debt : ℤ} where
  stock_ok :
      (m : Memory) (w i : ℕ)
      → Balanced n debt m
      → w < n
      → i < num_buckets
      → (p : ℕ) × (t : Memory) × (global_im_alloc system m (bucket_to_size i) i ≡ some (p, t))
        × Filled n debt m w i 1 (stocked t w i p)
  stock_ok m w i v h l =
      let (p, t, e, took) =
        global_im_alloc_ok system given m i l v.global_lists
          record { in_chunk = v.in_chunk; even = v.pooled } in
      let at : t.locals w ≡ m.locals w = ap (λ f. f w) took.locals in
      let all : (stocked t w i p).locals ≡ update m.locals w (with_block (m.locals w) i p) =
        rw took.locals refl in
      (
        p,
        t,
        e,
        record {
          balanced =
              Balanced-step debt (stocked t w i p) w (with_block (m.locals w) i p) v h all
                (with_block-DescOk (m.locals w) i p (v.local_lists w)) took.lists took.account
                (with_block-total (m.locals w) i p (m.desc.used +ℤ debt) (t.desc.used +ℤ debt) l
                  (ride m.desc.used t.desc.used debt (pos (bucket_to_size i)) took.used));
          longer =
              ap (λ f. length ((f w).buckets i).free_list) all
              ∙ ap (λ d. length (d.buckets i).free_list)
                  (update_same m.locals w (with_block (m.locals w) i p))
              ∙ with_block-length (m.locals w) i p;
          others = λ x ne.
              ap (λ f. f x) all ∙ update_other m.locals w (with_block (m.locals w) i p) x ne;
        },
      )

  take_blocks_ok :
      (k : ℕ) (m : Memory) (w i : ℕ)
      → Balanced n debt m
      → w < n
      → i < num_buckets
      → (t : Memory) × (take_blocks system k w (bucket_to_size i) i m ≡ some t)
        × Filled n debt m w i k t
  unfolding take_blocks
  take_blocks_ok zero m w i v h l =
      (m, refl, record { balanced = v; longer = omega arith; others = λ x ne. refl })
  take_blocks_ok (suc k) m w i v h l =
      let (p, t, e, f) = stock_ok m w i v h l in
      let (u, e2, g) = take_blocks_ok k (stocked t w i p) w i f.balanced h l in
      (
        u,
        rw e e2,
        record {
          balanced = g.balanced;
          longer = (omega (arith, f.longer, g.longer));
          others = λ x ne. g.others x ne ∙ f.others x ne;
        },
      )

  -- A batch from the global descriptor never fails.
  pub im_allocate_batch_ok :
      (m : Memory) (w i : ℕ)
      → Balanced n debt m
      → w < n
      → i < num_buckets
      → (t : Memory) × (im_allocate_batch system m w (bucket_to_size i) i ≡ some t)
        × Filled n debt m w i (bucket_capacity i / 2) t
  unfolding im_allocate_batch
  im_allocate_batch_ok m w i v h l =
      let (t, e, f) = take_blocks_ok (bucket_capacity i / 2) m w i v h l in
      let b = (t.locals w).buckets i in
      let allocated = b.allocated +ℤ pos (bucket_capacity i / 2) in
      let c = record b {
        allocated = allocated;
        max_allocated = if ltb_ℤ b.max_allocated allocated then allocated else b.max_allocated;
      } in
      (set_local_bucket t w i c, rw e refl, recount t w i c h l f refl refl refl refl)

pub popped_total :
    (x u f g k s : ℤ) (t t' : ℤ)
    → t' +ℤ (x +ℤ f +ℤ g) ≡ t +ℤ (x +ℤ k +ℤ g)
    → k +ℤ s ≡ f
    → u +ℤ pos 0 +ℤ t ≡ u +ℤ s +ℤ t'
popped_total x u f g k s t t' h e =
    let p = ap pos_part h in
    let q = ap neg_part h in let r = ap pos_part e in let o = ap neg_part e in omega int_laws

pub listed : (k s : ℕ) → 0 < k → pos ((k - 1) * s) +ℤ pos s ≡ pos (k * s)
listed k s h = let e = times_pred k s h in omega int_laws
