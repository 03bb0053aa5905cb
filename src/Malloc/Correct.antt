-- ===== src/Malloc/Correct.antt =====
-- `cilk_internal_malloc` of runtime/internal-malloc.c never fails and keeps the accounts.
use multicilk.Base.{
  ℕ, suc, ◌+◌, ◌-◌, ◌*◌, ◌/◌, ◌≤◌, ◌<◌, ◌≡◌, ◌≢◌, refl, ap, sym, ◌∙◌, inl, inr, List, ◌∷◌, length,
  some, update, lt→leb_not, arith,
}
use multicilk.Base.Int.{ℤ, pos, pos_part, neg_part, ◌+ℤ◌, int_laws}
use multicilk.Malloc.{
  Bucket, Desc, Memory, size_to_bucket_lem, set_bucket, bucket_to_size, bucket_capacity,
  num_buckets, remove_from_free_list, chunk_size, size_to_bucket,
}
use multicilk.Malloc.Worker.{
  set_local_bucket, take_or_fetch, or_fetch, take_from, cilk_internal_malloc, count_malloc,
}
use multicilk.Malloc.Pool.{malloc_from_system}
use multicilk.Malloc.Balance.{
  Balanced, Balanced-traffic, free_in, wasted_in, worker_total, worker_total-set,
}
use multicilk.Malloc.Take.{DescOk-set, remove-some, remove-none, List-cases}
use multicilk.Malloc.Batch.{Balanced-step, im_allocate_batch_ok, popped_total, listed}

-- The head of the list goes to the caller, which pays a debt of its size.
take_ok :
    (system : ℕ → ℕ → ℕ) {n : ℕ} (m : Memory) (w i : ℕ) {p : ℕ} {r : List ℕ}
    → Balanced n (pos (bucket_to_size i)) m
    → w < n
    → i < num_buckets
    → ((m.locals w).buckets i).free_list ≡ p ∷ r
    → (t : Memory) × Balanced n (pos 0) t
      × (take_from system (remove_from_free_list ((m.locals w).buckets i)) m w i ≡ some (p, t))
      × ((c : ℕ)
          → or_fetch system (remove_from_free_list ((m.locals w).buckets i)) m w c i ≡ some (p, t))
unfolding take_from or_fetch
take_ok system m w i {r = r} v h l e =
    let d = m.locals w in
    let b = d.buckets i in
    let ok = v.local_lists w in
    let c : Bucket = record b { free_list = r; free_list_size = b.free_list_size - 1 } in
    let size : suc (length r) ≡ b.free_list_size = sym (ap length e) ∙ ok.counted i in
    (
      set_local_bucket m w i c,
      Balanced-step (pos 0) (set_local_bucket m w i c) w (set_bucket d i c) v h refl
          (DescOk-set d i c d.used ok (omega arith) (ok.limited i)) v.global_lists
          record { in_chunk = v.in_chunk; even = v.pooled }
          (popped_total d.used m.desc.used (free_in d i) (wasted_in d i)
            (pos ((b.free_list_size - 1) * bucket_to_size i)) (pos (bucket_to_size i))
            (worker_total d) (worker_total (set_bucket d i c))
            (worker_total-set d (set_bucket d i c) i c l refl)
            (listed b.free_list_size (bucket_to_size i) (omega arith))),
      rw (remove-some b e) refl,
      λ x. rw (remove-some b e) refl,
    )

batch-positive : (i : ℕ) → i < num_buckets → 0 < bucket_capacity i / 2
unfolding bucket_capacity
batch-positive i h = ground arith

take_or_fetch_ok :
    (system : ℕ → ℕ → ℕ) (given : (k : ℕ) → system chunk_size k ≢ 0) {n : ℕ} (m : Memory) (w i : ℕ)
    → Balanced n (pos (bucket_to_size i)) m
    → w < n
    → i < num_buckets
    → (p : ℕ) × (t : Memory) × (take_or_fetch system m w (bucket_to_size i) i ≡ some (p, t))
      × Balanced n (pos 0) t
unfolding take_or_fetch or_fetch
take_or_fetch_ok system given m w i v h l = elim (List-cases ((m.locals w).buckets i).free_list) [
  | inr (p, r, e) ↦
      let (t, ok, a, b) = take_ok system m w i v h l e in (p, t, b (bucket_to_size i), ok)
  | inl e ↦
      let (t, eq, f) = im_allocate_batch_ok system given m w i v h l in
      elim (List-cases ((t.locals w).buckets i).free_list) [
        | inl none_left ↦ absurd (ground (arith, f.longer, batch-positive i l))
        | inr (p, r, e2) ↦
            let (u, ok, a, b) = take_ok system t w i f.balanced h l e2 in
            (p, u, rw (remove-none ((m.locals w).buckets i) e) (rw eq a), ok)
      ]
]

count_total :
    (u x f g t t' : ℤ) (size cs : ℕ)
    → size ≤ cs
    → t' +ℤ (x +ℤ f +ℤ g) ≡ t +ℤ (x +ℤ pos size +ℤ f +ℤ (g +ℤ pos (cs - size)))
    → u +ℤ pos cs +ℤ t ≡ u +ℤ pos 0 +ℤ t'
count_total u x f g t t' size cs h k =
    let p = ap pos_part k in let q = ap neg_part k in omega int_laws

-- After the counters are moved the caller is owed one block.
count_malloc_ok :
    {n : ℕ} (m : Memory) (w size tag i : ℕ)
    → Balanced n (pos 0) m
    → w < n
    → i < num_buckets
    → size ≤ bucket_to_size i
    → Balanced n (pos (bucket_to_size i)) (count_malloc (λ _ _. 0) m w size tag i)
count_malloc_ok m w size tag i v h l fits =
    let d = m.locals w in
    let b = d.buckets i in
    let ok = v.local_lists w in
    let c : Bucket = record b { wasted = b.wasted +ℤ pos (bucket_to_size i - size) } in
    let t = count_malloc (λ _ _. 0) m w size tag i in
    let e : Desc = record d {
      buckets = update d.buckets i c;
      used = d.used +ℤ pos size;
      num_malloc = update d.num_malloc tag (d.num_malloc tag +ℤ pos 1);
    } in
    let lists = DescOk-set d i c d.used ok (ok.counted i) (ok.limited i) in
    Balanced-step (pos (bucket_to_size i)) t w e v h refl
      record { counted = lists.counted; limited = lists.limited } v.global_lists
      record { in_chunk = v.in_chunk; even = v.pooled }
      (count_total m.desc.used d.used (free_in d i) (wasted_in d i) (worker_total d)
        (worker_total e) size (bucket_to_size i) fits (worker_total-set d e i c l refl))

-- Where the system never gives NULL, `cilk_internal_malloc` gives a block for every size and keeps
-- the accounts.
pub malloc_ok :
    (system : ℕ → ℕ → ℕ) (n : ℕ) (m : Memory) (w size tag : ℕ)
    → ((bytes k : ℕ) → system bytes k ≢ 0)
    → Balanced n (pos 0) m
    → w < n
    → (p : ℕ) × (t : Memory) × (cilk_internal_malloc system m w size tag ≡ some (p, t))
      × Balanced n (pos 0) t
unfolding cilk_internal_malloc malloc_from_system
malloc_ok system n m w size tag given v h = elim (size_to_bucket_lem size) [
  | inl (small, fits, least) ↦
      let i = size_to_bucket size in
      let (p, t, e, ok) =
        take_or_fetch_ok system (given chunk_size) (count_malloc system m w size tag i) w i
          (count_malloc_ok m w size tag i v h small fits) h small in
      (p, t, rw (lt→leb_not i num_buckets small) e, ok)
  | inr (e, big) ↦ (
    system size m.given,
    record m { given = m.given + 1 },
    rw e (ground (arith, given size m.given)),
    Balanced-traffic (m.given + 1) m.returned v,
  )
]
