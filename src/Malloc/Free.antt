-- ===== src/Malloc/Free.antt =====
-- `cilk_internal_free` of runtime/internal-malloc.c ends, keeps the accounts and the list's limit.
use multicilk.Base.{
  ℕ, ◌+◌, ◌-◌, ◌*◌, ◌≤◌, ◌<◌, ◌≡◌, refl, ap, inl, inr, ◌∷◌, length, some, update, lt→ltb,
  le→ltb_not, arith,
}
use multicilk.Base.Int.{ℤ, pos, pos_part, neg_part, ◌+ℤ◌, ◌-ℤ◌, int_laws}
use multicilk.Malloc.{
  Desc, Memory, size_to_bucket_lem, bucket_to_size, bucket_capacity, num_buckets, size_thresh,
  add_to_free_list, size_to_bucket,
}
use multicilk.Malloc.Pool.{free_to_system}
use multicilk.Malloc.Worker.{cilk_internal_free, count_free}
use multicilk.Malloc.Balance.{
  Balanced, Balanced-traffic, free_in, wasted_in, worker_total, worker_total-set,
}
use multicilk.Malloc.Take.{DescOk-set, size-fits}
use multicilk.Malloc.Batch.{Balanced-step, one_more}
use multicilk.Malloc.Give.{local_list, trim_ok}

free_total :
    (u x f g f' t t' : ℤ) (size cs : ℕ)
    → size ≤ cs
    → f' ≡ f +ℤ pos cs
    → t' +ℤ (x +ℤ f +ℤ g) ≡ t +ℤ (x -ℤ pos size +ℤ f' +ℤ (g -ℤ pos (cs - size)))
    → u +ℤ pos 0 +ℤ t ≡ u +ℤ pos 0 +ℤ t'
free_total u x f g f' t t' size cs h e k =
    let p = ap pos_part k in
    let q = ap neg_part k in let r = ap pos_part e in let o = ap neg_part e in omega int_laws

-- The counters and the list of the worker move together.
count_free_ok :
    {n : ℕ} (m : Memory) (w p size tag i : ℕ)
    → Balanced n (pos 0) m
    → w < n
    → i < num_buckets
    → size ≤ bucket_to_size i
    → Balanced n (pos 0) (count_free m w p size tag i)
unfolding add_to_free_list
count_free_ok m w p size tag i v h l fits =
    let d = m.locals w in
    let b = d.buckets i in
    let ok = v.local_lists w in
    let c = add_to_free_list (record b { wasted = b.wasted -ℤ pos (bucket_to_size i - size) }) p in
    let e : Desc = record d {
      buckets = update d.buckets i c;
      used = d.used -ℤ pos size;
      num_malloc = update d.num_malloc tag (d.num_malloc tag -ℤ pos 1);
    } in
    let lists = DescOk-set d i c d.used ok (ground (arith, ok.counted i)) (ok.limited i) in
    Balanced-step (pos 0) (count_free m w p size tag i) w e v h refl
      record { counted = lists.counted; limited = lists.limited } v.global_lists
      record { in_chunk = v.in_chunk; even = v.pooled }
      (free_total m.desc.used d.used (free_in d i) (wasted_in d i)
        (pos ((b.free_list_size + 1) * bucket_to_size i)) (worker_total d) (worker_total e) size
        (bucket_to_size i) fits (one_more b.free_list_size (bucket_to_size i))
        (worker_total-set d e i c l refl))

-- `cilk_internal_free` ends without a failed assertion for every size and keeps the accounts; for a
-- size that has a bucket it leaves the worker's list within its limit.
pub free_ok :
    (n : ℕ) (m : Memory) (w p size tag : ℕ)
    → Balanced n (pos 0) m
    → w < n
    → (t : Memory) × (cilk_internal_free m w p size tag ≡ some t)
      × Balanced n (pos 0) t
      × (size ≤ size_thresh
          → length (local_list t w (size_to_bucket size)) ≤ bucket_capacity (size_to_bucket size))
unfolding cilk_internal_free free_to_system
free_ok n m w p size tag v h = elim (size_to_bucket_lem size) [
  | inl (small, fits, least) ↦
      let i = size_to_bucket size in
      let s = count_free m w p size tag i in
      let even = count_free_ok m w p size tag i v h small fits in
      let ok = even.local_lists w in
      let (t, e, done, short) =
        trim_ok (((s.locals w).buckets i).free_list_size + 1) s w i even h small
          (ground (arith, ok.counted i)) in
      (
        t,
        rw (le→ltb_not size size_thresh (omega (arith, (size-fits i small).0)))
            (rw (lt→ltb i num_buckets small) e),
        done,
        λ _. short,
      )
  | inr (none_fits, big) ↦ (
    record m { returned = p ∷ m.returned },
    rw (lt→ltb size_thresh size big) refl,
    Balanced-traffic m.given (p ∷ m.returned) v,
    λ x. absurd (omega arith),
  )
]
