-- ===== src/Malloc/Give.antt =====
-- `im_free_batch` and `cilk_internal_free` of runtime/internal-malloc.c keep the accounts, and their
-- loops end.
use multicilk.Base.{
  ℕ, zero, suc, ◌+◌, ◌-◌, ◌*◌, ◌/◌, ◌≤◌, ◌<◌, ◌≡◌, refl, ap, sym, ◌∙◌, ltb, Bool-cases, inl, inr,
  List, [], ◌∷◌, length, some, update, update_same, arith,
}
use multicilk.Base.Int.{ℤ, pos, pos_part, neg_part, ◌+ℤ◌, ◌-ℤ◌, int_laws}
use multicilk.Malloc.{
  Bucket, Memory, set_bucket, bucket_to_size, bucket_capacity, num_buckets, remove_from_free_list,
  add_to_free_list,
}
use multicilk.Malloc.Worker.{return_blocks, return_one, im_free_batch, trim}
use multicilk.Malloc.Balance.{Balanced, free_in, wasted_in, worker_total, worker_total-set}
use multicilk.Malloc.Take.{DescOk-set, remove-some, remove-none, List-cases, charged, charged-even}
use multicilk.Malloc.Batch.{Balanced-step, listed, one_more}

abbrev pub local_list : Memory → ℕ → ℕ → List ℕ
local_list m w i = ((m.locals w).buckets i).free_list

-- What a part that returns `k` blocks of the list promises.
pub record Returned (n : ℕ) (m : Memory) (w i k : ℕ) (t : Memory) : Type 0 where
  pub balanced : Balanced n (pos 0) t
  pub shorter : length (local_list t w i) ≡ length (local_list m w i) - k

one_back :
    (u s a a' av wa al : ℤ)
    → a' ≡ a +ℤ s
    → (u -ℤ s) +ℤ a' +ℤ av +ℤ wa +ℤ al ≡ u +ℤ a +ℤ av +ℤ wa +ℤ al
one_back u s a a' av wa al e = let p = ap pos_part e in let q = ap neg_part e in omega int_laws

back_total :
    (u x f g k s t t' : ℤ)
    → t' +ℤ (x +ℤ f +ℤ g) ≡ t +ℤ (x +ℤ k +ℤ g)
    → k +ℤ s ≡ f
    → (u -ℤ s) +ℤ pos 0 +ℤ t ≡ u +ℤ pos 0 +ℤ t'
back_total u x f g k s t t' h e =
    let p = ap pos_part h in
    let q = ap neg_part h in let r = ap pos_part e in let o = ap neg_part e in omega int_laws

-- One block goes from the head of the worker's list to the global one.
return_one_ok :
    {n : ℕ} (m : Memory) (w i : ℕ) {p : ℕ} {r : List ℕ}
    → Balanced n (pos 0) m
    → w < n
    → i < num_buckets
    → local_list m w i ≡ p ∷ r
    → (t : Memory) × Returned n m w i 1 t
      × (return_one (remove_from_free_list ((m.locals w).buckets i)) m w (bucket_to_size i) i
          ≡ some t)
unfolding return_one add_to_free_list
return_one_ok m w i {p = p} {r = r} v h l e =
    let d = m.locals w in
    let b = d.buckets i in
    let g = m.desc.buckets i in
    let s = bucket_to_size i in
    let ok = v.local_lists w in
    let c : Bucket = record b {
      free_list = r;
      free_list_size = b.free_list_size - 1;
      allocated = b.allocated -ℤ pos 1;
    } in
    let size : suc (length r) ≡ b.free_list_size = sym (ap length e) ∙ ok.counted i in
    let wider = add_to_free_list g p in
    let used = m.desc.used -ℤ pos s in
    let after : Memory = record m {
      desc = charged m.desc i wider used;
      locals = update m.locals w (set_bucket d i c);
    } in
    let av = pos (m.pool.mem_end - m.pool.mem_begin) in
    (
      after,
      record {
        balanced =
            Balanced-step (pos 0) after w (set_bucket d i c) v h refl
              (DescOk-set d i c d.used ok (omega arith) (ok.limited i))
              (DescOk-set m.desc i wider used v.global_lists
                (ground (arith, v.global_lists.counted i)) (v.global_lists.limited i))
              record {
                in_chunk = v.in_chunk;
                even =
                    charged-even m.desc i wider used av (pos m.pool.wasted) (pos m.pool.allocated)
                      av (pos m.pool.wasted) (pos m.pool.allocated) l v.pooled
                      (one_back m.desc.used (pos s) (free_in m.desc i)
                        (pos ((g.free_list_size + 1) * s)) av (pos m.pool.wasted)
                        (pos m.pool.allocated) (one_more g.free_list_size s));
              }
              (back_total m.desc.used d.used (free_in d i) (wasted_in d i)
                (pos ((b.free_list_size - 1) * s)) (pos s) (worker_total d)
                (worker_total (set_bucket d i c)) (worker_total-set d (set_bucket d i c) i c l refl)
                (listed b.free_list_size s (omega arith)));
        shorter =
            ap (λ x. length (x.buckets i).free_list) (update_same m.locals w (set_bucket d i c))
            ∙ ap (λ x. length x.free_list) (update_same d.buckets i c)
            ∙ (let z = ap length e in omega arith);
      },
      rw (remove-some b e) refl,
    )

return_blocks-some :
    (k : ℕ) (m : Memory) (w s i : ℕ) {t : Memory}
    → return_one (remove_from_free_list ((m.locals w).buckets i)) m w s i ≡ some t
    → return_blocks (suc k) w s i m ≡ return_blocks k w s i t
unfolding return_blocks
return_blocks-some k m w s i e = rw (e, return_blocks) refl

return_blocks-none :
    (k : ℕ) (m : Memory) (w s i : ℕ) → local_list m w i ≡ [] → return_blocks (suc k) w s i m ≡ m
unfolding return_blocks return_one
return_blocks-none k m w s i e = rw (remove-none ((m.locals w).buckets i) e, return_blocks) refl

return_blocks_ok :
    {n : ℕ} (k : ℕ) (m : Memory) (w i : ℕ)
    → Balanced n (pos 0) m
    → w < n
    → i < num_buckets
    → Returned n m w i k (return_blocks k w (bucket_to_size i) i m)
return_blocks_ok zero m w i v h l =
    unfold return_blocks in record { balanced = v; shorter = omega arith }
return_blocks_ok (suc k) m w i v h l = elim (List-cases (local_list m w i)) [
  | inl e ↦
      rw (return_blocks-none k m w (bucket_to_size i) i e)
        record { balanced = v; shorter = let z = ap length e in omega arith }
  | inr (p, r, e) ↦
      let (t, one, eq) = return_one_ok m w i v h l e in
      let rest = return_blocks_ok k t w i one.balanced h l in
      rw (return_blocks-some k m w (bucket_to_size i) i eq)
        record { balanced = rest.balanced; shorter = omega (arith, one.shorter, rest.shorter) }
]

pub im_free_batch_ok :
    {n : ℕ} (m : Memory) (w i : ℕ)
    → Balanced n (pos 0) m
    → w < n
    → i < num_buckets
    → Returned n m w i (bucket_capacity i / 2) (im_free_batch m w (bucket_to_size i) i)
unfolding im_free_batch
im_free_batch_ok m w i v h l = return_blocks_ok (bucket_capacity i / 2) m w i v h l

capacity-positive : (i : ℕ) → i < num_buckets → 1 < bucket_capacity i
unfolding bucket_capacity
capacity-positive i h = ground arith

-- The loop of `cilk_internal_free` ends before a fuel above the list's length does, and leaves a list
-- within its limit.
pub trim_ok :
    {n : ℕ} (fuel : ℕ) (m : Memory) (w i : ℕ)
    → Balanced n (pos 0) m
    → w < n
    → i < num_buckets
    → length (local_list m w i) < fuel
    → (t : Memory) × (trim fuel m w (bucket_to_size i) i ≡ some t)
      × Balanced n (pos 0) t
      × (length (local_list t w i) ≤ bucket_capacity i)
unfolding trim
trim_ok zero m w i v h l enough = absurd (omega arith)
trim_ok (suc fuel) m w i v h l enough =
    let b = (m.locals w).buckets i in
    let ok = v.local_lists w in
    elim (Bool-cases (ltb b.free_list_limit b.free_list_size)) [
      | inl long ↦
          let over : bucket_capacity i < length (local_list m w i) =
            ground (arith, ok.counted i, ok.limited i) in
          let batch = im_free_batch_ok m w i v h l in
          let (t, e, even, short) =
            trim_ok fuel (im_free_batch m w (bucket_to_size i) i) w i batch.balanced h l
              (omega (arith, batch.shorter, capacity-positive i l)) in
          (t, rw long e, even, short)
      | inr short ↦ (m, rw short refl, v, ground (arith, ok.counted i, ok.limited i))
    ]
