-- ===== src/Malloc/Take.antt =====
-- Blocks that the global descriptor gives: `global_im_alloc` and `im_allocate_batch` keep the
-- accounts.
use multicilk.Base.{
  ℕ, suc, ◌-◌, ◌*◌, ◌≤◌, ◌<◌, ◌≡◌, ◌≢◌, refl, ap, sym, subst, ◌∙◌, ◌⊎◌, le→leb, lt→ltb, inl, inr,
  List, [], ◌∷◌, length, none, some, update, arith,
}
use multicilk.Base.Int.{ℤ, pos, ◌+ℤ◌, int_laws}
use multicilk.Malloc.{
  Bucket, Desc, Memory, bucket_to_size, bucket_capacity, num_buckets, size_thresh,
  remove_from_free_list, chunk_size,
}
use multicilk.Malloc.Pool.{global_im_alloc, alloc_from, carve}
use multicilk.Malloc.Carve.{Pooled, carve_ok}
use multicilk.Malloc.Balance.{
  DescOk, free_in, free_bytes, free_bytes-change, pooled-change, times_pred,
}

pub size-fits :
    (i : ℕ) → i < num_buckets → (bucket_to_size i ≤ size_thresh) × (0 < bucket_to_size i)
unfolding bucket_to_size
size-fits i h = (ground arith, ground arith)

-- What `global_im_alloc` promises.
pub record Took (m : Memory) (i : ℕ) (t : Memory) : Type 0 where
  pub lists : DescOk t.desc
  pub locals : t.locals ≡ m.locals
  pub used : t.desc.used ≡ m.desc.used +ℤ pos (bucket_to_size i)
  pub account : Pooled t.desc t.pool

-- The global descriptor after `used` and one bucket change.
abbrev pub charged : Desc → ℕ → Bucket → ℤ → Desc
charged d i b used = record d { buckets = update d.buckets i b; used = used }

pub DescOk-set :
    (d : Desc) (i : ℕ) (b : Bucket) (used : ℤ)
    → DescOk d
    → length b.free_list ≡ b.free_list_size
    → b.free_list_limit ≡ bucket_capacity i
    → DescOk (charged d i b used)
DescOk-set d i b used ok e l = record {
  counted = λ j. ground (arith, ok.counted j);
  limited = λ j. ground (arith, ok.limited j);
}

-- Bytes move between the free list of one bucket, the pool and the workers.
pub charged-even :
    (d : Desc) (i : ℕ) (b : Bucket) (used av wa al av' wa' al' : ℤ)
    → i < num_buckets
    → d.used +ℤ free_bytes d +ℤ av +ℤ wa ≡ al
    → used +ℤ pos (b.free_list_size * bucket_to_size i) +ℤ av' +ℤ wa' +ℤ al
      ≡ d.used +ℤ free_in d i +ℤ av +ℤ wa +ℤ al'
    → used +ℤ free_bytes (charged d i b used) +ℤ av' +ℤ wa' ≡ al'
charged-even d i b used av wa al av' wa' al' h k l =
    let at : (update d.buckets i b) i ≡ b = ground arith in
    let c = free_bytes-change d (charged d i b used) i h (λ j n. ground arith) in
    pooled-change d.used (free_bytes d) av wa al used (free_bytes (charged d i b used)) av' wa' al'
      (free_in d i) (pos (b.free_list_size * bucket_to_size i)) k (rw at at c) l

use_more : (u a s av wa al : ℤ) → u +ℤ s +ℤ a +ℤ av +ℤ wa +ℤ al ≡ u +ℤ a +ℤ av +ℤ wa +ℤ (al +ℤ s)
use_more u a s av wa al = omega int_laws

use_listed :
    (u av wa al : ℤ) (k s : ℕ)
    → 0 < k
    → u +ℤ pos s +ℤ pos ((k - 1) * s) +ℤ av +ℤ wa +ℤ al ≡ u +ℤ pos (k * s) +ℤ av +ℤ wa +ℤ al
use_listed u av wa al k s h = let e = times_pred k s h in omega int_laws

pub List-cases : (l : List ℕ) → (l ≡ []) ⊎ ((p : ℕ) × (r : List ℕ) × (l ≡ p ∷ r))
List-cases [] = inl refl
List-cases (p ∷ r) = inr (p, r, refl)

pub remove-none : (b : Bucket) → b.free_list ≡ [] → remove_from_free_list b ≡ (none, b)
unfolding remove_from_free_list
remove-none b e = ground arith

pub remove-some :
    (b : Bucket) {p : ℕ} {r : List ℕ}
    → b.free_list ≡ p ∷ r
    → remove_from_free_list b
      ≡ (some p, record b { free_list = r; free_list_size = b.free_list_size - 1 })
unfolding remove_from_free_list
remove-some b e = ground arith

alloc-none :
    (system : ℕ → ℕ → ℕ) (m : Memory) (size i : ℕ)
    → size ≤ size_thresh
    → i < num_buckets
    → (m.desc.buckets i).free_list ≡ []
    → global_im_alloc system m size i
      ≡ carve system
          (record m { desc = charged m.desc i (m.desc.buckets i) (m.desc.used +ℤ pos size) })
          size
unfolding global_im_alloc alloc_from
alloc-none system m size i fits h e =
    rw (le→leb size size_thresh fits)
      (rw (lt→ltb i num_buckets h) (rw (remove-none (m.desc.buckets i) e) refl))

alloc-some :
    (system : ℕ → ℕ → ℕ) (m : Memory) (size i : ℕ)
    → size ≤ size_thresh
    → i < num_buckets
    → {p : ℕ} {r : List ℕ} → (m.desc.buckets i).free_list ≡ p ∷ r
    → global_im_alloc system m size i
      ≡ some (
        p,
        record m {
          desc =
              charged m.desc i
                (record (m.desc.buckets i) {
                  free_list = r;
                  free_list_size = (m.desc.buckets i).free_list_size - 1;
                })
                (m.desc.used +ℤ pos size);
        },
      )
unfolding global_im_alloc alloc_from
alloc-some system m size i fits h e =
    rw (le→leb size size_thresh fits)
      (rw (lt→ltb i num_buckets h) (rw (remove-some (m.desc.buckets i) e) refl))

-- A block of the size of bucket `i` from the global descriptor: it never fails, and `used` and the
-- free bytes, the chunk and the waste still make up what was allocated.
pub global_im_alloc_ok :
    (system : ℕ → ℕ → ℕ) (given : (k : ℕ) → system chunk_size k ≢ 0) (m : Memory) (i : ℕ)
    → i < num_buckets
    → DescOk m.desc
    → Pooled m.desc m.pool
    → (p : ℕ) × (t : Memory) × (global_im_alloc system m (bucket_to_size i) i ≡ some (p, t))
      × Took m i t
global_im_alloc_ok system given m i h ok acc =
    let (fits, some_bytes) = size-fits i h in
    let b = m.desc.buckets i in
    let used = m.desc.used +ℤ pos (bucket_to_size i) in
    let av = pos (m.pool.mem_end - m.pool.mem_begin) in
    let wa = pos m.pool.wasted in
    let al = pos m.pool.allocated in
    elim (List-cases b.free_list) [
      | inl e ↦
          let s : Memory = record m { desc = charged m.desc i b used } in
          let (p, t, eq, same, locals, pool) = carve_ok system given s (bucket_to_size i) fits (
            charged-even m.desc i b used av wa al av wa (al +ℤ pos (bucket_to_size i)) h acc.even
              (use_more m.desc.used (free_in m.desc i) (pos (bucket_to_size i)) av wa al)) in
          (
            p,
            t,
            alloc-none system m (bucket_to_size i) i fits h e ∙ eq,
            record {
              lists =
                  subst DescOk (sym same)
                    (DescOk-set m.desc i b used ok (ok.counted i) (ok.limited i));
              locals = locals;
              used = ap (λ d. d.used) same;
              account = subst (λ d. Pooled d t.pool) (sym same) pool;
            },
          )
      | inr (p, r, e) ↦
          let c : Bucket = record b { free_list = r; free_list_size = b.free_list_size - 1 } in
          let n : suc (length r) ≡ b.free_list_size = sym (ap length e) ∙ ok.counted i in
          (
            p,
            record m { desc = charged m.desc i c used },
            alloc-some system m (bucket_to_size i) i fits h e,
            record {
              lists = DescOk-set m.desc i c used ok (omega arith) (ok.limited i);
              locals = refl;
              used = refl;
              account = record {
                in_chunk = acc.in_chunk;
                even = charged-even m.desc i c used av wa al av wa al h acc.even (
                    use_listed m.desc.used av wa al b.free_list_size (bucket_to_size i)
                      (omega arith));
              };
            },
          )
    ]
