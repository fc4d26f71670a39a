-- ===== src/Metrics/Supplied.antt =====
-- src/transfer_metrics.cpp: what `bytesSupplied` adds up, and what `snapshot` makes of it.
use fastdl_mm.Prelude.{
  ℕ, zero, suc, ◌+◌, ◌%◌, ◌≤◌, min, ◌≡◌, inl, inr, List, [], ◌∷◌, arith, ◌==◌, ==_iff, Bool-cases,
  u32_mod, u64_max, saturating_sum,
}
use fastdl_mm.Metrics.{
  window_seconds, reset, is_second, supply_bucket, update_at, bytes_supplied, is_recent,
  recent_from, snapshot_rate, Bucket, Metrics,
}

-- Calls of `bytesSupplied`, each with its bytes and its second.
unfoldable pub supply_all : Metrics → List (ℕ × ℕ) → Metrics
supply_all m [] = m
supply_all m ((n, now) ∷ calls) = supply_all (bytes_supplied m n now) calls

abbrev pub total : List (ℕ × ℕ) → ℕ
total [] = 0
total ((n, now) ∷ calls) = n + total calls

unfoldable pub held : List Bucket → ℕ
held [] = 0
held (b ∷ bs) = b.bytes + held bs

saturating_sum-le : (a b : ℕ) → saturating_sum a b ≤ a + b
unfolding saturating_sum
saturating_sum-le a b = ground arith

pub saturating_sum-min : (a b : ℕ) → a ≤ u64_max → saturating_sum a b ≡ min u64_max (a + b)
unfolding saturating_sum
saturating_sum-min a b h = ground arith

supply_bucket-le : (now n : ℕ) (b : Bucket) → (supply_bucket now n b).bytes ≤ b.bytes + n
unfolding supply_bucket
supply_bucket-le now n b =
    let old = saturating_sum-le b.bytes n in
    let new = saturating_sum-le 0 n in
    elim (Bool-cases (is_second b.second now)) [
      | inl e ↦ rw e old
      | inr e ↦ rw e (omega (arith, new))
    ]

held-update_at :
    (i now n : ℕ) (bs : List Bucket) → held (update_at i (supply_bucket now n) bs) ≤ held bs + n
unfolding held
held-update_at i now n [] = omega arith
held-update_at zero now n (b ∷ bs) = omega (arith, supply_bucket-le now n b)
held-update_at (suc i) now n (b ∷ bs) = omega (arith, held-update_at i now n bs)

recent_from-le : (now acc : ℕ) (bs : List Bucket) → recent_from now acc bs ≤ acc + held bs
unfolding recent_from held
recent_from-le now acc [] = omega arith
recent_from-le now acc (b ∷ bs) =
    let sum = saturating_sum-le acc b.bytes in
    elim (Bool-cases (is_recent b.second now)) [
      | inl e ↦ rw e (omega (arith, sum, recent_from-le now (saturating_sum acc b.bytes) bs))
      | inr e ↦ rw e (omega (arith, recent_from-le now acc bs))
    ]

pub supplied_once :
    (m : Metrics) (n now : ℕ)
    → m.transferred_bytes ≤ u64_max
    → ((bytes_supplied m n now).transferred_bytes ≡ min u64_max (m.transferred_bytes + n))
      × (held (bytes_supplied m n now).buckets ≤ held m.buckets + n)
unfolding bytes_supplied
supplied_once m n now h = elim (Bool-cases (n == 0)) [
  | inl e ↦
      let zero_bytes : n ≡ 0 = (==_iff n 0).0 e in rw e (omega (arith, zero_bytes), omega arith)
  | inr e ↦ rw e (
    saturating_sum-min m.transferred_bytes n h,
    held-update_at (now % u32_mod % window_seconds) now n m.buckets,
  )
]

pub supplied_all :
    (m : Metrics) (calls : List (ℕ × ℕ))
    → m.transferred_bytes ≤ u64_max
    → ((supply_all m calls).transferred_bytes ≡ min u64_max (m.transferred_bytes + total calls))
      × (held (supply_all m calls).buckets ≤ held m.buckets + total calls)
unfolding supply_all
supplied_all m [] h = (omega arith, omega arith)
supplied_all m ((n, now) ∷ calls) h =
    let (counted, kept) = supplied_once m n now h in
    let (all_counted, all_kept) =
      supplied_all (bytes_supplied m n now) calls (omega (arith, counted)) in
    (omega (arith, counted, all_counted), omega (arith, kept, all_kept))

-- After any calls of `bytesSupplied` at any times since a reset, the bytes transferred are the sum of
-- those of the calls, held at the largest 64-bit number, and the bytes that `snapshot` takes for recent
-- are at most that sum, whichever calls shared a bucket.
pub supply_all-reset :
    (started now : ℕ) (calls : List (ℕ × ℕ))
    → ((supply_all (reset started) calls).transferred_bytes ≡ min u64_max (total calls))
      × ((snapshot_rate (supply_all (reset started) calls) now).0 ≤ total calls)
unfolding reset snapshot_rate held
supply_all-reset started now calls =
    let (counted, kept) = supplied_all (reset started) calls (omega arith) in
    let recent = recent_from-le now 0 (supply_all (reset started) calls).buckets in
    (omega (arith, counted), omega (arith, kept, recent))
