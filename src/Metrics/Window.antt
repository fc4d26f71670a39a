-- ===== src/Metrics/Window.antt =====
-- src/transfer_metrics.cpp: the throughput window is the last ten seconds.
use fastdl_mm.Prelude.{
  ℕ, zero, suc, ◌+◌, ◌%◌, ◌≤◌, ◌<◌, ◌≡◌, refl, ap, ◌∙◌, inl, inr, List, [], ◌∷◌, arith, ltb, ◌==◌,
  if◌then◌else◌, Bool-cases, length, u32_mod, u64_max, saturating_sum,
}
use fastdl_mm.Prelude.Int.{ℤ, pos, negsuc}
use fastdl_mm.Metrics.{
  window_seconds, minus_one, unused_buckets, reset, is_second, supply_bucket, update_at,
  bytes_supplied, is_recent, recent_from, snapshot_rate, Bucket, Metrics,
}
use fastdl_mm.Metrics.Supplied.{
  supply_all, total, held, supplied_once, supplied_all, supply_all-reset,
}

-- The bytes of the calls from the ten seconds up to `now` on.
abbrev pub recently : ℕ → List (ℕ × ℕ) → ℕ
recently now [] = 0
recently now ((n, t) ∷ calls) = (if ltb now (t + 10) then n else 0) + recently now calls

-- The seconds of the calls do not fall, from one second to another.
abbrev pub Ordered : ℕ → List (ℕ × ℕ) → ℕ → Type 0
Ordered from [] now = from ≤ now
Ordered from ((n, t) ∷ calls) now = (from ≤ t) × Ordered t calls now

-- The bucket at an index holds a second up to t that belongs there, or has never been used.
abbrev HoldsAt : ℕ → ℕ → ℤ → ℕ → Type 0
HoldsAt t i (pos s) bytes = (s % 10 ≡ i) × (s ≤ t)
HoldsAt t i (negsuc s) bytes = bytes ≡ 0

abbrev Placed : ℕ → ℕ → List Bucket → Type 0
Placed t i [] = Unit
Placed t i (b ∷ bs) = HoldsAt t i b.second b.bytes × Placed t (suc i) bs

abbrev counted : ℕ → ℤ → ℕ → ℕ
counted now second bytes = if is_recent second now then bytes else 0

abbrev recent_sum : ℕ → List Bucket → ℕ
recent_sum now [] = 0
recent_sum now (b ∷ bs) = counted now b.second b.bytes + recent_sum now bs

saturating_sum-eq : (a b : ℕ) → a + b ≤ u64_max → saturating_sum a b ≡ a + b
unfolding saturating_sum
saturating_sum-eq a b h = ground arith

recent_from-sum :
    (now acc : ℕ) (bs : List Bucket)
    → acc + held bs ≤ u64_max
    → recent_from now acc bs ≡ acc + recent_sum now bs
unfolding recent_from held
recent_from-sum now acc [] h = omega arith
recent_from-sum now acc (b ∷ bs) h = elim (Bool-cases (is_recent b.second now)) [
  | inl e ↦
      let sum : saturating_sum acc b.bytes ≡ acc + b.bytes =
        saturating_sum-eq acc b.bytes (omega (arith, h)) in
      let rest = recent_from-sum now (saturating_sum acc b.bytes) bs (omega (arith, h, sum)) in
      rw e (omega (arith, rest, sum))
  | inr e ↦ rw e (omega (arith, recent_from-sum now acc bs (omega (arith, h))))
]

Ordered-le : (t now : ℕ) (calls : List (ℕ × ℕ)) → Ordered t calls now → t ≤ now
Ordered-le t now [] o = o
Ordered-le t now ((n, u) ∷ calls) o = omega (arith, o.0, Ordered-le u now calls o.1)

HoldsAt-later :
    (t u i : ℕ) (second : ℤ) (bytes : ℕ)
    → t ≤ u
    → HoldsAt t i second bytes
    → HoldsAt u i second bytes
HoldsAt-later t u i (pos s) bytes h k = (k.0, omega (arith, h, k.1))
HoldsAt-later t u i (negsuc s) bytes h k = k

Placed-later : (t u i : ℕ) (bs : List Bucket) → t ≤ u → Placed t i bs → Placed u i bs
Placed-later t u i [] h k = tt
Placed-later t u i (b ∷ bs) h k =
    (HoldsAt-later t u i b.second b.bytes h k.0, Placed-later t u (suc i) bs h k.1)

-- A bucket after a call at second t, and what it counts for from then on.
record Supplied (t n i now : ℕ) (b c : Bucket) : Type 0 where
  holds : HoldsAt t i c.second c.bytes
  counts :
      counted now c.second c.bytes
      ≡ counted now b.second b.bytes + (if ltb now (t + 10) then n else 0)

supply_bucket_lem :
    (t n i now : ℕ) (second : ℤ) (bytes : ℕ)
    → t % 10 ≡ i
    → HoldsAt t i second bytes
    → t ≤ now
    → bytes + n ≤ u64_max
    → let b : Bucket = record { second = second; bytes = bytes } in
      Supplied t n i now b (supply_bucket t n b)
unfolding supply_bucket is_second is_recent saturating_sum
supply_bucket_lem t n i now (pos s) bytes e h k l = elim (Bool-cases (s == t)) [
  | inl same ↦ record { holds = ground (arith, same, h.0, h.1); counts = ground (arith, same) }
  | inr other ↦ record {
    holds = ground (arith, other, e);
    counts = ground (arith, other, h.0, h.1, e);
  }
]
supply_bucket_lem t n i now (negsuc s) bytes e h k l = record {
  holds = (e, omega arith);
  counts = ground (arith, h);
}

-- The buckets after a call.
record AllSupplied (t n i now : ℕ) (bs cs : List Bucket) : Type 0 where
  placed : Placed t i cs
  counts : recent_sum now cs ≡ recent_sum now bs + (if ltb now (t + 10) then n else 0)
  many : length cs ≡ length bs

update_at_lem :
    (t n i now k : ℕ) (bs : List Bucket)
    → t % 10 ≡ i + k
    → k < length bs
    → Placed t i bs
    → t ≤ now
    → held bs + n ≤ u64_max
    → AllSupplied t n i now bs (update_at k (supply_bucket t n) bs)
unfolding held
update_at_lem t n i now k [] e few h l m = elim few [ ]
update_at_lem t n i now zero (b ∷ bs) e few h l m =
    let one =
      supply_bucket_lem t n i now b.second b.bytes (omega (arith, e)) h.0 l (omega (arith, m)) in
    record { placed = (one.holds, h.1); counts = omega (arith, one.counts); many = refl }
update_at_lem t n i now (suc k) (b ∷ bs) e few h l m =
    let rest =
      update_at_lem t n (suc i) now k bs (omega (arith, e)) (omega (arith, few)) h.1 l
        (omega (arith, m)) in
    record {
      placed = (h.0, rest.placed);
      counts = omega (arith, rest.counts);
      many = ap suc rest.many;
    }

bytes_supplied_lem :
    (m : Metrics) (n t now : ℕ)
    → length m.buckets ≡ 10
    → Placed t 0 m.buckets
    → t ≤ now
    → now < u32_mod
    → held m.buckets + n ≤ u64_max
    → AllSupplied t n 0 now m.buckets (bytes_supplied m n t).buckets
unfolding bytes_supplied
bytes_supplied_lem m n t now ten h l w s = elim (Bool-cases (n == 0)) [
  | inl e ↦ rw e (record { placed = h; counts = ground (arith, e); many = refl })
  | inr e ↦ rw e (
      update_at_lem t n 0 now (t % u32_mod % window_seconds) m.buckets (omega (arith, l, w))
        (omega (arith, ten)) h l s)
]

supply_all_lem :
    (m : Metrics) (from now : ℕ) (calls : List (ℕ × ℕ))
    → length m.buckets ≡ 10
    → Placed from 0 m.buckets
    → Ordered from calls now
    → now < u32_mod
    → m.transferred_bytes ≤ u64_max
    → held m.buckets + total calls ≤ u64_max
    → recent_sum now (supply_all m calls).buckets ≡ recent_sum now m.buckets + recently now calls
unfolding supply_all
supply_all_lem m from now [] ten h o w c s = omega arith
supply_all_lem m from now ((n, t) ∷ calls) ten h o w c s =
    let one =
      bytes_supplied_lem m n t now ten (Placed-later from t 0 m.buckets o.0 h)
        (Ordered-le t now calls o.1) w (omega (arith, s)) in
    let kept = supplied_once m n t c in
    let rest =
      supply_all_lem (bytes_supplied m n t) t now calls (one.many ∙ ten) one.placed o.1 w
        (omega (arith, kept.0)) (omega (arith, kept.1, s)) in
    omega (arith, rest, one.counts)

unused-Placed : Placed 0 0 unused_buckets
unused-Placed = (refl, (refl, (refl, (refl, (refl, (refl, (refl, (refl, (refl, (refl, tt))))))))))

unused-recent_sum : (now : ℕ) → recent_sum now unused_buckets ≡ 0
unused-recent_sum now = elim (Bool-cases (is_recent minus_one now)) [
  | inl e ↦ rw e refl
  | inr e ↦ rw e refl
]

-- After calls of `bytesSupplied` since a reset, of 2^64 - 1 bytes in all at most, whose seconds do not fall and are at
-- most `now`, itself less than 2^32: the bytes transferred are the sum of those of the calls, and the bytes that
-- `snapshot` at `now` divides for the throughput are exactly the sum of those of the calls from the last ten seconds,
-- whichever calls shared a bucket and whichever buckets were used again.
pub snapshot_rate-supply_all :
    (started now : ℕ) (calls : List (ℕ × ℕ))
    → Ordered 0 calls now
    → now < u32_mod
    → total calls ≤ u64_max
    → ((supply_all (reset started) calls).transferred_bytes ≡ total calls)
      × ((snapshot_rate (supply_all (reset started) calls) now).0 ≡ recently now calls)
unfolding reset snapshot_rate held
snapshot_rate-supply_all started now calls o w s =
    let m = supply_all (reset started) calls in
    let counted = supply_all-reset started now calls in
    let kept = supplied_all (reset started) calls (omega arith) in
    let window =
      supply_all_lem (reset started) 0 now calls refl unused-Placed o w (omega arith)
        (omega (arith, s)) in
    (
      omega (arith, counted.0, s),
      omega (
        arith,
        recent_from-sum now 0 m.buckets (omega (arith, kept.1, s)),
        window,
        unused-recent_sum now,
      ),
    )
