-- ===== src/Bandwidth/Conformance.antt =====
-- src/bandwidth_limiter.cpp: what a bucket lets through keeps to its rate and its burst.
use native.Mathlib.Nat.{mul-le-mul_right}
use fastdl_mm.Prelude.{
  ℕ, ◌+◌, ◌*◌, ◌/◌, ◌^◌, ◌≤◌, ◌<◌, min, max, ◌≡◌, refl, ◌∙◌, ◌⊎◌, List, [], ◌∷◌, arith, All,
  u32_mod, i64_max,
}
use fastdl_mm.Bandwidth.{
  nanoseconds_per_second, maximum_burst_bytes, duration_for, configure_bucket, reserve, Bucket,
}
use fastdl_mm.Bandwidth.Rate.{duration_for-ceil}

-- The reservations of a bucket, each of a number of bytes at a time.
unfoldable pub reserve_all : Bucket → List (ℕ × ℕ) → Bucket
reserve_all b [] = b
reserve_all b ((bytes, now) ∷ hs) = reserve_all (reserve b bytes now).0 hs

abbrev pub total : List (ℕ × ℕ) → ℕ
total [] = 0
total ((bytes, now) ∷ hs) = bytes + total hs

record Reserved (b : Bucket) (bytes now : ℕ) : Type 0 where
  rate : (reserve b bytes now).0.bytes_per_second ≡ b.bytes_per_second
  burst : (reserve b bytes now).0.burst_nanoseconds ≡ b.burst_nanoseconds
  later : now ≤ (reserve b bytes now).1
  within : b.theoretical_arrival ≤ (reserve b bytes now).1 + b.burst_nanoseconds
  moved :
      ((reserve b bytes now).0.theoretical_arrival ≡ i64_max)
      ⊎ (b.theoretical_arrival + duration_for bytes b.bytes_per_second
          ≤ (reserve b bytes now).0.theoretical_arrival)

reserve-Reserved : (b : Bucket) (bytes now : ℕ) → 0 < b.bytes_per_second → Reserved b bytes now
unfolding reserve
reserve-Reserved b bytes now h = ground arith

abbrev pub IsSmall : ℕ × ℕ → Type 0
IsSmall h = h.0 < u32_mod

record Accumulated (b : Bucket) (hs : List (ℕ × ℕ)) : Type 0 where
  rate : (reserve_all b hs).bytes_per_second ≡ b.bytes_per_second
  burst : (reserve_all b hs).burst_nanoseconds ≡ b.burst_nanoseconds
  grown : b.theoretical_arrival ≤ (reserve_all b hs).theoretical_arrival
  paid :
      total hs * nanoseconds_per_second + b.theoretical_arrival * b.bytes_per_second
      ≤ (reserve_all b hs).theoretical_arrival * b.bytes_per_second

reserve_all-Accumulated :
    (b : Bucket) (hs : List (ℕ × ℕ))
    → 0 < b.bytes_per_second
    → b.bytes_per_second ≤ 2 ^ 63
    → All IsSmall hs
    → (reserve_all b hs).theoretical_arrival < i64_max
    → Accumulated b hs
unfolding reserve_all
reserve_all-Accumulated b [] h k s t = record {
  rate = refl;
  burst = refl;
  grown = omega arith;
  paid = omega arith;
}
reserve_all-Accumulated b ((bytes, now) ∷ hs) h k s t =
    let one = reserve-Reserved b bytes now h in
    let b1 = (reserve b bytes now).0 in
    let rest =
      reserve_all-Accumulated b1 hs (omega (arith, one.rate)) (omega (arith, one.rate)) s.1 t in
    let exact = duration_for-ceil bytes b.bytes_per_second s.0 h k in
    let moved : b.theoretical_arrival + duration_for bytes b.bytes_per_second
        ≤ b1.theoretical_arrival =
      omega (arith, one.moved, rest.grown) in
    record {
      rate = rest.rate ∙ one.rate;
      burst = rest.burst ∙ one.burst;
      grown = omega (arith, rest.grown);
      paid =
          pay bytes (total hs) b.theoretical_arrival b1.theoretical_arrival
            (reserve_all b1 hs).theoretical_arrival b.bytes_per_second
            (duration_for bytes b.bytes_per_second) exact.0 (rw one.rate at rest.paid) moved;
    }
  where
    pay :
        (x y t0 t1 t2 r d : ℕ)
        → x * nanoseconds_per_second ≤ d * r
        → y * nanoseconds_per_second + t1 * r ≤ t2 * r
        → t0 + d ≤ t1
        → (x + y) * nanoseconds_per_second + t0 * r ≤ t2 * r
    pay x y t0 t1 t2 r d p q m = omega (arith, mul-le-mul_right r m)

-- A bucket configured at time t0 with a rate from 1 to 2^63 bytes a second lets no more through than its rate and its burst: whatever
-- reservations came before and at whatever times, if their bytes are n in all and a further
-- reservation is allowed at time `allowed`, then `allowed` is no earlier than the call, and n is less
-- than rate * (allowed - t0) plus the burst's bytes plus the rounding of one nanosecond. (The bucket's
-- arrival time has not reached the end of the 64-bit range, 292 years, and the chunk and each call's bytes
-- are less than 2^32.)
pub reserve_all-rate :
    (rate quantum t0 bytes now : ℕ) (hs : List (ℕ × ℕ))
    → 0 < rate
    → rate ≤ 2 ^ 63
    → quantum < u32_mod
    → All IsSmall hs
    → (reserve_all (configure_bucket rate quantum t0) hs).theoretical_arrival < i64_max
    → let allowed = (reserve (reserve_all (configure_bucket rate quantum t0) hs) bytes now).1 in
      (now ≤ allowed)
      × (total hs * nanoseconds_per_second + t0 * rate
          < allowed * rate
            + max quantum (min maximum_burst_bytes (rate / 10)) * nanoseconds_per_second
            + rate)
unfolding configure_bucket
reserve_all-rate rate quantum t0 bytes now hs h k q s t =
    let b = configure_bucket rate quantum t0 in
    let acc = reserve_all-Accumulated b hs h k s t in
    let last = reserve-Reserved (reserve_all b hs) bytes now (omega (arith, acc.rate)) in
    let size = max quantum (min maximum_burst_bytes (rate / 10)) in
    let exact = duration_for-ceil size rate (omega arith) h k in
    (
      last.later,
      settle (total hs) t0 (reserve_all b hs).theoretical_arrival
          (reserve (reserve_all b hs) bytes now).1 rate size (duration_for size rate) acc.paid
          (omega (arith, last.within, acc.burst)) exact.1,
    )
  where
    settle :
        (n t0 t a r size d : ℕ)
        → n * nanoseconds_per_second + t0 * r ≤ t * r
        → t ≤ a + d
        → d * r < size * nanoseconds_per_second + r
        → n * nanoseconds_per_second + t0 * r < a * r + size * nanoseconds_per_second + r
    settle n t0 t a r size d p m e = omega (arith, mul-le-mul_right r m)
