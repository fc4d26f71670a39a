-- ===== src/Bandwidth/Rate.antt =====
-- src/bandwidth_limiter.cpp: durations are exact, and reservations keep to the rate.
use native.Mathlib.Nat.{div-add-mod, mod-lt, mul_comm}
use fastdl_mm.Prelude.{
  ℕ, ◌+◌, ◌-◌, ◌*◌, ◌/◌, ◌%◌, ◌^◌, ◌≤◌, ◌<◌, ◌≡◌, inl, inr, true, false, ◌||◌, arith, ltb, ◌==◌,
  if◌then◌else◌, le→ltb_false, ==_iff, Bool-cases, u32_mod, u64_mod, i64_max,
}
use fastdl_mm.Bandwidth.{nanoseconds_per_second, duration_for}

-- Division rounded up.
ceil_bounds :
    (x rate : ℕ)
    → 0 < rate
    → (x ≤ (x + (rate - 1)) / rate * rate) × ((x + (rate - 1)) / rate * rate < x + rate)
ceil_bounds x rate h = omega (
  arith,
  div-add-mod (x + (rate - 1)) rate,
  mod-lt (x + (rate - 1)) h,
  mul_comm rate ((x + (rate - 1)) / rate),
)

abbrev fractional : ℕ → ℕ → ℕ
fractional r rate =
    if r == 0 then 0 else ((r * nanoseconds_per_second + (rate - 1)) % u64_mod) / rate

fractional_bounds :
    (r rate : ℕ)
    → 0 < rate
    → rate ≤ 2 ^ 63
    → r < u32_mod
    → (r * nanoseconds_per_second ≤ fractional r rate * rate)
      × (fractional r rate * rate < r * nanoseconds_per_second + rate)
fractional_bounds r rate h k m =
    let whole : (r * nanoseconds_per_second + (rate - 1)) % u64_mod
        ≡ r * nanoseconds_per_second + (rate - 1) =
      omega arith in
    elim (Bool-cases (r == 0)) [
      | inl z ↦ rw z (omega (arith, (==_iff r 0).0 z))
      | inr nz ↦ rw (nz, whole) (ceil_bounds (r * nanoseconds_per_second) rate h)
    ]

le_mul_pos : (f rate : ℕ) → 0 < rate → f ≤ f * rate
le_mul_pos f rate h = grind arith

regroup : (q rate f n : ℕ) → (q * n + f) * rate ≡ (rate * q) * n + f * rate
regroup q rate f n = omega arith

assemble :
    (bytes rate q r f : ℕ)
    → rate * q + r ≡ bytes
    → bytes < u32_mod
    → 0 < rate
    → f ≤ f * rate
    → q ≤ q * rate
    → (1 ≤ q → rate ≤ rate * q)
    → r * nanoseconds_per_second ≤ f * rate
    → f * rate < r * nanoseconds_per_second + rate
    → let d =
        if ltb (i64_max / nanoseconds_per_second) q
          || ltb (i64_max - f) (q * nanoseconds_per_second)
        then i64_max
        else q * nanoseconds_per_second + f in
      (bytes * nanoseconds_per_second ≤ d * rate)
      × (d * rate < bytes * nanoseconds_per_second + rate)
assemble bytes rate q r f e hb hr hf hq h1 lo hi =
    let small : q ≤ i64_max / nanoseconds_per_second = omega arith in
    let fits : q * nanoseconds_per_second ≤ i64_max - f = elim (Bool-cases (q == 0)) [
      | inl z ↦ omega (arith, (==_iff q 0).0 z)
      | inr nz ↦ fits_pos (h1 (pos q nz)) (pos q nz)
    ] in
    rw
      (
        le→ltb_false (i64_max / nanoseconds_per_second) q small,
        le→ltb_false (i64_max - f) (q * nanoseconds_per_second) fits,
        regroup q rate f nanoseconds_per_second,
      )
      (omega arith)
  where
    pos : (q : ℕ) → (q == 0) ≡ false → 1 ≤ q
    pos q h = ground arith

    fits_pos : rate ≤ rate * q → 1 ≤ q → q * nanoseconds_per_second ≤ i64_max - f
    fits_pos h k = omega arith

-- The duration of n bytes is the least number of nanoseconds in which the rate carries them, for all
-- values of a 32-bit `std::size_t` and every rate up to 2^63 bytes per second: neither the 64-bit
-- product nor the saturation distorts it.
pub duration_for-ceil :
    (bytes rate : ℕ)
    → bytes < u32_mod
    → 0 < rate
    → rate ≤ 2 ^ 63
    → (bytes * nanoseconds_per_second ≤ duration_for bytes rate * rate)
      × (duration_for bytes rate * rate < bytes * nanoseconds_per_second + rate)
unfolding duration_for
duration_for-ceil bytes rate hb hr hm = elim (Bool-cases (rate == 0 || bytes == 0)) [
  | inl z ↦ rw z (omega (arith, empty z))
  | inr nz ↦
      let below : bytes % rate ≤ bytes = omega (arith, div-add-mod bytes rate) in
      let (lo, hi) = fractional_bounds (bytes % rate) rate hr hm (omega arith) in
      rw nz (
        assemble bytes rate (bytes / rate) (bytes % rate) (fractional (bytes % rate) rate)
          (div-add-mod bytes rate) hb hr (le_mul_pos (fractional (bytes % rate) rate) rate hr)
          (le_mul_pos (bytes / rate) rate hr) (λ h. grind arith) lo hi)
]
  where
    empty : (rate == 0 || bytes == 0) ≡ true → bytes ≡ 0
    empty h = ground arith
