-- ===== src/Bandwidth/Tests.antt =====
-- The theorems on the bandwidth limiter at concrete limiters.
use fastdl_mm.Prelude.{
  ℕ, ◌+◌, ◌*◌, ◌/◌, ◌≤◌, ◌<◌, min, max, ◌≡◌, refl, ◌⊎◌, true, false, none, some, List, [], ◌∷◌,
  arith, ltb→lt, is_none, Bytes,
}
use fastdl_mm.Bandwidth.{
  nanoseconds_per_second, maximum_burst_bytes, duration_for, configure_bucket, reserve, acquire,
  Limiter,
}
use fastdl_mm.Bandwidth.Leases.{IsValid}
use fastdl_mm.Bandwidth.Grants.{acquire-grants}
use fastdl_mm.Bandwidth.Conformance.{reserve_all, total, reserve_all-rate}

abbrev alice : Bytes
alice = b'a' ∷ []

abbrev limited : Limiter
limited = record {
  global = record { bytes_per_second = 0; burst_nanoseconds = 0; theoretical_arrival = 0 };
  per_ip_rate = 1000000;
  quantum = 16 * 1024;
  stopping = false;
  clients = (alice, 0) ∷ [];
  overflow_client = none;
  attachments_since_cleanup = 0;
  heap =
      record { bytes_per_second = 1000000; burst_nanoseconds = 100; theoretical_arrival = 5 } ∷ [];
}

limited-IsValid : IsValid limited
limited-IsValid = record { room = omega arith; known = (refl, tt); shared = tt }

abbrev sent : List (ℕ × ℕ)
sent = (2048, 10) ∷ (4096, 20) ∷ []

reserve_all-rate_example :
    let allowed = (reserve (reserve_all (configure_bucket 1000000 2048 5) sent) 1024 30).1 in
    (30 ≤ allowed)
    × (total sent * nanoseconds_per_second + 5 * 1000000
        < allowed * 1000000
          + max 2048 (min maximum_burst_bytes (1000000 / 10)) * nanoseconds_per_second
          + 1000000)
unfolding reserve_all reserve configure_bucket duration_for
reserve_all-rate_example =
    reserve_all-rate 1000000 2048 5 1024 30 sent (omega arith) (omega arith) (omega arith)
      (omega arith, (omega arith, tt)) (ltb→lt _ _ refl)

acquire-grants_example :
    let r = acquire limited (some 0) 4096 7 false false in
    (r.2 ≤ 4096)
    × (7 ≤ r.1)
    × (((limited.global.bytes_per_second ≡ 0) × (is_none {A = ℕ} (some 0) ≡ true))
        ⊎ (r.2 ≤ limited.quantum))
    × ((r.2 ≡ 0)
        ⊎ ((0 < 4096)
            × (limited.stopping ≡ false)
            × ((false ≡ false)
                ⊎ ((limited.global.bytes_per_second ≡ 0) × (is_none {A = ℕ} (some 0) ≡ true)))
            × ((false ≡ false) ⊎ (r.1 ≡ 7))))
acquire-grants_example = acquire-grants limited (some 0) 4096 7 false false
