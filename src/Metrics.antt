-- ===== src/Metrics.antt =====
-- src/transfer_metrics.h and src/transfer_metrics.cpp: transfer counters and the throughput window. Each
-- atomic operation is one step; a compare-exchange loop is its last, successful exchange. The second of
-- the steady clock, which is not negative, is an argument; -1 marks a bucket that was never used.
pub mod Supplied
pub mod Window
pub mod Tests
use fastdl_mm.Prelude.{
  ℕ, zero, suc, ◌+◌, ◌-◌, ◌%◌, min, Bool, false, not, ◌&&◌, List, [], ◌∷◌, ltb, leb, ◌==◌,
  if◌then◌else◌, u32_mod, u64_mod, saturating_sum,
}
use fastdl_mm.Prelude.Int.{ℤ, pos, negsuc}

pub data TransferOutcome : Type 0 where
  completed aborted timed_out failed : TransferOutcome

pub record Bucket : Type 0 where
  pub second : ℤ
  pub bytes : ℕ

pub record Metrics : Type 0 where
  pub requests : ℕ
  pub active : ℕ
  pub completed_count : ℕ
  pub aborted_count : ℕ
  pub timed_out_count : ℕ
  pub failed_count : ℕ
  pub transferred_bytes : ℕ
  pub buckets : List Bucket
  pub started_second : ℤ

abbrev pub window_seconds : ℕ
window_seconds = 10

abbrev pub minus_one : ℤ
minus_one = negsuc 0

abbrev pub unused : Bucket
unused = record { second = minus_one; bytes = 0 }

abbrev pub unused_buckets : List Bucket
unused_buckets =
    unused ∷ unused ∷ unused ∷ unused ∷ unused ∷ unused ∷ unused ∷ unused ∷ unused ∷ unused ∷ []

unfoldable pub reset : ℕ → Metrics
reset now = record {
  requests = 0;
  active = 0;
  completed_count = 0;
  aborted_count = 0;
  timed_out_count = 0;
  failed_count = 0;
  transferred_bytes = 0;
  buckets = unused_buckets;
  started_second = pos now;
}

unfoldable pub request_started : Metrics → Metrics
request_started m = record m { requests = saturating_sum m.requests 1 }

unfoldable pub transfer_started : Metrics → Metrics
transfer_started m = record m { active = saturating_sum m.active 1 }

unfoldable pub is_second : ℤ → ℕ → Bool
is_second (pos s) now = s == now
is_second (negsuc s) now = false

-- A bucket takes the bytes of its second, and is emptied first if it held another's.
unfoldable pub supply_bucket : ℕ → ℕ → Bucket → Bucket
unfolding is_second
supply_bucket now n b =
    if is_second b.second now
    then record b { bytes = saturating_sum b.bytes n }
    else record { second = pos now; bytes = saturating_sum 0 n }

abbrev pub update_at : ℕ → (Bucket → Bucket) → List Bucket → List Bucket
update_at i f [] = []
update_at zero f (b ∷ bs) = f b ∷ bs
update_at (suc i) f (b ∷ bs) = b ∷ update_at i f bs

-- The second is cut to a `std::size_t` before it picks the bucket.
unfoldable pub bytes_supplied : Metrics → ℕ → ℕ → Metrics
bytes_supplied m n now = if n == 0 then m else record m {
  transferred_bytes = saturating_sum m.transferred_bytes n;
  buckets = update_at (now % u32_mod % window_seconds) (supply_bucket now n) m.buckets;
}

unfoldable pub failure : Metrics → Metrics
failure m = record m { failed_count = saturating_sum m.failed_count 1 }

-- `fetch_sub` wraps at zero.
unfoldable pub transfer_finished : Metrics → TransferOutcome → Metrics
unfolding failure
transfer_finished m outcome =
    let m1 = record m { active = (m.active + u64_mod - 1) % u64_mod } in
    elim outcome [
      | completed ↦ record m1 { completed_count = saturating_sum m1.completed_count 1 }
      | aborted ↦ record m1 { aborted_count = saturating_sum m1.aborted_count 1 }
      | timed_out ↦ record m1 { timed_out_count = saturating_sum m1.timed_out_count 1 }
      | failed ↦ failure m1
    ]

-- `second <= now && second > now - 10`.
unfoldable pub is_recent : ℤ → ℕ → Bool
is_recent (pos s) now = leb s now && ltb now (s + window_seconds)
is_recent (negsuc s) now = ltb (now + suc s) window_seconds

unfoldable pub recent_from : ℕ → ℕ → List Bucket → ℕ
recent_from now total [] = total
recent_from now total (b ∷ bs) =
    recent_from now (if is_recent b.second now then saturating_sum total b.bytes else total) bs

-- The seconds by which `snapshot` divides.
unfoldable pub window : ℤ → ℕ → ℕ
window (negsuc s) now = 1
window (pos s) now = min window_seconds (if ltb now s then 1 else now - s + 1)

-- The throughput of `snapshot`: the recent bytes and the seconds, whose quotient, times 8, the source
-- takes in floating point.
unfoldable pub snapshot_rate : Metrics → ℕ → ℕ × ℕ
snapshot_rate m now = (recent_from now 0 m.buckets, window m.started_second now)

-- The answer of `snapshot`, with the throughput as the bytes and the seconds of its quotient.
pub record TransferStats : Type 0 where
  pub requests : ℕ
  pub active : ℕ
  pub completed_count : ℕ
  pub aborted_count : ℕ
  pub timed_out_count : ℕ
  pub failed_count : ℕ
  pub transferred_bytes : ℕ
  pub throughput : ℕ × ℕ

unfoldable pub snapshot : Metrics → ℕ → TransferStats
snapshot m now = record {
  requests = m.requests;
  active = m.active;
  completed_count = m.completed_count;
  aborted_count = m.aborted_count;
  timed_out_count = m.timed_out_count;
  failed_count = m.failed_count;
  transferred_bytes = m.transferred_bytes;
  throughput = snapshot_rate m now;
}
