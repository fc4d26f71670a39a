-- ===== src/Metrics/Tests.antt =====
-- The theorems on the metrics at concrete calls.
use fastdl_mm.Prelude.{ℕ, ◌≡◌, List, [], ◌∷◌, arith}
use fastdl_mm.Metrics.{reset, snapshot_rate}
use fastdl_mm.Metrics.Supplied.{supply_all, total}
use fastdl_mm.Metrics.Window.{recently, snapshot_rate-supply_all}

abbrev calls : List (ℕ × ℕ)
calls = (100, 5) ∷ (50, 7) ∷ (0, 8) ∷ (20, 15) ∷ []

snapshot_rate-supply_all_example :
    ((supply_all (reset 4) calls).transferred_bytes ≡ total calls)
    × ((snapshot_rate (supply_all (reset 4) calls) 16).0 ≡ recently 16 calls)
snapshot_rate-supply_all_example =
    snapshot_rate-supply_all 4 16 calls
      (omega arith, (omega arith, (omega arith, (omega arith, omega arith)))) (omega arith)
      (omega arith)
