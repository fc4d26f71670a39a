-- ===== src/Logger/Tests.antt =====
-- The theorems on the log at concrete histories.
use fastdl_mm.Prelude.{
  ◌+◌, ◌*◌, ◌<◌, ◌≡◌, refl, Bool, true, false, none, some, List, [], ◌∷◌, ◌++◌, arith, length, All,
  add_size, Bytes, codes,
}
use fastdl_mm.Prelude.Int.{◌+ℤ◌, ◌-ℤ◌, ℤ, pos}
use fastdl_mm.Resolver.{FilePath}
use fastdl_mm.Logger.{
  same_day, MkTime, daily_path, purge_from, purge, write, take_batch, reopen, open_file,
  flush_batch, take_next, flush_next, step, run, Tm, Round, System, Event, text, report, writes,
  takes, flushes,
}
use fastdl_mm.Logger.Order.{offered, content, run-content, Within}
use fastdl_mm.Logger.Delivery.{accounted, run-accounted}
use fastdl_mm.Logger.Shutdown.{run_ends}
use fastdl_mm.Logger.Failure.{run-Stuck, Stuck}
use fastdl_mm.Logger.Names.{Removable, purge-Removable}

abbrev calendar : MkTime
calendar year month day = some (day +ℤ pos (32 * (month + 13 * year)))

abbrev monday : Tm
monday = record { tm_year = 126; tm_mon = 10; tm_mday = 2; tm_yday = 305 }

abbrev base : FilePath
base = codes "logs" ∷ codes "fastdl.log" ∷ []

abbrev idle : System
idle = record {
  logger = record { base_path = base; keep_days = 7; queue = []; stopping = false; dropped = 0 };
  running = true;
  worker = record { opened = false; open_day = monday; good = true; file = [] };
  hand = none;
  disk = [];
  removed = [];
}

abbrev round : Bool → Bool → Round
round opens fails = record {
  today = monday;
  opens = opens;
  fails = fails;
  taken = 0;
  entries = (codes "fastdl-2026-10-20.log", true) ∷ [];
}

abbrev line_a : Bytes
line_a = codes "a"

abbrev line_b : Bytes
line_b = codes "b"

-- A line is lost to a file that does not open, and reported with the next one.
abbrev two_rounds : List Event
two_rounds =
    writes line_a
    ∷ takes
    ∷ flushes (round false false)
    ∷ writes line_b
    ∷ takes
    ∷ flushes (round true false)
    ∷ []

two_rounds_disk :
    (run calendar idle two_rounds).disk
    ≡ (daily_path base monday, report 1) ∷ (daily_path base monday, text line_b) ∷ []
unfolding run step write take_next take_batch flush_next flush_batch open_file reopen purge
    purge_from add_size
two_rounds_disk = refl

run-content_example :
    Within
      (content (run calendar idle two_rounds))
      (content idle ++ offered calendar idle two_rounds)
run-content_example = run-content calendar idle two_rounds

run-accounted_example :
    accounted (run calendar idle two_rounds)
    ≡ accounted idle + length (offered calendar idle two_rounds)
unfolding run step write take_next take_batch flush_next flush_batch open_file reopen purge
    purge_from offered
run-accounted_example =
    run-accounted calendar idle two_rounds (tt, (tt, (refl, (tt, (tt, (refl, tt)))))) refl
      (omega arith)

abbrev stopping_idle : System
stopping_idle = record idle {
  logger = record idle.logger { stopping = true; queue = line_a ∷ [] };
  hand = some (line_b ∷ [], 0);
}

abbrev last_rounds : List Event
last_rounds =
    flushes (round true false) ∷ takes ∷ writes line_b ∷ flushes (round true false) ∷ takes ∷ []

run_ends_example : (run calendar stopping_idle last_rounds).running ≡ false
unfolding run step write take_next take_batch flush_next flush_batch open_file reopen purge
    purge_from same_day
run_ends_example = run_ends calendar stopping_idle last_rounds refl (omega arith)

-- The state after a round whose stream fails on its first line.
abbrev failed : System
failed = record idle {
  worker = record { opened = true; open_day = monday; good = false; file = daily_path base monday };
}

failed-reached :
    (run calendar idle (writes line_a ∷ takes ∷ flushes (round true true) ∷ [])).worker
    ≡ failed.worker
unfolding run step write take_next take_batch flush_next flush_batch open_file reopen purge
    purge_from
failed-reached = refl

failed-Stuck : Stuck monday failed
failed-Stuck = record { opened = refl; failed = refl; on = refl }

run-Stuck_example : (run calendar failed two_rounds).disk ≡ failed.disk
unfolding same_day
run-Stuck_example =
    run-Stuck calendar monday failed two_rounds failed-Stuck
      (tt, (tt, (refl, (tt, (tt, (refl, tt))))))

-- The first day that is kept lies in the month before.
abbrev first_kept : ℤ
first_kept = pos 2 -ℤ pos 6 +ℤ pos (32 * (11 + 13 * 2026))

purge-Removable_example :
    All
      (λ name. Removable calendar base first_kept name × (0 < 7))
      (purge calendar idle.logger monday
        ((codes "fastdl-2026-10-20.log", true) ∷ (codes "other.log", true) ∷ []))
unfolding ◌-ℤ◌
purge-Removable_example =
    purge-Removable calendar idle.logger monday
      ((codes "fastdl-2026-10-20.log", true) ∷ (codes "other.log", true) ∷ []) first_kept refl
