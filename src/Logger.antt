-- ===== src/Logger.antt =====
-- src/logger.h and src/logger.cpp: the log's queue, the thread that writes it to a file of the day, and the
-- removal of old files. Each section under the mutex is one step; the file, the local time and `mktime` are
-- parameters.
pub mod Names
pub mod Order
pub mod Delivery
pub mod Shutdown
pub mod Failure
pub mod Tests
use fastdl_mm.Prelude.{
  ℕ, ◌+◌, ◌-◌, Bool, true, false, not, ◌&&◌, ◌||◌, Option, none, some, List, [], ◌∷◌, ◌++◌, map,
  ltb, leb, ◌==◌, if◌then◌else◌, length, take, drop, is_empty, all, add_size, Bytes, bytes_eq,
  starts_with, to_string, zero_padded, decimal_from,
}
use fastdl_mm.Prelude.Int.{sub_ℕ, ltb_ℤ, ℤ, pos}
use fastdl_mm.Resolver.{FilePath, extension_of, filename}

-- The fields of `std::tm` that the source reads: years from 1900, months from 0.
pub record Tm : Type 0 where
  pub tm_year : ℕ
  pub tm_mon : ℕ
  pub tm_mday : ℕ
  pub tm_yday : ℕ

unfoldable pub same_day : Tm → Tm → Bool
same_day left right = left.tm_year == right.tm_year && left.tm_yday == right.tm_yday

unfoldable pub date_stamp : Tm → Bytes
date_stamp day =
    zero_padded 4 (to_string (day.tm_year + 1900))
    ++ (b'-'
        ∷ (zero_padded 2 (to_string (day.tm_mon + 1))
            ++ (b'-' ∷ zero_padded 2 (to_string day.tm_mday))))

-- `mktime` at midnight of a day, by year, month from 1 and day of the month, which may lie outside the
-- month; `none` is the result -1.
abbrev pub MkTime : Type 0
MkTime = ℕ → ℕ → ℤ → Option ℤ

abbrev pub is_digit : ℕ → Bool
is_digit c = leb b'0' c && leb c b'9'

-- `parseStamp` on the parts of a stamp.
unfoldable pub check_date : MkTime → ℕ → ℕ → ℕ → Option ℤ
check_date mktime year month day =
    if ltb month 1 || ltb 12 month || ltb day 1 || ltb 31 day
    then none
    else mktime year month (pos day)

unfoldable pub parse_stamp : MkTime → Bytes → Option ℤ
unfolding check_date
parse_stamp mktime (y0 ∷ y1 ∷ y2 ∷ y3 ∷ c4 ∷ m0 ∷ m1 ∷ c7 ∷ d0 ∷ d1 ∷ []) =
    if not (c4 == b'-') || not (c7 == b'-')
    then none
    else if not (all is_digit (y0 ∷ y1 ∷ y2 ∷ y3 ∷ m0 ∷ m1 ∷ d0 ∷ d1 ∷ []))
    then none
    else check_date mktime (decimal_from 0 (y0 ∷ y1 ∷ y2 ∷ y3 ∷ [])) (decimal_from 0 (m0 ∷ m1 ∷ []))
        (decimal_from 0 (d0 ∷ d1 ∷ []))
parse_stamp mktime _ = none

pub record AsyncLogger : Type 0 where
  pub base_path : FilePath
  pub keep_days : ℕ
  pub queue : List Bytes
  pub stopping : Bool
  pub dropped : ℕ

abbrev pub max_queued_lines : ℕ
max_queued_lines = 4096

abbrev pub parent_path : FilePath → FilePath
parent_path [] = []
parent_path (c ∷ []) = []
parent_path (c ∷ d ∷ p) = c ∷ parent_path (d ∷ p)

-- `path::stem` of a file name, up to its extension.
abbrev pub stem_of : Bytes → Bytes
stem_of name = take (length name - length (extension_of name)) name

-- The prefix and the extension of the names of the log's files.
abbrev pub prefix_of : FilePath → Bytes
prefix_of base = stem_of (filename base) ++ b'-' ∷ []

abbrev pub suffix_of : FilePath → Bytes
suffix_of base = extension_of (filename base)

unfoldable pub daily_name : FilePath → Tm → Bytes
daily_name base day = prefix_of base ++ (date_stamp day ++ suffix_of base)

unfoldable pub daily_path : FilePath → Tm → FilePath
unfolding daily_name
daily_path base day = parent_path base ++ daily_name base day ∷ []

-- The stamp of a name that has the prefix and the extension, if it has.
unfoldable pub stamp_of : Bytes → Bytes → Bytes → Option Bytes
stamp_of before after name =
    if not (length name == length before + 10 + length after)
    then none
    else if not (starts_with before name)
    then none
    else if not (is_empty after) && not (bytes_eq (drop (length name - length after) name) after)
    then none
    else some (take 10 (drop (length before) name))

-- Whether a date, or the date in a stamp, is there and lies before the cutoff.
unfoldable pub is_before : ℤ → Option ℤ → Bool
is_before cutoff none = false
is_before cutoff (some t) = ltb_ℤ t cutoff

unfoldable pub is_old_stamp : MkTime → ℤ → Option Bytes → Bool
is_old_stamp mktime cutoff none = false
is_old_stamp mktime cutoff (some stamp) = is_before cutoff (parse_stamp mktime stamp)

-- Whether `purge` removes a regular file of this name.
unfoldable pub is_old : MkTime → FilePath → ℤ → Bytes → Bool
is_old mktime base cutoff name =
    is_old_stamp mktime cutoff (stamp_of (prefix_of base) (suffix_of base) name)

-- The loop of `purge` over the names that the directory's iteration yields, each with whether it is a
-- regular file.
unfoldable pub purge_from : MkTime → FilePath → ℤ → List (Bytes × Bool) → List Bytes
purge_from mktime base cutoff [] = []
purge_from mktime base cutoff ((name, regular) ∷ entries) =
    let rest = purge_from mktime base cutoff entries in
    if regular && is_old mktime base cutoff name then name ∷ rest else rest

-- The first midnight whose file is kept.
abbrev pub cutoff_of : MkTime → ℕ → Tm → Option ℤ
cutoff_of mktime keep_days today =
    mktime (today.tm_year + 1900) (today.tm_mon + 1) (sub_ℕ today.tm_mday (keep_days - 1))

-- The names that `purge` removes.
unfoldable pub purge : MkTime → AsyncLogger → Tm → List (Bytes × Bool) → List Bytes
unfolding purge_from
purge mktime l today entries =
    if l.keep_days == 0 then [] else elim (cutoff_of mktime l.keep_days today) [
      | none ↦ []
      | some cutoff ↦ purge_from mktime l.base_path cutoff entries
    ]

unfoldable pub write : AsyncLogger → Bytes → AsyncLogger
write l line =
    if l.stopping
    then l
    else if leb max_queued_lines (length l.queue)
    then record l { dropped = add_size l.dropped 1 }
    else record l { queue = l.queue ++ line ∷ [] }

-- What stands in a log file: a line, or the report of a number of dropped lines.
pub data Line : Type 0 where
  text : Bytes → Line
  report : ℕ → Line

-- The locals of `run`: the stream's state, and the file that it was opened on.
pub record Worker : Type 0 where
  pub opened : Bool
  pub open_day : Tm
  pub good : Bool
  pub file : FilePath

-- What a round of the loop meets: the day, whether the day's file opens, whether the stream fails on this
-- round's lines and after how many of them, and the directory that `purge` reads.
pub record Round : Type 0 where
  pub today : Tm
  pub opens : Bool
  pub fails : Bool
  pub taken : ℕ
  pub entries : List (Bytes × Bool)

-- The lines and the count that a round has taken from the queue.
abbrev pub Batch : Type 0
Batch = List Bytes × ℕ

-- The logger with its thread: `hand` is what the thread holds between its two locked sections, `disk` what
-- has been written, oldest first.
pub record System : Type 0 where
  pub logger : AsyncLogger
  pub running : Bool
  pub worker : Worker
  pub hand : Option Batch
  pub disk : List (FilePath × Line)
  pub removed : List Bytes

-- The thread's wait and its first locked section.
unfoldable pub take_batch : System → System
take_batch s =
    let l = s.logger in
    let rest = record l { queue = []; dropped = 0 } in
    if not (l.stopping || not (is_empty l.queue))
    then s
    else if is_empty l.queue && l.stopping
    then record s { logger = rest; running = false }
    else record s { logger = rest; hand = some (l.queue, l.dropped) }

unfoldable pub reopen : FilePath → Worker → Round → Worker
reopen base w r = record {
  opened = r.opens;
  open_day = if r.opens then r.today else w.open_day;
  good = r.opens;
  file = daily_path base r.today;
}

-- The lines of a round.
abbrev pub round_lines : Batch → List Line
round_lines (batch, dropped) = (if dropped == 0 then [] else report dropped ∷ []) ++ map text batch

abbrev pub needs_open : Worker → Round → Bool
needs_open w r = not w.opened || not (same_day r.today w.open_day)

-- The worker after the test for a new day, and the names that `purge` removes.
unfoldable pub open_file : MkTime → AsyncLogger → Worker → Round → Worker × List Bytes
unfolding reopen
open_file mktime l w r =
    if needs_open w r
    then (reopen l.base_path w r, if r.opens then purge mktime l r.today r.entries else [])
    else (w, [])

abbrev pub put_lines : FilePath → List Line → List (FilePath × Line)
put_lines path lines = map (λ line. (path, line)) lines

-- The rest of a round: the batch is written, or carried forward as dropped.
unfoldable pub flush_batch : MkTime → System → Round → Batch → System
flush_batch mktime s r b =
    let (w, gone) = open_file mktime s.logger s.worker r in
    let s1 = record s { worker = w; hand = none; removed = s.removed ++ gone } in
    let l = s.logger in
    let lines = round_lines b in
    if not w.good
    then record s1 {
      logger = record l { dropped = add_size l.dropped (add_size b.1 (length b.0)) };
    }
    else if r.fails
    then record s1 {
      worker = record w { good = false };
      disk = s.disk ++ put_lines w.file (take r.taken lines);
    }
    else record s1 { disk = s.disk ++ put_lines w.file lines }

-- The steps of the threads: a call of `write`, the first and the second part of a round, and the part of
-- `stop` up to its join.
pub data Event : Type 0 where
  writes : Bytes → Event
  takes : Event
  flushes : Round → Event
  stops : Event

-- The two parts of a round, of a thread that holds a batch or none.
unfoldable pub take_next : System → Option Batch → System
take_next s (some b) = s
take_next s none = if s.running then take_batch s else s

unfoldable pub flush_next : MkTime → System → Round → Option Batch → System
flush_next mktime s r none = s
flush_next mktime s r (some b) = flush_batch mktime s r b

unfoldable pub step : MkTime → System → Event → System
step mktime s (writes line) = record s { logger = write s.logger line }
step mktime s takes = take_next s s.hand
step mktime s (flushes r) = flush_next mktime s r s.hand
step mktime s stops = record s { logger = record s.logger { stopping = true } }

unfoldable pub run : MkTime → System → List Event → System
run mktime s [] = s
run mktime s (e ∷ es) = run mktime (step mktime s e) es

-- The end of `stop`, once the thread has ended.
unfoldable pub clear : System → System
clear s = record s { logger = record s.logger { queue = [] } }

-- `start` after its call of `stop`: the directory is made, the settings are taken, the day's file is tried,
-- and only then do lines count. `makes` and `probes` are whether the directory and the file can be made.
unfoldable pub start : System → FilePath → ℕ → (makes probes : Bool) → System × Bool
start s base keep_days makes probes =
    let l = record s.logger { base_path = base; keep_days = keep_days; dropped = 0 } in
    if not (is_empty (parent_path base)) && not makes
    then (s, false)
    else if not probes
    then (record s { logger = l }, false)
    else (
      record s {
        logger = record l { stopping = false };
        running = true;
        worker = record s.worker { opened = false; good = true };
        hand = none;
      },
      true,
    )
