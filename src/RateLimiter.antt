-- ===== src/RateLimiter.antt =====
-- src/rate_limiter.h and src/rate_limiter.cpp: the per-address request and denial windows, and the
-- temporary blocks. `Clock::now()` is an argument of each call, in nanoseconds from the clock's epoch;
-- where the source subtracts a duration from it (a cutoff that may lie before the epoch) the model
-- adds the duration on the other side of the comparison. The mutex makes each call one step. The
-- unordered map is an association list, and its order is never observed.
pub mod Tests
pub mod Clients
pub mod Accounting
pub mod Blocks
pub mod Window
pub mod Limit
use fastdl_mm.Prelude.{
  ℕ, ◌+◌, ◌*◌, ◌≡◌, Bool, true, false, not, ◌&&◌, ◌||◌, List, [], ◌∷◌, ◌++◌, Option, none, some,
  Bytes, ltb, leb, ◌==◌, if◌then◌else◌, length, sub_size, add_size,
}
use Clients.{Client, no_client, size, lookup, put, remove}

-- In nanoseconds.
abbrev pub second : ℕ
second = 1_000_000_000

abbrev pub minute : ℕ
minute = 60 * second

abbrev pub maximum_clients : ℕ
maximum_clients = 1024

abbrev pub maximum_events : ℕ
maximum_events = 131072

pub record RateLimiter : Type 0 where
  pub clients : List (Bytes × Client)
  pub next_cleanup : ℕ
  pub event_count : ℕ

abbrev pub init : RateLimiter
init = record { clients = []; next_cleanup = 0; event_count = 0 }

-- Drops the leading times at or before the cutoff `now - 1 minute`, and counts them.
unfoldable pub trim : List ℕ → ℕ → List ℕ × ℕ
trim [] now = ([], 0)
trim (t ∷ ts) now =
    let (rest, removed) = trim ts now in
    if leb (t + minute) now then (rest, removed + 1) else (t ∷ ts, 0)

unfoldable pub is_stale : ℕ → Client → Bool
is_stale now c = ltb (c.last_seen + 15 * minute) now && leb c.blocked_until now

-- The loop of `cleanup` over the map, with the running event count.
unfoldable pub sweep : ℕ → List (Bytes × Client) → ℕ → List (Bytes × Client) × ℕ
sweep now [] n = ([], n)
sweep now ((ip, c) ∷ m) n =
    let gone = is_stale now c in
    let (kept, n') = sweep now m (if gone then sub_size n (size c) else n) in
    if gone then (kept, n') else ((ip, c) ∷ kept, n')

unfoldable pub cleanup : RateLimiter → ℕ → Bool → RateLimiter
cleanup st now force =
    if not force && not (st.next_cleanup == 0) && ltb now st.next_cleanup
    then st
    else let (kept, n) = sweep now st.clients st.event_count in
      record { clients = kept; next_cleanup = now + 10 * minute; event_count = n }

-- A new entry for an address, unless the map is full.
unfoldable pub create : RateLimiter → Bytes → RateLimiter × Option Client
create st ip =
    if leb maximum_clients (length st.clients)
    then (st, none)
    else (record st { clients = put ip no_client st.clients }, some no_client)

-- The pointer that the source returns is the client's entry, written back by `put`.
unfoldable pub find_or_create : RateLimiter → Bytes → ℕ → RateLimiter × Option Client
find_or_create st ip now = elim (lookup ip st.clients) [
  | some c ↦ (st, some c)
  | none ↦ create (if leb maximum_clients (length st.clients) then cleanup st now true else st) ip
]

unfoldable pub is_blocked : ℕ → Option Client → Bool
is_blocked now none = false
is_blocked now (some c) = ltb now c.blocked_until

unfoldable pub blocked : RateLimiter → Bytes → ℕ → RateLimiter × Bool
blocked st ip now = let st1 = cleanup st now false in (st1, is_blocked now (lookup ip st1.clients))

-- `requestExceeded` from the point where the client is known.
unfoldable pub admit : RateLimiter → Bytes → Client → ℕ → ℕ → RateLimiter × Bool
admit st ip c limit now =
    let (requests, removed) = trim c.requests now in
    let events = sub_size st.event_count removed in
    if leb limit (length requests) || leb maximum_events events
    then (
      record st {
        clients = put ip (record c { last_seen = now; requests = requests }) st.clients;
        event_count = events;
      },
      true,
    )
    else (
      record st {
        clients = put ip (record c { last_seen = now; requests = requests ++ now ∷ [] }) st.clients;
        event_count = add_size events 1;
      },
      false,
    )

unfoldable pub request_exceeded : RateLimiter → Bytes → ℕ → ℕ → RateLimiter × Bool
request_exceeded st ip limit now =
    let st1 = cleanup st now false in
    if limit == 0
    then (st1, true)
    else let (st2, found) = find_or_create st1 ip now in
      elim found [ none ↦ (st2, true) | some c ↦ admit st2 ip c limit now ]

-- `recordDenial` from the point where the client is known.
unfoldable pub strike : RateLimiter → Bytes → Client → ℕ → ℕ → ℕ → RateLimiter
strike st ip c limit block_seconds now =
    let (denials, removed) = trim c.denials now in
    let events = sub_size st.event_count removed in
    let until = now + block_seconds * second in
    if leb maximum_events events
    then record st {
      clients =
          put ip (record c { last_seen = now; denials = []; blocked_until = until }) st.clients;
      event_count = sub_size events (length denials);
    }
    else let struck = denials ++ now ∷ [] in
      if limit == 0 || leb limit (length struck)
      then record st {
        clients =
            put ip (record c { last_seen = now; denials = []; blocked_until = until }) st.clients;
        event_count = sub_size (add_size events 1) (length struck);
      }
      else record st {
        clients = put ip (record c { last_seen = now; denials = struck }) st.clients;
        event_count = add_size events 1;
      }

unfoldable pub record_denial : RateLimiter → Bytes → ℕ → ℕ → ℕ → RateLimiter
record_denial st ip limit block_seconds now =
    let (st2, found) = find_or_create (cleanup st now false) ip now in
    elim found [ none ↦ st2 | some c ↦ strike st2 ip c limit block_seconds now ]

unfoldable pub unblock : RateLimiter → Bytes → RateLimiter × Bool
unblock st ip = elim (lookup ip st.clients) [
  | none ↦ (st, false)
  | some c ↦ (
    record st { clients = remove ip st.clients; event_count = sub_size st.event_count (size c) },
    true,
  )
]

unfoldable pub clear : RateLimiter → RateLimiter
clear st = record st { clients = []; next_cleanup = 0; event_count = 0 }

-- The calls that the server makes, each with the time at which it is made.
pub data Call : Type 0 where
  asks : Bytes → ℕ → Call
  requests : Bytes → ℕ → ℕ → Call
  denies : Bytes → ℕ → ℕ → ℕ → Call
  unblocks : Bytes → Call
  clears : Call

unfoldable pub step : RateLimiter → Call → RateLimiter
step st (asks ip now) = (blocked st ip now).0
step st (requests ip limit now) = (request_exceeded st ip limit now).0
step st (denies ip limit secs now) = record_denial st ip limit secs now
step st (unblocks ip) = (unblock st ip).0
step st clears = clear st

unfoldable pub run : RateLimiter → List Call → RateLimiter
run st [] = st
run st (c ∷ cs) = run (step st c) cs
