-- ===== src/Bandwidth.antt =====
-- src/bandwidth_limiter.h and src/bandwidth_limiter.cpp: the global and per-address rate limits on the
-- bytes that responses supply. Times are nanoseconds of the steady clock, arguments of each call. A
-- compare-exchange loop is the step that its last, successful exchange makes. `std::shared_ptr` objects
-- stand on an explicit heap, and an address names one by its place there; `alive` says which of them a
-- lease still holds, so that `std::weak_ptr::lock` finds them.
pub mod Tests
pub mod Rate
pub mod Leases
pub mod Sharing
pub mod Grants
pub mod Conformance
use fastdl_mm.Prelude.{
  ℕ, zero, suc, ◌+◌, ◌-◌, ◌*◌, ◌/◌, ◌%◌, min, max, Bool, true, false, not, ◌&&◌, ◌||◌, Option, none,
  some, List, [], ◌∷◌, ◌++◌, map, ltb, leb, ◌==◌, if◌then◌else◌, length, get_elem?, take, is_none,
  all, u64_mod, u64_max, i64_max, add_size, Bytes, bytes_eq,
}

abbrev pub nanoseconds_per_second : ℕ
nanoseconds_per_second = 1_000_000_000

abbrev pub minimum_quantum : ℕ
minimum_quantum = 1024

abbrev pub maximum_quantum : ℕ
maximum_quantum = 16 * 1024

abbrev pub maximum_burst_bytes : ℕ
maximum_burst_bytes = 256 * 1024

abbrev pub maximum_tracked_clients : ℕ
maximum_tracked_clients = 256

-- A `double` of megabits per second, as far as the source looks at it: `positive b` has b whole bytes
-- per second.
pub data Mbps : Type 0 where
  not_finite : Mbps
  not_positive : Mbps
  positive : ℕ → Mbps

unfoldable pub rate_from_mbps : Mbps → ℕ
rate_from_mbps not_finite = 0
rate_from_mbps not_positive = 0
rate_from_mbps (positive bytes) = if leb u64_max bytes then u64_max else max 1 bytes

-- The nanoseconds that `bytes` take at `rate`, rounded up, in 64-bit words.
unfoldable pub duration_for : ℕ → ℕ → ℕ
duration_for bytes rate =
    let whole = bytes / rate in
    let remainder = bytes % rate in
    let fractional =
      if remainder == 0
      then 0
      else ((remainder * nanoseconds_per_second + (rate - 1)) % u64_mod) / rate in
    if rate == 0 || bytes == 0
    then 0
    else if ltb (i64_max / nanoseconds_per_second) whole
        || ltb (i64_max - fractional) (whole * nanoseconds_per_second)
    then i64_max
    else whole * nanoseconds_per_second + fractional

pub record Bucket : Type 0 where
  pub bytes_per_second : ℕ
  pub burst_nanoseconds : ℕ
  pub theoretical_arrival : ℕ

unfoldable pub configure_bucket : ℕ → ℕ → ℕ → Bucket
configure_bucket rate quantum now = record {
  bytes_per_second = rate;
  burst_nanoseconds = duration_for (max quantum (min maximum_burst_bytes (rate / 10))) rate;
  theoretical_arrival = now;
}

pub record Limiter : Type 0 where
  pub global : Bucket
  pub per_ip_rate : ℕ
  pub quantum : ℕ
  pub stopping : Bool
  pub clients : List (Bytes × ℕ)
  pub overflow_client : Option ℕ
  pub attachments_since_cleanup : ℕ
  pub heap : List Bucket

-- The members' initial values.
abbrev pub initial : Limiter
initial = record {
  global = record { bytes_per_second = 0; burst_nanoseconds = 0; theoretical_arrival = 0 };
  per_ip_rate = 0;
  quantum = 64 * 1024;
  stopping = true;
  clients = [];
  overflow_client = none;
  attachments_since_cleanup = 0;
  heap = [];
}

unfoldable pub stop : Limiter → Limiter
stop l = record l {
  stopping = true;
  clients = [];
  overflow_client = none;
  attachments_since_cleanup = 0;
}

abbrev pub clamp : ℕ → ℕ → ℕ → ℕ
clamp x lo hi = if ltb x lo then lo else if ltb hi x then hi else x

-- The lower of two rates, where 0 is no limit.
unfoldable pub controlling_rate : ℕ → ℕ → ℕ
controlling_rate global_rate per_ip_rate =
    if global_rate == 0 || not (per_ip_rate == 0) && ltb per_ip_rate global_rate
    then per_ip_rate
    else global_rate

unfoldable pub quantum_for : ℕ → ℕ
quantum_for rate =
    if rate == 0 then 64 * 1024 else clamp (rate / 20) minimum_quantum maximum_quantum

unfoldable pub configure : Limiter → Mbps → Mbps → ℕ → Limiter
configure l global_mbps per_ip_mbps now =
    let global_rate = rate_from_mbps global_mbps in
    let per_ip = rate_from_mbps per_ip_mbps in
    let quantum = quantum_for (controlling_rate global_rate per_ip) in
    record (stop l) {
      per_ip_rate = per_ip;
      quantum = quantum;
      global = configure_bucket global_rate quantum now;
      stopping = false;
    }

-- The loop of `cleanupClients`: erases the entries whose object no lease holds.
unfoldable pub drop_expired : (ℕ → Bool) → List (Bytes × ℕ) → List (Bytes × ℕ)
drop_expired alive [] = []
drop_expired alive ((ip, o) ∷ m) =
    let rest = drop_expired alive m in if alive o then (ip, o) ∷ rest else rest

unfoldable pub cleanup_clients : Limiter → (ℕ → Bool) → Limiter
cleanup_clients l alive = record l {
  clients = drop_expired alive l.clients;
  attachments_since_cleanup = 0;
}

unfoldable pub lookup : Bytes → List (Bytes × ℕ) → Option ℕ
lookup k [] = none
lookup k ((j, o) ∷ m) = if bytes_eq j k then some o else lookup k m

unfoldable pub put : Bytes → ℕ → List (Bytes × ℕ) → List (Bytes × ℕ)
put k o [] = (k, o) ∷ []
put k o ((j, p) ∷ m) = if bytes_eq j k then (j, o) ∷ m else (j, p) ∷ put k o m

-- The client of an address that a lease still holds.
unfoldable pub lock : (ℕ → Bool) → Option ℕ → Option ℕ
lock alive none = none
lock alive (some o) = if alive o then some o else none

-- `std::make_shared<Client>()` and `configureBucket`.
unfoldable pub make_client : Limiter → ℕ → Limiter × ℕ
make_client l now =
    (record l { heap = l.heap ++ configure_bucket l.per_ip_rate l.quantum now ∷ [] }, length l.heap)

-- The client that all addresses share once the map is full.
unfoldable pub overflow : Limiter → ℕ → Limiter × Option ℕ
overflow l now = elim l.overflow_client [
  | some o ↦ (l, some o)
  | none ↦ let (l', o) = make_client l now in (record l' { overflow_client = some o }, some o)
]

-- `attach` for an address that has no live client.
unfoldable pub enrol : Limiter → (ℕ → Bool) → Bytes → ℕ → Limiter × Option ℕ
enrol l alive ip now =
    let l1 =
      if leb maximum_tracked_clients (length l.clients) then cleanup_clients l alive else l in
    if leb maximum_tracked_clients (length l1.clients)
    then overflow l1 now
    else let (l2, o) = make_client l1 now in (record l2 { clients = put ip o l2.clients }, some o)

unfoldable pub count_attachment : Limiter → (ℕ → Bool) → Limiter
count_attachment l alive =
    let n = add_size l.attachments_since_cleanup 1 in
    let l1 = record l { attachments_since_cleanup = n } in
    if leb 64 n then cleanup_clients l1 alive else l1

-- The lease: `none` is one that holds no client.
unfoldable pub attach : Limiter → (ℕ → Bool) → Bytes → ℕ → Limiter × Option ℕ
attach l alive ip now =
    if l.per_ip_rate == 0
    then (l, none)
    else let l1 = count_attachment l alive in
      elim (lock alive (lookup ip l1.clients)) [
        | some o ↦ (l1, some o)
        | none ↦ enrol l1 alive ip now
      ]

-- The bucket after one reservation, and the time from which the bytes may go out.
unfoldable pub reserve : Bucket → ℕ → ℕ → Bucket × ℕ
reserve b bytes now =
    let duration = duration_for bytes b.bytes_per_second in
    let previous = b.theoretical_arrival in
    let earliest = if ltb b.burst_nanoseconds previous then previous - b.burst_nanoseconds else 0 in
    let allowed = max now earliest in
    let base = max previous allowed in
    let next = if ltb (i64_max - duration) base then i64_max else base + duration in
    if b.bytes_per_second == 0 then (b, now) else (record b { theoretical_arrival = next }, allowed)

unfoldable pub set_bucket : List Bucket → ℕ → Bucket → List Bucket
set_bucket [] i b = []
set_bucket (x ∷ xs) zero b = b ∷ xs
set_bucket (x ∷ xs) (suc i) b = x ∷ set_bucket xs i b

-- The reservation of a lease's client, if it has one: its time is `now` without one.
unfoldable pub reserve_client : List Bucket → Option ℕ → ℕ → ℕ → List Bucket × ℕ
reserve_client heap none bytes now = (heap, now)
reserve_client heap (some o) bytes now = elim (get_elem? heap o) [
  | none ↦ (heap, now)
  | some b ↦ let (b', allowed) = reserve b bytes now in (set_bucket heap o b', allowed)
]

-- The result of the wait: 0 bytes if the limiter is stopped in it, or is found stopped after it.
unfoldable pub grant : ℕ → ℕ → Bool → Bool → ℕ → ℕ
grant allowed now cancelled stopped granted =
    if ltb now allowed && cancelled then 0 else if stopped then 0 else granted

-- `acquire`: the new state, the time from which the bytes are allowed, and the bytes granted.
-- `cancelled` is what `wait_until` returns if there is a wait, and `stopped` is the flag at the end.
unfoldable pub acquire : Limiter → Option ℕ → ℕ → ℕ → Bool → Bool → Limiter × ℕ × ℕ
acquire l lease desired now cancelled stopped =
    if desired == 0 || l.stopping
    then (l, now, 0)
    else if l.global.bytes_per_second == 0 && is_none lease
    then (l, now, desired)
    else let granted = min desired l.quantum in
      let (global, allowed1) = reserve l.global granted now in
      let (heap, allowed2) = reserve_client l.heap lease granted now in
      let allowed = max allowed1 allowed2 in
      (
        record l { global = global; heap = heap },
        allowed,
        grant allowed now cancelled stopped granted,
      )
