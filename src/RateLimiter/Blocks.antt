-- ===== src/RateLimiter/Blocks.antt =====
-- src/rate_limiter.cpp: who is blocked, and until when.
use mathlib.Core.Option
use fastdl_mm.Prelude.{
  ℕ, ◌+◌, ◌*◌, ◌≤◌, ◌≡◌, refl, sym, ◌∙◌, ◌≢◌, ◌⊎◌, inl, inr, Bool, true, false, not, Option, none,
  some, List, [], ◌∷◌, ◌++◌, arith, ltb, ◌==◌, if◌then◌else◌, Bool-cases, Option-cases, length,
  is_none, length-append, All, sub_size, Bytes, bytes_eq_refl, bytes_eq_iff,
}
use fastdl_mm.RateLimiter.Clients.{
  no_client, size, lookup, Distinct, lookup-put, lookup-remove_ne, lookup-remove, Client,
}
use fastdl_mm.RateLimiter.{
  second, trim, is_stale, sweep, cleanup, create, find_or_create, is_blocked, blocked, admit,
  request_exceeded, strike, record_denial, unblock, step, run, RateLimiter, Call, asks, requests,
  denies, unblocks, clears,
}
use fastdl_mm.RateLimiter.Accounting.{
  sweep_fresh, cleanup-IsValid, cleanup_fresh, find_or_create-lookup, record_denial-IsValid,
  unblock-IsValid, step-IsValid, run-IsValid, IsValid,
}

-- The entry that `cleanup` leaves for an address.
abbrev pub survivor : ℕ → Option Client → Option Client
survivor now none = none
survivor now (some c) = if is_stale now c then none else some c

pub lookup-sweep :
    (now : ℕ) (j : Bytes) (m : List (Bytes × Client)) (n : ℕ)
    → Distinct m
    → lookup j (sweep now m n).0 ≡ survivor now (lookup j m)
unfolding sweep lookup
lookup-sweep now j [] n d = refl
lookup-sweep now j ((i, c) ∷ m) n d = elim (Bool-cases (is_stale now c)) [
  | inl gone ↦ rw gone (
      ground (
        arith,
        bytes_eq_iff i j,
        lookup-sweep now j m (sub_size n (size c)) d.1,
        sweep_fresh now j m (sub_size n (size c)),
      ))
  | inr kept ↦ rw kept (ground (arith, bytes_eq_iff i j, lookup-sweep now j m n d.1))
]

pub lookup-cleanup :
    (st : RateLimiter) (now : ℕ) (force : Bool) (j : Bytes)
    → Distinct st.clients
    → (lookup j (cleanup st now force).clients ≡ lookup j st.clients)
      ⊎ (lookup j (cleanup st now force).clients ≡ survivor now (lookup j st.clients))
unfolding cleanup
lookup-cleanup st now force j d = ground (arith, lookup-sweep now j st.clients st.event_count d)

-- Forgetting stale clients changes nobody's answer, at that time or later.
pub is_blocked-cleanup :
    (st : RateLimiter) (now t : ℕ) (force : Bool) (j : Bytes)
    → Distinct st.clients
    → now ≤ t
    → is_blocked t (lookup j (cleanup st now force).clients) ≡ is_blocked t (lookup j st.clients)
unfolding is_blocked is_stale
is_blocked-cleanup st now t force j d h = ground (arith, lookup-cleanup st now force j d)

-- What `blocked` answers is what the address' entry says, whether or not the call cleans up.
pub blocked-answer :
    (st : RateLimiter) (ip : Bytes) (now : ℕ)
    → Distinct st.clients
    → (blocked st ip now).1 ≡ is_blocked now (lookup ip st.clients)
unfolding blocked
blocked-answer st ip now d = is_blocked-cleanup st now now false ip d (omega arith)

-- `findOrCreate` for one address leaves every answer as it was, its own included: a fresh entry is
-- not blocked.
pub is_blocked-find_or_create :
    (st : RateLimiter) (ip j : Bytes) (now t : ℕ)
    → Distinct st.clients
    → now ≤ t
    → is_blocked t (lookup j (find_or_create st ip now).0.clients)
      ≡ is_blocked t (lookup j st.clients)
unfolding find_or_create create is_blocked
is_blocked-find_or_create st ip j now t d h = ground (
  arith,
  bytes_eq_iff ip j,
  is_blocked-cleanup st now t true j d h,
  cleanup_fresh st ip now true,
  lookup-put ip j no_client st.clients,
  lookup-put ip j no_client (cleanup st now true).clients,
)

is_blocked-admit :
    (st : RateLimiter) (ip j : Bytes) (c : Client) (limit now t : ℕ)
    → lookup ip st.clients ≡ some c
    → is_blocked t (lookup j (admit st ip c limit now).0.clients)
      ≡ is_blocked t (lookup j st.clients)
unfolding admit is_blocked
is_blocked-admit st ip j c limit now t e =
    let kept : Client = record c { last_seen = now; requests = (trim c.requests now).0 } in
    let grown : Client = record c {
      last_seen = now;
      requests = (trim c.requests now).0 ++ now ∷ [];
    } in
    ground
      (arith, bytes_eq_iff ip j, lookup-put ip j kept st.clients, lookup-put ip j grown st.clients)

pub is_blocked-request_exceeded :
    (st : RateLimiter) (ip j : Bytes) (limit now t : ℕ)
    → IsValid st
    → now ≤ t
    → is_blocked t (lookup j (request_exceeded st ip limit now).0.clients)
      ≡ is_blocked t (lookup j st.clients)
unfolding request_exceeded
is_blocked-request_exceeded st ip j limit now t v h =
    let st1 = cleanup st now false in
    let v1 = cleanup-IsValid st now false v in
    let same1 = is_blocked-cleanup st now t false j v.distinct h in
    let same2 = is_blocked-find_or_create st1 ip j now t v1.distinct h ∙ same1 in
    elim (Bool-cases (limit == 0)) [
      | inl none_allowed ↦ rw none_allowed same1
      | inr some_allowed ↦ rw some_allowed (elim (Option-cases (find_or_create st1 ip now).1) [
        | inl e ↦ rw e same2
        | inr (c, e) ↦ rw e (
            is_blocked-admit (find_or_create st1 ip now).0 ip j c limit now t
              (find_or_create-lookup st1 ip now e)
            ∙ same2)
      ])
    ]

is_blocked-strike_ne :
    (st : RateLimiter) (ip j : Bytes) (c : Client) (limit secs now t : ℕ)
    → ip ≢ j
    → is_blocked t (lookup j (strike st ip c limit secs now).clients)
      ≡ is_blocked t (lookup j st.clients)
unfolding strike
is_blocked-strike_ne st ip j c limit secs now t h =
    let denials = (trim c.denials now).0 in
    let until = now + secs * second in
    let blocked : Client = record c { last_seen = now; denials = []; blocked_until = until } in
    let grown : Client = record c { last_seen = now; denials = denials ++ now ∷ [] } in
    ground (
      arith,
      bytes_eq_iff ip j,
      lookup-put ip j blocked st.clients,
      lookup-put ip j grown st.clients,
    )

pub is_blocked-record_denial_ne :
    (st : RateLimiter) (ip j : Bytes) (limit secs now t : ℕ)
    → IsValid st
    → now ≤ t
    → ip ≢ j
    → is_blocked t (lookup j (record_denial st ip limit secs now).clients)
      ≡ is_blocked t (lookup j st.clients)
unfolding record_denial
is_blocked-record_denial_ne st ip j limit secs now t v h ne =
    let st1 = cleanup st now false in
    let v1 = cleanup-IsValid st now false v in
    let same2 =
      is_blocked-find_or_create st1 ip j now t v1.distinct h
      ∙ is_blocked-cleanup st now t false j v.distinct h in
    elim (Option-cases (find_or_create st1 ip now).1) [
      | inl e ↦ rw (e, record_denial) same2
      | inr (c, e) ↦
          rw (e, record_denial)
            (is_blocked-strike_ne (find_or_create st1 ip now).0 ip j c limit secs now t ne ∙ same2)
    ]

-- The calls up to time t that neither strike, unblock nor clear an address.
abbrev pub Spares : Bytes → ℕ → Call → Type 0
Spares ip t (asks j now) = now ≤ t
Spares ip t (requests j limit now) = now ≤ t
Spares ip t (denies j limit secs now) = (now ≤ t) × (j ≢ ip)
Spares ip t (unblocks j) = j ≢ ip
Spares ip t clears = ⊥

is_blocked-unblock_ne :
    (st : RateLimiter) (ip j : Bytes) (t : ℕ)
    → ip ≢ j
    → is_blocked t (lookup j (unblock st ip).0.clients) ≡ is_blocked t (lookup j st.clients)
unfolding unblock
is_blocked-unblock_ne st ip j t h = ground (arith, lookup-remove_ne ip j st.clients h)

is_blocked-step :
    (st : RateLimiter) (ip : Bytes) (t : ℕ) (c : Call)
    → IsValid st
    → Spares ip t c
    → is_blocked t (lookup ip (step st c).clients) ≡ is_blocked t (lookup ip st.clients)
unfolding step blocked
is_blocked-step st ip t (asks j now) v h = is_blocked-cleanup st now t false ip v.distinct h
is_blocked-step st ip t (requests j limit now) v h =
    is_blocked-request_exceeded st j ip limit now t v h
is_blocked-step st ip t (denies j limit secs now) v h =
    is_blocked-record_denial_ne st j ip limit secs now t v h.0 h.1
is_blocked-step st ip t (unblocks j) v h = is_blocked-unblock_ne st j ip t h
is_blocked-step st ip t clears v h = absurd h

is_blocked-run :
    (st : RateLimiter) (ip : Bytes) (t : ℕ) (cs : List Call)
    → IsValid st
    → All (Spares ip t) cs
    → is_blocked t (lookup ip (run st cs).clients) ≡ is_blocked t (lookup ip st.clients)
unfolding run
is_blocked-run st ip t [] v h = refl
is_blocked-run st ip t (c ∷ cs) v h =
    is_blocked-run (step st c) ip t cs (step-IsValid st c v) h.1 ∙ is_blocked-step st ip t c v h.0

-- Whatever other addresses do and however this one keeps asking and requesting up to time t, what
-- `blocked` answers at t for an address is what it would have answered without those calls: clients
-- do not affect each other, requests never extend or lift a block, and the periodic cleanup never
-- drops one that is still running.
pub blocked-run :
    (st : RateLimiter) (ip : Bytes) (t : ℕ) (cs : List Call)
    → IsValid st
    → All (Spares ip t) cs
    → (blocked (run st cs) ip t).1 ≡ (blocked st ip t).1
blocked-run st ip t cs v h =
    blocked-answer (run st cs) ip t (run-IsValid st cs v).distinct
    ∙ is_blocked-run st ip t cs v h
    ∙ sym (blocked-answer st ip t v.distinct)

-- The denials that count against an address: those of the last minute.
abbrev pub recent_denials : RateLimiter → Bytes → ℕ → Option ℕ
recent_denials st ip now =
    Option.map (λ (c : Client). length (trim c.denials now).0)
      (find_or_create (cleanup st now false) ip now).1

strike-blocks :
    (st : RateLimiter) (ip : Bytes) (c : Client) (limit secs now t : ℕ)
    → limit ≤ length (trim c.denials now).0 + 1
    → is_blocked t (lookup ip (strike st ip c limit secs now).clients) ≡ ltb t (now + secs * second)
unfolding strike is_blocked
strike-blocks st ip c limit secs now t h =
    let denials = (trim c.denials now).0 in
    let until = now + secs * second in
    let blocked : Client = record c { last_seen = now; denials = []; blocked_until = until } in
    ground (
      arith,
      bytes_eq_refl ip,
      length-append denials (now ∷ []),
      lookup-put ip ip blocked st.clients,
    )

-- The denial that brings the last minute's count to the limit blocks the address for exactly
-- `blockSeconds`: at every later time t, after any calls up to t that do not strike, unblock or clear
-- it, it is blocked exactly while t is before the end of the block.
pub record_denial-blocks :
    (st : RateLimiter) (ip : Bytes) (limit secs now t n : ℕ) (cs : List Call)
    → IsValid st
    → recent_denials st ip now ≡ some n
    → limit ≤ n + 1
    → All (Spares ip t) cs
    → (blocked (run (record_denial st ip limit secs now) cs) ip t).1 ≡ ltb t (now + secs * second)
unfolding record_denial
record_denial-blocks st ip limit secs now t n cs v e h spared =
    let st2 = find_or_create (cleanup st now false) ip now in
    let v' = record_denial-IsValid st ip limit secs now v in
    let (c, found, count) = (Option.map-eq-some_iff _ _).0 e in
    blocked-answer (run (record_denial st ip limit secs now) cs) ip t (run-IsValid _ cs v').distinct
    ∙ is_blocked-run (record_denial st ip limit secs now) ip t cs v' spared
    ∙ rw (found, record_denial) (strike-blocks st2.0 ip c limit secs now t (omega (arith, count)))

lookup-unblock :
    (st : RateLimiter) (ip : Bytes)
    → Distinct st.clients
    → (lookup ip (unblock st ip).0.clients ≡ none)
      × ((unblock st ip).1 ≡ not (is_none (lookup ip st.clients)))
unfolding unblock
lookup-unblock st ip d = ground (arith, lookup-remove ip st.clients d)

-- `unblock` reports whether it knew the address, and lifts its block at every time.
pub unblock-blocked :
    (st : RateLimiter) (ip : Bytes) (t : ℕ)
    → IsValid st
    → ((blocked (unblock st ip).0 ip t).1 ≡ false)
      × ((unblock st ip).1 ≡ not (is_none (lookup ip st.clients)))
unfolding is_blocked
unblock-blocked st ip t v =
    let answer = blocked-answer (unblock st ip).0 ip t (unblock-IsValid st ip v).distinct in
    let (gone, reported) = lookup-unblock st ip v.distinct in
    (answer ∙ rw (gone, is_blocked), reported)
