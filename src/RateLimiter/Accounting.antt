-- ===== src/RateLimiter/Accounting.antt =====
-- src/rate_limiter.cpp: the event counter and the two capacity limits.
use fastdl_mm.Prelude.{
  ℕ, ◌+◌, ◌*◌, ◌≤◌, ◌<◌, ◌≡◌, refl, inl, inr, Bool, true, false, none, some, List, [], ◌∷◌, ◌++◌,
  arith, leb, ◌==◌, Bool-cases, Option-cases, length, length-append, u32_mod, sub_size, add_size,
  sub_size-eq, add_size-eq, Bytes, bytes_eq_refl,
}
use fastdl_mm.RateLimiter.Clients.{
  no_client, size, lookup, events, Distinct, lookup-put, events-put, events-put_new, events-remove,
  put-Distinct, remove-Distinct, Client,
}
use fastdl_mm.RateLimiter.{
  second, maximum_clients, maximum_events, init, trim, is_stale, sweep, cleanup, create,
  find_or_create, blocked, admit, request_exceeded, strike, record_denial, unblock, clear, step,
  run, RateLimiter, Call, asks, requests, denies, unblocks, clears,
}

pub record IsValid (st : RateLimiter) : Type 0 where
  pub counted : st.event_count ≡ events st.clients
  pub bounded : st.event_count ≤ maximum_events
  pub room : length st.clients ≤ maximum_clients
  pub distinct : Distinct st.clients

pub length-trim : (ts : List ℕ) (now : ℕ) → (trim ts now).1 + length (trim ts now).0 ≡ length ts
unfolding trim
length-trim [] now = omega arith
length-trim (t ∷ ts) now = ground (arith, length-trim ts now)

pub sweep_fresh :
    (now : ℕ) (j : Bytes) (m : List (Bytes × Client)) (n : ℕ)
    → lookup j m ≡ none
    → lookup j (sweep now m n).0 ≡ none
unfolding sweep lookup
sweep_fresh now j [] n h = refl
sweep_fresh now j ((i, c) ∷ m) n h = elim (Bool-cases (is_stale now c)) [
  | inl gone ↦ rw gone (sweep_fresh now j m (sub_size n (size c)) (ground arith))
  | inr kept ↦ rw kept (ground (arith, sweep_fresh now j m n))
]

pub record Swept (now : ℕ) (m : List (Bytes × Client)) (n : ℕ) : Type 0 where
  pub total : (sweep now m n).1 + events m ≡ n + events (sweep now m n).0
  pub fewer : length (sweep now m n).0 ≤ length m
  pub below : events (sweep now m n).0 ≤ events m
  pub distinct : Distinct (sweep now m n).0

pub sweep-Swept :
    (now : ℕ) (m : List (Bytes × Client)) (n : ℕ)
    → events m ≤ n
    → n < u32_mod
    → Distinct m
    → Swept now m n
unfolding sweep
sweep-Swept now [] n h k d = record {
  total = omega arith;
  fewer = omega arith;
  below = omega arith;
  distinct = tt;
}
sweep-Swept now ((i, c) ∷ m) n h k d = elim (Bool-cases (is_stale now c)) [
  | inl gone ↦
      let less = sub_size-eq n (size c) (omega arith) k in
      let ih = sweep-Swept now m (sub_size n (size c)) (omega arith) (omega arith) d.1 in
      record {
        total = rw gone (omega arith);
        fewer = rw gone (omega arith);
        below = rw gone (omega arith);
        distinct = rw gone ih.distinct;
      }
  | inr kept ↦
      let ih = sweep-Swept now m n (omega arith) k d.1 in
      record {
        total = rw kept (omega arith);
        fewer = rw kept (omega arith);
        below = rw kept (omega arith);
        distinct = rw kept (sweep_fresh now i m n d.0, ih.distinct);
      }
]

pub cleanup-IsValid :
    (st : RateLimiter) (now : ℕ) (force : Bool) → IsValid st → IsValid (cleanup st now force)
unfolding cleanup
cleanup-IsValid st now force v =
    let swept = sweep-Swept now st.clients st.event_count (omega arith) (omega arith) v.distinct in
    ground arith

pub cleanup_fresh :
    (st : RateLimiter) (ip : Bytes) (now : ℕ) (force : Bool)
    → lookup ip st.clients ≡ none
    → lookup ip (cleanup st now force).clients ≡ none
unfolding cleanup
cleanup_fresh st ip now force h = ground (arith, sweep_fresh now ip st.clients st.event_count h)

size-le-events :
    (k : Bytes) (d : Client) (m : List (Bytes × Client)) → lookup k m ≡ some d → size d ≤ events m
unfolding lookup
size-le-events k d [] e = cc
size-le-events k d ((i, x) ∷ m) e = ground (arith, size-le-events k d m)

pub create-IsValid :
    (st : RateLimiter) (ip : Bytes)
    → lookup ip st.clients ≡ none
    → IsValid st
    → IsValid (create st ip).0
unfolding create
create-IsValid st ip h v =
    ground (arith, events-put_new ip no_client st.clients, put-Distinct ip no_client st.clients)

pub find_or_create-IsValid :
    (st : RateLimiter) (ip : Bytes) (now : ℕ) → IsValid st → IsValid (find_or_create st ip now).0
unfolding find_or_create
find_or_create-IsValid st ip now v = elim (Option-cases (lookup ip st.clients)) [
  | inr (c, e) ↦ rw (e, find_or_create) v
  | inl e ↦
      rw (e, find_or_create)
        (elim (Bool-cases (leb maximum_clients (length st.clients))) [
          | inl full ↦ rw full (
              create-IsValid (cleanup st now true) ip (cleanup_fresh st ip now true e)
                (cleanup-IsValid st now true v))
          | inr free ↦ rw free (create-IsValid st ip e v)
        ])
]

-- The client that it returns stands in the map that it returns.
pub find_or_create-lookup :
    (st : RateLimiter) (ip : Bytes) (now : ℕ) {c : Client}
    → (find_or_create st ip now).1 ≡ some c
    → lookup ip (find_or_create st ip now).0.clients ≡ some c
unfolding find_or_create create
find_or_create-lookup st ip now h = ground (
  arith,
  bytes_eq_refl ip,
  lookup-put ip ip no_client st.clients,
  lookup-put ip ip no_client (cleanup st now true).clients,
)

admit-IsValid :
    (st : RateLimiter) (ip : Bytes) (c : Client) (limit now : ℕ)
    → lookup ip st.clients ≡ some c
    → IsValid st
    → IsValid (admit st ip c limit now).0
unfolding admit
admit-IsValid st ip c limit now e v =
    let kept : Client = record c { last_seen = now; requests = (trim c.requests now).0 } in
    let grown : Client = record c {
      last_seen = now;
      requests = (trim c.requests now).0 ++ now ∷ [];
    } in
    let count = sub_size st.event_count (trim c.requests now).1 in
    ground (
      arith,
      length-trim c.requests now,
      length-append (trim c.requests now).0 (now ∷ []),
      events-put ip kept c st.clients e,
      events-put ip grown c st.clients e,
      put-Distinct ip kept st.clients v.distinct,
      put-Distinct ip grown st.clients v.distinct,
      sub_size-eq st.event_count (trim c.requests now).1,
      add_size-eq count 1,
      size-le-events ip c st.clients e,
    )

strike-IsValid :
    (st : RateLimiter) (ip : Bytes) (c : Client) (limit secs now : ℕ)
    → lookup ip st.clients ≡ some c
    → IsValid st
    → IsValid (strike st ip c limit secs now)
unfolding strike
strike-IsValid st ip c limit secs now e v =
    let denials = (trim c.denials now).0 in
    let until = now + secs * second in
    let blocked : Client = record c { last_seen = now; denials = []; blocked_until = until } in
    let grown : Client = record c { last_seen = now; denials = denials ++ now ∷ [] } in
    let count = sub_size st.event_count (trim c.denials now).1 in
    ground (
      arith,
      length-trim c.denials now,
      length-append denials (now ∷ []),
      events-put ip blocked c st.clients e,
      events-put ip grown c st.clients e,
      put-Distinct ip blocked st.clients v.distinct,
      put-Distinct ip grown st.clients v.distinct,
      sub_size-eq st.event_count (trim c.denials now).1,
      add_size-eq count 1,
      sub_size-eq count (length denials),
      sub_size-eq (add_size count 1) (length (denials ++ now ∷ [])),
      size-le-events ip c st.clients e,
    )

pub blocked-IsValid :
    (st : RateLimiter) (ip : Bytes) (now : ℕ) → IsValid st → IsValid (blocked st ip now).0
unfolding blocked
blocked-IsValid st ip now v = cleanup-IsValid st now false v

pub request_exceeded-IsValid :
    (st : RateLimiter) (ip : Bytes) (limit now : ℕ)
    → IsValid st
    → IsValid (request_exceeded st ip limit now).0
unfolding request_exceeded
request_exceeded-IsValid st ip limit now v =
    let st1 = cleanup st now false in
    let v1 = cleanup-IsValid st now false v in
    let v2 = find_or_create-IsValid st1 ip now v1 in
    elim (Bool-cases (limit == 0)) [
      | inl none_allowed ↦ rw none_allowed v1
      | inr some_allowed ↦ rw some_allowed (elim (Option-cases (find_or_create st1 ip now).1) [
        | inl e ↦ rw e v2
        | inr (c, e) ↦ rw e (
            admit-IsValid (find_or_create st1 ip now).0 ip c limit now
              (find_or_create-lookup st1 ip now e) v2)
      ])
    ]

pub record_denial-IsValid :
    (st : RateLimiter) (ip : Bytes) (limit secs now : ℕ)
    → IsValid st
    → IsValid (record_denial st ip limit secs now)
unfolding record_denial
record_denial-IsValid st ip limit secs now v =
    let st1 = cleanup st now false in
    let v2 = find_or_create-IsValid st1 ip now (cleanup-IsValid st now false v) in
    elim (Option-cases (find_or_create st1 ip now).1) [
      | inl e ↦ rw (e, record_denial) v2
      | inr (c, e) ↦
          rw (e, record_denial)
            (strike-IsValid (find_or_create st1 ip now).0 ip c limit secs now
              (find_or_create-lookup st1 ip now e) v2)
    ]

pub unblock-IsValid : (st : RateLimiter) (ip : Bytes) → IsValid st → IsValid (unblock st ip).0
unfolding unblock
unblock-IsValid st ip v = elim (Option-cases (lookup ip st.clients)) [
  | inl e ↦ rw (e, unblock) v
  | inr (c, e) ↦
      rw (e, unblock)
        (ground (
          arith,
          events-remove ip c st.clients e,
          remove-Distinct ip st.clients v.distinct,
          sub_size-eq st.event_count (size c),
        ))
]

pub step-IsValid : (st : RateLimiter) (c : Call) → IsValid st → IsValid (step st c)
unfolding step clear
step-IsValid st (asks ip now) v = blocked-IsValid st ip now v
step-IsValid st (requests ip limit now) v = request_exceeded-IsValid st ip limit now v
step-IsValid st (denies ip limit secs now) v = record_denial-IsValid st ip limit secs now v
step-IsValid st (unblocks ip) v = unblock-IsValid st ip v
step-IsValid st clears v = ground arith

pub run-IsValid : (st : RateLimiter) (cs : List Call) → IsValid st → IsValid (run st cs)
unfolding run
run-IsValid st [] v = v
run-IsValid st (c ∷ cs) v = run-IsValid (step st c) cs (step-IsValid st c v)

-- After any calls whatever, with any arguments and times, the event counter is exactly the number of
-- recorded requests and denials (so none of its unsigned subtractions wraps), it is at most
-- `kMaximumEvents`, there are at most `kMaximumClients` clients, and no address has two entries.
pub run-init-IsValid : (cs : List Call) → IsValid (run init cs)
run-init-IsValid cs =
    run-IsValid init cs
      (record { counted = refl; bounded = omega arith; room = omega arith; distinct = tt })
