-- ===== src/RateLimiter/Limit.antt =====
-- src/rate_limiter.cpp: the number of requests that a history of calls admits.
use mathlib.Core.List.{append-nil, append_assoc}
use mathlib.Core.List.{append-nil, append_assoc}
use fastdl_mm.Prelude.{
  ℕ, ◌+◌, ◌*◌, ◌≤◌, ◌<◌, ◌≡◌, refl, sym, ap, subst, ◌∙◌, ◌≢◌, inl, inr, Bool, true, false, ◌||◌,
  some, List, [], ◌∷◌, ◌++◌, arith, leb, ◌==◌, Bool-cases, Option-cases, length, All, sub_size,
  Bytes, bytes_eq, bytes_eq_sound,
}
use fastdl_mm.RateLimiter.Clients.{lookup, lookup-remove_ne, Client}
use fastdl_mm.RateLimiter.{
  second, maximum_events, init, trim, cleanup, find_or_create, blocked, admit, request_exceeded,
  strike, record_denial, unblock, step, run, RateLimiter, Call, asks, requests, denies, unblocks,
  clears,
}
use fastdl_mm.RateLimiter.Accounting.{
  cleanup-IsValid, find_or_create-lookup, step-IsValid, run-IsValid, IsValid,
}
use fastdl_mm.RateLimiter.Window.{
  recent, recent-append, recent-IsExpired, recent-le-length, trim-Trimmed, LoggedEntry, entry,
  from_entry, later_entry, cleanup-IsLogged, find_or_create-IsLogged, put-IsLogged, trim_entry,
  push_entry, touch_entry, IsLogged,
}

-- What an outcome of `requestExceeded` adds to the log of an address.
abbrev pub logged : Bool → Bool → ℕ → List ℕ
logged true false now = now ∷ []
logged _ _ now = []

-- The times at which a history admits requests of an address.
abbrev pub admitted : Bytes → RateLimiter → List Call → List ℕ
admitted ip st [] = []
admitted ip st (asks j now ∷ cs) = admitted ip (step st (asks j now)) cs
admitted ip st (requests j limit now ∷ cs) =
    logged (bytes_eq j ip) (request_exceeded st j limit now).1 now
    ++ admitted ip (step st (requests j limit now)) cs
admitted ip st (denies j limit secs now ∷ cs) = admitted ip (step st (denies j limit secs now)) cs
admitted ip st (unblocks j ∷ cs) = admitted ip (step st (unblocks j)) cs
admitted ip st (clears ∷ cs) = admitted ip (step st clears) cs

-- The times of a history do not fall, and lie between two bounds.
abbrev pub Timed : ℕ → List Call → ℕ → Type 0
Timed lo [] hi = lo ≤ hi
Timed lo (asks j now ∷ cs) hi = (lo ≤ now) × Timed now cs hi
Timed lo (requests j limit now ∷ cs) hi = (lo ≤ now) × Timed now cs hi
Timed lo (denies j limit secs now ∷ cs) hi = (lo ≤ now) × Timed now cs hi
Timed lo (unblocks j ∷ cs) hi = Timed lo cs hi
Timed lo (clears ∷ cs) hi = Timed lo cs hi

-- No operator command makes the limiter forget the address.
abbrev pub Keeps : Bytes → Call → Type 0
Keeps ip (unblocks j) = j ≢ ip
Keeps ip clears = ⊥
Keeps ip _ = Unit {0}

admit-IsLogged :
    (ip j : Bytes) (limit now : ℕ) (log : List ℕ) (st : RateLimiter) (c : Client)
    → lookup j st.clients ≡ some c
    → IsLogged ip now log st
    → IsLogged ip now
        (log ++ logged (bytes_eq j ip) (admit st j c limit now).1 now)
        (admit st j c limit now).0
unfolding admit
admit-IsLogged ip j limit now log st c e l =
    let kept : Client = record c { last_seen = now; requests = (trim c.requests now).0 } in
    let grown : Client = record kept { requests = kept.requests ++ now ∷ [] } in
    let mine = λ (h : bytes_eq j ip ≡ true).
      subst (LoggedEntry now log) (ap (λ k. lookup k st.clients) (sym (bytes_eq_sound j ip h)) ∙ e)
        (entry ip now log st l) in
    let trimmed = λ (h : bytes_eq j ip ≡ true). trim_entry now log c kept refl refl (mine h) in
    elim (Bool-cases (
      leb limit (length kept.requests)
      || leb maximum_events (sub_size st.event_count (trim c.requests now).1))) [
        | inl refused ↦ rw refused (
            put-IsLogged ip j now log _ st _ kept (λ h. rw h (append-nil log))
              (λ h. rw (h, append-nil log) (trimmed h)) l)
        | inr accepted ↦ rw accepted (
            put-IsLogged ip j now log _ st _ grown (λ h. rw h (append-nil log))
              (λ h. rw h (push_entry now log kept grown refl refl refl (trimmed h))) l)
      ]

request_exceeded-IsLogged :
    (ip j : Bytes) (limit before now : ℕ) (log : List ℕ) (st : RateLimiter)
    → IsValid st
    → before ≤ now
    → IsLogged ip before log st
    → IsLogged ip now
        (log ++ logged (bytes_eq j ip) (request_exceeded st j limit now).1 now)
        (request_exceeded st j limit now).0
unfolding request_exceeded
request_exceeded-IsLogged ip j limit before now log st v h l =
    let st1 = cleanup st now false in
    let v1 = cleanup-IsValid st now false v in
    let l1 = cleanup-IsLogged ip before now log st false v.distinct h l in
    let l2 = find_or_create-IsLogged ip j now log st1 v1 l1 in
    let same = λ (s : RateLimiter) (b : Bool) (k : IsLogged ip now log s).
      subst (λ xs. IsLogged ip now xs s)
        (sym (append-nil log) ∙ ap (◌++◌ log) (sym (logged_refused b now))) k in
    elim (Bool-cases (limit == 0)) [
      | inl closed ↦ rw closed (same st1 (bytes_eq j ip) l1)
      | inr some_allowed ↦ rw some_allowed (elim (Option-cases (find_or_create st1 j now).1) [
        | inl e ↦ rw e (same (find_or_create st1 j now).0 (bytes_eq j ip) l2)
        | inr (c, e) ↦ rw e (
            admit-IsLogged ip j limit now log (find_or_create st1 j now).0 c
              (find_or_create-lookup st1 j now e) l2)
      ])
    ]
  where
    logged_refused : (b : Bool) (now : ℕ) → logged b true now ≡ []
    logged_refused true now = refl
    logged_refused _ now = refl

strike-IsLogged :
    (ip j : Bytes) (limit secs now : ℕ) (log : List ℕ) (st : RateLimiter) (c : Client)
    → lookup j st.clients ≡ some c
    → IsLogged ip now log st
    → IsLogged ip now log (strike st j c limit secs now)
unfolding strike
strike-IsLogged ip j limit secs now log st c e l =
    let denials = (trim c.denials now).0 in
    let count = sub_size st.event_count (trim c.denials now).1 in
    let until = now + secs * second in
    let blocked : Client = record c { last_seen = now; denials = []; blocked_until = until } in
    let grown : Client = record c { last_seen = now; denials = denials ++ now ∷ [] } in
    let mine = λ (h : bytes_eq j ip ≡ true).
      subst (LoggedEntry now log) (ap (λ k. lookup k st.clients) (sym (bytes_eq_sound j ip h)) ∙ e)
        (entry ip now log st l) in
    let write = λ (n : ℕ) (d : Client) (r : d.requests ≡ c.requests) (s : d.last_seen ≡ now).
      put-IsLogged ip j now log log st n d (λ _. refl) (λ h. touch_entry now log c d r s (mine h))
        l in
    elim (Bool-cases (leb maximum_events count)) [
      | inl full ↦ rw full (write _ blocked refl refl)
      | inr room ↦
          rw room (elim (Bool-cases (limit == 0 || leb limit (length (denials ++ now ∷ [])))) [
            | inl out ↦ rw out (write _ blocked refl refl)
            | inr more ↦ rw more (write _ grown refl refl)
          ])
    ]

record_denial-IsLogged :
    (ip j : Bytes) (limit secs before now : ℕ) (log : List ℕ) (st : RateLimiter)
    → IsValid st
    → before ≤ now
    → IsLogged ip before log st
    → IsLogged ip now log (record_denial st j limit secs now)
unfolding record_denial
record_denial-IsLogged ip j limit secs before now log st v h l =
    let st1 = cleanup st now false in
    let l2 =
      find_or_create-IsLogged ip j now log st1 (cleanup-IsValid st now false v)
        (cleanup-IsLogged ip before now log st false v.distinct h l) in
    elim (Option-cases (find_or_create st1 j now).1) [
      | inl e ↦ rw (e, record_denial) l2
      | inr (c, e) ↦
          rw (e, record_denial)
            (strike-IsLogged ip j limit secs now log (find_or_create st1 j now).0 c
              (find_or_create-lookup st1 j now e) l2)
    ]

unblock-IsLogged :
    (ip j : Bytes) (now : ℕ) (log : List ℕ) (st : RateLimiter)
    → j ≢ ip
    → IsLogged ip now log st
    → IsLogged ip now log (unblock st j).0
unfolding unblock
unblock-IsLogged ip j now log st h l = elim (Option-cases (lookup j st.clients)) [
  | inl e ↦ rw (e, unblock) l
  | inr (c, e) ↦
      rw (e, unblock)
        (from_entry ip now log _ (lookup ip st.clients) (lookup-remove_ne j ip st.clients h)
          (entry ip now log st l))
]

run-IsLogged :
    (ip : Bytes) (lo hi : ℕ) (log : List ℕ) (st : RateLimiter) (cs : List Call)
    → IsValid st
    → Timed lo cs hi
    → All (Keeps ip) cs
    → IsLogged ip lo log st
    → IsLogged ip hi (log ++ admitted ip st cs) (run st cs)
unfolding run
run-IsLogged ip lo hi log st [] v t k l = rw (append-nil log) (
    from_entry ip hi log st (lookup ip st.clients) refl
      (later_entry lo hi log (lookup ip st.clients) t (entry ip lo log st l)))
run-IsLogged ip lo hi log st (asks j now ∷ cs) v t k l =
    run-IsLogged ip now hi log (step st (asks j now)) cs (step-IsValid st (asks j now) v) t.1 k.1
      (unfold step blocked in cleanup-IsLogged ip lo now log st false v.distinct t.0 l)
run-IsLogged ip lo hi log st (requests j limit now ∷ cs) v t k l =
    let added = logged (bytes_eq j ip) (request_exceeded st j limit now).1 now in
    let call = requests j limit now in
    rw (← append_assoc log added (admitted ip (step st call) cs)) (
      run-IsLogged ip now hi (log ++ added) (step st call) cs (step-IsValid st call v) t.1 k.1
        (unfold step in request_exceeded-IsLogged ip j limit lo now log st v t.0 l))
run-IsLogged ip lo hi log st (denies j limit secs now ∷ cs) v t k l =
    let call = denies j limit secs now in
    run-IsLogged ip now hi log (step st call) cs (step-IsValid st call v) t.1 k.1
      (unfold step in record_denial-IsLogged ip j limit secs lo now log st v t.0 l)
run-IsLogged ip lo hi log st (unblocks j ∷ cs) v t k l =
    run-IsLogged ip lo hi log (step st (unblocks j)) cs (step-IsValid st (unblocks j) v) t k.1
      (unfold step in unblock-IsLogged ip j lo log st k.0 l)
run-IsLogged ip lo hi log st (clears ∷ cs) v t k l = absurd k.0

admit-room :
    (st : RateLimiter) (ip : Bytes) (c : Client) (limit now : ℕ)
    → (admit st ip c limit now).1 ≡ false
    → length (trim c.requests now).0 < limit
unfolding admit
admit-room st ip c limit now h = ground arith

-- An admitted request finds fewer than `limit` others of its address in the last minute.
admit-recent :
    (ip : Bytes) (limit now : ℕ) (log : List ℕ) (st : RateLimiter) (c : Client)
    → lookup ip st.clients ≡ some c
    → IsLogged ip now log st
    → (admit st ip c limit now).1 ≡ false
    → recent now log < limit
admit-recent ip limit now log st c e l accepted =
    let cut = trim-Trimmed c.requests now in
    let kept = (trim c.requests now).0 in
    let (d, split, old, _, _) = subst (LoggedEntry now log) e (entry ip now log st l) in
    omega (
      arith,
      ap (recent now) split,
      ap (recent now) cut.split,
      recent-append now d c.requests,
      recent-append now cut.expired kept,
      recent-IsExpired now d old,
      recent-IsExpired now cut.expired cut.old,
      recent-le-length now kept,
      admit-room st ip c limit now accepted,
    )

request_exceeded-recent :
    (ip : Bytes) (limit now : ℕ) (log : List ℕ) (st : RateLimiter)
    → IsValid st
    → IsLogged ip now log st
    → (request_exceeded st ip limit now).1 ≡ false
    → recent now log < limit
unfolding request_exceeded
request_exceeded-recent ip limit now log st v l accepted =
    let st1 = cleanup st now false in
    let l2 =
      find_or_create-IsLogged ip ip now log st1 (cleanup-IsValid st now false v)
        (cleanup-IsLogged ip now now log st false v.distinct (omega arith) l) in
    elim (Bool-cases (limit == 0)) [
      | inl closed ↦ let bad = rw closed at accepted in cc
      | inr some_allowed ↦
          let past = rw some_allowed at accepted in
          elim (Option-cases (find_or_create st1 ip now).1) [
            | inl e ↦ let bad = rw e at past in cc
            | inr (c, e) ↦
                admit-recent ip limit now log (find_or_create st1 ip now).0 c
                  (find_or_create-lookup st1 ip now e) l2 (rw e at past)
          ]
    ]

empty-IsLogged : (ip : Bytes) → IsLogged ip 0 [] init
unfolding lookup
empty-IsLogged ip = record { dropped = []; split = refl; old = tt; since = tt; past = omega arith }

init-IsValid : IsValid init
init-IsValid = record { counted = refl; bounded = omega arith; room = omega arith; distinct = tt }

-- The sliding window: in any history of calls whose times do not fall and in which no operator
-- command forgets the address, a request that is admitted makes at most `limit` admitted requests of
-- that address in the minute that ends with it, itself included, whatever was dropped from the
-- deques, cleaned up or created in between.
pub admitted-recent-le :
    (ip : Bytes) (limit now : ℕ) (cs : List Call)
    → Timed 0 cs now
    → All (Keeps ip) cs
    → (request_exceeded (run init cs) ip limit now).1 ≡ false
    → recent now (admitted ip init cs ++ now ∷ []) ≤ limit
admitted-recent-le ip limit now cs timed kept accepted =
    let log = admitted ip init cs in
    let before =
      request_exceeded-recent ip limit now log (run init cs) (run-IsValid init cs init-IsValid)
        (run-IsLogged ip 0 now [] init cs init-IsValid timed kept (empty-IsLogged ip)) accepted in
    ground (arith, before, recent-append now log (now ∷ []))
