-- ===== src/RateLimiter/Window.antt =====
-- src/rate_limiter.cpp: the sliding window of admitted requests.
use mathlib.Core.List.{append-nil, append_assoc}
use fastdl_mm.Prelude.{
  ℕ, ◌+◌, ◌≤◌, ◌≡◌, refl, sym, ap, ◌∙◌, inl, inr, Bool, true, false, Option, none, some, List, [],
  ◌∷◌, ◌++◌, arith, leb, if◌then◌else◌, leb→le, Bool-cases, Option-cases, length, All, All-append,
  Bytes, bytes_eq, bytes_eq_sound,
}
use fastdl_mm.RateLimiter.Clients.{no_client, lookup, put, Distinct, lookup-put, Client}
use fastdl_mm.RateLimiter.{
  minute, maximum_clients, trim, is_stale, cleanup, create, find_or_create, RateLimiter,
}
use fastdl_mm.RateLimiter.Accounting.{cleanup_fresh, IsValid}
use fastdl_mm.RateLimiter.Blocks.{survivor, lookup-cleanup}

-- The admitted requests of one address, oldest first, and how many of them the last minute holds.
abbrev pub recent : ℕ → List ℕ → ℕ
recent now [] = 0
recent now (t ∷ ts) = (if leb (t + minute) now then 0 else 1) + recent now ts

abbrev pub IsExpired : ℕ → ℕ → Type 0
IsExpired now t = t + minute ≤ now

-- The requests that the limiter still holds for an address.
abbrev pub held : Option Client → List ℕ
held none = []
held (some c) = c.requests

abbrev pub seen : Option Client → ℕ
seen none = 0
seen (some c) = c.last_seen

-- The log is what was dropped, all of it older than a minute, and what is held; an address was last
-- seen no earlier than any request held for it.
pub record IsLogged (ip : Bytes) (now : ℕ) (log : List ℕ) (st : RateLimiter) : Type 0 where
  pub dropped : List ℕ
  pub split : log ≡ dropped ++ held (lookup ip st.clients)
  pub old : All (IsExpired now) dropped
  pub since : All (λ t. t ≤ seen (lookup ip st.clients)) (held (lookup ip st.clients))
  pub past : seen (lookup ip st.clients) ≤ now

pub recent-append :
    (now : ℕ) (xs ys : List ℕ) → recent now (xs ++ ys) ≡ recent now xs + recent now ys
recent-append now [] ys = omega arith
recent-append now (x ∷ xs) ys = ground (arith, recent-append now xs ys)

pub recent-IsExpired : (now : ℕ) (xs : List ℕ) → All (IsExpired now) xs → recent now xs ≡ 0
recent-IsExpired now [] h = refl
recent-IsExpired now (x ∷ xs) h = ground (arith, recent-IsExpired now xs h.1)

pub recent-le-length : (now : ℕ) (xs : List ℕ) → recent now xs ≤ length xs
recent-le-length now [] = omega arith
recent-le-length now (x ∷ xs) = ground (arith, recent-le-length now xs)

IsExpired-mono :
    (now later : ℕ) (xs : List ℕ) → now ≤ later → All (IsExpired now) xs → All (IsExpired later) xs
IsExpired-mono now later [] h k = tt
IsExpired-mono now later (x ∷ xs) h k = (omega arith, IsExpired-mono now later xs h k.1)

-- `trim` splits off expired times only.
pub record Trimmed (ts : List ℕ) (now : ℕ) : Type 0 where
  pub expired : List ℕ
  pub split : ts ≡ expired ++ (trim ts now).0
  pub old : All (IsExpired now) expired

pub trim-Trimmed : (ts : List ℕ) (now : ℕ) → Trimmed ts now
unfolding trim
trim-Trimmed [] now = record { expired = []; split = refl; old = tt }
trim-Trimmed (t ∷ ts) now = elim (Bool-cases (leb (t + minute) now)) [
  | inl gone ↦
      let ih = trim-Trimmed ts now in
      record {
        expired = t ∷ ih.expired;
        split = rw gone (ap (◌∷◌ t) ih.split);
        old = (leb→le (t + minute) now gone, ih.old);
      }
  | inr stays ↦ record { expired = []; split = rw stays; old = tt }
]

All-suffix {ℓ} : {A : Type 0} (P : A → Type ℓ) (xs ys : List A) → All P (xs ++ ys) → All P ys
All-suffix P [] ys h = h
All-suffix P (x ∷ xs) ys h = All-suffix P xs ys h.1

All-IsExpired :
    (now bound : ℕ) (xs : List ℕ)
    → All (λ t. t ≤ bound) xs
    → bound + minute ≤ now
    → All (IsExpired now) xs
All-IsExpired now bound [] h k = tt
All-IsExpired now bound (x ∷ xs) h k = (omega arith, All-IsExpired now bound xs h.1 k)

below_later : (b c : ℕ) (xs : List ℕ) → b ≤ c → All (λ t. t ≤ b) xs → All (λ t. t ≤ c) xs
below_later b c [] h k = tt
below_later b c (x ∷ xs) h k = (omega arith, below_later b c xs h k.1)

-- The same, of an entry alone.
abbrev pub LoggedEntry : ℕ → List ℕ → Option Client → Type 0
LoggedEntry now log o =
    (dropped : List ℕ) × (log ≡ dropped ++ held o)
    × All (IsExpired now) dropped
    × All (λ t. t ≤ seen o) (held o)
    × (seen o ≤ now)

pub entry :
    (ip : Bytes) (now : ℕ) (log : List ℕ) (st : RateLimiter)
    → IsLogged ip now log st
    → LoggedEntry now log (lookup ip st.clients)
entry ip now log st l = (l.dropped, l.split, l.old, l.since, l.past)

pub from_entry :
    (ip : Bytes) (now : ℕ) (log : List ℕ) (st : RateLimiter) (o : Option Client)
    → lookup ip st.clients ≡ o
    → LoggedEntry now log o
    → IsLogged ip now log st
from_entry ip now log st o e (d, s, old, since, past) = record {
  dropped = d;
  split = rw e s;
  old = old;
  since = rw e since;
  past = rw e past;
}

pub later_entry :
    (now later : ℕ) (log : List ℕ) (o : Option Client)
    → now ≤ later
    → LoggedEntry now log o
    → LoggedEntry later log o
later_entry now later log o h (d, s, old, since, past) =
    (d, s, IsExpired-mono now later d h old, since, omega arith)

survivor_entry :
    (now later : ℕ) (log : List ℕ) (o : Option Client)
    → now ≤ later
    → LoggedEntry now log o
    → LoggedEntry later log (survivor later o)
survivor_entry now later log none h l = later_entry now later log none h l
survivor_entry now later log (some c) h l = elim (Bool-cases (is_stale later c)) [
  | inr kept ↦ rw kept (later_entry now later log (some c) h l)
  | inl gone ↦
      let (d, s, old, since, past) = later_entry now later log (some c) h l in
      rw gone (
        d ++ c.requests,
        s ∙ sym (append-nil (d ++ c.requests)),
        All-append (IsExpired later) d c.requests old
            (All-IsExpired later c.last_seen c.requests since (stale_age later c gone)),
        tt,
        omega arith,
      )
]
  where
    stale_age : (now : ℕ) (c : Client) → is_stale now c ≡ true → c.last_seen + minute ≤ now
    stale_age now c h = unfold is_stale in ground arith

pub cleanup-IsLogged :
    (ip : Bytes) (now later : ℕ) (log : List ℕ) (st : RateLimiter) (force : Bool)
    → Distinct st.clients
    → now ≤ later
    → IsLogged ip now log st
    → IsLogged ip later log (cleanup st later force)
cleanup-IsLogged ip now later log st force d h l = elim (lookup-cleanup st later force ip d) [
  | inl same ↦
      from_entry ip later log _ _ same
        (later_entry now later log (lookup ip st.clients) h (entry ip now log st l))
  | inr swept ↦
      from_entry ip later log _ _ swept
        (survivor_entry now later log (lookup ip st.clients) h (entry ip now log st l))
]

create-IsLogged :
    (ip j : Bytes) (now : ℕ) (log : List ℕ) (st : RateLimiter)
    → lookup j st.clients ≡ none
    → IsLogged ip now log st
    → IsLogged ip now log (create st j).0
unfolding create
create-IsLogged ip j now log st absent l =
    elim (Bool-cases (leb maximum_clients (length st.clients))) [
      | inl full ↦ rw full l
      | inr room ↦ rw room (elim (Bool-cases (bytes_eq j ip)) [
        | inr other ↦
            from_entry ip now log _ (lookup ip st.clients)
              (lookup-put j ip no_client st.clients ∙ rw other) (entry ip now log st l)
        | inl same ↦
            let missing : lookup ip st.clients ≡ none = rw (bytes_eq_sound j ip same) at absent in
            from_entry ip now log _ (some no_client)
              (lookup-put j ip no_client st.clients ∙ rw same)
              (l.dropped, l.split ∙ rw missing, l.old, tt, omega arith)
      ])
    ]

pub find_or_create-IsLogged :
    (ip j : Bytes) (now : ℕ) (log : List ℕ) (st : RateLimiter)
    → IsValid st
    → IsLogged ip now log st
    → IsLogged ip now log (find_or_create st j now).0
unfolding find_or_create
find_or_create-IsLogged ip j now log st v l = elim (Option-cases (lookup j st.clients)) [
  | inr (c, e) ↦ rw (e, find_or_create) l
  | inl e ↦
      rw (e, find_or_create)
        (elim (Bool-cases (leb maximum_clients (length st.clients))) [
          | inl full ↦ rw full (
              create-IsLogged ip j now log (cleanup st now true) (cleanup_fresh st j now true e)
                (cleanup-IsLogged ip now now log st true v.distinct (omega arith) l))
          | inr free ↦ rw free (create-IsLogged ip j now log st e l)
        ])
]

-- `put` for another address changes nothing; for this one it gives the new entry.
pub put-IsLogged :
    (ip j : Bytes) (now : ℕ) (log log' : List ℕ) (st : RateLimiter) (n : ℕ) (c : Client)
    → (bytes_eq j ip ≡ false → log' ≡ log)
    → (bytes_eq j ip ≡ true → LoggedEntry now log' (some c))
    → IsLogged ip now log st
    → IsLogged ip now log' (record st { clients = put j c st.clients; event_count = n })
put-IsLogged ip j now log log' st n c other same l = elim (Bool-cases (bytes_eq j ip)) [
  | inr e ↦
      from_entry ip now log' _ (lookup ip st.clients) (lookup-put j ip c st.clients ∙ rw e)
        (rw (other e) (entry ip now log st l))
  | inl e ↦ from_entry ip now log' _ (some c) (lookup-put j ip c st.clients ∙ rw e) (same e)
]

-- Of this address' entry: trimming its requests moves expired ones to what was dropped.
pub trim_entry :
    (now : ℕ) (log : List ℕ) (c d : Client)
    → d.requests ≡ (trim c.requests now).0
    → d.last_seen ≡ now
    → LoggedEntry now log (some c)
    → LoggedEntry now log (some d)
trim_entry now log c d same at (dropped, s, old, since, past) =
    let cut = trim-Trimmed c.requests now in
    (
      dropped ++ cut.expired,
      s
          ∙ ap (◌++◌ dropped) cut.split
          ∙ sym (append_assoc dropped cut.expired (trim c.requests now).0)
          ∙ rw same,
      All-append (IsExpired now) dropped cut.expired old cut.old,
      rw (same, at)
          (below_later c.last_seen now (trim c.requests now).0 past (
            All-suffix (λ t. t ≤ c.last_seen) cut.expired (trim c.requests now).0
              (rw cut.split at since))),
      omega arith,
    )

pub push_entry :
    (now : ℕ) (log : List ℕ) (c d : Client)
    → d.requests ≡ c.requests ++ now ∷ []
    → d.last_seen ≡ c.last_seen
    → c.last_seen ≡ now
    → LoggedEntry now log (some c)
    → LoggedEntry now (log ++ now ∷ []) (some d)
push_entry now log c d same at at' (dropped, s, old, since, past) = (
  dropped,
  ap (λ xs. xs ++ now ∷ []) s ∙ append_assoc dropped c.requests (now ∷ []) ∙ rw same,
  old,
  rw (same, at) (All-append (λ t. t ≤ c.last_seen) c.requests (now ∷ []) since (omega arith, tt)),
  omega arith,
)

-- A denial marks the entry as seen and keeps its requests.
pub touch_entry :
    (now : ℕ) (log : List ℕ) (c d : Client)
    → d.requests ≡ c.requests
    → d.last_seen ≡ now
    → LoggedEntry now log (some c)
    → LoggedEntry now log (some d)
touch_entry now log c d same at (dropped, s, old, since, past) = (
  dropped,
  rw same s,
  old,
  rw (same, at) (below_later c.last_seen now c.requests past since),
  omega arith,
)
