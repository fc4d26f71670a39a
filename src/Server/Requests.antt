-- ===== src/Server/Requests.antt =====
-- src/fastdl_server.cpp: the life of one request, from the first call of `handleRequest` for it, through any
-- further ones, to `requestCompleted`.
use fastdl_mm.Prelude.{
  ℕ, suc, ◌≤◌, ◌<◌, ◌≡◌, refl, sym, subst, ◌∙◌, ◌⊎◌, inl, inr, Bool, true, false, Option, none,
  some, List, [], ◌∷◌, arith, ◌==◌, if◌then◌else◌, Bool-cases, length, u64_max, saturating_sum,
  Bytes,
}
use fastdl_mm.Server.{RequestState, Environment, FastdlServer}
use fastdl_mm.Server.Dispatch.{dispatch, fresh, handle_request, request_completed, Termination}
use fastdl_mm.Server.Accounting.{Answered, dispatch-Answered, completed-active}

-- The calls for one request, each with what surrounds it and the size that is left to upload.
unfoldable pub handle_all :
    FastdlServer
    → Option RequestState
    → Bytes
    → Bytes
    → List (Environment × ℕ)
    → FastdlServer × Option RequestState
handle_all s context url method [] = (s, context)
handle_all s context url method ((env, upload) ∷ calls) =
    let handled = handle_request env s context url method upload in
    handle_all handled.0 handled.1 url method calls

-- What holds between two calls, against the numbers of responses and of active transfers before the
-- first: a request that is not handled has added nothing to them.
unfoldable Tracked : ℕ → ℕ → FastdlServer → Option RequestState → Type 0
Tracked q a s none = (length s.queued ≡ q) × (s.metrics.active ≡ a)
Tracked q a s (some st) =
    (length s.queued ≤ suc q)
    × (s.metrics.active ≡ (if st.active_transfer then saturating_sum a 1 else a))
    × ((st.handled ≡ true) ⊎ ((length s.queued ≡ q) × (st.active_transfer ≡ false)))

Tracked-queued :
    (q a : ℕ) (s : FastdlServer) (context : Option RequestState)
    → Tracked q a s context
    → length s.queued ≤ suc q
unfolding Tracked
Tracked-queued q a s none h = let same = h.0 in omega (arith, same)
Tracked-queued q a s (some st) h = h.0

Tracked-completed :
    (q a : ℕ) (s : FastdlServer) (context : Option RequestState) (code : Termination)
    → a < u64_max
    → Tracked q a s context
    → (request_completed s context code).0.metrics.active ≡ a
unfolding Tracked request_completed
Tracked-completed q a s none code k h = h.1
Tracked-completed q a s (some st) code k h = completed-active s st code a k h.1

one-more : (sent : Bool) (n m q : ℕ) → n ≡ (if sent then suc m else m) → m ≡ q → n ≤ suc q
one-more true n m q h k = omega (arith, h, k)
one-more false n m q h k = omega (arith, h, k)

first-call :
    (q a : ℕ) (env : Environment) (s : FastdlServer) (url method : Bytes)
    → Tracked q a s none
    → Tracked q a s (some (fresh env url method))
unfolding Tracked fresh
first-call q a env s url method (queued, active) =
    (omega (arith, queued), active, inr (queued, refl))

later-call :
    (q a : ℕ) (env : Environment) (s : FastdlServer) (st : RequestState)
    → st.handled ≡ false
    → Tracked q a s (some st)
    → Tracked q a
        (dispatch env s (record st { handled = true })).0
        (some (dispatch env s (record st { handled = true })).1)
unfolding Tracked Answered
later-call q a env s st new (_, active, inl old) = let bad = sym new ∙ old in cc
later-call q a env s st new (_, active, inr (queued, idle)) =
    let started = dispatch-Answered env s (record st { handled = true }) idle in
    let same : s.metrics.active ≡ a = rw idle at active in
    let bound : length (dispatch env s (record st { handled = true })).0.queued ≤ suc q =
      one-more (dispatch env s (record st { handled = true })).2 _ _ q started.0 queued in
    let counted =
      subst
        (λ n. (dispatch env s (record st { handled = true })).0.metrics.active ≡ (
          if (dispatch env s (record st { handled = true })).1.active_transfer
          then saturating_sum n 1
          else n))
        same started.1 in
    (bound, counted, inl started.3)

handle_request-Tracked :
    (q a : ℕ) (env : Environment) (s : FastdlServer) (context : Option RequestState)
    (url method : Bytes) (upload : ℕ)
    → Tracked q a s context
    → Tracked q a
        (handle_request env s context url method upload).0
        (handle_request env s context url method upload).1
unfolding handle_request
handle_request-Tracked q a env s none url method upload h = first-call q a env s url method h
handle_request-Tracked q a env s (some st) url method upload h = elim (Bool-cases (upload == 0)) [
  | inr e ↦ rw e h
  | inl e ↦ elim (Bool-cases st.handled) [
    | inl old ↦ simp (e, old) h
    | inr new ↦ simp (e, new) (later-call q a env s st new h)
  ]
]

handle_all-Tracked :
    (q a : ℕ) (s : FastdlServer) (context : Option RequestState) (url method : Bytes)
    (calls : List (Environment × ℕ))
    → Tracked q a s context
    → Tracked q a
        (handle_all s context url method calls).0
        (handle_all s context url method calls).1
unfolding handle_all
handle_all-Tracked q a s context url method [] h = h
handle_all-Tracked q a s context url method ((env, upload) ∷ calls) h =
    handle_all-Tracked q a (handle_request env s context url method upload).0
      (handle_request env s context url method upload).1 url method calls
      (handle_request-Tracked q a env s context url method upload h)

-- Whatever calls of `handleRequest` the daemon makes for a request, with any uploads, they queue at most
-- one response for it in all.
pub handle_all-queued :
    (s : FastdlServer) (url method : Bytes) (calls : List (Environment × ℕ))
    → length (handle_all s none url method calls).0.queued ≤ suc (length s.queued)
unfolding Tracked
handle_all-queued s url method calls =
    Tracked-queued (length s.queued) s.metrics.active (handle_all s none url method calls).0
      (handle_all s none url method calls).1
      (handle_all-Tracked (length s.queued) s.metrics.active s none url method calls (refl, refl))

-- If fewer than 2^64 - 1 transfers are active, then after any calls of `handleRequest` for a request and
-- its end, however it ends, as many transfers are active as before it.
pub request_completed-handle_all :
    (s : FastdlServer) (url method : Bytes) (calls : List (Environment × ℕ)) (code : Termination)
    → s.metrics.active < u64_max
    → (request_completed
        (handle_all s none url method calls).0
        (handle_all s none url method calls).1
        code).0.metrics.active
      ≡ s.metrics.active
unfolding Tracked
request_completed-handle_all s url method calls code k =
    Tracked-completed (length s.queued) s.metrics.active (handle_all s none url method calls).0
      (handle_all s none url method calls).1 code k
      (handle_all-Tracked (length s.queued) s.metrics.active s none url method calls (refl, refl))
