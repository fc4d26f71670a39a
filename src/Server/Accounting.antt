-- ===== src/Server/Accounting.antt =====
-- src/fastdl_server.cpp: what `dispatch` and `requestCompleted` do to the queue of responses and to the
-- count of active transfers.
use fastdl_mm.Prelude.{
  ℕ, suc, ◌+◌, ◌-◌, ◌%◌, ◌<◌, ◌≡◌, refl, ap, subst, ◌∙◌, ◌⊎◌, inl, inr, Bool, true, false, not,
  ◌&&◌, none, some, arith, if◌then◌else◌, Bool-cases, if-elim, length, u64_mod, u64_max,
  saturating_sum, Bytes, codes,
}
use fastdl_mm.RateLimiter.{blocked, request_exceeded}
use fastdl_mm.Metrics.{
  request_started, transfer_started, failure, transfer_finished, TransferOutcome, Metrics,
  completed, aborted, timed_out, failed,
}
use fastdl_mm.Http.Text.{steam_client}
use fastdl_mm.Resolver.{
  ResolveStatus, ResolvedFile, ok, invalid_path, outside_root, not_found, not_a_file,
  directory_denied, extension_denied, too_large, io_error,
}
use fastdl_mm.Server.{
  Outcome, header_values, send, OpenedFileInfo, RequestState, Response, Environment, FastdlServer,
}
use fastdl_mm.Server.Responses.{make_etag, respond_text, respond_range_error}
use fastdl_mm.Server.Files.{
  is_get, respond_not_modified, file_response_of, take_lease, started, respond_file, serve_opened,
  serve_file, Representation,
}
use fastdl_mm.Server.Dispatch.{
  internal_error, count_failure, note_denial, deny, after_serving, answer_file, target, answer,
  admit_request, check_client, is_method, dispatch, outcome_of, request_completed, Termination,
}

-- A handler's outcome against the number of responses and of active transfers before it: a response
-- has been queued exactly if the handler succeeds, and a transfer is counted exactly if the request says
-- so, which it does on success only; and whether the request is handled is as given.
unfoldable pub Answered : Bool → ℕ → ℕ → Outcome → Type 0
Answered d q a (s, st, sent) =
    (length s.queued ≡ (if sent then suc q else q))
    × (s.metrics.active ≡ (if st.active_transfer then saturating_sum a 1 else a))
    × ((sent ≡ true) ⊎ (st.active_transfer ≡ false))
    × (st.handled ≡ d)

count-idle : (b : Bool) (n : ℕ) → b ≡ false → n ≡ (if b then saturating_sum n 1 else n)
count-idle true n h = cc
count-idle false n h = refl

module _ (env : Environment) where
  pub send-Answered :
      (s : FastdlServer) (st : RequestState) (r : Response)
      → st.active_transfer ≡ false
      → Answered st.handled
          (length s.queued)
          s.metrics.active
          ((send env s r).0, st, (send env s r).1)
  unfolding send Answered
  send-Answered s st r h =
      let P : FastdlServer × Bool → Type 0 =
        λ o. Answered st.handled (length s.queued) s.metrics.active (o.0, st, o.1) in
      let active = count-idle st.active_transfer s.metrics.active h in
      if-elim P (not (env.creates r.count)) (refl, active, inr h, refl)
        (if-elim P (not (header_values env r.headers)) (refl, active, inr h, refl)
          (if-elim P (env.queues r.status) (refl, active, inr h, refl) (refl, active, inr h, refl)))

  pub respond_text-Answered :
      (s : FastdlServer) (st : RequestState) (status : ℕ) (body reason : Bytes)
      → st.active_transfer ≡ false
      → Answered st.handled
          (length s.queued)
          s.metrics.active
          (respond_text env s st status body reason)
  unfolding respond_text
  respond_text-Answered s st status body reason h = send-Answered s _ _ h

  pub respond_range_error-Answered :
      (s : FastdlServer) (st : RequestState) (total : ℕ)
      → st.active_transfer ≡ false
      → Answered st.handled (length s.queued) s.metrics.active (respond_range_error env s st total)
  unfolding respond_range_error
  respond_range_error-Answered s st total h = send-Answered s _ _ h

  pub deny-Answered :
      (s : FastdlServer) (st : RequestState) (reason : Bytes) (strikes : Bool)
      → st.active_transfer ≡ false
      → Answered st.handled (length s.queued) s.metrics.active (deny env s st reason strikes)
  unfolding deny note_denial
  deny-Answered s st reason true h =
      respond_text-Answered (note_denial env s st.ip) st 403 _ reason h
  deny-Answered s st reason false h = respond_text-Answered s st 403 _ reason h

  pub respond_not_modified-Answered :
      (s : FastdlServer) (st : RequestState) (etag date : Bytes) (compressed : Bool)
      → st.active_transfer ≡ false
      → Answered st.handled
          (length s.queued)
          s.metrics.active
          (respond_not_modified env s st etag date compressed)
  unfolding respond_not_modified Answered
  respond_not_modified-Answered s st etag date compressed h =
      let st1 : RequestState = record st {
        file_response = true;
        status = 304;
        response_size = 0;
        reason = codes "not modified";
      } in
      if-elim (Answered st.handled (length s.queued) s.metrics.active) _ (send-Answered s st1 _ h)
        (refl, count-idle st.active_transfer s.metrics.active h, inr h, refl)

  take_lease-queued :
      (s : FastdlServer) (st : RequestState)
      → ((take_lease env s st).queued ≡ s.queued) × ((take_lease env s st).metrics ≡ s.metrics)
  unfolding take_lease
  take_lease-queued s st =
      if-elim (λ (t : FastdlServer). (t.queued ≡ s.queued) × (t.metrics ≡ s.metrics)) (is_get st)
        (refl, refl) (refl, refl)

  started-Answered :
      (d : Bool) (q a : ℕ) (s : FastdlServer) (st : RequestState) (r : Representation) (sent : Bool)
      → st.active_transfer ≡ false
      → Answered d q a (s, st, sent)
      → Answered d q a (started s st r sent)
  unfolding started Answered transfer_started
  started-Answered d q a s st r false h k = k
  started-Answered d q a s st r true h (queued, active, _, same_request) =
      let same : s.metrics.active ≡ a = rw h at active in
      if-elim (Answered d q a) (is_get st)
        (queued, ap (λ n. saturating_sum n 1) same, inl refl, same_request)
        (queued, active, inr h, same_request)

  respond_file-Answered :
      (s : FastdlServer) (st : RequestState) (f : ResolvedFile) (opened : OpenedFileInfo)
      (r : Representation)
      → st.active_transfer ≡ false
      → Answered st.handled (length s.queued) s.metrics.active (respond_file env s st f opened r)
  unfolding respond_file take_lease
  respond_file-Answered s st f opened r h =
      let (queued, metrics) = take_lease-queued s st in
      let sent =
        send-Answered (take_lease env s st) st
          (file_response_of s.settings f opened r (make_etag opened r.compressed)
            (env.http_date opened.modified_seconds))
          h in
      if-elim (Answered st.handled (length s.queued) s.metrics.active) _
        (respond_not_modified-Answered s st _ _ r.compressed h)
        (started-Answered _ _ _ _ st r _ h (rw (queued, metrics) at sent))

  serve_opened-Answered :
      (s : FastdlServer) (st : RequestState) (f : ResolvedFile) (opened : OpenedFileInfo)
      → st.active_transfer ≡ false
      → Answered st.handled (length s.queued) s.metrics.active (serve_opened env s st f opened)
  unfolding serve_opened
  serve_opened-Answered s st f opened h =
      let P : Outcome → Type 0 = Answered st.handled (length s.queued) s.metrics.active in
      if-elim P _ (respond_text-Answered s st 403 _ _ h) (
        if-elim P _ (respond_range_error-Answered s st _ h)
          (respond_file-Answered s st f opened _ h))

  serve_file-Answered :
      (s : FastdlServer) (st : RequestState) (f : ResolvedFile)
      → st.active_transfer ≡ false
      → Answered st.handled (length s.queued) s.metrics.active (serve_file env s st f)
  unfolding serve_file Answered
  serve_file-Answered s st f h =
      elim (env.inspect f.path)
        as (λ found.
          Answered st.handled (length s.queued) s.metrics.active
            (elim found [ none ↦ (s, st, false) | some opened ↦ serve_opened env s st f opened ])) [
              | none ↦ (refl, count-idle st.active_transfer s.metrics.active h, inr h, refl)
              | some opened ↦ serve_opened-Answered s st f opened h
            ]

  after_serving-Answered :
      (d : Bool) (q a : ℕ) (o : Outcome) → Answered d q a o → Answered d q a (after_serving env o)
  unfolding after_serving Answered count_failure failure
  after_serving-Answered d q a (s, st, true) h = h
  after_serving-Answered d q a (s, st, false) (queued, active, unless, same_request) =
      let idle : st.active_transfer ≡ false = elim unless [ inl e ↦ cc | inr e ↦ e ] in
      let same : s.metrics.active ≡ a = rw idle at active in
      let answered =
        respond_text-Answered (count_failure s) st 500 internal_error
          (codes "open or response failure") idle in
      subst (λ b. Answered b q a (after_serving env (s, st, false))) same_request
        (subst (λ n. Answered st.handled n a (after_serving env (s, st, false))) queued
          (subst (λ n. Answered st.handled (length s.queued) n (after_serving env (s, st, false)))
            same answered))

  answer_file-Answered :
      (s : FastdlServer) (st : RequestState) (f : ResolvedFile) (status : ResolveStatus)
      → st.active_transfer ≡ false
      → Answered st.handled (length s.queued) s.metrics.active (answer_file env s st f status)
  unfolding answer_file count_failure failure
  answer_file-Answered s st f ok h = after_serving-Answered _ _ _ _ (serve_file-Answered s st f h)
  answer_file-Answered s st f not_found h = respond_text-Answered s st 404 _ _ h
  answer_file-Answered s st f not_a_file h = respond_text-Answered s st 404 _ _ h
  answer_file-Answered s st f too_large h = respond_text-Answered s st 403 _ _ h
  answer_file-Answered s st f io_error h = respond_text-Answered (count_failure s) st 500 _ _ h
  answer_file-Answered s st f outside_root h = deny-Answered s st _ true h
  answer_file-Answered s st f directory_denied h = deny-Answered s st _ true h
  answer_file-Answered s st f extension_denied h = deny-Answered s st _ true h
  answer_file-Answered s st f invalid_path h = deny-Answered s st _ true h

  answer-Answered :
      (s : FastdlServer) (st : RequestState)
      → st.active_transfer ≡ false
      → Answered st.handled (length s.queued) s.metrics.active (answer env s st)
  unfolding answer
  answer-Answered s st h =
      if-elim (Answered st.handled (length s.queued) s.metrics.active) st.invalid_target
        (deny-Answered s st (codes "invalid path") true h)
        (answer_file-Answered s st (target env s st) (target env s st).status h)

  admit_request-Answered :
      (s : FastdlServer) (st : RequestState)
      → st.active_transfer ≡ false
      → Answered st.handled (length s.queued) s.metrics.active (admit_request env s st)
  unfolding admit_request
  admit_request-Answered s st h =
      let asked = request_exceeded s.limiter st.ip s.settings.requests_per_minute env.asked_at in
      let s1 : FastdlServer = record s { limiter = asked.0 } in
      if-elim (Answered st.handled (length s.queued) s.metrics.active) asked.1
        (deny-Answered s1 st (codes "rate limit") false h) (answer-Answered s1 st h)

  pub check_client-Answered :
      (s : FastdlServer) (st : RequestState)
      → st.active_transfer ≡ false
      → Answered st.handled (length s.queued) s.metrics.active (check_client env s st)
  unfolding check_client
  check_client-Answered s st h =
      let asked = blocked s.limiter st.ip env.blocked_at in
      let s1 : FastdlServer = record s { limiter = asked.0 } in
      if-elim (Answered st.handled (length s.queued) s.metrics.active) asked.1
        (deny-Answered s1 st (codes "blocked") false h)
        (if-elim (Answered st.handled (length s.queued) s.metrics.active)
          (s.settings.steam_only && not (steam_client st.user_agent))
          (deny-Answered s1 st (codes "non-steam client denied") true h)
          (admit_request-Answered s1 st h))

-- For a request that has no active transfer, `dispatch` queues one response more exactly if it
-- returns success, and otherwise none; and it counts one active transfer more exactly if it marks the
-- request as having one, which it does only on success. Whether the request is handled stays.
pub dispatch-Answered :
    (env : Environment) (s : FastdlServer) (st : RequestState)
    → st.active_transfer ≡ false
    → Answered st.handled (length s.queued) s.metrics.active (dispatch env s st)
unfolding dispatch request_started
dispatch-Answered env s st h =
    let s1 : FastdlServer = record s { metrics = request_started s.metrics } in
    if-elim (Answered st.handled (length s.queued) s.metrics.active) (not (is_method st))
      (deny-Answered env s1 st (codes "invalid method") true h) (check_client-Answered env s1 st h)

transfer_finished-active :
    (m : Metrics) (outcome : TransferOutcome)
    → (transfer_finished m outcome).active ≡ (m.active + u64_mod - 1) % u64_mod
unfolding transfer_finished failure
transfer_finished-active m completed = refl
transfer_finished-active m aborted = refl
transfer_finished-active m timed_out = refl
transfer_finished-active m failed = refl

saturating_sum-exact : (a : ℕ) → a < u64_max → saturating_sum a 1 ≡ suc a
unfolding saturating_sum
saturating_sum-exact a h = ground arith

pub completed-active :
    (s : FastdlServer) (st : RequestState) (code : Termination) (a : ℕ)
    → a < u64_max
    → s.metrics.active ≡ (if st.active_transfer then saturating_sum a 1 else a)
    → (request_completed s (some st) code).0.metrics.active ≡ a
unfolding request_completed outcome_of
completed-active s st code a k h = elim (Bool-cases st.active_transfer) [
  | inl e ↦
      let wrapped = transfer_finished-active s.metrics (outcome_of st code) in
      let one = saturating_sum-exact a k in rw e (wrapped ∙ omega (arith, rw e at h, one))
  | inr e ↦ rw e (rw e at h)
]
