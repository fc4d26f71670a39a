-- ===== src/Server/Admission.antt =====
-- src/fastdl_server.cpp: what has been checked before `dispatch` lets a file out.
use fastdl_mm.Prelude.{
  ℕ, ◌≡◌, refl, Bool, true, false, not, ◌&&◌, some, if◌then◌else◌, Bytes, codes,
}
use fastdl_mm.RateLimiter.{blocked, request_exceeded, RateLimiter}
use fastdl_mm.Metrics.{request_started}
use fastdl_mm.Http.Text.{steam_client}
use fastdl_mm.Resolver.{
  ResolveStatus, ResolvedFile, ok, invalid_path, outside_root, not_found, not_a_file,
  directory_denied, extension_denied, too_large, io_error,
}
use fastdl_mm.Resolver.Safety.{resolve-IsServable, IsServable}
use fastdl_mm.Server.{Outcome, RequestState, Environment, FastdlServer}
use fastdl_mm.Server.Responses.{respond_text, forbidden}
use fastdl_mm.Server.Dispatch.{
  deny, answer_file, target, answer, admit_request, check_client, is_method, dispatch,
}

if-true :
    (c : Bool) (f : Outcome → Bool) {x y : Outcome}
    → f x ≡ false
    → f (if c then x else y) ≡ true
    → (c ≡ false) × (f y ≡ true)
if-true true f h k = cc
if-true false f h k = (refl, k)

abbrev is_file : Outcome → Bool
is_file o = o.1.file_response

respond_text-is_file :
    (env : Environment) (s : FastdlServer) (st : RequestState) (status : ℕ) (body reason : Bytes)
    → is_file (respond_text env s st status body reason) ≡ false
unfolding respond_text
respond_text-is_file env s st status body reason = refl

deny-is_file :
    (env : Environment) (s : FastdlServer) (st : RequestState) (reason : Bytes) (strikes : Bool)
    → is_file (deny env s st reason strikes) ≡ false
unfolding deny
deny-is_file env s st reason strikes = respond_text-is_file env _ st 403 forbidden reason

answer_file-ok :
    (env : Environment) (s : FastdlServer) (st : RequestState) (f : ResolvedFile)
    (status : ResolveStatus)
    → is_file (answer_file env s st f status) ≡ true
    → status ≡ ok
unfolding answer_file deny respond_text
answer_file-ok env s st f ok h = refl
answer_file-ok env s st f not_found h = cc
answer_file-ok env s st f not_a_file h = cc
answer_file-ok env s st f too_large h = cc
answer_file-ok env s st f io_error h = cc
answer_file-ok env s st f outside_root h = cc
answer_file-ok env s st f directory_denied h = cc
answer_file-ok env s st f extension_denied h = cc
answer_file-ok env s st f invalid_path h = cc

answer-ok :
    (env : Environment) (s : FastdlServer) (st : RequestState)
    → is_file (answer env s st) ≡ true
    → (st.invalid_target ≡ false) × ((target env s st).status ≡ ok)
unfolding answer
answer-ok env s st h =
    let (short, k) =
      if-true st.invalid_target is_file (deny-is_file env s st (codes "invalid path") true) h in
    (short, answer_file-ok env s st (target env s st) (target env s st).status k)

not-false : (b : Bool) → not b ≡ false → b ≡ true
not-false true h = refl
not-false false h = cc

-- The answers of the rate limiter to the two questions of `dispatch`.
abbrev pub block_answer : Environment → FastdlServer → RequestState → RateLimiter × Bool
block_answer env s st = blocked s.limiter st.ip env.blocked_at

abbrev pub request_answer : Environment → FastdlServer → RequestState → RateLimiter × Bool
request_answer env s st =
    request_exceeded (block_answer env s st).0 st.ip s.settings.requests_per_minute env.asked_at

-- If `dispatch` leaves the request with a file response, then: its method is GET or HEAD, the rate
-- limiter answered that its address is not blocked and that its requests are within the limit, its
-- client is a Steam client if the settings ask for one, its target is not overlong, and the resolver
-- answered `ok` to its target.
pub dispatch-file_response :
    (env : Environment) (s : FastdlServer) (st : RequestState)
    → (dispatch env s st).1.file_response ≡ true
    → (is_method st ≡ true)
      × ((block_answer env s st).1 ≡ false)
      × ((s.settings.steam_only && not (steam_client st.user_agent)) ≡ false)
      × ((request_answer env s st).1 ≡ false)
      × (st.invalid_target ≡ false)
      × ((target env s st).status ≡ ok)
unfolding dispatch check_client admit_request
dispatch-file_response env s st h =
    let s1 : FastdlServer = record s { metrics = request_started s.metrics } in
    let s2 : FastdlServer = record s1 { limiter = (block_answer env s st).0 } in
    let s3 : FastdlServer = record s2 { limiter = (request_answer env s st).0 } in
    let (method, h1) =
      if-true (not (is_method st)) is_file (deny-is_file env s1 st (codes "invalid method") true)
        h in
    let (free, h2) =
      if-true (block_answer env s st).1 is_file (deny-is_file env s2 st (codes "blocked") false)
        h1 in
    let (steam, h3) =
      if-true (s.settings.steam_only && not (steam_client st.user_agent)) is_file
        (deny-is_file env s2 st (codes "non-steam client denied") true) h2 in
    let (admitted, h4) =
      if-true (request_answer env s st).1 is_file
        (deny-is_file env s3 st (codes "rate limit") false) h3 in
    let (target_valid, resolved) = answer-ok env s3 st h4 in
    (not-false (is_method st) method, free, steam, admitted, target_valid, resolved)

-- If `dispatch`, on a system whose paths have a case, leaves the request with a file response, then the
-- resolved target is the file of the request's URL under the root and one that the resolver's
-- configuration serves: a regular file of at most the
-- configured size inside the root, in an allowed place, with an allowed extension.
pub dispatch-IsServable :
    (env : Environment) (s : FastdlServer) (st : RequestState)
    → env.windows ≡ false
    → (dispatch env s st).1.file_response ≡ true
    → IsServable env.files s.resolver (some st.url) s.settings.max_file_bytes (target env s st)
dispatch-IsServable env s st unix h =
    let (_, _, _, _, _, resolved) = dispatch-file_response env s st h in
    rw unix (
      resolve-IsServable env.files s.resolver (some st.url) s.settings.max_file_bytes
        (rw unix at resolved))
