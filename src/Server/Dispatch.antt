-- ===== src/Server/Dispatch.antt =====
-- src/fastdl_server.cpp: `deny`, `dispatch`, `handleRequest` and `requestCompleted`.
use fastdl_mm.Prelude.{
  ℕ, Bool, true, false, not, ◌&&◌, ◌||◌, Option, none, some, [], ◌∷◌, ◌++◌, ◌==◌, if◌then◌else◌,
  is_none, Bytes, codes, bytes_eq,
}
use fastdl_mm.RateLimiter.{blocked, request_exceeded, record_denial}
use fastdl_mm.Metrics.{
  request_started, failure, transfer_finished, TransferOutcome, completed, aborted, timed_out,
  failed,
}
use fastdl_mm.Http.Text.{bounded_copy, steam_client}
use fastdl_mm.Resolver.{
  refused, resolve, ResolveStatus, ResolvedFile, ok, invalid_path, outside_root, not_found,
  not_a_file, directory_denied, extension_denied, too_large, io_error,
}
use fastdl_mm.Server.{Outcome, header, client_ip, RequestState, Environment, FastdlServer}
use fastdl_mm.Server.Responses.{respond_text, forbidden}
use fastdl_mm.Server.Files.{serve_file}

abbrev pub not_found_text : Bytes
not_found_text = codes "404 Not Found" ++ 10 ∷ []

abbrev pub internal_error : Bytes
internal_error = codes "500 Internal Server Error" ++ 10 ∷ []

unfoldable pub count_failure : FastdlServer → FastdlServer
count_failure s = record s { metrics = failure s.metrics }

unfoldable pub note_denial : Environment → FastdlServer → Bytes → FastdlServer
note_denial env s ip = record s {
  limiter =
      record_denial s.limiter ip s.settings.denials_per_minute s.settings.block_seconds
        env.denied_at;
}

unfoldable pub deny : Environment → FastdlServer → RequestState → Bytes → Bool → Outcome
deny env s st reason strikes =
    respond_text env (if strikes then note_denial env s st.ip else s) st 403 forbidden reason

-- The end of `dispatch`, on what `serveFile` returned.
unfoldable pub after_serving : Environment → Outcome → Outcome
after_serving env (s, st, true) = (s, st, true)
after_serving env (s, st, false) =
    respond_text env (count_failure s) st 500 internal_error (codes "open or response failure")

-- The switch of `dispatch` on the resolver's status.
unfoldable pub answer_file :
    Environment → FastdlServer → RequestState → ResolvedFile → ResolveStatus → Outcome
answer_file env s st f ok = after_serving env (serve_file env s st f)
answer_file env s st f not_found = respond_text env s st 404 not_found_text (codes "not found")
answer_file env s st f not_a_file = respond_text env s st 404 not_found_text (codes "not found")
answer_file env s st f too_large = respond_text env s st 403 forbidden (codes "file too large")
answer_file env s st f io_error =
    respond_text env (count_failure s) st 500 internal_error (codes "file error")
answer_file env s st f outside_root = deny env s st (codes "outside root") true
answer_file env s st f directory_denied = deny env s st (codes "directory not served") true
answer_file env s st f extension_denied = deny env s st (codes "invalid extension") true
answer_file env s st f invalid_path = deny env s st (codes "invalid path") true

-- The file that a request's target names.
abbrev pub target : Environment → FastdlServer → RequestState → ResolvedFile
target env s st = resolve env.windows env.files s.resolver (some st.url) s.settings.max_file_bytes

unfoldable pub answer : Environment → FastdlServer → RequestState → Outcome
answer env s st =
    let f = target env s st in
    if st.invalid_target
    then deny env s st (codes "invalid path") true
    else answer_file env s st f f.status

unfoldable pub admit_request : Environment → FastdlServer → RequestState → Outcome
admit_request env s st =
    let (limiter1, exceeded) =
      request_exceeded s.limiter st.ip s.settings.requests_per_minute env.asked_at in
    let s1 = record s { limiter = limiter1 } in
    if exceeded then deny env s1 st (codes "rate limit") false else answer env s1 st

unfoldable pub check_client : Environment → FastdlServer → RequestState → Outcome
check_client env s st =
    let (limiter1, refused) = blocked s.limiter st.ip env.blocked_at in
    let s1 = record s { limiter = limiter1 } in
    if refused
    then deny env s1 st (codes "blocked") false
    else if s.settings.steam_only && not (steam_client st.user_agent)
    then deny env s1 st (codes "non-steam client denied") true
    else admit_request env s1 st

abbrev pub is_method : RequestState → Bool
is_method st = bytes_eq st.method (codes "GET") || bytes_eq st.method (codes "HEAD")

unfoldable pub dispatch : Environment → FastdlServer → RequestState → Outcome
dispatch env s st =
    let s1 = record s { metrics = request_started s.metrics } in
    if not (is_method st)
    then deny env s1 st (codes "invalid method") true
    else check_client env s1 st

abbrev pub bounded_or : Option Bytes → Bytes
bounded_or none = codes "<overlong>"
bounded_or (some s) = s

-- The state that the first call of `handleRequest` for a request makes.
unfoldable pub fresh : Environment → Bytes → Bytes → RequestState
fresh env url method = record {
  handled = false;
  invalid_target = is_none (bounded_copy (some url) 2048);
  file_response = false;
  active_transfer = false;
  status = 0;
  response_size = 0;
  bytes_supplied = 0;
  ip = client_ip env;
  method = bounded_or (bounded_copy (some method) 16);
  url = bounded_or (bounded_copy (some url) 2048);
  user_agent = header env (codes "User-Agent") 200;
  reason = [];
}

-- What a call leaves: the server, the request's context, the size that is left to upload, the result.
abbrev pub Handled : Type 0
Handled = FastdlServer × Option RequestState × ℕ × Bool

abbrev pub keep : Outcome → Handled
keep (s, st, sent) = (s, some st, 0, sent)

unfoldable pub handle_request :
    Environment → FastdlServer → Option RequestState → Bytes → Bytes → ℕ → Handled
handle_request env s none url method upload = (s, some (fresh env url method), upload, true)
handle_request env s (some st) url method upload =
    let answered = keep (dispatch env s (record st { handled = true })) in
    if not (upload == 0)
    then (s, some st, 0, true)
    else if st.handled
    then (s, some st, 0, true)
    else answered

-- `MHD_RequestTerminationCode`.
pub data Termination : Type 0 where
  completed_ok with_error timeout_reached daemon_shutdown read_error client_abort : Termination

unfoldable pub outcome_of : RequestState → Termination → TransferOutcome
outcome_of st completed_ok = if st.bytes_supplied == st.response_size then completed else failed
outcome_of st client_abort = aborted
outcome_of st timeout_reached = timed_out
outcome_of st _ = failed

-- The line that `logCompleted` writes is not modelled; the context is released.
unfoldable pub request_completed :
    FastdlServer → Option RequestState → Termination → FastdlServer × Option RequestState
request_completed s none code = (s, none)
request_completed s (some st) code =
    let finished = record s { metrics = transfer_finished s.metrics (outcome_of st code) } in
    (if st.active_transfer then finished else s, none)
