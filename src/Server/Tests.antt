-- ===== src/Server/Tests.antt =====
-- The theorems on the request handlers at a daemon that takes every response and a disk with one map.
use fastdl_mm.Prelude.{
  ℕ, suc, ◌-◌, ◌≤◌, ◌≡◌, refl, true, false, not, ◌&&◌, Option, none, some, List, [], ◌∷◌, arith,
  length, sub_size, add_size, codes, bytes_eq, starts_with, mem_bytes, lower_ascii, trim_where,
  split_from, split_on, c_string,
}
use fastdl_mm.Prelude.Int.{pos}
use fastdl_mm.RateLimiter.{
  init, trim, sweep, cleanup, create, find_or_create, is_blocked, blocked, admit, request_exceeded,
}
use fastdl_mm.RateLimiter.Clients.{size, lookup, put}
use fastdl_mm.Bandwidth.{initial, attach}
use fastdl_mm.Metrics.{reset}
use fastdl_mm.Http.Range.{trim_ascii, parse_spec, parse_range}
use fastdl_mm.Http.Text.{bounded_copy, steam_client}
use fastdl_mm.Resolver.{
  allowed_directory, allowed_extension, collect, some_components, validate_text, validate, last_dot,
  extension_of, filename, component_equal, contained_by, components_under, is_denied, resolve_size,
  resolve_candidate, resolve, FileSystem, ResolvedFile, found, ok,
}
use fastdl_mm.Resolver.Safety.{IsServable}
use fastdl_mm.Server.{send, header, OpenedFileInfo, RequestState, Environment, FastdlServer}
use fastdl_mm.Server.Responses.{is_current}
use fastdl_mm.Server.Files.{
  check_range, choose, is_not_modified, file_response_of, take_lease, started, respond_file,
  is_refused, serve_opened, serve_file,
}
use fastdl_mm.Server.Dispatch.{
  after_serving, answer_file, target, answer, admit_request, check_client, is_method, dispatch,
  request_completed, client_abort,
}
use fastdl_mm.Server.Accounting.{Answered, dispatch-Answered}
use fastdl_mm.Server.Admission.{
  block_answer, request_answer, dispatch-file_response, dispatch-IsServable,
}
use fastdl_mm.Server.Reader.{file_reader, size_of, file_reader-le, TransferContext}
use fastdl_mm.Server.Requests.{handle_all, handle_all-queued, request_completed-handle_all}

abbrev disk : FileSystem
disk = record {
  canonical = λ p. found p;
  no_entry = λ p. false;
  is_regular_file = λ p. true;
  is_directory = λ p. false;
  file_size = λ p. some 9;
}

abbrev map_info : OpenedFileInfo
map_info = record { size = 9; modified_seconds = pos 5; modified_identity = 5; file_identity = 3 }

abbrev daemon : Environment
daemon = record {
  creates = λ n. true;
  adds = λ name value. true;
  queues = λ status. true;
  value_of = λ name. none;
  client_address = some (b'a' ∷ []);
  inspect = λ p. some map_info;
  http_date = λ s. [];
  parse_http_date = λ s. none;
  quality = λ s. true;
  cached = λ p i. none;
  is_alive = λ o. false;
  windows = false;
  files = disk;
  blocked_at = 10;
  asked_at = 11;
  denied_at = 12;
  attached_at = 13;
}

abbrev server : FastdlServer
server = record {
  settings = record {
    steam_only = true;
    gzip = false;
    gzip_cache = false;
    requests_per_minute = 60;
    denials_per_minute = 5;
    block_seconds = 30;
    max_file_bytes = 100;
  };
  resolver = record {
    root = codes "/" ∷ codes "srv" ∷ [];
    dirs = codes "maps" ∷ [];
    types = codes ".bsp" ∷ [];
    root_types = [];
    all_dirs = false;
    all_types = false;
    all_root_types = false;
  };
  limiter = init;
  bandwidth = initial;
  metrics = reset 0;
  queued = [];
}

abbrev wanted : RequestState
wanted = record {
  handled = true;
  invalid_target = false;
  file_response = false;
  active_transfer = false;
  status = 0;
  response_size = 0;
  bytes_supplied = 0;
  ip = b'a' ∷ [];
  method = codes "GET";
  url = codes "/maps/a.bsp";
  user_agent = codes "Steam/1";
  reason = [];
}

wanted-file_response : (dispatch daemon server wanted).1.file_response ≡ true
unfolding dispatch check_client admit_request answer answer_file after_serving serve_file
    serve_opened respond_file started send blocked request_exceeded cleanup find_or_create create
    admit is_blocked sweep trim lookup put add_size sub_size steam_client starts_with bytes_eq
    resolve validate validate_text resolve_candidate resolve_size is_denied contained_by
    components_under component_equal allowed_directory allowed_extension extension_of filename
    last_dot collect some_components split_on split_from c_string lower_ascii mem_bytes header
    bounded_copy is_not_modified is_current choose check_range parse_range parse_spec is_refused
    take_lease attach trim_ascii trim_where file_response_of
wanted-file_response = refl

dispatch-Answered_example :
    Answered wanted.handled
      (length server.queued)
      server.metrics.active
      (dispatch daemon server wanted)
dispatch-Answered_example = dispatch-Answered daemon server wanted refl

abbrev calls : List (Environment × ℕ)
calls = (daemon, 0) ∷ (daemon, 7) ∷ (daemon, 0) ∷ (daemon, 0) ∷ []

handle_all-queued_example :
    length (handle_all server none (codes "/maps/a.bsp") (codes "GET") calls).0.queued
    ≤ suc (length server.queued)
handle_all-queued_example = handle_all-queued server (codes "/maps/a.bsp") (codes "GET") calls

request_completed-handle_all_example :
    (request_completed
      (handle_all server none (codes "/maps/a.bsp") (codes "GET") calls).0
      (handle_all server none (codes "/maps/a.bsp") (codes "GET") calls).1
      client_abort).0.metrics.active
    ≡ server.metrics.active
unfolding reset
request_completed-handle_all_example =
    request_completed-handle_all server (codes "/maps/a.bsp") (codes "GET") calls client_abort
      (omega arith)

dispatch-file_response_example :
    (is_method wanted ≡ true)
    × ((block_answer daemon server wanted).1 ≡ false)
    × ((server.settings.steam_only && not (steam_client wanted.user_agent)) ≡ false)
    × ((request_answer daemon server wanted).1 ≡ false)
    × (wanted.invalid_target ≡ false)
    × ((target daemon server wanted).status ≡ ok)
dispatch-file_response_example = dispatch-file_response daemon server wanted wanted-file_response

dispatch-IsServable_example :
    IsServable daemon.files server.resolver
      (some wanted.url)
      server.settings.max_file_bytes
      (target daemon server wanted)
dispatch-IsServable_example = dispatch-IsServable daemon server wanted refl wanted-file_response

abbrev map_file : ResolvedFile
map_file = record { status = ok; path = codes "m" ∷ []; size = 9; extension = codes ".bsp" }

abbrev transfer : TransferContext
transfer = record { source_offset = 2; count = 5; lease = none }

-- A disk that reads as many bytes as it is asked for.
abbrev read_all : ℕ → ℕ → Option ℕ
read_all offset size = some size

read_all-le : (offset size n : ℕ) → read_all offset size ≡ some n → n ≤ size
read_all-le offset size n h = let same : size ≡ n = cc in omega (arith, same)

file_reader-le_example :
    let given = size_of (file_reader read_all server wanted transfer 1 64 7 false false 9).2 in
    (given ≤ 64) × (given ≤ 5 - 1)
file_reader-le_example =
    file_reader-le read_all server wanted transfer 1 64 7 false false 9 read_all-le
