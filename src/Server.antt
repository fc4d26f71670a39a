-- ===== src/Server.antt =====
-- src/fastdl_server.h and src/fastdl_server.cpp: the handlers of one HTTP request. The HTTP daemon, the
-- files, the dates and the cache of compressed files are parameters, the fields of `Environment`.
pub mod Tests
pub mod Responses
pub mod Files
pub mod Dispatch
pub mod Accounting
pub mod Admission
pub mod Representations
pub mod Reader
pub mod Requests
use fastdl_mm.Prelude.{
  ℕ, Bool, true, false, not, Option, none, some, List, [], ◌∷◌, if◌then◌else◌, length, drop, all,
  Bytes, codes,
}
use fastdl_mm.Prelude.Int.{ℤ}
use fastdl_mm.RateLimiter.{RateLimiter}
use fastdl_mm.Bandwidth.{Limiter}
use fastdl_mm.Metrics.{Metrics}
use fastdl_mm.Http.Range.{has}
use fastdl_mm.Http.Text.{bounded_copy}
use fastdl_mm.Resolver.{FilePath, FileSystem, PathResolver}

-- What `inspectReadFile` tells of an open file.
pub record OpenedFileInfo : Type 0 where
  pub size : ℕ
  pub modified_seconds : ℤ
  pub modified_identity : ℕ
  pub file_identity : ℕ

pub record RequestState : Type 0 where
  pub handled : Bool
  pub invalid_target : Bool
  pub file_response : Bool
  pub active_transfer : Bool
  pub status : ℕ
  pub response_size : ℕ
  pub bytes_supplied : ℕ
  pub ip : Bytes
  pub method : Bytes
  pub url : Bytes
  pub user_agent : Bytes
  pub reason : Bytes

-- The body of a response: a text in memory, or a file that is read from an offset.
pub data Body : Type 0 where
  text : Bytes → Body
  file : FilePath → ℕ → Body

pub record Response : Type 0 where
  pub status : ℕ
  pub count : ℕ
  pub body : Body
  pub headers : List (Bytes × Bytes)

-- What the handlers call that is not modelled here: `MHD_create_response_from_buffer` and
-- `_from_callback` by the length, `MHD_add_response_header`, `MHD_queue_response`,
-- `MHD_lookup_connection_value`, the client address, opening and inspecting a file, `httpDate`,
-- `parseHttpDate`, `strtod`, `CompressionCache::lookup`, the validity of weak pointers, and the times at
-- which the steady clock is read.
pub record Environment : Type 0 where
  pub creates : ℕ → Bool
  pub adds : Bytes → Bytes → Bool
  pub queues : ℕ → Bool
  pub value_of : Bytes → Option Bytes
  pub client_address : Option Bytes
  pub inspect : FilePath → Option OpenedFileInfo
  pub http_date : ℤ → Bytes
  pub parse_http_date : Bytes → Option ℤ
  pub quality : Bytes → Bool
  pub cached : FilePath → OpenedFileInfo → Option (FilePath × ℕ)
  pub is_alive : ℕ → Bool
  pub windows : Bool
  pub files : FileSystem
  pub blocked_at : ℕ
  pub asked_at : ℕ
  pub denied_at : ℕ
  pub attached_at : ℕ

-- The fields of `FastdlConfig` that the handlers read.
pub record Settings : Type 0 where
  pub steam_only : Bool
  pub gzip : Bool
  pub gzip_cache : Bool
  pub requests_per_minute : ℕ
  pub denials_per_minute : ℕ
  pub block_seconds : ℕ
  pub max_file_bytes : ℕ

-- The server, with the responses that the daemon has taken, the last one first.
pub record FastdlServer : Type 0 where
  pub settings : Settings
  pub resolver : PathResolver
  pub limiter : RateLimiter
  pub bandwidth : Limiter
  pub metrics : Metrics
  pub queued : List Response

-- What a handler leaves: the server, the request, and whether it returns `MHD_YES`.
abbrev pub Outcome : Type 0
Outcome = FastdlServer × RequestState × Bool

abbrev pub header_values : Environment → List (Bytes × Bytes) → Bool
header_values env headers = all (λ h. env.adds h.0 h.1) headers

-- Create a response, add its headers, queue it and drop the reference to it.
unfoldable pub send : Environment → FastdlServer → Response → FastdlServer × Bool
send env s r =
    if not (env.creates r.count)
    then (s, false)
    else if not (header_values env r.headers)
    then (s, false)
    else if env.queues r.status
    then (record s { queued = r ∷ s.queued }, true)
    else (s, false)

-- `FastdlServer::header`: the empty text for an overlong value.
unfoldable pub header : Environment → Bytes → ℕ → Bytes
unfolding bounded_copy
header env name limit = elim (bounded_copy (env.value_of name) limit) [ none ↦ [] | some s ↦ s ]

unfoldable pub client_ip : Environment → Bytes
client_ip env = elim env.client_address [ none ↦ codes "unknown" | some s ↦ s ]
