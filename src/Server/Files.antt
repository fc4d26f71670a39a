-- ===== src/Server/Files.antt =====
-- src/fastdl_server.cpp: `serveFile`, in the order of its body.
use fastdl_mm.Prelude.{
  ℕ, ◌+◌, ◌-◌, Bool, true, false, not, ◌&&◌, Option, none, some, List, [], ◌∷◌, ◌++◌, ltb, ◌==◌,
  if◌then◌else◌, is_empty, Bytes, codes, bytes_eq, to_string,
}
use fastdl_mm.Prelude.Int.{ℤ}
use fastdl_mm.Bandwidth.{attach}
use fastdl_mm.Metrics.{transfer_started}
use fastdl_mm.Http.Range.{
  without, parse_range, RangeStatus, ByteRange, absent, valid, invalid, unsatisfiable,
}
use fastdl_mm.Http.Text.{etag_matches, accepts_gzip, content_type}
use fastdl_mm.Resolver.{FilePath, ResolvedFile}
use fastdl_mm.Server.{
  Outcome, header_values, send, header, OpenedFileInfo, RequestState, Response, Environment,
  Settings, FastdlServer, text, file,
}
use fastdl_mm.Server.Responses.{
  make_etag, is_current, if_range_matches, respond_text, respond_range_error, forbidden,
}

-- The representation that is sent: the file or its compressed copy, from an offset.
pub record Representation : Type 0 where
  pub source : FilePath
  pub offset : ℕ
  pub count : ℕ
  pub partial : Bool
  pub compressed : Bool

abbrev pub is_get : RequestState → Bool
is_get st = bytes_eq st.method (codes "GET")

-- The compressed copy, if it opens and still has the size that the cache knows.
unfoldable pub use_cached : Environment → Representation → Option (FilePath × ℕ) → Representation
use_cached env r none = r
use_cached env r (some (path, size)) = elim (env.inspect path) [
  | none ↦ r
  | some info ↦
      if info.size == size
      then record r { source = path; count = info.size; compressed = true }
      else r
]

abbrev pub is_valid : RangeStatus → Bool
is_valid valid = true
is_valid _ = false

-- The range that is left after `If-Range`.
unfoldable pub check_range : Environment → ByteRange → Bytes → ℤ → ByteRange
check_range env range etag modified =
    if is_valid range.status
      && not (if_range_matches env (header env (codes "If-Range") 512) etag modified)
    then without absent
    else range

unfoldable pub choose :
    Environment → Settings → ResolvedFile → OpenedFileInfo → ByteRange → Representation
choose env c f opened range =
    let partial = is_valid range.status in
    let whole : Representation = record {
      source = f.path;
      offset = if partial then range.start else 0;
      count = if partial then range.count else opened.size;
      partial = partial;
      compressed = false;
    } in
    if not partial
      && c.gzip
      && c.gzip_cache
      && accepts_gzip env.quality (header env (codes "Accept-Encoding") 1024)
    then use_cached env whole (env.cached f.path opened)
    else whole

unfoldable pub is_not_modified : Environment → OpenedFileInfo → Bytes → Bool
is_not_modified env opened etag =
    let tags = header env (codes "If-None-Match") 2048 in
    if is_empty tags
    then is_current opened.modified_seconds
        (env.parse_http_date (header env (codes "If-Modified-Since") 128))
    else etag_matches tags etag

abbrev pub when : Bool → List (Bytes × Bytes) → List (Bytes × Bytes)
when b headers = if b then headers else []

abbrev pub validators : Bytes → Bytes → List (Bytes × Bytes)
validators etag date = (codes "ETag", etag) ∷ (codes "Last-Modified", date) ∷ []

abbrev pub cache_control : Bytes × Bytes
cache_control = (codes "Cache-Control", codes "public, max-age=86400")

abbrev pub accept_ranges : Bytes × Bytes
accept_ranges = (codes "Accept-Ranges", codes "bytes")

abbrev pub encodings : Settings → Bool → List (Bytes × Bytes)
encodings c compressed =
    when c.gzip ((codes "Vary", codes "Accept-Encoding") ∷ [])
    ++ when compressed ((codes "Content-Encoding", codes "gzip") ∷ [])

unfoldable pub respond_not_modified :
    Environment → FastdlServer → RequestState → Bytes → Bytes → Bool → Outcome
respond_not_modified env s st etag date compressed =
    let headers =
      accept_ranges ∷ cache_control ∷ validators etag date ++ encodings s.settings compressed in
    let st1 = record st {
      file_response = true;
      status = 304;
      response_size = 0;
      reason = codes "not modified";
    } in
    let (s1, sent) =
      send env s (record { status = 304; count = 0; body = text []; headers = headers }) in
    if env.creates 0 && header_values env headers then (s1, st1, sent) else (s, st, false)

unfoldable pub content_range : Representation → ℕ → Bytes
content_range r total =
    codes "bytes "
    ++ to_string r.offset
    ++ b'-' ∷ to_string (r.offset + r.count - 1)
    ++ b'/' ∷ to_string total

abbrev pub status_of : Representation → ℕ
status_of r = if r.partial then 206 else 200

unfoldable pub file_response_of :
    Settings → ResolvedFile → OpenedFileInfo → Representation → Bytes → Bytes → Response
file_response_of c f opened r etag date = record {
  status = status_of r;
  count = r.count;
  body = file r.source r.offset;
  headers =
      (codes "Content-Type", content_type f.extension)
        ∷ cache_control
        ∷ accept_ranges
        ∷ validators etag date
      ++ encodings c r.compressed
      ++ when r.partial ((codes "Content-Range", content_range r opened.size) ∷ []);
}

-- The lease on the bandwidth, which only a GET takes.
unfoldable pub take_lease : Environment → FastdlServer → RequestState → FastdlServer
take_lease env s st =
    if is_get st
    then record s { bandwidth = (attach s.bandwidth env.is_alive st.ip env.attached_at).0 }
    else s

-- After `MHD_queue_response` has taken the file's response.
unfoldable pub started : FastdlServer → RequestState → Representation → Bool → Outcome
started s st r false = (s, st, false)
started s st r true =
    let st1 = record st {
      file_response = true;
      status = status_of r;
      response_size = r.count;
      reason = [];
    } in
    if is_get st
    then (
      record s { metrics = transfer_started s.metrics },
      record st1 { active_transfer = true },
      true,
    )
    else (s, st1, true)

unfoldable pub respond_file :
    Environment
    → FastdlServer
    → RequestState
    → ResolvedFile
    → OpenedFileInfo
    → Representation
    → Outcome
respond_file env s st f opened r =
    let etag = make_etag opened r.compressed in
    let date = env.http_date opened.modified_seconds in
    let (s1, sent) =
      send env (take_lease env s st) (file_response_of s.settings f opened r etag date) in
    if is_not_modified env opened etag
    then respond_not_modified env s st etag date r.compressed
    else started s1 st r sent

unfoldable pub is_refused : RangeStatus → Bool
is_refused invalid = true
is_refused unsatisfiable = true
is_refused _ = false

unfoldable pub serve_opened :
    Environment → FastdlServer → RequestState → ResolvedFile → OpenedFileInfo → Outcome
serve_opened env s st f opened =
    let range = parse_range (header env (codes "Range") 256) opened.size in
    let kept = check_range env range (make_etag opened false) opened.modified_seconds in
    if ltb s.settings.max_file_bytes opened.size
    then respond_text env s st 403 forbidden (codes "file too large")
    else if is_refused range.status
    then respond_range_error env s st opened.size
    else respond_file env s st f opened (choose env s.settings f opened kept)

unfoldable pub serve_file : Environment → FastdlServer → RequestState → ResolvedFile → Outcome
serve_file env s st f = elim (env.inspect f.path) [
  | none ↦ (s, st, false)
  | some opened ↦ serve_opened env s st f opened
]
