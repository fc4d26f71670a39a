-- ===== src/Server/Responses.antt =====
-- src/fastdl_server.cpp: `respondText`, `respondRangeError`, `makeEtag`, `ifRangeMatches`, and the
-- numbers that the headers carry.
use fastdl_mm.Prelude.{
  ℕ, Bool, false, not, ◌||◌, Option, none, some, List, [], ◌∷◌, ◌++◌, if◌then◌else◌, length,
  is_empty, Bytes, codes, bytes_eq, to_string, to_hex,
}
use fastdl_mm.Prelude.Int.{ltb_ℤ, ℤ}
use fastdl_mm.Http.Range.{trim_ascii}
use fastdl_mm.Server.{Outcome, send, OpenedFileInfo, RequestState, Environment, FastdlServer, text}

unfoldable pub make_etag : OpenedFileInfo → Bool → Bytes
make_etag i gzip =
    b'"' ∷ to_hex i.size
    ++ b'-' ∷ to_hex i.modified_identity
    ++ b'-' ∷ to_hex i.file_identity
    ++ (if gzip then codes "-gz" else [])
    ++ b'"' ∷ []

abbrev pub leb_ℤ : ℤ → ℤ → Bool
leb_ℤ a b = not (ltb_ℤ b a)

-- Whether a date in a header is not before the file's.
unfoldable pub is_current : ℤ → Option ℤ → Bool
is_current modified none = false
is_current modified (some date) = leb_ℤ modified date

unfoldable pub if_range_matches : Environment → Bytes → Bytes → ℤ → Bool
if_range_matches env raw etag modified =
    let value = trim_ascii raw in
    is_empty value || bytes_eq value etag || is_current modified (env.parse_http_date value)

abbrev pub plain_text : List (Bytes × Bytes)
plain_text =
    (codes "Content-Type", codes "text/plain; charset=utf-8")
    ∷ (codes "Cache-Control", codes "no-store")
    ∷ []

unfoldable pub respond_text :
    Environment → FastdlServer → RequestState → ℕ → Bytes → Bytes → Outcome
respond_text env s st status body reason =
    let st1 = record st {
      file_response = false;
      status = status;
      response_size = length body;
      reason = reason;
    } in
    let (s1, sent) =
      send env s
        (record { status = status; count = length body; body = text body; headers = plain_text }) in
    (s1, st1, sent)

abbrev pub range_error : Bytes
range_error = codes "416 Range Not Satisfiable" ++ 10 ∷ []

unfoldable pub respond_range_error : Environment → FastdlServer → RequestState → ℕ → Outcome
respond_range_error env s st total =
    let st1 = record st {
      file_response = false;
      status = 416;
      response_size = length range_error;
      reason = codes "invalid or unsatisfiable range";
    } in
    let (s1, sent) = send env s (record {
      status = 416;
      count = length range_error;
      body = text range_error;
      headers =
          plain_text
          ++ (codes "Accept-Ranges", codes "bytes")
            ∷ (codes "Content-Range", codes "bytes */" ++ to_string total)
            ∷ [];
    }) in
    (s1, st1, sent)

abbrev pub forbidden : Bytes
forbidden = codes "403 Forbidden" ++ 10 ∷ []
