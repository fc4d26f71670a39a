-- ===== src/Http/Text.antt =====
-- src/fastdl_server.cpp: `sanitize`, `boundedCopy`, `etagMatches`, `acceptsGzip`, `steamClient`,
-- `contentType`.
use fastdl_mm.Prelude.{
  ℕ, ◌+◌, ◌-◌, ◌/◌, ◌%◌, Bool, true, false, ◌&&◌, ◌||◌, Option, none, some, List, [], ◌∷◌, ltb, leb,
  ◌==◌, if◌then◌else◌, length, drop, any, all, Bytes, codes, bytes_eq, starts_with, contains,
  lower_ascii, split_on, c_string, hex_digit,
}
use fastdl_mm.Http.Range.{trim_ascii}

abbrev pub is_control : ℕ → Bool
is_control c = ltb c 0x20 || c == 0x7f

-- The loop of `sanitize`, with what is written so far counted by its size. The source's test
-- `limit - out.size() < 4` is on unsigned words, and is behind `out.size() > limit`.
unfoldable pub sanitize_from : ℕ → Bytes → ℕ → Bytes
sanitize_from size [] limit = []
sanitize_from size (c ∷ s) limit =
    let escaped =
      b'\\' ∷ b'x' ∷ hex_digit (c / 16) ∷ hex_digit (c % 16) ∷ sanitize_from (size + 4) s limit in
    let plain = c ∷ sanitize_from (size + 1) s limit in
    if is_control c
    then (if ltb limit size || ltb (limit - size) 4 then [] else escaped)
    else (if leb limit size then [] else plain)

unfoldable pub sanitize : Bytes → ℕ → Bytes
sanitize s limit = sanitize_from 0 s limit

-- `boundedCopy`: a null pointer is the empty text; `none` is the result `false`.
unfoldable pub bounded_copy : Option Bytes → ℕ → Option Bytes
unfolding c_string
bounded_copy none limit = some []
bounded_copy (some s) limit = if ltb limit (length (c_string s)) then none else some (c_string s)

-- An entity tag of the list without its weakness mark.
unfoldable pub strong_tag : Bytes → Bytes
unfolding trim_ascii
strong_tag s =
    if starts_with (codes "W/") s || starts_with (codes "w/") s then trim_ascii (drop 2 s) else s

unfoldable pub tag_matches : Bytes → Bytes → Bool
unfolding strong_tag
tag_matches etag item =
    let candidate = trim_ascii item in
    bytes_eq candidate (codes "*") || bytes_eq (strong_tag candidate) etag

unfoldable pub etag_matches : Bytes → Bytes → Bool
unfolding tag_matches split_on
etag_matches raw etag = any (tag_matches etag) (split_on b',' raw)

-- `strtod` of the C library on the text behind `q=`: what the source asks of it is whether the whole
-- text is a finite number above 0 and at most 1.
unfoldable pub parameter_allows : (Bytes → Bool) → Bytes → Bool
unfolding trim_ascii lower_ascii
parameter_allows quality p =
    let parameter = lower_ascii (trim_ascii p) in
    if starts_with (codes "q=") parameter then quality (drop 2 parameter) else true

-- One item of `Accept-Encoding`: its coding, and whether its parameters allow it.
unfoldable pub read_coding : (Bytes → Bool) → Bytes → Bytes × Bool
unfolding parameter_allows
read_coding quality item = elim (split_on b';' (trim_ascii item)) [
  | [] ↦ ([], true)
  | coding ∷ parameters ↦
      (lower_ascii (trim_ascii coding), all (parameter_allows quality) parameters)
]

-- The loop of `acceptsGzip`: the first `gzip` decides, else the last `*`.
unfoldable pub accepts_from : (Bytes → Bool) → Bool → List Bytes → Bool
accepts_from quality wildcard [] = wildcard
accepts_from quality wildcard (item ∷ items) =
    let (coding, allowed) = read_coding quality item in
    let rest =
      accepts_from quality (if bytes_eq coding (codes "*") then allowed else wildcard) items in
    if bytes_eq coding (codes "gzip") then allowed else rest

unfoldable pub accepts_gzip : (Bytes → Bool) → Bytes → Bool
unfolding accepts_from read_coding split_on
accepts_gzip quality raw = accepts_from quality false (split_on b',' raw)

unfoldable pub steam_client : Bytes → Bool
steam_client agent =
    starts_with (codes "Valve/Steam HTTP Client") agent
    || starts_with (codes "Steam/") agent
    || contains (codes "Steam") agent
      && contains (codes "HTTP") agent
      && contains (codes "Client") agent

unfoldable pub content_type : Bytes → Bytes
content_type e =
    if bytes_eq e (codes ".html") || bytes_eq e (codes ".htm")
    then codes "text/html"
    else if bytes_eq e (codes ".txt") || bytes_eq e (codes ".res")
    then codes "text/plain"
    else if bytes_eq e (codes ".wav")
    then codes "audio/wav"
    else if bytes_eq e (codes ".mp3")
    then codes "audio/mpeg"
    else if bytes_eq e (codes ".bmp")
    then codes "image/bmp"
    else if bytes_eq e (codes ".tga")
    then codes "image/x-tga"
    else if bytes_eq e (codes ".bz2")
    then codes "application/x-bzip2"
    else if bytes_eq e (codes ".gz")
    then codes "application/gzip"
    else codes "application/octet-stream"
