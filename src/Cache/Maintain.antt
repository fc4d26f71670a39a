-- ===== src/Cache/Maintain.antt =====
-- src/compression_cache.cpp: `markerCurrent`, `maintainCache` and `recordArtifact`.
use fastdl_mm.Prelude.{
  ℕ, ◌+◌, ◌-◌, ◌/◌, ◌%◌, Bool, true, false, not, ◌&&◌, ◌||◌, Option, none, some, List, [], ◌∷◌, ltb,
  leb, ◌==◌, if◌then◌else◌, length, take, drop, all, u64_mod, u64_max, Bytes, codes, bytes_eq,
  starts_with, cut_at,
}
use fastdl_mm.Resolver.{
  FilePath, resolve, FileSystem, ResolveStatus, ResolvedFile, PathResolver, ok,
}
use fastdl_mm.Server.{OpenedFileInfo}
use fastdl_mm.Cache.{
  Directory, maximum_cache_entries, maximum_marker_bytes, find, remove, regular_artifact, file_size,
  read_file, source_identity, skip_identity, gz_name, meta_name, CompressionSource, Artifact,
  CompressionCache, Access,
}

-- What the cache asks besides its directory: the served files, by the resolver of the last `start`;
-- `relative` is `std::filesystem::relative` of a source to the content root, none where that is an error or
-- empty; `inspect` is the opening and the inspection of a file.
pub record Content : Type 0 where
  pub windows : Bool
  pub fs : FileSystem
  pub resolver : Option PathResolver
  pub relative : Bytes → Option Bytes
  pub inspect : FilePath → Option OpenedFileInfo

-- The part of a marker before its first newline, if that is there and not empty.
abbrev pub source_of : Bytes × Option Bytes → Option Bytes
source_of (s, none) = none
source_of ([], some rest) = none
source_of (c ∷ s, some rest) = some (c ∷ s)

abbrev pub is_ok : ResolveStatus → Bool
is_ok ok = true
is_ok _ = false

-- The last two tests of `markerCurrent`, on a file that was resolved.
unfoldable pub is_current_for : CompressionCache → Content → ResolvedFile → Bytes → Bool → Bool
is_current_for c env f stored skip =
    if not (is_ok f.status) then false else elim (env.inspect f.path) [
      | none ↦ false
      | some info ↦
          let source : CompressionSource = record {
            path = f.path;
            extension = f.extension;
            info = info;
          } in
          bytes_eq stored (if skip then skip_identity c source else source_identity source)
    ]

-- The test of a marker's text by the source that it names.
unfoldable pub is_current_text : CompressionCache → Content → Bytes → Bool → Bool
is_current_text c env stored skip = elim (source_of (cut_at 10 stored)) [
  | none ↦ false
  | some source ↦ elim env.resolver [
    | none ↦ false
    | some r ↦ elim (env.relative source) [
      | none ↦ false
      | some relative ↦
          if bytes_eq relative (codes "..") || starts_with (codes "../") relative
          then false
          else is_current_for c env
              (resolve env.windows env.fs r (some (b'/' ∷ relative)) c.max_file_bytes) stored skip
    ]
  ]
]

unfoldable pub is_marker_size : Option ℕ → Bool
is_marker_size none = false
is_marker_size (some size) = not (size == 0) && leb size maximum_marker_bytes

unfoldable pub marker_current :
    Access → CompressionCache → Content → Directory → Bytes → Bool → Bool
marker_current access c env d name skip =
    if not (regular_artifact d name) || not (is_marker_size (file_size access d name))
    then false
    else elim (read_file access d name) [
      | none ↦ false
      | some stored ↦ is_current_text c env stored skip
    ]

abbrev pub is_xdigit : ℕ → Bool
is_xdigit b =
    (leb b'0' b && leb b b'9') || ((leb b'a' b && leb b b'f') || (leb b'A' b && leb b b'F'))

unfoldable pub cache_name : Bytes → Bytes → Bool
cache_name suffix name =
    length name == 32 + length suffix
    && (bytes_eq (drop 32 name) suffix && all is_xdigit (take 32 name))

-- `replace_extension` on a name that `cache_name` accepted with an extension.
abbrev pub stem_32 : Bytes → Bytes
stem_32 name = take 32 name

pub record Entry : Type 0 where
  pub path : Bytes
  pub size : ℕ
  pub modified : ℕ

-- The heap of `maintainCache` as a list, oldest first; of entries of one time, the one that came first.
unfoldable pub push : Entry → List Entry → List Entry
push e [] = e ∷ []
push e (f ∷ files) =
    let rest = push e files in if leb f.modified e.modified then f ∷ rest else e ∷ f ∷ files

abbrev pub add_bytes : ℕ → ℕ → ℕ
add_bytes left right = if ltb (u64_max - left) right then u64_max else left + right

abbrev pub sub_bytes : ℕ → ℕ → ℕ
sub_bytes total size = if leb total size then 0 else total - size

-- The locals of `maintainCache`, and the directory.
pub record Sweep : Type 0 where
  pub files : List Entry
  pub total : ℕ
  pub directory : Directory

unfoldable pub remove_representation : Access → Bytes → Directory → Directory
remove_representation access gz d = remove access (meta_name (stem_32 gz)) (remove access gz d)

-- A copy that may stay though the heap is full: it takes the oldest one's place, or none.
unfoldable pub replace_oldest : Access → Sweep → Entry → List Entry → Sweep
replace_oldest access s e [] = record s {
  directory = remove_representation access e.path s.directory;
}
replace_oldest access s e (oldest ∷ rest) =
    if ltb oldest.modified e.modified
    then record {
      files = push e rest;
      total = add_bytes (sub_bytes s.total oldest.size) e.size;
      directory = remove_representation access oldest.path s.directory;
    }
    else record s { directory = remove_representation access e.path s.directory }

-- A copy that may stay.
unfoldable pub keep : Access → Sweep → Entry → Sweep
keep access s e =
    if ltb (length s.files) maximum_cache_entries
    then record s { files = push e s.files; total = add_bytes s.total e.size }
    else replace_oldest access s e s.files

abbrev pub entry_of : Bytes → Option ℕ → Option Artifact → Option Entry
entry_of name (some size) (some a) =
    if ltb size 18 then none else some (record { path = name; size = size; modified = a.modified })
entry_of name _ _ = none

abbrev pub keep_if : Access → Sweep → Bytes → Option Entry → Sweep
keep_if access s name none = record s { directory = remove_representation access name s.directory }
keep_if access s name (some e) = keep access s e

-- A `.gz` file, once its name was accepted.
unfoldable pub sweep_copy : Access → CompressionCache → Content → Sweep → Bytes → Sweep
sweep_copy access c env s name =
    let d = s.directory in
    if not (regular_artifact d name)
      || not (marker_current access c env d (meta_name (stem_32 name)) false)
    then keep_if access s name none
    else keep_if access s name
        (entry_of name (file_size access d name) (if access.dates name then find name d else none))

-- One turn of the loop over the directory's names.
unfoldable pub sweep_entry : Access → CompressionCache → Content → Sweep → Bytes → Sweep
sweep_entry access c env s name =
    let d = s.directory in
    let gone = record s { directory = remove access name d } in
    if cache_name (codes ".gz.tmp") name
      || (cache_name (codes ".meta.tmp") name || cache_name (codes ".skip.tmp") name)
    then gone
    else if cache_name (codes ".skip") name
    then if marker_current access c env d name true then s else gone
    else if cache_name (codes ".meta") name
    then if regular_artifact d (gz_name (stem_32 name)) then s else gone
    else if not (cache_name (codes ".gz") name)
    then s
    else sweep_copy access c env s name

-- The loop over the names that the directory's iteration yields, each with what `stopping()` answers there;
-- the Boolean result says whether the loop came to its end.
unfoldable pub sweep :
    Access → CompressionCache → Content → Sweep → List (Bytes × Bool) → Sweep × Bool
sweep access c env s [] = (s, true)
sweep access c env s ((name, stopping) ∷ names) =
    let rest = sweep access c env (sweep_entry access c env s name) names in
    if stopping then (s, false) else rest

-- The loop of the eviction.
unfoldable pub evict : Access → ℕ → List Entry → ℕ → Directory → Sweep
evict access target [] total d = record { files = []; total = total; directory = d }
evict access target (oldest ∷ rest) total d =
    let next =
      evict access target rest (sub_bytes total oldest.size)
        (remove_representation access oldest.path d) in
    if ltb target total
    then next
    else record { files = oldest ∷ rest; total = total; directory = d }

unfoldable pub shrink : Access → CompressionCache → Sweep → Sweep
unfolding evict
shrink access c s =
    if ltb c.max_bytes s.total
    then evict access (c.max_bytes - c.max_bytes / 10) s.files s.total s.directory
    else s

unfoldable pub maintain_cache :
    Access → Content → CompressionCache → List (Bytes × Bool) → CompressionCache
maintain_cache access env c names =
    let swept =
      sweep access c env (record { files = []; total = 0; directory = c.directory }) names in
    let s = swept.0 in
    let t = shrink access c s in
    if not swept.1
    then record c { directory = s.directory }
    else record c { directory = t.directory; entries = length t.files % u64_mod; bytes = t.total }

-- `recordArtifact`, with the names of the directory that `maintainCache` would read.
unfoldable pub record_artifact :
    Access → Content → CompressionCache → ℕ → List (Bytes × Bool) → CompressionCache
record_artifact access env c size names =
    let counted = record c {
      entries = if c.entries == u64_max then c.entries else c.entries + 1;
      bytes = add_bytes c.bytes size;
    } in
    if ltb maximum_cache_entries counted.entries || ltb c.max_bytes counted.bytes
    then maintain_cache access env counted names
    else counted
