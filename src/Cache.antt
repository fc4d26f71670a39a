-- ===== src/Cache.antt =====
-- src/compression_cache.h and src/compression_cache.cpp: compressed copies of served files, in a directory of
-- their own, made by one thread. The directory is a list of files; whether the operations on it succeed, the
-- file system of the sources and the compressor are parameters.
pub mod Maintain
pub mod Compress
pub mod Publish
pub mod Worker
pub mod Keys
pub mod Queue
pub mod Bounds
pub mod Contents
pub mod Hits
pub mod Identity
pub mod Codec
pub mod Loops
pub mod Gzip
pub mod Tests
use Prim.Native.Nat.{bit_xor}
use mathlib.Core.Option
use fastdl_mm.Prelude.{
  ℕ, ◌+◌, ◌*◌, ◌%◌, Bool, true, false, not, ◌&&◌, ◌||◌, Option, none, some, List, [], ◌∷◌, ◌++◌,
  map, ltb, leb, ◌==◌, if◌then◌else◌, length, u64_mod, Bytes, codes, bytes_eq, mem_bytes, to_string,
  to_hex, zero_padded,
}
use fastdl_mm.Resolver.{FilePath}
use fastdl_mm.Server.{OpenedFileInfo, file}

pub record CompressionSource : Type 0 where
  pub path : FilePath
  pub extension : Bytes
  pub info : OpenedFileInfo

pub record CompressionStats : Type 0 where
  pub running : Bool
  pub entries : ℕ
  pub bytes : ℕ
  pub queued : ℕ
  pub hits : ℕ
  pub misses : ℕ
  pub failures : ℕ

pub record Job : Type 0 where
  pub source : CompressionSource
  pub identity : Bytes
  pub key : Bytes

-- A file of the cache's directory.
pub record Artifact : Type 0 where
  pub name : Bytes
  pub content : Bytes
  pub regular : Bool
  pub modified : ℕ

abbrev pub Directory : Type 0
Directory = List Artifact

-- The cache without its thread: `directory` is what `cachePath_` holds.
pub record CompressionCache : Type 0 where
  pub directory : Directory
  pub max_file_bytes : ℕ
  pub max_bytes : ℕ
  pub jobs : List Job
  pub pending : List Bytes
  pub stopping : Bool
  pub build_requested : Bool
  pub running : Bool
  pub entries : ℕ
  pub bytes : ℕ
  pub hits : ℕ
  pub misses : ℕ
  pub failures : ℕ

abbrev pub maximum_queued_jobs : ℕ
maximum_queued_jobs = 1024

abbrev pub maximum_cache_entries : ℕ
maximum_cache_entries = 16384

abbrev pub maximum_marker_bytes : ℕ
maximum_marker_bytes = 8192

-- Which files of the directory can be removed, measured, opened to be read, and have a readable time.
pub record Access : Type 0 where
  pub removes : Bytes → Bool
  pub measures : Bytes → Bool
  pub opens : Bytes → Bool
  pub dates : Bytes → Bool

abbrev pub find : Bytes → Directory → Option Artifact
find name [] = none
find name (a ∷ d) = if bytes_eq name a.name then some a else find name d

abbrev pub without : Bytes → Directory → Directory
without name [] = []
without name (a ∷ d) = let rest = without name d in if bytes_eq name a.name then rest else a ∷ rest

-- `std::filesystem::remove`, whose error the source ignores throughout.
abbrev pub remove : Access → Bytes → Directory → Directory
remove access name d = if access.removes name then without name d else d

-- A file written over what had its name.
abbrev pub put : Bytes → Bytes → ℕ → Directory → Directory
put name content now d =
    record { name = name; content = content; regular = true; modified = now } ∷ without name d

abbrev pub is_regular : Option Artifact → Bool
is_regular none = false
is_regular (some a) = a.regular

unfoldable pub regular_artifact : Directory → Bytes → Bool
regular_artifact d name = is_regular (find name d)

-- `std::filesystem::file_size`.
unfoldable pub file_size : Access → Directory → Bytes → Option ℕ
file_size access d name =
    if access.measures name then Option.map (λ a. length a.content) (find name d) else none

-- What a binary stream on a file reads.
unfoldable pub read_file : Access → Directory → Bytes → Option Bytes
read_file access d name =
    if access.opens name then Option.map (λ a. a.content) (find name d) else none

-- The 64-bit hash, with the overflow of the product cut off.
unfoldable pub fnv1a : Bytes → ℕ → ℕ
fnv1a [] seed = seed
fnv1a (c ∷ s) seed = fnv1a s (bit_xor seed c * 1099511628211 % u64_mod)

-- `path::generic_u8string` of a path of components, the root's name first in an absolute one.
unfoldable pub generic_string : FilePath → Bytes
generic_string [] = []
generic_string (c ∷ []) = c
generic_string (c ∷ d ∷ p) =
    let rest = generic_string (d ∷ p) in
    if bytes_eq c (codes "/") then c ++ rest else c ++ b'/' ∷ rest

abbrev pub eligible_extensions : List Bytes
eligible_extensions =
    codes ".bsp"
    ∷ codes ".wad"
    ∷ codes ".mdl"
    ∷ codes ".spr"
    ∷ codes ".wav"
    ∷ codes ".bmp"
    ∷ codes ".tga"
    ∷ codes ".txt"
    ∷ codes ".res"
    ∷ []

unfoldable pub eligible : CompressionSource → Bool
eligible source =
    if ltb source.info.size 1024 then false else mem_bytes source.extension eligible_extensions

unfoldable pub source_identity : CompressionSource → Bytes
source_identity source =
    generic_string source.path
    ++ 10 ∷ to_string source.info.size
    ++ 10 ∷ to_string source.info.modified_identity
    ++ 10 ∷ to_string source.info.file_identity
    ++ 10 ∷ []

unfoldable pub skip_identity : CompressionCache → CompressionSource → Bytes
skip_identity c source =
    source_identity source
    ++ codes "skip-policy=5-percent,max-bytes="
    ++ to_string c.max_bytes
    ++ 10 ∷ []

unfoldable pub cache_key : Bytes → Bytes
cache_key identity =
    zero_padded 16 (to_hex (fnv1a identity 14695981039346656037))
    ++ zero_padded 16 (to_hex (fnv1a identity 7809847782465536322))

abbrev pub gz_name : Bytes → Bytes
gz_name key = key ++ codes ".gz"

abbrev pub meta_name : Bytes → Bytes
meta_name key = key ++ codes ".meta"

abbrev pub skip_name : Bytes → Bytes
skip_name key = key ++ codes ".skip"

abbrev pub is_just : Bytes → Option Bytes → Bool
is_just s none = false
is_just s (some t) = bytes_eq s t

abbrev pub is_size : ℕ → Option ℕ → Bool
is_size n none = false
is_size n (some m) = n == m

unfoldable pub marker_matches : Access → Directory → Bytes → Bytes → Bool
marker_matches access d name identity =
    if not (regular_artifact d name) || not (is_size (length identity) (file_size access d name))
    then false
    else is_just identity (read_file access d name)

unfoldable pub enqueue : CompressionCache → Job → CompressionCache
enqueue c job =
    if c.stopping || leb maximum_queued_jobs (length c.jobs) || mem_bytes job.key c.pending
    then c
    else record c { jobs = c.jobs ++ job ∷ []; pending = c.pending ++ job.key ∷ [] }

abbrev pub if_long : Option ℕ → Option ℕ
if_long none = none
if_long (some size) = if leb 18 size then some size else none

-- The size of a copy, if it is long enough to be one.
unfoldable pub copy_size : Access → Directory → Bytes → Bytes → Option ℕ
copy_size access d key identity =
    if marker_matches access d (meta_name key) identity && regular_artifact d (gz_name key)
    then if_long (file_size access d (gz_name key))
    else none

-- `lookup` once it has looked for the copy.
unfoldable pub answer :
    Access → CompressionCache → Job → Option ℕ → CompressionCache × Option (Bytes × ℕ)
answer access c job (some size) =
    (record c { hits = (c.hits + 1) % u64_mod }, some (gz_name job.key, size))
answer access c job none =
    let missed = record c { misses = (c.misses + 1) % u64_mod } in
    if marker_matches access c.directory (skip_name job.key) (skip_identity c job.source)
    then (missed, none)
    else (enqueue missed job, none)

abbrev pub job_of : CompressionSource → Job
job_of source =
    let identity = source_identity source in
    record { source = source; identity = identity; key = cache_key identity }

-- `lookup`: the name and the size of the copy, if there is one.
unfoldable pub lookup :
    Access → CompressionCache → CompressionSource → CompressionCache × Option (Bytes × ℕ)
lookup access c source =
    let job = job_of source in
    if not c.running || not (eligible source)
    then (c, none)
    else answer access c job (copy_size access c.directory job.key job.identity)

unfoldable pub request_build : CompressionCache → CompressionCache
request_build c = if c.stopping then c else record c { build_requested = true }

unfoldable pub stats : CompressionCache → CompressionStats
stats c = record {
  running = c.running;
  entries = c.entries;
  bytes = c.bytes;
  queued = length c.jobs;
  hits = c.hits;
  misses = c.misses;
  failures = c.failures;
}
