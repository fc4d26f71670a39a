-- ===== src/Cache/Worker.antt =====
-- src/compression_cache.cpp: `start`, `stop`, the thread of `run` and the jobs that `scanAndBuild` makes.
use fastdl_mm.Prelude.{
  ℕ, ◌+◌, ◌%◌, ◌⊎◌, inl, inr, Bool, true, false, not, ◌&&◌, ◌||◌, Option, none, some, List, [], ◌∷◌,
  ◌++◌, if◌then◌else◌, u64_mod, Bytes, bytes_eq, mem_bytes, lower_ascii,
}
use fastdl_mm.Resolver.{FilePath, resolve}
use fastdl_mm.Cache.{
  Directory, regular_artifact, eligible, source_identity, skip_identity, cache_key, gz_name,
  meta_name, skip_name, marker_matches, lookup, request_build, CompressionSource, Job,
  CompressionCache, Access,
}
use fastdl_mm.Cache.Maintain.{is_ok, Content}

-- `containedBy`, which compares in lower case on Windows.
unfoldable pub contained_in : Bool → FilePath → FilePath → Bool
contained_in windows [] candidate = true
contained_in windows (_ ∷ _) [] = false
contained_in windows (c ∷ root) (d ∷ candidate) =
    let rest = contained_in windows root candidate in
    (if windows then bytes_eq (lower_ascii c) (lower_ascii d) else bytes_eq c d) && rest

-- What `start` asks of the file system, none for an error: the canonical content root, the absolute path of the
-- cache, its weakly canonical form, whether it can be created, and its canonical form if it is a directory.
pub record Places : Type 0 where
  pub content : Option FilePath
  pub absolute : Option FilePath
  pub prospective : Option FilePath
  pub creates : Bool
  pub canonical : Option FilePath
  pub files : Directory

pub data StartError : Type 0 where
  content_inaccessible cache_not_absolute cache_inside_content cache_not_created
        cache_inaccessible :
      StartError

abbrev pub overlap : Bool → FilePath → FilePath → Bool
overlap windows content cache =
    contained_in windows content cache || contained_in windows cache content

unfoldable pub overlaps : Bool → FilePath → Option FilePath → Bool
overlaps windows content none = true
overlaps windows content (some cache) = overlap windows content cache

-- The canonical path of the cache, or why there is none.
unfoldable pub check_places : Bool → Places → StartError ⊎ FilePath
check_places windows p = elim p.content [
  | none ↦ inl content_inaccessible
  | some content ↦ elim p.absolute [
    | none ↦ inl cache_not_absolute
    | some absolute ↦
        if overlaps windows content p.prospective
        then inl cache_inside_content
        else if not p.creates
        then inl cache_not_created
        else elim p.canonical [
          | none ↦ inl cache_inaccessible
          | some cache ↦
              if overlap windows content cache then inl cache_inside_content else inr cache
        ]
  ]
]

-- What the thread is at: a job, from the queue or of a scan, or none; `path` is `cachePath_`.
pub record System : Type 0 where
  pub cache : CompressionCache
  pub path : FilePath
  pub active : Option Job

abbrev pub active_key : Option Job → List Bytes
active_key none = []
active_key (some job) = job.key ∷ []

-- `stop` up to its join, and after it.
unfoldable pub stop_threads : System → System
stop_threads s = record s { cache = record s.cache { stopping = true; running = false } }

unfoldable pub clear : System → System
clear s = record s { cache = record s.cache { jobs = []; pending = []; build_requested = false } }

abbrev pub started :
    System → Directory → ℕ → ℕ → (StartError ⊎ FilePath) → System × Option StartError
started s files max_bytes max_file_bytes (inl e) = (s, some e)
started s files max_bytes max_file_bytes (inr path) = (
  record s {
    path = path;
    cache = record s.cache {
      directory = files;
      max_bytes = max_bytes;
      max_file_bytes = max_file_bytes;
      entries = 0;
      bytes = 0;
      hits = 0;
      misses = 0;
      failures = 0;
      stopping = false;
      build_requested = false;
      running = true;
    };
  },
  none,
)

unfoldable pub start : Bool → Places → ℕ → ℕ → System → System × Option StartError
start windows p max_bytes max_file_bytes s =
    started (clear (stop_threads s)) p.files max_bytes max_file_bytes (check_places windows p)

abbrev pub next_job : System → List Job → System
next_job s [] = s
next_job s (job ∷ jobs) = record s { cache = record s.cache { jobs = jobs }; active = some job }

-- The locked section at the head of the thread's loop.
unfoldable pub take_job : System → System
take_job s =
    let c = s.cache in
    if c.stopping
    then s
    else if c.build_requested
    then record s { cache = record c { build_requested = false } }
    else next_job s c.jobs

-- The locked section of `process` in `scanAndBuild`, which takes a key only if nothing else has it.
unfoldable pub begin_scan : System → Job → System
begin_scan s job =
    let c = s.cache in
    if c.stopping || mem_bytes job.key c.pending
    then s
    else record s { cache = record c { pending = c.pending ++ job.key ∷ [] }; active = some job }

abbrev pub erase : Bytes → List Bytes → List Bytes
erase key [] = []
erase key (k ∷ keys) = let rest = erase key keys in if bytes_eq k key then keys else k ∷ rest

-- The locked section after a job, on the cache that `compress` left.
unfoldable pub finish_job : CompressionCache → Bytes → Bool → CompressionCache
finish_job c key succeeded = record c {
  pending = erase key c.pending;
  failures = if not succeeded && not c.stopping then (c.failures + 1) % u64_mod else c.failures;
}

-- Whether `process` goes on to a file: it must be resolved, inspected, worth a copy, and have neither a copy nor
-- a marker.
unfoldable pub job_for : Access → Content → CompressionCache → Bytes → Option Job
job_for access env c relative = elim env.resolver [
  | none ↦ none
  | some r ↦
      let f = resolve env.windows env.fs r (some (b'/' ∷ relative)) c.max_file_bytes in
      if not (is_ok f.status) then none else elim (env.inspect f.path) [
        | none ↦ none
        | some info ↦
            let source : CompressionSource = record {
              path = f.path;
              extension = f.extension;
              info = info;
            } in
            let identity = source_identity source in
            let key = cache_key identity in
            if not (eligible source)
            then none
            else if marker_matches access c.directory (meta_name key) identity
                && regular_artifact c.directory (gz_name key)
            then none
            else if marker_matches access c.directory (skip_name key) (skip_identity c source)
            then none
            else some (record { source = source; identity = identity; key = key })
      ]
]

-- The steps of the threads: the server's calls, the thread's sections, with what `compress` leaves in the
-- directory and the counters, and the two sections of `stop`, the second once the thread has ended.
pub data Event : Type 0 where
  looks_up : Access → CompressionSource → Event
  requests : Event
  takes : Event
  scans : Access → Content → Bytes → Event
  finishes : Directory → (entries bytes : ℕ) → (succeeded : Bool) → Event
  stops : Event
  clears : Event

abbrev pub begin_scan_if : System → Option Job → System
begin_scan_if s none = s
begin_scan_if s (some job) = begin_scan s job

abbrev pub finish_active : System → CompressionCache → Bool → Option Job → System
finish_active s c succeeded none = s
finish_active s c succeeded (some job) = record s {
  cache = finish_job c job.key succeeded;
  active = none;
}

abbrev pub when_idle : Option Job → System → System → System
when_idle none s t = t
when_idle (some job) s t = s

unfoldable pub step : System → Event → System
step s (looks_up access source) = record s { cache = (lookup access s.cache source).0 }
step s requests = record s { cache = request_build s.cache }
step s takes = when_idle s.active s (take_job s)
step s (scans access env relative) =
    when_idle s.active s (begin_scan_if s (job_for access env s.cache relative))
step s (finishes d entries bytes succeeded) =
    finish_active s (record s.cache { directory = d; entries = entries; bytes = bytes }) succeeded
      s.active
step s stops = stop_threads s
step s clears = when_idle s.active s (if s.cache.stopping then clear s else s)

unfoldable pub run : System → List Event → System
run s [] = s
run s (e ∷ es) = run (step s e) es
