-- ===== src/Cache/Publish.antt =====
-- src/compression_cache.cpp: `compress`, from the check of the source to the renames.
use fastdl_mm.Prelude.{
  ℕ, ◌-◌, ◌/◌, Bool, true, false, not, ◌||◌, Option, none, some, ◌∷◌, ◌++◌, ltb, leb, ◌==◌,
  if◌then◌else◌, Bytes, codes,
}
use fastdl_mm.Server.{OpenedFileInfo}
use fastdl_mm.Cache.{
  Directory, find, without, remove, put, regular_artifact, file_size, skip_identity, gz_name,
  meta_name, skip_name, Job, Artifact, CompressionCache, Access,
}
use fastdl_mm.Cache.Maintain.{sub_bytes, record_artifact, Content}
use fastdl_mm.Cache.Compress.{
  same_info, is_same, gzip_from, Miniz, Run, Attempt, returns, fails, runs_out,
}

abbrev pub gz_temp : Bytes → Bytes
gz_temp key = key ++ codes ".gz.tmp"

abbrev pub meta_temp : Bytes → Bytes
meta_temp key = key ++ codes ".meta.tmp"

abbrev pub skip_temp : Bytes → Bytes
skip_temp key = key ++ codes ".skip.tmp"

-- `std::filesystem::rename` of a file that was looked up, where it succeeds.
abbrev pub rename_found : Option Artifact → Bytes → Bytes → Directory → Directory
rename_found none from to d = d
rename_found (some a) from to d = record a { name = to } ∷ without to (without from d)

abbrev pub rename : Bytes → Bytes → Directory → Directory
rename from to d = rename_found (find from d) from to d

abbrev pub in_directory : CompressionCache → Directory → CompressionCache
in_directory c d = record c { directory = d }

-- The size of the copy that a skip marker takes the place of.
unfoldable pub removed_size : Access → Directory → Bytes → ℕ
removed_size access d gz =
    if regular_artifact d gz
    then elim (file_size access d gz) [ none ↦ 0 | some size ↦ size ]
    else 0

-- The counters once a copy of that size is gone.
unfoldable pub forget_artifact : CompressionCache → ℕ → CompressionCache
forget_artifact c removed =
    if removed == 0
    then c
    else record c { entries = c.entries - 1; bytes = sub_bytes c.bytes removed }

-- A copy that does not pay: the marker that says so takes its place.
unfoldable pub publish_skip : Access → CompressionCache → Attempt → Job → CompressionCache × Bool
publish_skip access c t job =
    let d = remove access (gz_temp job.key) c.directory in
    let removed = removed_size access d (gz_name job.key) in
    let d1 = remove access (meta_name job.key) (remove access (gz_name job.key) d) in
    let d2 = put (skip_temp job.key) (skip_identity c job.source) t.now d1 in
    let d3 = remove access (skip_name job.key) d2 in
    if not t.writes_marker
    then (
      in_directory c
          (remove access (skip_temp job.key) (put (skip_temp job.key) t.partial t.now d1)),
      false,
    )
    else if not t.renames_skip
    then (in_directory c d3, false)
    else (
      forget_artifact (in_directory c (rename (skip_temp job.key) (skip_name job.key) d3)) removed,
      true,
    )

-- A copy that pays: its two files take their places.
unfoldable pub publish_copy :
    Access → Content → CompressionCache → Attempt → Job → ℕ → CompressionCache × Bool
publish_copy access env c t job size =
    let d = c.directory in
    let d1 = put (meta_temp job.key) job.identity t.now d in
    let d2 = remove access (gz_name job.key) d1 in
    let d3 = remove access (meta_name job.key) (rename (gz_temp job.key) (gz_name job.key) d2) in
    let d4 =
      remove access (skip_name job.key) (rename (meta_temp job.key) (meta_name job.key) d3) in
    let torn = put (meta_temp job.key) t.partial t.now d in
    if not t.writes_meta
    then (
      in_directory c (remove access (meta_temp job.key) (remove access (gz_temp job.key) torn)),
      false,
    )
    else if not t.renames_gz
    then (in_directory c d2, false)
    else if not t.renames_meta
    then (in_directory c (remove access (gz_name job.key) d3), false)
    else (record_artifact access env (in_directory c d4) size t.names, true)

-- What a file that was written is worth, by its size.
abbrev pub publish_sized :
    Access
    → Content
    → CompressionCache
    → Attempt
    → Job
    → OpenedFileInfo
    → Option ℕ
    → CompressionCache × Bool
publish_sized access env c t job before none = (c, false)
publish_sized access env c t job before (some size) =
    if ltb c.max_bytes size || leb (before.size - before.size / 20) size
    then publish_skip access c t job
    else publish_copy access env c t job size

-- From the end of the file that was written on.
unfoldable pub publish :
    Access
    → Content
    → CompressionCache
    → Attempt
    → Job
    → OpenedFileInfo
    → Bytes
    → CompressionCache × Bool
publish access env c t job before gz =
    let d = put (gz_temp job.key) gz t.now c.directory in
    let c1 = in_directory c d in
    if not (is_same before t.after)
    then (in_directory c (remove access (gz_temp job.key) d), false)
    else publish_sized access env c1 t job before (file_size access d (gz_temp job.key))

-- A file that is given up, and what the attempt comes to.
unfoldable pub abandon : Access → CompressionCache → Attempt → Job → CompressionCache × Bool
abandon access c t job = (
  in_directory c
      (remove access (gz_temp job.key) (put (gz_temp job.key) t.partial t.now c.directory)),
  false,
)

-- From the bytes of the compressed file on, and whether the stream took them. The model of a loop that runs out
-- of turns gives no result.
unfoldable pub write_out :
    Access
    → Content
    → CompressionCache
    → Attempt
    → Job
    → OpenedFileInfo
    → Run Bytes
    → Option (CompressionCache × Bool)
write_out access env c t job before (returns gz) =
    if t.writes_gz
    then some (publish access env c t job before gz)
    else some (abandon access c t job)
write_out access env c t job before fails = some (abandon access c t job)
write_out access env c t job before runs_out = none

-- `compress` from the inspection of the source on.
unfoldable pub compress_opened :
    Miniz
    → Access
    → Content
    → CompressionCache
    → Attempt
    → Job
    → Option OpenedFileInfo
    → Option (CompressionCache × Bool)
compress_opened mz access env c t job none = some (c, false)
compress_opened mz access env c t job (some before) =
    let d =
      remove access (skip_temp job.key)
        (remove access (meta_temp job.key) (remove access (gz_temp job.key) c.directory)) in
    let c1 = in_directory c d in
    if not (same_info before job.source.info)
    then some (c, false)
    else if not t.creates
    then some (c1, false)
    else write_out access env c1 t job before (gzip_from mz t before.size mz.init)

unfoldable pub compress :
    Miniz → Access → Content → CompressionCache → Attempt → Job → Option (CompressionCache × Bool)
compress mz access env c t job = compress_opened mz access env c t job t.before
