-- ===== src/Cache/Identity.antt =====
-- src/compression_cache.cpp: what a copy that `lookup` finds belongs to.
use fastdl_mm.Prelude.{
  ℕ, ◌+◌, ◌%◌, ◌≤◌, ◌≡◌, refl, sym, ap, subst, ◌∙◌, inl, inr, true, false, not, ◌&&◌, ◌||◌, Option,
  none, some, [], arith, leb, leb→le, Bool-cases, if-elim, impossible, no_some, guarded, length,
  u64_mod, Bytes, bytes_eq, bytes_eq_sound,
}
use fastdl_mm.Cache.{
  Directory, find, is_regular, regular_artifact, file_size, read_file, eligible, source_identity,
  skip_identity, cache_key, gz_name, meta_name, skip_name, is_just, is_size, marker_matches,
  enqueue, if_long, copy_size, answer, job_of, lookup, CompressionSource, Job, Artifact,
  CompressionCache, Access,
}

-- A regular file of the directory with this content.
abbrev pub Holds : Directory → Bytes → Bytes → Type 0
Holds d name content =
    (a : Artifact) × ((find name d ≡ some a) × ((a.regular ≡ true) × (a.content ≡ content)))

-- A regular file of the directory of this size.
abbrev pub Measures : Directory → Bytes → ℕ → Type 0
Measures d name size =
    (a : Artifact) × ((find name d ≡ some a) × ((a.regular ≡ true) × (length a.content ≡ size)))

found_lem :
    (access : Access) (d : Directory) (name identity : Bytes) (o : Option Artifact)
    → find name d ≡ o
    → regular_artifact d name ≡ true
    → is_just identity (read_file access d name) ≡ true
    → Holds d name identity
unfolding regular_artifact read_file
found_lem access d name identity none e r h = impossible (ap is_regular (sym e) ∙ r)
found_lem access d name identity (some a) e r h =
    let regular : a.regular ≡ true = ap is_regular (sym e) ∙ r in
    elim (Bool-cases (access.opens name)) [
      | inl o ↦
          let same : bytes_eq identity a.content ≡ true = simp (e, o) at h in
          (a, (e, (regular, sym (bytes_eq_sound identity a.content same))))
      | inr o ↦ let bad : false ≡ true = simp o at h in impossible bad
    ]

marker_matches-Holds :
    (access : Access) (d : Directory) (name identity : Bytes)
    → marker_matches access d name identity ≡ true
    → Holds d name identity
unfolding marker_matches
marker_matches-Holds access d name identity h =
    let parts =
      guarded
        (not (regular_artifact d name) || not (is_size (length identity) (file_size access d name)))
        (is_just identity (read_file access d name)) h in
    let regular : regular_artifact d name ≡ true = ground (arith, parts.0) in
    found_lem access d name identity (find name d) refl regular parts.1

abbrev or_zero : Option ℕ → ℕ
or_zero none = 0
or_zero (some n) = n

abbrev pair_or : Option (Bytes × ℕ) → Bytes × ℕ
pair_or none = ([], 0)
pair_or (some r) = r

size_lem :
    (access : Access) (d : Directory) (name : Bytes) (size : ℕ) (o : Option Artifact) (m : Option ℕ)
    → find name d ≡ o
    → file_size access d name ≡ m
    → regular_artifact d name ≡ true
    → if_long m ≡ some size
    → Measures d name size × (18 ≤ size)
unfolding file_size regular_artifact
size_lem access d name size none m e f r h = impossible (ap is_regular (sym e) ∙ r)
size_lem access d name size (some a) none e f r h = no_some h
size_lem access d name size (some a) (some n) e f r h =
    let long : (leb 18 n ≡ true) × (n ≡ size) = elim (Bool-cases (leb 18 n)) [
      | inl l ↦ (l, let k : some n ≡ some size = simp l at h in ap (or_zero) k)
      | inr l ↦ let k : none ≡ some size = simp l at h in no_some k
    ] in
    elim (Bool-cases (access.measures name)) [
      | inl m ↦
          let k : some (length a.content) ≡ some n = simp (e, m) at f in
          (
            (a, (e, (ap is_regular (sym e) ∙ r, ap or_zero k ∙ long.1))),
            omega (arith, leb→le 18 n long.0, long.1),
          )
      | inr m ↦ let k : none ≡ some n = simp m at f in no_some k
    ]

copy_size-Holds :
    (access : Access) (d : Directory) (key identity : Bytes) (size : ℕ)
    → copy_size access d key identity ≡ some size
    → Holds d (meta_name key) identity × (Measures d (gz_name key) size × (18 ≤ size))
unfolding copy_size
copy_size-Holds access d key identity size h =
    elim (Bool-cases
      (marker_matches access d (meta_name key) identity && regular_artifact d (gz_name key))) [
        | inl e ↦
            let k : if_long (file_size access d (gz_name key)) ≡ some size = simp e at h in
            let matches : marker_matches access d (meta_name key) identity ≡ true =
              ground (arith, e) in
            let regular : regular_artifact d (gz_name key) ≡ true = ground (arith, e) in
            (
              marker_matches-Holds access d (meta_name key) identity matches,
              size_lem access d (gz_name key) size (find (gz_name key) d)
                  (file_size access d (gz_name key)) refl refl regular k,
            )
        | inr e ↦ let k : none ≡ some size = simp e at h in no_some k
      ]

answer_lem :
    (access : Access) (c : CompressionCache) (job : Job) (o : Option ℕ) (name : Bytes) (size : ℕ)
    → (answer access c job o).1 ≡ some (name, size)
    → (o ≡ some size) × (name ≡ gz_name job.key)
unfolding answer
answer_lem access c job none name size h =
    let missed = record c { misses = (c.misses + 1) % u64_mod } in
    let nothing =
      if-elim (λ (r : CompressionCache × Option (Bytes × ℕ)). r.1 ≡ none)
        (marker_matches access c.directory (skip_name job.key) (skip_identity c job.source))
        {x = (missed, none)} {y = (enqueue missed job, none)} refl refl in
    no_some (sym nothing ∙ h)
answer_lem access c job (some n) name size h =
    (ap (λ r. some (pair_or r).1) h, sym (ap (λ r. (pair_or r).0) h))

-- A hit is a copy of this very source, not of another one whose identity has the same hash: the marker beside the copy
-- holds the source's whole identity. The size that is answered is that of the copy, 18 bytes or more.
pub lookup-Holds :
    (access : Access) (c : CompressionCache) (source : CompressionSource) (name : Bytes) (size : ℕ)
    → (lookup access c source).1 ≡ some (name, size)
    → Holds c.directory (meta_name (cache_key (source_identity source))) (source_identity source)
      × ((name ≡ gz_name (cache_key (source_identity source)))
          × (Measures c.directory name size × (18 ≤ size)))
unfolding lookup
lookup-Holds access c source name size h =
    let job = job_of source in
    elim (Bool-cases (not c.running || not (eligible source))) [
      | inl e ↦ let k : none ≡ some (name, size) = simp e at h in no_some k
      | inr e ↦
          let k : (answer access c job (copy_size access c.directory job.key job.identity)).1
              ≡ some (name, size) =
            simp e at h in
          let found =
            answer_lem access c job (copy_size access c.directory job.key job.identity) name size
              k in
          let held = copy_size-Holds access c.directory job.key job.identity size found.0 in
          (
            held.0,
            (found.1, (subst (λ n. Measures c.directory n size) (sym found.1) held.1.0, held.1.1)),
          )
    ]
