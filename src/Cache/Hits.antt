-- ===== src/Cache/Hits.antt =====
-- src/compression_cache.cpp: a copy that `compress` publishes is found by `lookup`.
use fastdl_mm.Prelude.{
  ℕ, ◌+◌, ◌-◌, ◌/◌, ◌≤◌, ◌<◌, ◌≡◌, refl, sym, ap, subst, ◌∙◌, inl, inr, Bool, true, false, not,
  ◌||◌, some, List, [], ◌∷◌, ◌++◌, arith, ltb, leb, ◌==◌, le→leb, lt→leb_false, le→ltb_false,
  ==_iff, Bool-cases, if-elim, if-elim_false, length, u64_max, Bytes, codes, bytes_eq,
  bytes_eq_sound, bytes_eq_refl,
}
use fastdl_mm.Server.{OpenedFileInfo}
use fastdl_mm.Cache.{
  Directory, maximum_cache_entries, find, without, remove, put, regular_artifact, file_size,
  read_file, eligible, source_identity, cache_key, gz_name, meta_name, skip_name, marker_matches,
  copy_size, answer, job_of, lookup, CompressionSource, Artifact, CompressionCache, Access,
}
use fastdl_mm.Cache.Maintain.{record_artifact, Content}
use fastdl_mm.Cache.Compress.{is_same, Attempt}
use fastdl_mm.Cache.Publish.{
  gz_temp, meta_temp, rename, in_directory, publish_copy, publish_sized, publish,
}

bytes_eq_append : (k a b : Bytes) → bytes_eq (k ++ a) (k ++ b) ≡ bytes_eq a b
unfolding bytes_eq
bytes_eq_append [] a b = refl
bytes_eq_append (c ∷ k) a b = rw ((==_iff c c).1 refl) (bytes_eq_append k a b)

find-without :
    (n m : Bytes) (d : Directory) → bytes_eq n m ≡ false → find n (without m d) ≡ find n d
find-without n m [] h = refl
find-without n m (a ∷ d) h = elim (Bool-cases (bytes_eq m a.name)) [
  | inl e ↦
      let other : bytes_eq n a.name ≡ false =
        subst (λ x. bytes_eq n x ≡ false) (bytes_eq_sound m a.name e) h in
      rw (e, other) (find-without n m d h)
  | inr e ↦ rw (e, find-without n m d h) refl
]

find-remove :
    (access : Access) (n m : Bytes) (d : Directory)
    → bytes_eq n m ≡ false
    → find n (remove access m d) ≡ find n d
find-remove access n m d h =
    if-elim (λ (e : Directory). find n e ≡ find n d) (access.removes m) (find-without n m d h) refl

find-put :
    (n m content : Bytes) (now : ℕ) (d : Directory)
    → bytes_eq n m ≡ false
    → find n (put m content now d) ≡ find n d
find-put n m content now d h = rw h (find-without n m d h)

find-put_same :
    (n content : Bytes) (now : ℕ) (d : Directory)
    → find n (put n content now d)
      ≡ some (record { name = n; content = content; regular = true; modified = now })
find-put_same n content now d = rw (bytes_eq_refl n) refl

find-rename :
    (n from to : Bytes) (d : Directory) (a : Artifact)
    → find from d ≡ some a
    → bytes_eq n from ≡ false
    → bytes_eq n to ≡ false
    → find n (rename from to d) ≡ find n d
find-rename n from to d a e h k =
    rw (e, k, find-without n to (without from d) k, find-without n from d h) refl

find-rename_same :
    (from to : Bytes) (d : Directory) (a : Artifact)
    → find from d ≡ some a
    → find to (rename from to d) ≡ some (record a { name = to })
find-rename_same from to d a e = rw (e, bytes_eq_refl to) refl

module _ (access : Access) (key identity : Bytes) (now : ℕ) (d : Directory) where
  -- Other endings make other names.
  other : (a b : Bytes) → bytes_eq a b ≡ false → bytes_eq (key ++ a) (key ++ b) ≡ false
  other a b h = bytes_eq_append key a b ∙ h

  -- The directory before and after each of the two renames of `publish_copy`.
  abbrev cleared : Directory
  cleared = remove access (gz_name key) (put (meta_temp key) identity now d)

  abbrev moved : Directory
  moved = remove access (meta_name key) (rename (gz_temp key) (gz_name key) cleared)

  abbrev placed : Directory
  placed = remove access (skip_name key) (rename (meta_temp key) (meta_name key) moved)

  abbrev marker : Bytes → Artifact
  marker name = record { name = name; content = identity; regular = true; modified = now }

  cleared-gz : (a : Artifact) → find (gz_temp key) d ≡ some a → find (gz_temp key) cleared ≡ some a
  unfolding bytes_eq
  cleared-gz a h =
      find-remove access (gz_temp key) (gz_name key) (put (meta_temp key) identity now d)
        (other (codes ".gz.tmp") (codes ".gz") refl)
      ∙ find-put (gz_temp key) (meta_temp key) identity now d
          (other (codes ".gz.tmp") (codes ".meta.tmp") refl)
      ∙ h

  moved-meta :
      (a : Artifact)
      → find (gz_temp key) d ≡ some a
      → find (meta_temp key) moved ≡ some (marker (meta_temp key))
  unfolding bytes_eq
  moved-meta a h =
      find-remove access (meta_temp key) (meta_name key)
        (rename (gz_temp key) (gz_name key) cleared)
        (other (codes ".meta.tmp") (codes ".meta") refl)
      ∙ find-rename (meta_temp key) (gz_temp key) (gz_name key) cleared a (cleared-gz a h)
          (other (codes ".meta.tmp") (codes ".gz.tmp") refl)
          (other (codes ".meta.tmp") (codes ".gz") refl)
      ∙ find-remove access (meta_temp key) (gz_name key) (put (meta_temp key) identity now d)
          (other (codes ".meta.tmp") (codes ".gz") refl)
      ∙ find-put_same (meta_temp key) identity now d

  placed-gz :
      (a : Artifact)
      → find (gz_temp key) d ≡ some a
      → find (gz_name key) placed ≡ some (record a { name = gz_name key })
  unfolding bytes_eq
  placed-gz a h =
      find-remove access (gz_name key) (skip_name key)
        (rename (meta_temp key) (meta_name key) moved) (other (codes ".gz") (codes ".skip") refl)
      ∙ find-rename (gz_name key) (meta_temp key) (meta_name key) moved (marker (meta_temp key))
          (moved-meta a h) (other (codes ".gz") (codes ".meta.tmp") refl)
          (other (codes ".gz") (codes ".meta") refl)
      ∙ find-remove access (gz_name key) (meta_name key)
          (rename (gz_temp key) (gz_name key) cleared) (other (codes ".gz") (codes ".meta") refl)
      ∙ find-rename_same (gz_temp key) (gz_name key) cleared a (cleared-gz a h)

  placed-meta :
      (a : Artifact)
      → find (gz_temp key) d ≡ some a
      → find (meta_name key) placed ≡ some (marker (meta_name key))
  unfolding bytes_eq
  placed-meta a h =
      find-remove access (meta_name key) (skip_name key)
        (rename (meta_temp key) (meta_name key) moved) (other (codes ".meta") (codes ".skip") refl)
      ∙ find-rename_same (meta_temp key) (meta_name key) moved (marker (meta_temp key))
          (moved-meta a h)

-- The operations on the cache's files succeed; the removals may fail.
pub record Works (access : Access) (t : Attempt) : Type 0 where
  pub measured : (name : Bytes) → access.measures name ≡ true
  pub opened : (name : Bytes) → access.opens name ≡ true
  pub wrote : t.writes_meta ≡ true
  pub renamed_gz : t.renames_gz ≡ true
  pub renamed_meta : t.renames_meta ≡ true

copy_size_lem :
    (access : Access) (t : Attempt) (d : Directory) (key identity : Bytes) (a m : Artifact)
    → Works access t
    → find (gz_name key) d ≡ some a
    → a.regular ≡ true
    → 18 ≤ length a.content
    → find (meta_name key) d ≡ some m
    → m.regular ≡ true
    → m.content ≡ identity
    → copy_size access d key identity ≡ some (length a.content)
unfolding copy_size marker_matches regular_artifact file_size read_file
copy_size_lem access t d key identity a m w ha ra la hm rm cm =
    rw
      (
        hm,
        rm,
        w.measured (meta_name key),
        w.opened (meta_name key),
        cm,
        bytes_eq_refl identity,
        (==_iff (length identity) (length identity)).1 refl,
        ha,
        ra,
        w.measured (gz_name key),
        le→leb 18 (length a.content) la,
      )
      refl

record_artifact_lem :
    (access : Access) (env : Content) (c : CompressionCache) (size : ℕ)
    (names : List (Bytes × Bool))
    → c.entries < maximum_cache_entries
    → c.bytes + size ≤ c.max_bytes
    → c.max_bytes ≤ u64_max
    → record_artifact access env c size names
      ≡ record c { entries = c.entries + 1; bytes = c.bytes + size }
unfolding record_artifact
record_artifact_lem access env c size names h k l =
    let few : (c.entries == u64_max) ≡ false = ground (arith, h) in
    let room : ltb (u64_max - c.bytes) size ≡ false =
      le→ltb_false (u64_max - c.bytes) size (omega (arith, k, l)) in
    let entries_fit : ltb maximum_cache_entries (c.entries + 1) ≡ false =
      le→ltb_false maximum_cache_entries (c.entries + 1) (omega (arith, h)) in
    let bytes_fit : ltb c.max_bytes (c.bytes + size) ≡ false =
      le→ltb_false c.max_bytes (c.bytes + size) k in
    rw (few, room, entries_fit, bytes_fit) refl

-- What makes a compressed file one to keep: it is a gzip file at least, within the limit, five percent smaller than
-- the source, and there is room for it beside the others.
pub record Pays (c : CompressionCache) (before size : ℕ) : Type 0 where
  pub long : 18 ≤ size
  pub small : size < before - before / 20
  pub few : c.entries < maximum_cache_entries
  pub room : c.bytes + size ≤ c.max_bytes
  pub max : c.max_bytes ≤ u64_max

lookup-hit :
    (access : Access) (c : CompressionCache) (source : CompressionSource) (size : ℕ)
    → c.running ≡ true
    → eligible source ≡ true
    → copy_size access c.directory (cache_key (source_identity source)) (source_identity source)
      ≡ some size
    → (lookup access c source).1 ≡ some (gz_name (cache_key (source_identity source)), size)
unfolding lookup answer
lookup-hit access c source size r e h = rw (r, e, h) refl

-- A copy that pays (18 bytes at least and smaller than the source by a twentieth), of a source whose kind is compressed
-- and that has not changed meanwhile, in a cache that runs, has a limit of bytes in 64 bits, counts fewer than 16384
-- copies and has room for the copy's bytes, so that it is recorded without a maintenance, is found by the next `lookup`
-- of the source, under the name and with the size that it was written with, if the calls on files succeed; the removals
-- of old files may fail.
pub publish-lookup :
    (access : Access) (env : Content) (c : CompressionCache) (t : Attempt)
    (source : CompressionSource) (before : OpenedFileInfo) (gz : Bytes)
    → Works access t
    → Pays c before.size (length gz)
    → is_same before t.after ≡ true
    → c.running ≡ true
    → eligible source ≡ true
    → (lookup access (publish access env c t (job_of source) before gz).0 source).1
      ≡ some (gz_name (job_of source).key, length gz)
unfolding publish publish_copy file_size
publish-lookup access env c t source before gz w pays same running good =
    let job = job_of source in
    let d = put (gz_temp job.key) gz t.now c.directory in
    let a : Artifact = record {
      name = gz_temp job.key;
      content = gz;
      regular = true;
      modified = t.now;
    } in
    let there = find-put_same (gz_temp job.key) gz t.now c.directory in
    let final = placed access job.key job.identity t.now d in
    let size = length gz in
    let fits : ltb c.max_bytes size ≡ false =
      le→ltb_false c.max_bytes size (omega (arith, pays.room)) in
    let less : leb (before.size - before.size / 20) size ≡ false =
      lt→leb_false (before.size - before.size / 20) size pays.small in
    let copy =
      copy_size_lem access t final job.key job.identity (record a { name = gz_name job.key })
        (marker access job.key job.identity t.now d (meta_name job.key)) w
        (placed-gz access job.key job.identity t.now d a there) refl pays.long
        (placed-meta access job.key job.identity t.now d a there) refl refl in
    let recorded =
      record_artifact_lem access env (in_directory c final) size t.names pays.few pays.room
        pays.max in
    let P : CompressionCache × Bool → Type 0 =
      λ r. (lookup access r.0 source).1 ≡ some (gz_name job.key, size) in
    let sized : file_size access d (gz_temp job.key) ≡ some size =
      rw (w.measured (gz_temp job.key), there) refl in
    let both : (ltb c.max_bytes size || leb (before.size - before.size / 20) size) ≡ false =
      rw (fits, less) refl in
    let kept = record c { directory = final; entries = c.entries + 1; bytes = c.bytes + size } in
    if-elim_false P (ap not same) _ (
      subst (λ o. P (publish_sized access env (in_directory c d) t job before o)) (sym sized)
        (if-elim_false P both _ (
          if-elim_false P (ap not w.wrote) _ (
            if-elim_false P (ap not w.renamed_gz) _ (
              if-elim_false P (ap not w.renamed_meta) _ (
                subst (λ x. P (x, true)) (sym recorded)
                  (lookup-hit access kept source size running good copy)))))))
