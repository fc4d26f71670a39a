-- ===== src/Resolver/Safety.antt =====
-- src/path_resolver.cpp: what a resolved file is, whatever the file system answers.
use fastdl_mm.Prelude.{
  ℕ, suc, ◌≤◌, ◌≡◌, refl, ap, ◌∙◌, ◌≢◌, ◌⊎◌, inl, inr, true, false, not, Option, none, some, List,
  [], ◌∷◌, ◌++◌, map, arith, if◌then◌else◌, Bool-cases, Option-cases, length, Bytes, lower_ascii,
}
use fastdl_mm.Resolver.{
  FilePath, allowed_directory, allowed_root_extension, allowed_extension, validate, extension_of,
  filename, head_or_empty, refused, contained_by, components_under, is_denied, resolve_size,
  resolve_candidate, resolve, Canonical, FileSystem, ResolvedFile, PathResolver, found,
  no_such_file, failed, ok, directory_denied, extension_denied,
}
use fastdl_mm.Resolver.Containment.{contained_by_iff, components_under-append}

-- What `Ok` promises of the file that answers a request path.
pub record IsServable (fs : FileSystem) (r : PathResolver) (raw : Option Bytes) (max_bytes : ℕ)
    (f : ResolvedFile) : Type 0 where
  pub requested : List Bytes
  pub accepted : validate raw ≡ some requested
  pub below : List Bytes
  pub canonical : fs.canonical (r.root ++ requested) ≡ found f.path
  pub inside : f.path ≡ r.root ++ below
  pub regular : fs.is_regular_file f.path ≡ true
  pub sized : fs.file_size f.path ≡ some f.size
  pub small : f.size ≤ max_bytes
  pub extension : f.extension ≡ lower_ascii (extension_of (filename f.path))
  pub allowed : allowed_extension r f.extension ≡ true
  pub place :
      ((length requested ≡ 1) × (length below ≡ 1) × (allowed_root_extension r f.extension ≡ true))
      ⊎ ((length requested ≢ 1)
          × (2 ≤ length below)
          × (allowed_directory r (head_or_empty (map lower_ascii below)) ≡ true))

length-map-lower : (xs : List Bytes) → length (map lower_ascii xs) ≡ length xs
length-map-lower [] = refl
length-map-lower (x ∷ xs) = ap suc (length-map-lower xs)

resolve_size-ok :
    (candidate : FilePath) (extension : Bytes) (max_bytes : ℕ) (o : Option ℕ)
    → (resolve_size false candidate extension max_bytes o).status ≡ ok
    → (size : ℕ) × (o ≡ some size)
      × (size ≤ max_bytes)
      × (resolve_size false candidate extension max_bytes o
          ≡ record { status = ok; path = candidate; size = size; extension = extension })
unfolding resolve_size
resolve_size-ok candidate extension max_bytes none h = cc
resolve_size-ok candidate extension max_bytes (some size) h =
    (size, refl, ground arith, ground arith)

place_of :
    (r : PathResolver) (relative below parts : List Bytes) (extension : Bytes)
    → parts ≡ map lower_ascii below
    → is_denied false r relative parts extension ≡ false
    → ((length relative ≡ 1) × (length below ≡ 1) × (allowed_root_extension r extension ≡ true))
      ⊎ ((length relative ≢ 1)
          × (2 ≤ length below)
          × (allowed_directory r (head_or_empty (map lower_ascii below)) ≡ true))
unfolding is_denied
place_of r relative below parts extension e h =
    ground (arith, length-map-lower below, ap length e, ap head_or_empty e)

placed :
    (fs : FileSystem) (r : PathResolver) (raw : Option Bytes) (relative : List Bytes)
    (max_bytes : ℕ) (candidate : FilePath)
    → let extension = lower_ascii (extension_of (filename candidate)) in
      let parts = components_under false r.root candidate in
      let result =
        if is_denied false r relative parts extension
        then refused directory_denied extension 0
        else if not (allowed_extension r extension)
        then refused extension_denied extension 0
        else resolve_size false candidate extension max_bytes (fs.file_size candidate) in
      result.status ≡ ok
      → validate raw ≡ some relative
      → fs.canonical (r.root ++ relative) ≡ found candidate
      → fs.is_regular_file candidate ≡ true
      → ((below : List Bytes) × (candidate ≡ r.root ++ below))
      → IsServable fs r raw max_bytes result
placed fs r raw relative max_bytes candidate h v e regular (below, shape) =
    let extension = lower_ascii (extension_of (filename candidate)) in
    let parts = components_under false r.root candidate in
    let split : parts ≡ map lower_ascii below =
      ap (components_under false r.root) shape ∙ components_under-append false r.root below in
    elim (Bool-cases (is_denied false r relative parts extension)) [
      | inl denied ↦ let bad = rw denied at h in cc
      | inr served ↦
          let h1 = rw served at h in
          elim (Bool-cases (allowed_extension r extension)) [
            | inr other ↦ let bad = rw other at h1 in cc
            | inl allowed ↦
                let h2 = rw allowed at h1 in
                let (size, sized, small, result) =
                  resolve_size-ok candidate extension max_bytes (fs.file_size candidate) h2 in
                rw (served, allowed, result)
                  (record {
                    requested = relative;
                    accepted = v;
                    below = below;
                    canonical = e;
                    inside = shape;
                    regular = regular;
                    sized = sized;
                    small = small;
                    extension = refl;
                    allowed = allowed;
                    place = place_of r relative below parts extension split served;
                  })
          ]
    ]

resolve_candidate-ok :
    (fs : FileSystem) (r : PathResolver) (raw : Option Bytes) (relative : List Bytes)
    (max_bytes : ℕ) (c : Canonical)
    → (resolve_candidate false fs r relative max_bytes c).status ≡ ok
    → validate raw ≡ some relative
    → fs.canonical (r.root ++ relative) ≡ c
    → IsServable fs r raw max_bytes (resolve_candidate false fs r relative max_bytes c)
unfolding resolve_candidate
resolve_candidate-ok fs r raw relative max_bytes no_such_file h v e = cc
resolve_candidate-ok fs r raw relative max_bytes failed h v e = cc
resolve_candidate-ok fs r raw relative max_bytes (found candidate) h v e =
    let extension = lower_ascii (extension_of (filename candidate)) in
    let parts = components_under false r.root candidate in
    elim (Bool-cases (contained_by false r.root candidate)) [
      | inr out ↦ let bad = rw out at h in cc
      | inl inside ↦
          let h1 = rw inside at h in
          elim (Bool-cases (fs.no_entry candidate)) [
            | inl broken ↦ let bad = rw broken at h1 in cc
            | inr entry ↦
                let h2 = rw entry at h1 in
                elim (Bool-cases (fs.is_regular_file candidate)) [
                  | inr other ↦ let bad = rw other at h2 in cc
                  | inl regular ↦
                      let h3 = rw regular at h2 in
                      rw (inside, entry, regular)
                        (placed fs r raw relative max_bytes candidate h3 v e regular
                          ((contained_by_iff r.root candidate).0 inside))
                ]
          ]
    ]

-- Where names have a case, `Ok` names a file that may be served, whatever the file system answers and
-- whatever the request: `validate` accepts the request as components, the canonical path of just these
-- under the root lies below the root, it is a regular file of at most the given size with
-- an allowed extension, and either it was asked for at the root, lies there, and has a root extension,
-- or it was asked for in a directory and lies in one that is served.
pub resolve-IsServable :
    (fs : FileSystem) (r : PathResolver) (raw : Option Bytes) (max_bytes : ℕ)
    → (resolve false fs r raw max_bytes).status ≡ ok
    → IsServable fs r raw max_bytes (resolve false fs r raw max_bytes)
unfolding resolve
resolve-IsServable fs r raw max_bytes h = elim (Option-cases (validate raw)) [
  | inl e ↦ let bad = rw (e, resolve) at h in cc
  | inr (relative, e) ↦
      rw (e, resolve)
        (resolve_candidate-ok fs r raw relative max_bytes (fs.canonical (r.root ++ relative))
          (rw (e, resolve) at h) e refl)
]
