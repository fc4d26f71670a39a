-- ===== src/Resolver.antt =====
-- src/path_resolver.h and src/path_resolver.cpp: which request paths name a file that may be served. A
-- path is the list of its components, the root directory's name first if it is absolute, as
-- `std::filesystem::path` iterates over it. The file system is a parameter.
pub mod Tests
pub mod Validation
pub mod Requests
pub mod Containment
pub mod Safety
use fastdl_mm.Prelude.{
  ℕ, Bool, true, false, not, ◌&&◌, ◌||◌, Option, none, some, List, [], ◌∷◌, ◌++◌, map, ltb, ◌==◌,
  if◌then◌else◌, length, is_empty, any, u64_max, Bytes, codes, bytes_eq, mem_bytes, lower_ascii,
  trim_where, split_on, c_string,
}

abbrev pub FilePath : Type 0
FilePath = List Bytes

-- `std::filesystem::canonical`: the path without links, or why there is none.
pub data Canonical : Type 0 where
  found : FilePath → Canonical
  no_such_file : Canonical
  failed : Canonical

-- What the resolver asks of the file system. `no_entry` is an error of the `directory_entry`
-- constructor, and a query that ends in an error is `false` or `none`.
pub record FileSystem : Type 0 where
  pub canonical : FilePath → Canonical
  pub no_entry : FilePath → Bool
  pub is_regular_file : FilePath → Bool
  pub is_directory : FilePath → Bool
  pub file_size : FilePath → Option ℕ

pub data ResolveStatus : Type 0 where
  ok invalid_path outside_root not_found not_a_file directory_denied extension_denied too_large
        io_error :
      ResolveStatus

pub record ResolvedFile : Type 0 where
  pub status : ResolveStatus
  pub path : FilePath
  pub size : ℕ
  pub extension : Bytes

pub record PathResolver : Type 0 where
  pub root : FilePath
  pub dirs : List Bytes
  pub types : List Bytes
  pub root_types : List Bytes
  pub all_dirs : Bool
  pub all_types : Bool
  pub all_root_types : Bool

abbrev pub is_tab_or_space : ℕ → Bool
is_tab_or_space c = c == b' ' || c == 9

-- The items of a comma-separated list, without blanks around them, in lower case.
unfoldable pub trim_items : List Bytes → List Bytes
trim_items [] = []
trim_items (item ∷ items) = elim (trim_where is_tab_or_space item) [
  | [] ↦ trim_items items
  | c ∷ s ↦ lower_ascii (c ∷ s) ∷ trim_items items
]

unfoldable pub split_list : Bytes → List Bytes
unfolding trim_items split_on
split_list value = trim_items (split_on b',' value)

-- A type with its leading dot.
unfoldable pub dotted : Bytes → Bytes
dotted [] = b'.' ∷ []
dotted (c ∷ s) = if c == b'.' then c ∷ s else b'.' ∷ c ∷ s

-- The types of a list other than `*`, and whether `*` is among them.
unfoldable pub read_types : List Bytes → List Bytes × Bool
unfolding dotted
read_types [] = ([], false)
read_types (item ∷ items) =
    let (types, every) = read_types items in
    if bytes_eq item (codes "*") then (types, true) else (dotted item ∷ types, every)

-- `configure` on the absolute path of the root; `none` is the result `false`.
unfoldable pub configure : FileSystem → FilePath → Bytes → Bytes → Bytes → Option PathResolver
unfolding split_list read_types
configure fs absolute dirs types root_types = elim (fs.canonical absolute) [
  | found canonical ↦
      if not (fs.is_directory canonical)
      then none
      else some (record {
        root = canonical;
        dirs = split_list dirs;
        all_dirs = mem_bytes (codes "*") (split_list dirs);
        types = (read_types (split_list types)).0;
        all_types = (read_types (split_list types)).1;
        root_types = (read_types (split_list root_types)).0;
        all_root_types = (read_types (split_list root_types)).1;
      })
  | _ ↦ none
]

unfoldable pub allowed_directory : PathResolver → Bytes → Bool
allowed_directory r name = if r.all_dirs then true else mem_bytes name r.dirs

unfoldable pub allowed_root_extension : PathResolver → Bytes → Bool
allowed_root_extension r e = if r.all_root_types then true else mem_bytes e r.root_types

unfoldable pub allowed_extension : PathResolver → Bytes → Bool
allowed_extension r e = if r.all_types then true else mem_bytes e r.types

unfoldable pub serves_root_files : PathResolver → Bool
serves_root_files r = r.all_root_types || not (is_empty r.root_types)

-- The bytes that no request path may hold.
abbrev pub is_refused_byte : ℕ → Bool
is_refused_byte c =
    c == 0 || ltb c 0x20 || c == 0x7f || c == b'\\' || c == b':' || c == b'?' || c == b'#'

abbrev pub is_refused_component : Bytes → Bool
is_refused_component c = bytes_eq c (codes ".") || bytes_eq c (codes "..") || ltb 255 (length c)

-- The loop of `validate` over the pieces between slashes.
unfoldable pub collect : List Bytes → List Bytes → Option (List Bytes)
collect components [] = some components
collect components (piece ∷ pieces) =
    let next = if is_empty piece then components else components ++ piece ∷ [] in
    let rest = collect next pieces in
    if not (is_empty piece) && is_refused_component piece
    then none
    else if ltb 12 (length next)
    then none
    else rest

unfoldable pub some_components : Option (List Bytes) → Option (List Bytes)
some_components none = none
some_components (some []) = none
some_components (some (c ∷ cs)) = some (c ∷ cs)

unfoldable pub validate_text : Bytes → Option (List Bytes)
validate_text [] = none
validate_text (c ∷ s) =
    if ltb 2048 (length (c ∷ s)) || not (c == b'/')
    then none
    else if any is_refused_byte (c ∷ s)
    then none
    else some_components (collect [] (split_on b'/' s))

-- The components of the relative path; `none` is the result `false`.
unfoldable pub validate : Option Bytes → Option (List Bytes)
validate none = none
validate (some raw) = validate_text (c_string raw)

-- The suffix from the last dot on.
unfoldable pub last_dot : Bytes → Option Bytes
last_dot [] = none
last_dot (c ∷ s) = elim (last_dot s) [
  | some e ↦ some e
  | none ↦ if c == b'.' then some (c ∷ s) else none
]

abbrev pub or_empty : Option Bytes → Bytes
or_empty none = []
or_empty (some s) = s

-- `path::extension` of a file name: a dot that begins the name begins no extension.
unfoldable pub extension_of : Bytes → Bytes
unfolding last_dot
extension_of [] = []
extension_of (c ∷ s) =
    if bytes_eq (c ∷ s) (codes ".") || bytes_eq (c ∷ s) (codes "..")
    then []
    else or_empty (last_dot s)

unfoldable pub filename : FilePath → Bytes
filename [] = []
filename (c ∷ []) = c
filename (_ ∷ d ∷ p) = filename (d ∷ p)

abbrev pub head_or_empty : List Bytes → Bytes
head_or_empty [] = []
head_or_empty (c ∷ cs) = c

-- A result that names no file.
abbrev pub refused : ResolveStatus → Bytes → ℕ → ResolvedFile
refused s extension size = record { status = s; path = []; size = size; extension = extension }

module _ (windows : Bool) where
  -- On Windows, file names are compared without regard to case.
  unfoldable pub component_equal : Bytes → Bytes → Bool
  component_equal l r = if windows then bytes_eq (lower_ascii l) (lower_ascii r) else bytes_eq l r

  unfoldable pub contained_by : FilePath → FilePath → Bool
  contained_by [] candidate = true
  contained_by (_ ∷ _) [] = false
  contained_by (c ∷ root) (d ∷ candidate) = component_equal c d && contained_by root candidate

  -- The components below the root, in lower case.
  unfoldable pub components_under : FilePath → FilePath → List Bytes
  components_under [] candidate = map lower_ascii candidate
  components_under (_ ∷ _) [] = []
  components_under (_ ∷ root) (_ ∷ candidate) = components_under root candidate

  unfoldable pub contains_path : FileSystem → PathResolver → FilePath → Bool
  contains_path fs r path = elim (fs.canonical path) [
    | found canonical ↦ contained_by r.root canonical
    | _ ↦ false
  ]

  unfoldable pub paths_equal : FilePath → FilePath → Bool
  paths_equal [] [] = true
  paths_equal (c ∷ p) (d ∷ q) = component_equal c d && paths_equal p q
  paths_equal _ _ = false

  -- One entry of the loop of `scanDirectories`, from its canonical path.
  unfoldable pub scan_entry : FileSystem → PathResolver → List FilePath → Canonical → List FilePath
  scan_entry fs r directories (found canonical) =
      let parts = components_under r.root canonical in
      if not (fs.is_directory canonical)
        || not (contained_by r.root canonical)
        || not (length parts == 1)
        || not (allowed_directory r (head_or_empty parts))
        || any (λ existing. paths_equal existing canonical) directories
      then directories
      else directories ++ canonical ∷ []
  scan_entry fs r directories _ = directories

  unfoldable pub scan_from :
      FileSystem → PathResolver → List FilePath → List FilePath → List FilePath
  scan_from fs r directories [] = directories
  scan_from fs r directories (entry ∷ entries) =
      scan_from fs r (scan_entry fs r directories (fs.canonical entry)) entries

  -- `scanDirectories` over the entries of the root that its iteration yields.
  unfoldable pub scan_directories : FileSystem → PathResolver → List FilePath → List FilePath
  unfolding scan_from scan_entry
  scan_directories fs r entries = scan_from fs r [] entries

  -- Whether the place of a file, by its components below the root, is served.
  unfoldable pub is_denied : PathResolver → List Bytes → List Bytes → Bytes → Bool
  is_denied r relative parts extension =
      if length relative == 1
      then not (length parts == 1) || not (allowed_root_extension r extension)
      else ltb (length parts) 2 || not (allowed_directory r (head_or_empty parts))

  -- The end of `resolve`, on the answer of `file_size`, which is the largest number on an error.
  unfoldable pub resolve_size : FilePath → Bytes → ℕ → Option ℕ → ResolvedFile
  resolve_size candidate extension max_bytes none = refused io_error extension u64_max
  resolve_size candidate extension max_bytes (some size) =
      if ltb max_bytes size
      then refused too_large extension size
      else record { status = ok; path = candidate; size = size; extension = extension }

  -- `resolve` from the canonical path of the candidate on, in the source's order.
  unfoldable pub resolve_candidate :
      FileSystem → PathResolver → List Bytes → ℕ → Canonical → ResolvedFile
  resolve_candidate fs r relative max_bytes no_such_file = refused not_found [] 0
  resolve_candidate fs r relative max_bytes failed = refused io_error [] 0
  resolve_candidate fs r relative max_bytes (found candidate) =
      let extension = lower_ascii (extension_of (filename candidate)) in
      let parts = components_under r.root candidate in
      if not (contained_by r.root candidate)
      then refused outside_root [] 0
      else if fs.no_entry candidate
      then refused io_error [] 0
      else if not (fs.is_regular_file candidate)
      then refused not_a_file [] 0
      else if is_denied r relative parts extension
      then refused directory_denied extension 0
      else if not (allowed_extension r extension)
      then refused extension_denied extension 0
      else resolve_size candidate extension max_bytes (fs.file_size candidate)

  unfoldable pub resolve : FileSystem → PathResolver → Option Bytes → ℕ → ResolvedFile
  resolve fs r raw max_bytes = elim (validate raw) [
    | none ↦ refused invalid_path [] 0
    | some relative ↦ resolve_candidate fs r relative max_bytes (fs.canonical (r.root ++ relative))
  ]
