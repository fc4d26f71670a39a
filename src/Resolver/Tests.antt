-- ===== src/Resolver/Tests.antt =====
-- The theorems on the resolver at a root with one map in it.
use fastdl_mm.Prelude.{
  ℕ, ◌≤◌, ◌<◌, ◌≡◌, refl, true, false, Option, some, List, [], ◌∷◌, arith, length, All, Bytes,
  codes, bytes_eq, mem_bytes, lower_ascii, split_from, split_on, c_string,
}
use fastdl_mm.Resolver.{
  FilePath, allowed_directory, allowed_extension, collect, some_components, validate_text, validate,
  last_dot, extension_of, filename, component_equal, contained_by, components_under, is_denied,
  resolve_size, resolve_candidate, resolve, FileSystem, PathResolver, found,
}
use fastdl_mm.Resolver.Validation.{IsComponent, validate-IsComponent}
use fastdl_mm.Resolver.Requests.{join, components, validate-join}
use fastdl_mm.Resolver.Safety.{resolve-IsServable, IsServable}

abbrev root : FilePath
root = codes "/" ∷ codes "srv" ∷ []

abbrev disk : FileSystem
disk = record {
  canonical = λ p. found p;
  no_entry = λ p. false;
  is_regular_file = λ p. true;
  is_directory = λ p. false;
  file_size = λ p. some 9;
}

abbrev maps : PathResolver
maps = record {
  root = root;
  dirs = codes "maps" ∷ [];
  types = codes ".bsp" ∷ [];
  root_types = [];
  all_dirs = false;
  all_types = false;
  all_root_types = false;
}

abbrev request : Option Bytes
request = some (codes "/maps/a.bsp")

abbrev a_map : List Bytes
a_map = codes "maps" ∷ codes "a.bsp" ∷ []

resolve-IsServable_example : IsServable disk maps request 10 (resolve false disk maps request 10)
unfolding resolve validate validate_text resolve_candidate resolve_size is_denied contained_by
    components_under component_equal allowed_directory allowed_extension extension_of filename
    last_dot collect some_components split_on split_from c_string lower_ascii mem_bytes bytes_eq
resolve-IsServable_example = resolve-IsServable disk maps request 10 refl

validate-IsComponent_example : All IsComponent a_map × (length a_map ≤ 12) × (0 < length a_map)
unfolding validate validate_text collect some_components split_on split_from c_string bytes_eq
validate-IsComponent_example = validate-IsComponent request a_map refl

-- A request below a URL that ends in a slash.
abbrev below_slash : List (ℕ × Bytes)
below_slash = (1, codes "maps") ∷ (0, codes "a.bsp") ∷ []

validate-join_example : validate (some (join below_slash)) ≡ some (components below_slash)
validate-join_example =
    validate-join 1 (codes "maps") ((0, codes "a.bsp") ∷ []) validate-IsComponent_example.0
      (omega arith) (omega arith)
