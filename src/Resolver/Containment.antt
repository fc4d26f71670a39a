-- ===== src/Resolver/Containment.antt =====
-- src/path_resolver.cpp: `containedBy` and `componentsUnder`, on file systems that tell names apart by
-- their bytes (`windows` is false).
use mathlib.Core.Path.{ap₂}
use fastdl_mm.Prelude.{
  ◌≡◌, refl, sym, ◌↔◌, Bool, true, false, ◌&&◌, List, [], ◌∷◌, ◌++◌, map, arith, Bytes, bytes_eq,
  bytes_eq_sound, bytes_eq_refl, lower_ascii,
}
use fastdl_mm.Resolver.{FilePath, component_equal, contained_by, components_under}

contained_by_sound :
    (root candidate : FilePath)
    → contained_by false root candidate ≡ true
    → (below : List Bytes) × (candidate ≡ root ++ below)
unfolding contained_by component_equal
contained_by_sound [] candidate h = (candidate, refl)
contained_by_sound (c ∷ root) [] h = cc
contained_by_sound (c ∷ root) (d ∷ candidate) h =
    let (same, rest) = both (bytes_eq c d) (contained_by false root candidate) h in
    let (below, e) = contained_by_sound root candidate rest in
    (below, ap₂ (λ (x : Bytes) (xs : FilePath). x ∷ xs) (sym (bytes_eq_sound c d same)) e)
  where
    both : (a b : Bool) → (a && b) ≡ true → (a ≡ true) × (b ≡ true)
    both a b h = ground arith

contained_by_complete : (root below : List Bytes) → contained_by false root (root ++ below) ≡ true
unfolding contained_by component_equal
contained_by_complete [] below = refl
contained_by_complete (c ∷ root) below = rw (bytes_eq_refl c) (contained_by_complete root below)

-- Where names have a case, a candidate is contained exactly if it is the root followed by further components.
pub contained_by_iff :
    (root candidate : FilePath)
    → (contained_by false root candidate ≡ true)
      ↔ ((below : List Bytes) × (candidate ≡ root ++ below))
contained_by_iff root candidate =
    (contained_by_sound root candidate, λ b. rw b.1 (contained_by_complete root b.0))

-- The components below the root are those behind it, in lower case.
pub components_under-append :
    (windows : Bool) (root below : List Bytes)
    → components_under windows root (root ++ below) ≡ map lower_ascii below
unfolding components_under
components_under-append windows [] below = refl
components_under-append windows (c ∷ root) below = components_under-append windows root below
