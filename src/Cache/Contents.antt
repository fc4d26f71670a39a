-- ===== src/Cache/Contents.antt =====
-- src/compression_cache.cpp: which copies are in the directory after `maintainCache`, where files can be removed.
use fastdl_mm.Prelude.{
  ℕ, ◌+◌, ◌-◌, ◌/◌, ◌≤◌, ◌<◌, ◌≡◌, refl, sym, ap, subst, ◌∙◌, ◌≢◌, ◌⊎◌, inl, inr, Bool, true, false,
  not, ◌||◌, Option, none, some, List, [], ◌∷◌, arith, ltb, leb, ◌==◌, if◌then◌else◌, ==_iff,
  Bool-cases, if-elim, if-elim_false, if-elim_true, impossible, length, is_none, All, Bytes, codes,
  bytes_eq, bytes_eq_sound,
}
use fastdl_mm.Cache.{
  Directory, maximum_cache_entries, find, without, remove, regular_artifact, file_size, gz_name,
  meta_name, Artifact, CompressionCache, Access,
}
use fastdl_mm.Cache.Maintain.{
  marker_current, cache_name, stem_32, push, sub_bytes, remove_representation, replace_oldest, keep,
  entry_of, keep_if, sweep_copy, sweep_entry, sweep, evict, shrink, maintain_cache, Content, Entry,
  Sweep,
}
use fastdl_mm.Cache.Bounds.{
  sweep-Bounded, Unstopped, sweep_completes, fresh, fresh-Bounded, shrink_lem, kept_few,
}

-- The removals succeed.
abbrev pub Removes : Access → Type 0
Removes access = (name : Bytes) → access.removes name ≡ true

-- An entry of the heap has the name.
abbrev pub Listed : Bytes → List Entry → Type 0
Listed n [] = ⊥
Listed n (e ∷ files) = (n ≡ e.path) ⊎ Listed n files

-- The loop comes to the name.
abbrev pub Named : Bytes → List (Bytes × Bool) → Type 0
Named n [] = ⊥
Named n (m ∷ names) = (n ≡ m.0) ⊎ Named n names

-- The name is that of a compressed copy, by its form.
abbrev pub is_copy : Bytes → Bool
is_copy n = cache_name (codes ".gz") n

abbrev pub present : Bytes → Directory → Bool
present n d = not (is_none (find n d))

present-without_same : (n : Bytes) (d : Directory) → present n (without n d) ≡ false
present-without_same n [] = refl
present-without_same n (a ∷ d) = elim (Bool-cases (bytes_eq n a.name)) [
  | inl e ↦ rw e (present-without_same n d)
  | inr e ↦ rw (e, e) (present-without_same n d)
]

present-without :
    (n m : Bytes) (d : Directory) → present n (without m d) ≡ true → present n d ≡ true
present-without n m [] h = h
present-without n m (a ∷ d) h = elim (Bool-cases (bytes_eq n a.name)) [
  | inl e ↦ rw e refl
  | inr e ↦ elim (Bool-cases (bytes_eq m a.name)) [
    | inl f ↦ rw e (present-without n m d (rw f at h))
    | inr f ↦ rw e (present-without n m d (rw (f, e) at h))
  ]
]

present-Named :
    (n : Bytes) (names : List (Bytes × Bool)) (d : Directory)
    → All (λ (a : Artifact). Named a.name names) d
    → present n d ≡ true
    → Named n names
present-Named n names [] k h = impossible h
present-Named n names (a ∷ d) k h = elim (Bool-cases (bytes_eq n a.name)) [
  | inl e ↦ subst (λ m. Named m names) (sym (bytes_eq_sound n a.name e)) k.0
  | inr e ↦ present-Named n names d k.1 (rw e at h)
]

push-Listed :
    (n : Bytes) (e : Entry) (files : List Entry)
    → (n ≡ e.path) ⊎ Listed n files
    → Listed n (push e files)
unfolding push
push-Listed n e [] h = h
push-Listed n e (f ∷ files) h =
    if-elim (Listed n) (leb f.modified e.modified)
      (elim h [
        | inl p ↦ inr (push-Listed n e files (inl p))
        | inr (inl p) ↦ inl p
        | inr (inr q) ↦ inr (push-Listed n e files (inr q))
      ])
      h

module _ (access : Access) (removes : Removes access) where
  gone :
      (n m : Bytes) (d : Directory)
      → present n (remove access m d) ≡ true
      → (present n d ≡ true) × (n ≢ m)
  gone n m d h =
      let k : present n (without m d) ≡ true = rw (removes m) at h in
      (
        present-without n m d k,
        λ e. impossible (
            sym (present-without_same n d) ∙ subst (λ x. present n (without x d) ≡ true) (sym e) k),
      )

  gone_both :
      (n gz : Bytes) (d : Directory)
      → present n (remove_representation access gz d) ≡ true
      → (present n d ≡ true) × (n ≢ gz)
  unfolding remove_representation
  gone_both n gz d h = gone n gz d (gone n (meta_name (stem_32 gz)) (remove access gz d) h).0

  -- A turn of the loop, at a name: a copy that is there after it was there before, and is in the heap if it was in it
  -- before or has the name.
  abbrev Turn : Sweep → Bytes → Sweep → Type 0
  Turn s name t =
      (n : Bytes)
      → is_copy n ≡ true
      → present n t.directory ≡ true
      → (present n s.directory ≡ true)
        × ((Listed n s.files → Listed n t.files) × (n ≡ name → Listed n t.files))

  removed-Turn :
      (s : Sweep) (name : Bytes)
      → Turn s name (record s { directory = remove access name s.directory })
  removed-Turn s name n h k =
      let g = gone n name s.directory k in (g.0, (λ l. l, λ e. absurd (g.1 e)))

  dropped-Turn :
      (s : Sweep) (name : Bytes)
      → Turn s name (record s { directory = remove_representation access name s.directory })
  dropped-Turn s name n h k =
      let g = gone_both n name s.directory k in (g.0, (λ l. l, λ e. absurd (g.1 e)))

  replace_oldest-Turn :
      (s : Sweep) (e : Entry) (files : List Entry)
      → s.files ≡ files
      → Turn s e.path (replace_oldest access s e files)
  unfolding replace_oldest
  replace_oldest-Turn s e [] h = dropped-Turn s e.path
  replace_oldest-Turn s e (oldest ∷ rest) h =
      if-elim (Turn s e.path) (ltb oldest.modified e.modified)
        (λ n c k.
          let g = gone_both n oldest.path s.directory k in
          (
            g.0,
            (
              λ l. elim (subst (Listed n) h l) [
                | inl p ↦ absurd (g.1 p)
                | inr q ↦ push-Listed n e rest (inr q)
              ],
              λ p. push-Listed n e rest (inl p),
            ),
          ))
        (dropped-Turn s e.path)

  keep-Turn : (s : Sweep) (e : Entry) → Turn s e.path (keep access s e)
  unfolding keep
  keep-Turn s e =
      if-elim (Turn s e.path) (ltb (length s.files) maximum_cache_entries)
        (λ n c k. (k, (λ l. push-Listed n e s.files (inr l), λ p. push-Listed n e s.files (inl p))))
        (replace_oldest-Turn s e s.files refl)

  entry-Turn :
      (s : Sweep) (name : Bytes) (size : Option ℕ) (a : Option Artifact)
      → Turn s name (keep_if access s name (entry_of name size a))
  entry-Turn s name none a = dropped-Turn s name
  entry-Turn s name (some size) none = dropped-Turn s name
  entry-Turn s name (some size) (some a) =
      if-elim (λ o. Turn s name (keep_if access s name o)) (ltb size 18) (dropped-Turn s name)
        (keep-Turn s (record { path = name; size = size; modified = a.modified }))

  cache_name-length :
      (suffix name : Bytes) → cache_name suffix name ≡ true → length name ≡ 32 + length suffix
  unfolding cache_name
  cache_name-length suffix name h = elim (Bool-cases (length name == 32 + length suffix)) [
    | inl e ↦ (==_iff (length name) (32 + length suffix)).0 e
    | inr e ↦ impossible (rw e at h)
  ]

  other_form :
      (long short name : Bytes)
      → cache_name short name ≡ true
      → length short < length long
      → cache_name long name ≡ false
  other_form long short name h k = elim (Bool-cases (cache_name long name)) [
    | inl e ↦
        absurd (omega (arith, k, cache_name-length long name e, cache_name-length short name h))
    | inr e ↦ e
  ]

  sweep_entry-Turn :
      (c : CompressionCache) (env : Content) (s : Sweep) (name : Bytes)
      → Turn s name (sweep_entry access c env s name)
  unfolding sweep_entry sweep_copy
  sweep_entry-Turn c env s name =
      let P = Turn s name in
      let gone_name = removed-Turn s name in
      let temporary =
        cache_name (codes ".gz.tmp") name
        || (cache_name (codes ".meta.tmp") name || cache_name (codes ".skip.tmp") name) in
      elim (Bool-cases (is_copy name)) [
        | inl copy ↦ if-elim P temporary gone_name (
            if-elim_false P (other_form (codes ".skip") (codes ".gz") name copy (omega arith)) _ (
              if-elim_false P (other_form (codes ".meta") (codes ".gz") name copy (omega arith)) _ (
                if-elim_false P (ap not copy) _ (
                  if-elim P
                    (not (regular_artifact s.directory name)
                      || not (
                          marker_current access c env s.directory (meta_name (stem_32 name)) false))
                    (dropped-Turn s name)
                    (entry-Turn s name (file_size access s.directory name)
                      (if access.dates name then find name s.directory else none))))))
        | inr other ↦
            let same : P s = λ n h k.
              (k, (λ l. l, λ e. impossible (sym other ∙ subst (λ m. is_copy m ≡ true) e h))) in
            if-elim P temporary gone_name (
              if-elim P (cache_name (codes ".skip") name)
                (if-elim P (marker_current access c env s.directory name true) same gone_name)
                (if-elim P (cache_name (codes ".meta") name)
                  (if-elim P (regular_artifact s.directory (gz_name (stem_32 name))) same gone_name)
                  (if-elim_true P (ap not other) _ same)))
      ]

  -- Every copy in the directory is in the heap or is still to come.
  abbrev Covers : Sweep → List (Bytes × Bool) → Type 0
  Covers s names =
      (n : Bytes)
      → is_copy n ≡ true
      → present n s.directory ≡ true
      → Listed n s.files ⊎ Named n names

  Turn-Covers :
      (s t : Sweep) (m : Bytes × Bool) (names : List (Bytes × Bool))
      → Turn s m.0 t
      → Covers s (m ∷ names)
      → Covers t names
  Turn-Covers s t m names turn h n c k =
      let after = turn n c k in
      elim (h n c after.0) [
        | inl l ↦ inl (after.1.0 l)
        | inr (inl e) ↦ inl (after.1.1 e)
        | inr (inr l) ↦ inr l
      ]

  sweep-Covers :
      (c : CompressionCache) (env : Content) (s : Sweep) (names : List (Bytes × Bool))
      → Unstopped names
      → Covers s names
      → Covers (sweep access c env s names).0 []
  unfolding sweep
  sweep-Covers c env s [] u h = h
  sweep-Covers c env s ((name, stopping) ∷ names) u h =
      if-elim_false (λ (r : Sweep × Bool). Covers r.0 []) u.0 _
        (sweep-Covers c env (sweep_entry access c env s name) names u.1 (
          Turn-Covers s (sweep_entry access c env s name) (name, stopping) names
            (sweep_entry-Turn c env s name) h))

  evict-Covers :
      (target : ℕ) (files : List Entry) (total : ℕ) (d : Directory)
      → Covers (record { files = files; total = total; directory = d }) []
      → Covers (evict access target files total d) []
  unfolding evict
  evict-Covers target [] total d h = h
  evict-Covers target (oldest ∷ rest) total d h =
      let d1 = remove_representation access oldest.path d in
      let t1 = sub_bytes total oldest.size in
      let left : Covers (record { files = rest; total = t1; directory = d1 }) [] = λ n c k.
        let g = gone_both n oldest.path d k in
        elim (h n c g.0) [ inl (inl e) ↦ absurd (g.1 e) | inl (inr l) ↦ inl l | inr l ↦ inr l ] in
      if-elim (λ (t : Sweep). Covers t []) (ltb target total) (evict-Covers target rest t1 d1 left)
        h

  shrink-Covers : (c : CompressionCache) (s : Sweep) → Covers s [] → Covers (shrink access c s) []
  unfolding shrink
  shrink-Covers c s h =
      if-elim (λ (t : Sweep). Covers t []) (ltb c.max_bytes s.total)
        (evict-Covers (c.max_bytes - c.max_bytes / 10) s.files s.total s.directory h) h

  -- A `maintainCache` that the cache does not stop, over a directory whose files can be removed and whose names are all
  -- among those that the iteration yields: each file that is in the directory afterwards under the name of a compressed
  -- copy is in the heap, whose length is the number of entries that the cache then counts, at most 16384, and the count
  -- of bytes is not over the limit.
  pub maintain_cache-Listed :
      (env : Content) (c : CompressionCache) (names : List (Bytes × Bool)) (n : Bytes)
      → Unstopped names
      → All (λ (a : Artifact). Named a.name names) c.directory
      → is_copy n ≡ true
      → present n (maintain_cache access env c names).directory ≡ true
      → let kept = (shrink access c (sweep access c env (fresh c) names).0).files in
        Listed n kept
        × (length kept ≡ (maintain_cache access env c names).entries)
        × (length kept ≤ maximum_cache_entries)
        × ((maintain_cache access env c names).bytes ≤ c.max_bytes)
  unfolding maintain_cache
  maintain_cache-Listed env c names n u named copy there =
      let swept = sweep access c env (fresh c) names in
      let kept = (shrink access c swept.0).files in
      let v = sweep-Bounded access c env (fresh c) names (fresh-Bounded c) in
      let shrunk = shrink_lem access c swept.0 v in
      let few = kept_few access c swept.0 v in
      let ends : not swept.1 ≡ false = ap not (sweep_completes access c env (fresh c) names u) in
      let start : Covers (fresh c) names =
        λ m form k. inr (present-Named m names c.directory named k) in
      let covers = shrink-Covers c swept.0 (sweep-Covers c env (fresh c) names u start) in
      if-elim_false
        (λ (d : CompressionCache).
          present n d.directory ≡ true
          → Listed n kept
            × (length kept ≡ d.entries)
            × (length kept ≤ maximum_cache_entries)
            × (d.bytes ≤ c.max_bytes))
        ends _
        (λ k. (
          elim (covers n copy k) [ inl l ↦ l | inr l ↦ elim l [ ] ],
          omega (arith, few),
          few,
          shrunk.0,
        ))
        there
