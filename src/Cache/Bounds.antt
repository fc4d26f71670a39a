-- ===== src/Cache/Bounds.antt =====
-- src/compression_cache.cpp: the bounds that `maintainCache` keeps.
use fastdl_mm.Prelude.{
  ℕ, zero, suc, ◌+◌, ◌-◌, ◌/◌, ◌≤◌, ◌<◌, ◌≡◌, refl, ap, subst, inl, inr, Bool, true, false, not,
  ◌||◌, Option, none, some, List, [], ◌∷◌, arith, ltb, leb, if◌then◌else◌, ltb→lt, leb→le,
  Bool-cases, if-elim, if-elim_false, if-elim_true, length, drop, All, All-map, Bytes, codes,
}
use fastdl_mm.Cache.{
  Directory, maximum_cache_entries, find, remove, regular_artifact, file_size, gz_name, meta_name,
  CompressionCache, Access,
}
use fastdl_mm.Cache.Maintain.{
  marker_current, cache_name, stem_32, push, add_bytes, sub_bytes, remove_representation,
  replace_oldest, keep, entry_of, keep_if, sweep_copy, sweep_entry, sweep, evict, shrink,
  maintain_cache, Content, Entry, Sweep,
}

abbrev pub sum_sizes : List Entry → ℕ
sum_sizes [] = 0
sum_sizes (e ∷ files) = e.size + sum_sizes files

-- No entry of a list is older than a time.
abbrev pub Since : ℕ → List Entry → Type 0
Since time files = All (λ (e : Entry). time ≤ e.modified) files

abbrev pub Sorted : List Entry → Type 0
Sorted [] = Unit
Sorted (e ∷ files) = Since e.modified files × Sorted files

-- The heap is in bounds and in order, and the total is not more than its sizes.
pub record Bounded (s : Sweep) : Type 0 where
  pub few : length s.files ≤ maximum_cache_entries
  pub total_le : s.total ≤ sum_sizes s.files
  pub sorted : Sorted s.files

push-length : (e : Entry) (files : List Entry) → length (push e files) ≡ suc (length files)
unfolding push
push-length e [] = refl
push-length e (f ∷ files) =
    if-elim (λ (fs : List Entry). length fs ≡ suc (suc (length files))) (leb f.modified e.modified)
      (ap suc (push-length e files)) refl

push-sum_sizes :
    (e : Entry) (files : List Entry) → sum_sizes (push e files) ≡ e.size + sum_sizes files
unfolding push
push-sum_sizes e [] = refl
push-sum_sizes e (f ∷ files) =
    if-elim (λ fs. sum_sizes fs ≡ e.size + (f.size + sum_sizes files)) (leb f.modified e.modified)
      (omega (arith, push-sum_sizes e files)) refl

push-Since :
    (time : ℕ) (e : Entry) (files : List Entry)
    → time ≤ e.modified
    → Since time files
    → Since time (push e files)
unfolding push
push-Since time e [] h k = (h, tt)
push-Since time e (f ∷ files) h k =
    if-elim (Since time) (leb f.modified e.modified) (k.0, push-Since time e files h k.1) (h, k)

push-Sorted : (e : Entry) (files : List Entry) → Sorted files → Sorted (push e files)
unfolding push
push-Sorted e [] k = (tt, tt)
push-Sorted e (f ∷ files) k = elim (Bool-cases (leb f.modified e.modified)) [
  | inl h ↦
      if-elim_true Sorted h _ (
        push-Since f.modified e files (leb→le f.modified e.modified h) k.0,
        push-Sorted e files k.1,
      )
  | inr h ↦
      let older : e.modified ≤ f.modified = ground (arith, h) in
      if-elim_false Sorted h _
        ((older, All-map (λ g (r : f.modified ≤ g.modified). omega (arith, older, r)) files k.0), k)
]

pushed-Bounded :
    (e : Entry) (files : List Entry) (total : ℕ) (d : Directory)
    → length files < maximum_cache_entries
    → total ≤ sum_sizes files
    → Sorted files
    → Bounded (record { files = push e files; total = add_bytes total e.size; directory = d })
pushed-Bounded e files total d few total_le sorted =
    let capped : add_bytes total e.size ≤ total + e.size = ground (arith) in
    record {
      few = omega (arith, few, push-length e files);
      total_le = omega (arith, capped, total_le, push-sum_sizes e files);
      sorted = push-Sorted e files sorted;
    }

sub_bytes-le : (total size rest : ℕ) → total ≤ size + rest → sub_bytes total size ≤ rest
sub_bytes-le total size rest h = ground (arith, h)

replace_oldest-Bounded :
    (access : Access) (s : Sweep) (e : Entry) (files : List Entry)
    → Bounded s
    → s.files ≡ files
    → Bounded (replace_oldest access s e files)
unfolding replace_oldest
replace_oldest-Bounded access s e [] v h = record {
  few = v.few;
  total_le = v.total_le;
  sorted = v.sorted;
}
replace_oldest-Bounded access s e (oldest ∷ rest) v h =
    let w =
      subst (λ fs. (length fs ≤ maximum_cache_entries) × ((s.total ≤ sum_sizes fs) × Sorted fs)) h
        (v.few, (v.total_le, v.sorted)) in
    if-elim Bounded (ltb oldest.modified e.modified)
      (pushed-Bounded e rest (sub_bytes s.total oldest.size)
        (remove_representation access oldest.path s.directory) (omega (arith, w.0))
        (sub_bytes-le s.total oldest.size (sum_sizes rest) w.1.0) w.1.1.1)
      (record { few = v.few; total_le = v.total_le; sorted = v.sorted })

keep-Bounded : (access : Access) (s : Sweep) (e : Entry) → Bounded s → Bounded (keep access s e)
unfolding keep
keep-Bounded access s e v = elim (Bool-cases (ltb (length s.files) maximum_cache_entries)) [
  | inl h ↦ if-elim_true Bounded h _ (
      pushed-Bounded e s.files s.total s.directory (ltb→lt (length s.files) maximum_cache_entries h)
        v.total_le v.sorted)
  | inr h ↦ if-elim_false Bounded h _ (replace_oldest-Bounded access s e s.files v refl)
]

keep_if-Bounded :
    (access : Access) (s : Sweep) (name : Bytes) (o : Option Entry)
    → Bounded s
    → Bounded (keep_if access s name o)
keep_if-Bounded access s name none v = record {
  few = v.few;
  total_le = v.total_le;
  sorted = v.sorted;
}
keep_if-Bounded access s name (some e) v = keep-Bounded access s e v

sweep_entry-Bounded :
    (access : Access) (c : CompressionCache) (env : Content) (s : Sweep) (name : Bytes)
    → Bounded s
    → Bounded (sweep_entry access c env s name)
unfolding sweep_entry sweep_copy
sweep_entry-Bounded access c env s name v =
    let d = s.directory in
    let gone : Bounded (record s { directory = remove access name d }) = record {
      few = v.few;
      total_le = v.total_le;
      sorted = v.sorted;
    } in
    let copy =
      if-elim Bounded
        (not (regular_artifact d name)
          || not (marker_current access c env d (meta_name (stem_32 name)) false))
        (keep_if-Bounded access s name none v)
        (keep_if-Bounded access s name
          (entry_of name (file_size access d name)
            (if access.dates name then find name d else none))
          v) in
    if-elim Bounded
      (cache_name (codes ".gz.tmp") name
        || (cache_name (codes ".meta.tmp") name || cache_name (codes ".skip.tmp") name))
      gone
      (if-elim Bounded (cache_name (codes ".skip") name)
        (if-elim Bounded (marker_current access c env d name true) v gone)
        (if-elim Bounded (cache_name (codes ".meta") name)
          (if-elim Bounded (regular_artifact d (gz_name (stem_32 name))) v gone)
          (if-elim Bounded (not (cache_name (codes ".gz") name)) v copy)))

pub sweep-Bounded :
    (access : Access) (c : CompressionCache) (env : Content) (s : Sweep)
    (names : List (Bytes × Bool))
    → Bounded s
    → Bounded (sweep access c env s names).0
unfolding sweep
sweep-Bounded access c env s [] v = v
sweep-Bounded access c env s ((name, stopping) ∷ names) v =
    if-elim (λ (r : Sweep × Bool). Bounded r.0) stopping v
      (sweep-Bounded access c env (sweep_entry access c env s name) names
        (sweep_entry-Bounded access c env s name v))

-- The loop of the eviction stops at the target or at an empty heap, and leaves the heap's end.
evict-le :
    (access : Access) (target : ℕ) (files : List Entry) (total : ℕ) (d : Directory)
    → total ≤ sum_sizes files
    → (evict access target files total d).total ≤ target
unfolding evict
evict-le access target [] total d h = omega (arith, h)
evict-le access target (oldest ∷ rest) total d h = elim (Bool-cases (ltb target total)) [
  | inl e ↦
      if-elim_true (λ (t : Sweep). t.total ≤ target) e _
        (evict-le access target rest (sub_bytes total oldest.size)
          (remove_representation access oldest.path d)
          (sub_bytes-le total oldest.size (sum_sizes rest) h))
  | inr e ↦ if-elim_false (λ (t : Sweep). t.total ≤ target) e _ (ground (arith, e))
]

evict-drop :
    (access : Access) (target : ℕ) (files : List Entry) (total : ℕ) (d : Directory)
    → (n : ℕ) × ((evict access target files total d).files ≡ drop n files)
unfolding evict
evict-drop access target [] total d = (0, refl)
evict-drop access target (oldest ∷ rest) total d =
    let later =
      evict-drop access target rest (sub_bytes total oldest.size)
        (remove_representation access oldest.path d) in
    if-elim (λ (t : Sweep). (n : ℕ) × (t.files ≡ drop n (oldest ∷ rest))) (ltb target total)
      (suc later.0, later.1) (0, refl)

-- No call of `stopping()` in the loop says that the cache is stopping.
abbrev pub Unstopped : List (Bytes × Bool) → Type 0
Unstopped names = All (λ (n : Bytes × Bool). n.1 ≡ false) names

pub sweep_completes :
    (access : Access) (c : CompressionCache) (env : Content) (s : Sweep)
    (names : List (Bytes × Bool))
    → Unstopped names
    → (sweep access c env s names).1 ≡ true
unfolding sweep
sweep_completes access c env s [] h = refl
sweep_completes access c env s ((name, stopping) ∷ names) h =
    if-elim_false (λ (r : Sweep × Bool). r.1 ≡ true) h.0 _
      (sweep_completes access c env (sweep_entry access c env s name) names h.1)

-- The state in which `maintainCache` begins its loop.
abbrev pub fresh : CompressionCache → Sweep
fresh c = record { files = []; total = 0; directory = c.directory }

pub fresh-Bounded : (c : CompressionCache) → Bounded (fresh c)
fresh-Bounded c = record { few = omega arith; total_le = omega arith; sorted = tt }

length-drop-le : (n : ℕ) (files : List Entry) → length (drop n files) ≤ length files
length-drop-le zero files = omega arith
length-drop-le (suc n) [] = omega arith
length-drop-le (suc n) (e ∷ files) = omega (arith, length-drop-le n files)

-- What the eviction leaves is in bounds.
pub shrink_lem :
    (access : Access) (c : CompressionCache) (s : Sweep)
    → Bounded s
    → ((shrink access c s).total ≤ c.max_bytes)
      × ((n : ℕ) × ((shrink access c s).files ≡ drop n s.files))
unfolding shrink
shrink_lem access c s v = elim (Bool-cases (ltb c.max_bytes s.total)) [
  | inl e ↦
      if-elim_true (λ (t : Sweep). (t.total ≤ c.max_bytes) × ((n : ℕ) × (t.files ≡ drop n s.files)))
        e _
        (
          omega (
            arith,
            evict-le access (c.max_bytes - c.max_bytes / 10) s.files s.total s.directory v.total_le,
          ),
          evict-drop access (c.max_bytes - c.max_bytes / 10) s.files s.total s.directory,
        )
  | inr e ↦
      if-elim_false
        (λ (t : Sweep). (t.total ≤ c.max_bytes) × ((n : ℕ) × (t.files ≡ drop n s.files))) e _
        (ground (arith, e), (0, refl))
]

pub kept_few :
    (access : Access) (c : CompressionCache) (s : Sweep)
    → Bounded s
    → length (shrink access c s).files ≤ maximum_cache_entries
kept_few access c s v =
    let shrunk = shrink_lem access c s v in
    rw shrunk.1.1 (omega (arith, length-drop-le shrunk.1.0 s.files, v.few))

-- Whatever is in the directory, and whichever removals fail, a `maintainCache` that the cache does not stop counts at
-- most 16384 entries, and a number of bytes that is not over the limit.
pub maintain_cache-le :
    (access : Access) (env : Content) (c : CompressionCache) (names : List (Bytes × Bool))
    → Unstopped names
    → ((maintain_cache access env c names).entries ≤ maximum_cache_entries)
      × ((maintain_cache access env c names).bytes ≤ c.max_bytes)
unfolding maintain_cache
maintain_cache-le access env c names h =
    let swept = sweep access c env (fresh c) names in
    let v = sweep-Bounded access c env (fresh c) names (fresh-Bounded c) in
    let shrunk = shrink_lem access c swept.0 v in
    let few = kept_few access c swept.0 v in
    let ends : not swept.1 ≡ false = ap not (sweep_completes access c env (fresh c) names h) in
    if-elim_false
      (λ (d : CompressionCache). (d.entries ≤ maximum_cache_entries) × (d.bytes ≤ c.max_bytes)) ends
      _ (omega (arith, few), shrunk.0)

-- The copies that `maintainCache` keeps after its loop are the newest: the heap stands in the order of the times, and
-- the eviction takes away its first part.
pub shrink-drop :
    (access : Access) (env : Content) (c : CompressionCache) (names : List (Bytes × Bool))
    → Sorted (sweep access c env (fresh c) names).0.files
      × ((n : ℕ) × ((shrink access c (sweep access c env (fresh c) names).0).files
            ≡ drop n (sweep access c env (fresh c) names).0.files))
shrink-drop access env c names =
    let v = sweep-Bounded access c env (fresh c) names (fresh-Bounded c) in
    (v.sorted, (shrink_lem access c (sweep access c env (fresh c) names).0 v).1)
