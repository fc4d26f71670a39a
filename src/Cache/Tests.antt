-- ===== src/Cache/Tests.antt =====
-- The theorems on the compression cache at concrete caches.
use mathlib.Core.List.{append-nil}
use fastdl_mm.Prelude.{
  ℕ, zero, suc, ◌+◌, ◌≤◌, ◌≡◌, refl, sym, ap, subst, ◌∙◌, inl, inr, Bool, true, false, Option, none,
  some, List, [], ◌∷◌, ◌++◌, arith, ◌==◌, if◌then◌else◌, length, drop, Bytes, codes, bytes_eq,
  starts_with, mem_bytes, lower_ascii, split_from, split_on, cut_at, c_string, digits, to_string,
  to_hex, zero_padded,
}
use fastdl_mm.Prelude.Int.{pos}
use fastdl_mm.Resolver.{
  allowed_root_extension, allowed_extension, collect, some_components, validate_text, validate,
  last_dot, extension_of, filename, component_equal, contained_by, components_under, is_denied,
  resolve_size, resolve_candidate, resolve, found, no_such_file,
}
use fastdl_mm.Cache.{
  maximum_cache_entries, regular_artifact, file_size, read_file, fnv1a, generic_string, eligible,
  source_identity, cache_key, gz_name, meta_name, job_of, lookup, CompressionSource,
  CompressionCache, Access,
}
use fastdl_mm.Cache.Maintain.{
  is_current_for, is_current_text, is_marker_size, marker_current, cache_name, push,
  remove_representation, keep, sweep_copy, sweep_entry, sweep, shrink, maintain_cache, Content,
}
use fastdl_mm.Cache.Compress.{gzip_from, Miniz, Attempt, mz_ok, mz_stream_end}
use fastdl_mm.Cache.Publish.{publish}
use fastdl_mm.Cache.Worker.{run, System, Event, looks_up, takes, finishes}
use fastdl_mm.Cache.Queue.{IsValid, run-IsValid}
use fastdl_mm.Cache.Bounds.{fresh}
use fastdl_mm.Cache.Contents.{Listed, is_copy, present, maintain_cache-Listed}
use fastdl_mm.Cache.Codec.{Reads, Ends, gunzip, Codec}
use fastdl_mm.Cache.Gzip.{gzip_from-Ends}
use fastdl_mm.Cache.Hits.{publish-lookup, Works, Pays}
use fastdl_mm.Cache.Identity.{Holds, Measures, lookup-Holds}

abbrev map_source : CompressionSource
map_source = record {
  path = codes "/" ∷ codes "srv" ∷ codes "a.bsp" ∷ [];
  extension = codes ".bsp";
  info = record { size = 2000; modified_seconds = pos 5; modified_identity = 7; file_identity = 9 };
}

abbrev all_work : Access
all_work = record {
  removes = λ n. true;
  measures = λ n. true;
  opens = λ n. true;
  dates = λ n. true;
}

abbrev no_content : Content
no_content = record {
  windows = false;
  fs = record {
    canonical = λ p. no_such_file;
    no_entry = λ p. true;
    is_regular_file = λ p. false;
    is_directory = λ p. false;
    file_size = λ p. none;
  };
  resolver = none;
  relative = λ s. none;
  inspect = λ p. none;
}

abbrev empty_cache : CompressionCache
empty_cache = record {
  directory = [];
  max_file_bytes = 1000000;
  max_bytes = 5000;
  jobs = [];
  pending = [];
  stopping = false;
  build_requested = false;
  running = true;
  entries = 0;
  bytes = 0;
  hits = 0;
  misses = 0;
  failures = 0;
}

abbrev system : System
system = record { cache = empty_cache; path = []; active = none }

system-IsValid : IsValid system
system-IsValid = record { room = omega arith; tracked = λ key. refl; distinct = λ key. omega arith }

abbrev one_job : List Event
one_job =
    looks_up all_work map_source ∷ takes ∷ looks_up all_work map_source ∷ finishes [] 0 0 false ∷ []

run-IsValid_example : IsValid (run system one_job)
run-IsValid_example = run-IsValid system one_job system-IsValid

-- A cache with the copy of a map and its marker, and the map at the root of the served files.
abbrev map_key : Bytes
map_key = cache_key (source_identity map_source)

abbrev map_names : List (Bytes × Bool)
map_names = (meta_name map_key, false) ∷ (gz_name map_key, false) ∷ []

abbrev map_cache : CompressionCache
map_cache = record empty_cache {
  directory =
      record {
        name = gz_name map_key;
        content = codes "twenty bytes or more";
        regular = true;
        modified = 4;
      }
      ∷ record {
        name = meta_name map_key;
        content = source_identity map_source;
        regular = true;
        modified = 4;
      }
      ∷ [];
}

abbrev map_content : Content
map_content = record {
  windows = false;
  fs = record {
    canonical = λ p. found p;
    no_entry = λ p. false;
    is_regular_file = λ p. true;
    is_directory = λ p. false;
    file_size = λ p. some 2000;
  };
  resolver = some (record {
    root = codes "/" ∷ codes "srv" ∷ [];
    dirs = [];
    types = codes ".bsp" ∷ [];
    root_types = codes ".bsp" ∷ [];
    all_dirs = false;
    all_types = false;
    all_root_types = false;
  });
  relative = λ s. some (codes "a.bsp");
  inspect = λ p. some map_source.info;
}

map_stays :
    present (gz_name map_key) (maintain_cache all_work map_content map_cache map_names).directory
    ≡ true
unfolding maintain_cache sweep sweep_entry sweep_copy shrink keep push remove_representation
    regular_artifact file_size read_file marker_current is_marker_size is_current_text
    is_current_for cache_name source_identity cache_key fnv1a bytes_eq starts_with resolve validate
    validate_text collect some_components split_on split_from c_string resolve_candidate
    contained_by component_equal components_under is_denied allowed_root_extension allowed_extension
    resolve_size extension_of last_dot filename lower_ascii mem_bytes zero_padded to_hex digits
    generic_string to_string cut_at
map_stays = refl

map_is_copy : is_copy (gz_name map_key) ≡ true
unfolding cache_name bytes_eq cache_key zero_padded to_hex digits fnv1a source_identity
    generic_string to_string
map_is_copy = refl

maintain_cache-Listed_example :
    let kept =
      (shrink all_work map_cache
        (sweep all_work map_cache map_content (fresh map_cache) map_names).0).files in
    Listed (gz_name map_key) kept
    × (length kept ≡ (maintain_cache all_work map_content map_cache map_names).entries)
    × (length kept ≤ maximum_cache_entries)
    × ((maintain_cache all_work map_content map_cache map_names).bytes ≤ map_cache.max_bytes)
maintain_cache-Listed_example =
    maintain_cache-Listed all_work (λ n. refl) map_content map_cache map_names (gz_name map_key)
      (refl, (refl, tt)) (inr (inl refl), (inl refl, tt)) map_is_copy map_stays

-- A compressor that stores its input as it is, and sums the bytes.
abbrev sum_bytes : ℕ → Bytes → ℕ
sum_bytes crc [] = crc
sum_bytes crc (b ∷ s) = sum_bytes (crc + b) s

abbrev storing : Miniz
storing = record {
  Stream = Unit;
  init = some tt;
  deflate = λ st last input. (if last then mz_stream_end else mz_ok, (tt, ([], input)));
  work = λ st. 0;
  crc32 = sum_bytes;
}

sum_bytes-append : (crc : ℕ) (s t : Bytes) → sum_bytes (sum_bytes crc s) t ≡ sum_bytes crc (s ++ t)
sum_bytes-append crc [] t = refl
sum_bytes-append crc (b ∷ s) t = sum_bytes-append (crc + b) s t

not_ok : mz_stream_end ≡ mz_ok → ⊥
not_ok h = cc

storing_codec : Codec storing
storing_codec = record {
  Coded = λ st input output. input ≡ output;
  inflate = λ s. some s;
  starts = λ st h. refl;
  deflates = λ st next input output b more rest made h e.
      let no_rest : rest ≡ [] = sym (ap (λ x. x.1.1.0) e) in
      let all_made : b ∷ more ≡ made = ap (λ x. x.1.1.1) e in
      (
        (
          b ∷ more,
          (
            ap (λ r. (b ∷ more) ++ r) no_rest ∙ append-nil (b ∷ more),
            ap (λ x. x ++ b ∷ more) h ∙ ap (λ x. output ++ x) all_made,
          ),
        ),
        omega (arith, ap length no_rest),
      );
  goes_on = λ st next input output rest made h e.
      (let bad = not_ok (ap (λ x. x.0) e) in (ground (arith, bad), ground (arith, bad)));
  ends = λ st next input output rest made h e.
      let none_made : [] ≡ made = ap (λ x. x.1.1.1) e in
      ap some (ap (λ m. output ++ m) (sym none_made) ∙ append-nil output ∙ sym h);
  crc32-append = sum_bytes-append;
}

abbrev three : Bytes
three = 1 ∷ 2 ∷ 3 ∷ []

abbrev attempt : Attempt
attempt = record {
  before = some map_source.info;
  after = some map_source.info;
  read_at = λ offset n. if offset == 0 then some three else none;
  stops = λ offset. false;
  creates = true;
  writes_gz = true;
  writes_marker = true;
  writes_meta = true;
  renames_gz = true;
  renames_meta = true;
  renames_skip = true;
  partial = [];
  now = 3;
  names = [];
}

abbrev or_three : Option Bytes → Bytes
or_three none = three
or_three (some s) = s

attempt-Reads : Reads attempt three
attempt-Reads zero n chunk h =
    let all_read : three ≡ chunk = ap or_three h in
    subst (λ s. s ++ drop (0 + length s) three ≡ three) all_read refl
attempt-Reads (suc offset) n chunk h = ground (arith, h)

gzip_from-Ends_example :
    Ends
      (λ gz. gunzip sum_bytes storing_codec.inflate gz ≡ some three)
      (gzip_from storing attempt 3 (some tt))
gzip_from-Ends_example = gzip_from-Ends storing storing_codec attempt three attempt-Reads

abbrev twenty : Bytes
twenty = three ++ three ++ three ++ three ++ three ++ three ++ three

attempt-Works : Works all_work attempt
attempt-Works = record {
  measured = λ n. refl;
  opened = λ n. refl;
  wrote = refl;
  renamed_gz = refl;
  renamed_meta = refl;
}

twenty-Pays : Pays empty_cache 2000 21
twenty-Pays = record {
  long = omega arith;
  small = omega arith;
  few = omega arith;
  room = omega arith;
  max = omega arith;
}

publish-lookup_example :
    (lookup all_work
      (publish all_work no_content empty_cache attempt (job_of map_source) map_source.info twenty).0
      map_source).1
    ≡ some (gz_name (job_of map_source).key, 21)
unfolding eligible mem_bytes bytes_eq
publish-lookup_example =
    publish-lookup all_work no_content empty_cache attempt map_source map_source.info twenty
      attempt-Works twenty-Pays refl refl refl

abbrev with_copy : CompressionCache
with_copy =
    (publish all_work no_content empty_cache attempt (job_of map_source) map_source.info twenty).0

publish-lookup_again :
    (lookup all_work with_copy map_source).1 ≡ some (gz_name (job_of map_source).key, 21)
unfolding eligible mem_bytes bytes_eq
publish-lookup_again =
    publish-lookup all_work no_content empty_cache attempt map_source map_source.info twenty
      attempt-Works twenty-Pays refl refl refl

lookup-Holds_example :
    Holds with_copy.directory
      (meta_name (cache_key (source_identity map_source)))
      (source_identity map_source)
    × ((gz_name (cache_key (source_identity map_source))
          ≡ gz_name (cache_key (source_identity map_source)))
        × (Measures with_copy.directory (gz_name (cache_key (source_identity map_source))) 21
            × (18 ≤ 21)))
lookup-Holds_example =
    lookup-Holds all_work with_copy map_source (gz_name (cache_key (source_identity map_source))) 21
      publish-lookup_again
