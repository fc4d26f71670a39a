-- ===== src/Cache/Queue.antt =====
-- src/compression_cache.cpp: the queue of jobs and the set of pending keys.
use mathlib.Core.List.{map-append}
use fastdl_mm.Prelude.{
  ℕ, ◌+◌, ◌%◌, ◌≤◌, ◌<◌, ◌≡◌, refl, sym, subst, inl, inr, Bool, true, false, not, ◌||◌, Option,
  none, some, List, [], ◌∷◌, ◌++◌, map, arith, leb, if◌then◌else◌, Bool-cases, if-elim,
  if-elim_false, if-elim_true, length, length-append, u64_mod, Bytes, bytes_eq, bytes_eq_sound,
  bytes_eq_refl, mem_bytes,
}
use fastdl_mm.Cache.{
  maximum_queued_jobs, eligible, skip_identity, skip_name, marker_matches, enqueue, copy_size,
  answer, job_of, lookup, request_build, CompressionSource, Job, CompressionCache, Access,
}
use fastdl_mm.Cache.Worker.{
  active_key, stop_threads, clear, next_job, take_job, begin_scan, erase, finish_job, job_for,
  begin_scan_if, finish_active, when_idle, step, run, System, Event, looks_up, requests, takes,
  scans, finishes, stops, clears,
}

abbrev one_if : Bool → ℕ
one_if false = 0
one_if true = 1

-- How often a key stands in a list.
abbrev pub count : Bytes → List Bytes → ℕ
count key [] = 0
count key (k ∷ keys) = one_if (bytes_eq k key) + count key keys

-- The keys that are worked on or wait.
abbrev pub busy : Option Job → List Job → List Bytes
busy active jobs = active_key active ++ map (λ (job : Job). job.key) jobs

-- The queue is in bounds, `pending` holds the keys of the thread's job and of the queue and no others, and each of
-- them once.
pub record Tracks (pending : List Bytes) (active : Option Job) (jobs : List Job) : Type 0 where
  pub room : length jobs ≤ maximum_queued_jobs
  pub tracked : (key : Bytes) → count key pending ≡ count key (busy active jobs)
  pub distinct : (key : Bytes) → count key pending ≤ 1

abbrev pub IsValid : System → Type 0
IsValid s = Tracks s.cache.pending s.active s.cache.jobs

count-append :
    (key : Bytes) (xs ys : List Bytes) → count key (xs ++ ys) ≡ count key xs + count key ys
count-append key [] ys = omega arith
count-append key (x ∷ xs) ys = omega (arith, count-append key xs ys)

mem_bytes-count :
    (key : Bytes) (keys : List Bytes) → mem_bytes key keys ≡ false → count key keys ≡ 0
unfolding mem_bytes
mem_bytes-count key [] h = refl
mem_bytes-count key (k ∷ keys) h = ground (arith, mem_bytes-count key keys)

-- A key that is not there, against any key.
count_new :
    (key new : Bytes) (keys : List Bytes)
    → mem_bytes new keys ≡ false
    → count key keys ≤ 1
    → one_if (bytes_eq new key) + count key keys ≤ 1
count_new key new keys h k = elim (Bool-cases (bytes_eq new key)) [
  | inl e ↦
      let none_there : count key keys ≡ 0 =
        subst (λ x. count x keys ≡ 0) (bytes_eq_sound new key e) (mem_bytes-count new keys h) in
      rw e (omega (arith, none_there))
  | inr e ↦ rw e (omega (arith, k))
]

count-erase :
    (key old : Bytes) (keys : List Bytes)
    → 1 ≤ count old keys
    → one_if (bytes_eq old key) + count key (erase old keys) ≡ count key keys
count-erase key old [] h = ground (arith, h)
count-erase key old (k ∷ keys) h = elim (Bool-cases (bytes_eq k old)) [
  | inl e ↦ let same = bytes_eq_sound k old e in rw (e, same) refl
  | inr e ↦
      let later : 1 ≤ count old keys = ground (arith, h, e) in
      rw e (omega (arith, count-erase key old keys later))
]

count-busy :
    (key : Bytes) (active : Option Job) (jobs : List Job) (job : Job)
    → count key (busy active (jobs ++ job ∷ []))
      ≡ count key (busy active jobs) + one_if (bytes_eq job.key key)
count-busy key active jobs job =
    let keys = map (λ (j : Job). j.key) in
    rw (map-append (λ (j : Job). j.key) jobs (job ∷ [])) (
      omega (
        arith,
        count-append key (active_key active) (keys jobs ++ job.key ∷ []),
        count-append key (active_key active) (keys jobs),
        count-append key (keys jobs) (job.key ∷ []),
      ))

enqueue-IsValid :
    (c : CompressionCache) (active : Option Job) (job : Job)
    → Tracks c.pending active c.jobs
    → Tracks (enqueue c job).pending active (enqueue c job).jobs
unfolding enqueue
enqueue-IsValid c active job v =
    let P : CompressionCache → Type 0 = λ d. Tracks d.pending active d.jobs in
    elim (Bool-cases
      (c.stopping || leb maximum_queued_jobs (length c.jobs) || mem_bytes job.key c.pending)) [
        | inl e ↦ if-elim_true P e _ v
        | inr e ↦
            let fresh : mem_bytes job.key c.pending ≡ false = ground (arith, e) in
            let free : length c.jobs < maximum_queued_jobs = ground (arith, e) in
            if-elim_false P e c (record {
              room = omega (arith, free, length-append c.jobs (job ∷ []));
              tracked = λ key. omega (
                arith,
                v.tracked key,
                count-append key c.pending (job.key ∷ []),
                count-busy key active c.jobs job,
              );
              distinct = λ key. omega (
                arith,
                count-append key c.pending (job.key ∷ []),
                count_new key job.key c.pending fresh (v.distinct key),
              );
            })
      ]

next_job-IsValid :
    (s : System) (jobs : List Job)
    → IsValid s
    → Tracks s.cache.pending none jobs
    → IsValid (next_job s jobs)
next_job-IsValid s [] v w = v
next_job-IsValid s (job ∷ jobs) v w = record {
  room = omega (arith, w.room);
  tracked = w.tracked;
  distinct = w.distinct;
}

take_job-IsValid : (s : System) → s.active ≡ none → IsValid s → IsValid (take_job s)
unfolding take_job
take_job-IsValid s h v =
    let w = subst (λ active. Tracks s.cache.pending active s.cache.jobs) h v in
    if-elim IsValid s.cache.stopping v
      (if-elim IsValid s.cache.build_requested v (next_job-IsValid s s.cache.jobs v w))

begin_scan-IsValid :
    (s : System) (job : Job) → s.active ≡ none → IsValid s → IsValid (begin_scan s job)
unfolding begin_scan
begin_scan-IsValid s job h v =
    let c = s.cache in
    let w = subst (λ active. Tracks c.pending active c.jobs) h v in
    elim (Bool-cases (c.stopping || mem_bytes job.key c.pending)) [
      | inl e ↦ if-elim_true IsValid e _ v
      | inr e ↦
          let fresh : mem_bytes job.key c.pending ≡ false = ground (arith, e) in
          if-elim_false IsValid e s (record {
            room = v.room;
            tracked =
                λ key. omega (arith, w.tracked key, count-append key c.pending (job.key ∷ []));
            distinct = λ key. omega (
              arith,
              count-append key c.pending (job.key ∷ []),
              count_new key job.key c.pending fresh (v.distinct key),
            );
          })
    ]

finish_job-IsValid :
    (c : CompressionCache) (job : Job) (succeeded : Bool)
    → Tracks c.pending (some job) c.jobs
    → Tracks (finish_job c job.key succeeded).pending none c.jobs
unfolding finish_job
finish_job-IsValid c job succeeded v =
    let there : 1 ≤ count job.key c.pending =
      rw (v.tracked job.key, bytes_eq_refl job.key) (omega arith) in
    record {
      room = v.room;
      tracked = λ key. omega (arith, v.tracked key, count-erase key job.key c.pending there);
      distinct = λ key. omega (arith, v.distinct key, count-erase key job.key c.pending there);
    }

answer-IsValid :
    (access : Access) (c : CompressionCache) (active : Option Job) (job : Job) (size : Option ℕ)
    → Tracks c.pending active c.jobs
    → Tracks (answer access c job size).0.pending active (answer access c job size).0.jobs
unfolding answer
answer-IsValid access c active job (some size) v = v
answer-IsValid access c active job none v =
    let P : CompressionCache × Option (Bytes × ℕ) → Type 0 =
      λ d. Tracks d.0.pending active d.0.jobs in
    if-elim P (marker_matches access c.directory (skip_name job.key) (skip_identity c job.source)) v
      (enqueue-IsValid (record c { misses = (c.misses + 1) % u64_mod }) active job v)

lookup-IsValid :
    (access : Access) (c : CompressionCache) (active : Option Job) (source : CompressionSource)
    → Tracks c.pending active c.jobs
    → Tracks (lookup access c source).0.pending active (lookup access c source).0.jobs
unfolding lookup
lookup-IsValid access c active source v =
    let P : CompressionCache × Option (Bytes × ℕ) → Type 0 =
      λ d. Tracks d.0.pending active d.0.jobs in
    let job = job_of source in
    if-elim P (not c.running || not (eligible source)) v
      (answer-IsValid access c active job (copy_size access c.directory job.key job.identity) v)

finish_active-IsValid :
    (s : System) (c : CompressionCache) (succeeded : Bool) (active : Option Job)
    → IsValid s
    → Tracks c.pending active c.jobs
    → IsValid (finish_active s c succeeded active)
unfolding finish_job
finish_active-IsValid s c succeeded none v w = v
finish_active-IsValid s c succeeded (some job) v w = finish_job-IsValid c job succeeded w

when_idle-IsValid :
    (active : Option Job) (s t : System)
    → IsValid s
    → (active ≡ none → IsValid t)
    → IsValid (when_idle active s t)
when_idle-IsValid none s t v w = w refl
when_idle-IsValid (some job) s t v w = v

begin_scan_if-IsValid :
    (s : System) (o : Option Job) → s.active ≡ none → IsValid s → IsValid (begin_scan_if s o)
begin_scan_if-IsValid s none h v = v
begin_scan_if-IsValid s (some job) h v = begin_scan-IsValid s job h v

clear-IsValid : (s : System) → s.active ≡ none → IsValid (clear s)
unfolding clear
clear-IsValid s h =
    subst (λ active. Tracks [] active []) (sym h)
      (record { room = omega arith; tracked = λ key. refl; distinct = λ key. omega arith })

step-IsValid : (s : System) (e : Event) → IsValid s → IsValid (step s e)
unfolding step stop_threads request_build
step-IsValid s (looks_up access source) v = lookup-IsValid access s.cache s.active source v
step-IsValid s requests v =
    if-elim (λ (c : CompressionCache). Tracks c.pending s.active c.jobs) s.cache.stopping v v
step-IsValid s takes v = when_idle-IsValid s.active s (take_job s) v (λ h. take_job-IsValid s h v)
step-IsValid s (scans access env relative) v =
    let o = job_for access env s.cache relative in
    when_idle-IsValid s.active s (begin_scan_if s o) v (λ h. begin_scan_if-IsValid s o h v)
step-IsValid s (finishes d entries bytes succeeded) v =
    finish_active-IsValid s (record s.cache { directory = d; entries = entries; bytes = bytes })
      succeeded s.active v v
step-IsValid s stops v = v
step-IsValid s clears v =
    when_idle-IsValid s.active s (if s.cache.stopping then clear s else s) v
      (λ h. if-elim IsValid s.cache.stopping (clear-IsValid s h) v)

-- In any history of lookups, builds, jobs and stops from a valid state, the queue holds at most 1024
-- jobs, and the set of pending keys is that of the thread's job and the queued ones, without a second
-- job of one key: so no two jobs write the same files, and a key is free again once its job is done.
pub run-IsValid : (s : System) (es : List Event) → IsValid s → IsValid (run s es)
unfolding run
run-IsValid s [] v = v
run-IsValid s (e ∷ es) v = run-IsValid (step s e) es (step-IsValid s e v)
