-- ===== src/Bandwidth/Leases.antt =====
-- src/bandwidth_limiter.cpp: which bucket a lease draws on, and the size of the client map.
use fastdl_mm.Prelude.{
  ℕ, zero, suc, ◌≤◌, ◌≡◌, refl, sym, ap, ◌∙◌, inl, inr, Bool, Option, none, some, List, [], ◌∷◌,
  ◌++◌, arith, Bool-cases, Option-cases, length, get_elem?, Bytes, bytes_eq,
}
use fastdl_mm.Bandwidth.{
  maximum_tracked_clients, configure_bucket, drop_expired, cleanup_clients, lookup, put,
  make_client, overflow, set_bucket, Bucket, Limiter,
}

abbrev pub rate_of : List Bucket → ℕ → Option ℕ
rate_of [] o = none
rate_of (b ∷ bs) zero = some b.bytes_per_second
rate_of (b ∷ bs) (suc o) = rate_of bs o

rate_of-append :
    (bs cs : List Bucket) (o r : ℕ) → rate_of bs o ≡ some r → rate_of (bs ++ cs) o ≡ some r
rate_of-append [] cs o r h = cc
rate_of-append (b ∷ bs) cs zero r h = h
rate_of-append (b ∷ bs) cs (suc o) r h = rate_of-append bs cs o r h

rate_of-new :
    (bs : List Bucket) (b : Bucket) → rate_of (bs ++ b ∷ []) (length bs) ≡ some b.bytes_per_second
rate_of-new [] b = refl
rate_of-new (c ∷ bs) b = rate_of-new bs b

pub rate_of-set_bucket :
    (bs : List Bucket) (i o : ℕ) (b c : Bucket)
    → get_elem? bs i ≡ some b
    → c.bytes_per_second ≡ b.bytes_per_second
    → rate_of (set_bucket bs i c) o ≡ rate_of bs o
unfolding set_bucket
rate_of-set_bucket [] i o b c h e = refl
rate_of-set_bucket (x ∷ xs) zero zero b c h e = ground arith
rate_of-set_bucket (x ∷ xs) zero (suc o) b c h e = refl
rate_of-set_bucket (x ∷ xs) (suc i) zero b c h e = refl
rate_of-set_bucket (x ∷ xs) (suc i) (suc o) b c h e = rate_of-set_bucket xs i o b c h e

-- Every client that the limiter can hand out has a bucket at the per-address rate, and the map holds
-- at most `kMaximumTrackedClients` of them.
abbrev pub Rated : List Bucket → ℕ → Option ℕ → Type 0
Rated heap r none = Unit {0}
Rated heap r (some o) = rate_of heap o ≡ some r

abbrev pub RatedAll : List Bucket → ℕ → List (Bytes × ℕ) → Type 0
RatedAll heap r [] = Unit {0}
RatedAll heap r ((ip, o) ∷ m) = (rate_of heap o ≡ some r) × RatedAll heap r m

pub record IsValid (l : Limiter) : Type 0 where
  pub room : length l.clients ≤ maximum_tracked_clients
  pub known : RatedAll l.heap l.per_ip_rate l.clients
  pub shared : Rated l.heap l.per_ip_rate l.overflow_client

RatedAll-append :
    (heap cs : List Bucket) (r : ℕ) (m : List (Bytes × ℕ))
    → RatedAll heap r m
    → RatedAll (heap ++ cs) r m
RatedAll-append heap cs r [] h = tt
RatedAll-append heap cs r ((ip, o) ∷ m) h =
    (rate_of-append heap cs o r h.0, RatedAll-append heap cs r m h.1)

Rated-append :
    (heap cs : List Bucket) (r : ℕ) (o : Option ℕ) → Rated heap r o → Rated (heap ++ cs) r o
Rated-append heap cs r none h = tt
Rated-append heap cs r (some o) h = rate_of-append heap cs o r h

pub RatedAll-put :
    (heap : List Bucket) (r : ℕ) (ip : Bytes) (o : ℕ) (m : List (Bytes × ℕ))
    → rate_of heap o ≡ some r
    → RatedAll heap r m
    → RatedAll heap r (put ip o m) × (length (put ip o m) ≤ suc (length m))
unfolding put
RatedAll-put heap r ip o [] e h = ((e, tt), omega arith)
RatedAll-put heap r ip o ((j, p) ∷ m) e h = ground (arith, RatedAll-put heap r ip o m e h.1)

RatedAll-drop_expired :
    (heap : List Bucket) (r : ℕ) (alive : ℕ → Bool) (m : List (Bytes × ℕ))
    → RatedAll heap r m
    → RatedAll heap r (drop_expired alive m) × (length (drop_expired alive m) ≤ length m)
unfolding drop_expired
RatedAll-drop_expired heap r alive [] h = (tt, omega arith)
RatedAll-drop_expired heap r alive ((j, p) ∷ m) h =
    ground (arith, RatedAll-drop_expired heap r alive m h.1)

pub Rated-lookup :
    (heap : List Bucket) (r : ℕ) (ip : Bytes) (m : List (Bytes × ℕ))
    → RatedAll heap r m
    → Rated heap r (lookup ip m)
unfolding lookup
Rated-lookup heap r ip [] h = tt
Rated-lookup heap r ip ((j, p) ∷ m) h = elim (Bool-cases (bytes_eq j ip)) [
  | inl e ↦ rw e h.0
  | inr e ↦ rw e (Rated-lookup heap r ip m h.1)
]

pub cleanup_clients-IsValid :
    (l : Limiter) (alive : ℕ → Bool) → IsValid l → IsValid (cleanup_clients l alive)
unfolding cleanup_clients
cleanup_clients-IsValid l alive v =
    let (known, fewer) = RatedAll-drop_expired l.heap l.per_ip_rate alive l.clients v.known in
    record { room = omega arith; known = known; shared = v.shared }

pub make_client-IsValid : (l : Limiter) (now : ℕ) → IsValid l → IsValid (make_client l now).0
unfolding make_client
make_client-IsValid l now v = record {
  room = v.room;
  known = RatedAll-append l.heap _ l.per_ip_rate l.clients v.known;
  shared = Rated-append l.heap _ l.per_ip_rate l.overflow_client v.shared;
}

pub make_client-rate :
    (l : Limiter) (now : ℕ)
    → rate_of (make_client l now).0.heap (make_client l now).1 ≡ some l.per_ip_rate
unfolding make_client configure_bucket
make_client-rate l now = rate_of-new l.heap (configure_bucket l.per_ip_rate l.quantum now)

-- A state and a lease on it.
pub record Leased (before : Limiter) (r : Limiter × Option ℕ) : Type 0 where
  pub valid : IsValid r.0
  pub same_rate : r.0.per_ip_rate ≡ before.per_ip_rate
  pub client : ℕ
  pub held : r.1 ≡ some client
  pub rated : rate_of r.0.heap client ≡ some before.per_ip_rate

pub overflow-Leased : (l : Limiter) (now : ℕ) → IsValid l → Leased l (overflow l now)
unfolding overflow
overflow-Leased l now v = elim (Option-cases l.overflow_client) [
  | inr (o, e) ↦
      rw (e, overflow)
        (record { valid = v; same_rate = refl; client = o; held = refl; rated = rw e at v.shared })
  | inl e ↦
      let v' = make_client-IsValid l now v in
      let new = make_client-rate l now in
      let same : (make_client l now).0.per_ip_rate ≡ l.per_ip_rate = unfold make_client in refl in
      rw (e, overflow)
        (record {
          valid = record { room = v'.room; known = v'.known; shared = new ∙ ap some (sym same) };
          same_rate = same;
          client = (make_client l now).1;
          held = refl;
          rated = new;
        })
]
