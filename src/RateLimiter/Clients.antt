-- ===== src/RateLimiter/Clients.antt =====
-- The map from addresses to client records of src/rate_limiter.h, and its laws.
use fastdl_mm.Prelude.{
  ℕ, suc, ◌+◌, ◌≤◌, ◌≡◌, refl, ◌≢◌, List, [], ◌∷◌, Option, none, some, arith, Bytes, bytes_eq,
  bytes_eq_iff, if◌then◌else◌, length,
}

pub record Client : Type 0 where
  pub requests : List ℕ
  pub denials : List ℕ
  pub blocked_until : ℕ
  pub last_seen : ℕ

-- `Client{}`.
abbrev pub no_client : Client
no_client = record { requests = []; denials = []; blocked_until = 0; last_seen = 0 }

abbrev pub size : Client → ℕ
size c = length c.requests + length c.denials

unfoldable pub lookup : Bytes → List (Bytes × Client) → Option Client
lookup k [] = none
lookup k ((j, c) ∷ m) = if bytes_eq j k then some c else lookup k m

-- Writes the entry of `k`, or adds one.
unfoldable pub put : Bytes → Client → List (Bytes × Client) → List (Bytes × Client)
put k c [] = (k, c) ∷ []
put k c ((j, d) ∷ m) = if bytes_eq j k then (j, c) ∷ m else (j, d) ∷ put k c m

unfoldable pub remove : Bytes → List (Bytes × Client) → List (Bytes × Client)
remove k [] = []
remove k ((j, d) ∷ m) = if bytes_eq j k then m else (j, d) ∷ remove k m

-- All events that the map holds.
abbrev pub events : List (Bytes × Client) → ℕ
events [] = 0
events ((j, c) ∷ m) = size c + events m

-- No address has two entries.
abbrev pub Distinct : List (Bytes × Client) → Type 0
Distinct [] = Unit {0}
Distinct ((j, c) ∷ m) = (lookup j m ≡ none) × Distinct m

pub lookup-put :
    (k j : Bytes) (c : Client) (m : List (Bytes × Client))
    → lookup j (put k c m) ≡ (if bytes_eq k j then some c else lookup j m)
unfolding lookup put
lookup-put k j c [] = refl
lookup-put k j c ((i, d) ∷ m) =
    ground (arith, bytes_eq_iff k j, bytes_eq_iff i k, bytes_eq_iff i j, lookup-put k j c m)

pub lookup-remove_ne :
    (k j : Bytes) (m : List (Bytes × Client)) → k ≢ j → lookup j (remove k m) ≡ lookup j m
unfolding lookup remove
lookup-remove_ne k j [] h = refl
lookup-remove_ne k j ((i, d) ∷ m) h =
    ground (arith, bytes_eq_iff i k, bytes_eq_iff i j, lookup-remove_ne k j m)

pub lookup-remove :
    (k : Bytes) (m : List (Bytes × Client)) → Distinct m → lookup k (remove k m) ≡ none
unfolding lookup remove
lookup-remove k [] h = refl
lookup-remove k ((i, d) ∷ m) h = ground (arith, bytes_eq_iff i k, lookup-remove k m h.1)

pub events-put :
    (k : Bytes) (c d : Client) (m : List (Bytes × Client))
    → lookup k m ≡ some d
    → (events (put k c m) + size d ≡ events m + size c) × (length (put k c m) ≡ length m)
unfolding lookup put
events-put k c d [] e = cc
events-put k c d ((i, x) ∷ m) e = ground (arith, events-put k c d m)

pub events-put_new :
    (k : Bytes) (c : Client) (m : List (Bytes × Client))
    → lookup k m ≡ none
    → (events (put k c m) ≡ events m + size c) × (length (put k c m) ≡ suc (length m))
unfolding lookup put
events-put_new k c [] e = omega arith
events-put_new k c ((i, x) ∷ m) e = ground (arith, events-put_new k c m)

pub events-remove :
    (k : Bytes) (d : Client) (m : List (Bytes × Client))
    → lookup k m ≡ some d
    → (events (remove k m) + size d ≡ events m) × (length (remove k m) ≤ length m)
unfolding lookup remove
events-remove k d [] e = cc
events-remove k d ((i, x) ∷ m) e = ground (arith, events-remove k d m)

pub put-Distinct :
    (k : Bytes) (c : Client) (m : List (Bytes × Client)) → Distinct m → Distinct (put k c m)
unfolding put lookup
put-Distinct k c [] h = (refl, tt)
put-Distinct k c ((i, x) ∷ m) h =
    ground (arith, bytes_eq_iff i k, bytes_eq_iff k i, lookup-put k i c m, put-Distinct k c m h.1)

pub remove-Distinct : (k : Bytes) (m : List (Bytes × Client)) → Distinct m → Distinct (remove k m)
unfolding remove
remove-Distinct k [] h = tt
remove-Distinct k ((i, x) ∷ m) h =
    ground
      (arith, bytes_eq_iff i k, bytes_eq_iff k i, lookup-remove_ne k i m, remove-Distinct k m h.1)
