-- ===== src/Bandwidth/Grants.antt =====
-- src/bandwidth_limiter.cpp: `configure` and `acquire`.
use fastdl_mm.Prelude.{
  ℕ, ◌*◌, ◌≤◌, ◌<◌, min, ◌≡◌, refl, ◌∙◌, ◌⊎◌, inl, inr, Bool, true, false, ◌&&◌, ◌||◌, Option, none,
  some, List, [], ◌∷◌, arith, ◌==◌, Bool-cases, Option-cases, get_elem?, is_none, Bytes,
}
use fastdl_mm.Bandwidth.{
  minimum_quantum, maximum_quantum, rate_from_mbps, configure_bucket, stop, controlling_rate,
  quantum_for, configure, reserve, reserve_client, grant, acquire, Mbps, Bucket, Limiter,
}
use fastdl_mm.Bandwidth.Leases.{rate_of, rate_of-set_bucket, Rated, RatedAll, IsValid}

stop-IsValid : (l : Limiter) → IsValid (stop l)
unfolding stop
stop-IsValid l = record { room = omega arith; known = tt; shared = tt }

-- `configure` starts a limiter with no clients, whatever it was before, whose chunks have between 1 KiB
-- and 16 KiB if there is a limit and 64 KiB if there is none, and whose rates are the given ones.
pub configure-IsValid :
    (l : Limiter) (global_mbps per_ip_mbps : Mbps) (now : ℕ)
    → let l' = configure l global_mbps per_ip_mbps now in
      IsValid l'
      × (l'.stopping ≡ false)
      × (l'.per_ip_rate ≡ rate_from_mbps per_ip_mbps)
      × (l'.global.bytes_per_second ≡ rate_from_mbps global_mbps)
      × (l'.quantum ≤ 64 * 1024)
      × (minimum_quantum ≤ l'.quantum)
      × (((l'.per_ip_rate ≡ 0) × (l'.global.bytes_per_second ≡ 0)) ⊎ (l'.quantum ≤ maximum_quantum))
unfolding configure stop configure_bucket quantum_for controlling_rate
configure-IsValid l global_mbps per_ip_mbps now = (
  record { room = omega arith; known = tt; shared = tt },
  refl,
  refl,
  refl,
  ground arith,
  ground arith,
  ground arith,
)

reserve-rate :
    (b : Bucket) (bytes now : ℕ) → (reserve b bytes now).0.bytes_per_second ≡ b.bytes_per_second
unfolding reserve
reserve-rate b bytes now = ground arith

reserve-later : (b : Bucket) (bytes now : ℕ) → now ≤ (reserve b bytes now).1
unfolding reserve
reserve-later b bytes now = ground arith

reserve_client-rate :
    (heap : List Bucket) (lease : Option ℕ) (bytes now o : ℕ)
    → rate_of (reserve_client heap lease bytes now).0 o ≡ rate_of heap o
unfolding reserve_client
reserve_client-rate heap none bytes now o = refl
reserve_client-rate heap (some i) bytes now o = elim (Option-cases (get_elem? heap i)) [
  | inl e ↦ rw (e, reserve_client)
  | inr (b, e) ↦
      rw (e, reserve_client)
        (rate_of-set_bucket heap i o b (reserve b bytes now).0 e (reserve-rate b bytes now))
]

Rated-transport :
    (heap heap' : List Bucket) (r : ℕ) (o : Option ℕ)
    → ((i : ℕ) → rate_of heap' i ≡ rate_of heap i)
    → Rated heap r o
    → Rated heap' r o
Rated-transport heap heap' r none e h = tt
Rated-transport heap heap' r (some o) e h = e o ∙ h

RatedAll-transport :
    (heap heap' : List Bucket) (r : ℕ) (m : List (Bytes × ℕ))
    → ((i : ℕ) → rate_of heap' i ≡ rate_of heap i)
    → RatedAll heap r m
    → RatedAll heap' r m
RatedAll-transport heap heap' r [] e h = tt
RatedAll-transport heap heap' r ((ip, o) ∷ m) e h =
    (e o ∙ h.0, RatedAll-transport heap heap' r m e h.1)

-- `acquire` keeps the invariant of the clients.
pub acquire-IsValid :
    (l : Limiter) (lease : Option ℕ) (desired now : ℕ) (cancelled stopped : Bool)
    → IsValid l
    → IsValid (acquire l lease desired now cancelled stopped).0
unfolding acquire
acquire-IsValid l lease desired now cancelled stopped v =
    elim (Bool-cases (desired == 0 || l.stopping)) [
      | inl quiet ↦ rw quiet v
      | inr busy ↦ rw busy (elim (Bool-cases (l.global.bytes_per_second == 0 && is_none lease)) [
        | inl free ↦ rw free v
        | inr limited ↦
            let e = reserve_client-rate l.heap lease (min desired l.quantum) now in
            rw limited (record {
              room = v.room;
              known = RatedAll-transport l.heap _ l.per_ip_rate l.clients e v.known;
              shared = Rated-transport l.heap _ l.per_ip_rate l.overflow_client e v.shared;
            })
      ])
    ]

reserve_client-later :
    (heap : List Bucket) (lease : Option ℕ) (bytes now : ℕ)
    → now ≤ (reserve_client heap lease bytes now).1
unfolding reserve_client
reserve_client-later heap none bytes now = omega arith
reserve_client-later heap (some i) bytes now = elim (Option-cases (get_elem? heap i)) [
  | inl e ↦ rw (e, reserve_client) (omega arith)
  | inr (b, e) ↦ rw (e, reserve_client) (reserve-later b bytes now)
]

-- What `acquire` grants, on every path: never more than was asked for, and with a limit in force never
-- more than one chunk; the bytes are allowed no earlier than the call; and if anything is granted then
-- something was asked for, the limiter was not stopped before, no wait was cancelled and, with a limit in
-- force, the limiter was not stopped by the end of the call. (Without a limit nothing waits and `acquire`
-- does not look again.)
pub acquire-grants :
    (l : Limiter) (lease : Option ℕ) (desired now : ℕ) (cancelled stopped : Bool)
    → let r = acquire l lease desired now cancelled stopped in
      (r.2 ≤ desired)
      × (now ≤ r.1)
      × (((l.global.bytes_per_second ≡ 0) × (is_none lease ≡ true)) ⊎ (r.2 ≤ l.quantum))
      × ((r.2 ≡ 0)
          ⊎ ((0 < desired)
              × (l.stopping ≡ false)
              × ((stopped ≡ false) ⊎ ((l.global.bytes_per_second ≡ 0) × (is_none lease ≡ true)))
              × ((cancelled ≡ false) ⊎ (r.1 ≡ now))))
unfolding acquire grant
acquire-grants l lease desired now cancelled stopped =
    let g = min desired l.quantum in
    let a = reserve-later l.global g now in
    let b = reserve_client-later l.heap lease g now in
    (ground (arith, a, b), ground (arith, a, b), ground arith, ground (arith, a, b))
