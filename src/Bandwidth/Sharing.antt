-- ===== src/Bandwidth/Sharing.antt =====
-- src/bandwidth_limiter.cpp: `attach`.
use fastdl_mm.Prelude.{
  ℕ, ◌≡◌, refl, sym, ap, ◌∙◌, ◌≢◌, inl, inr, Bool, false, Option, none, some, List, arith, leb,
  ◌==◌, if◌then◌else◌, ==_iff, Bool-cases, Option-cases, length, add_size, Bytes,
}
use fastdl_mm.Bandwidth.{
  maximum_tracked_clients, cleanup_clients, lookup, put, lock, make_client, overflow, enrol,
  count_attachment, attach, Bucket, Limiter,
}
use fastdl_mm.Bandwidth.Leases.{
  rate_of, Rated, RatedAll-put, Rated-lookup, cleanup_clients-IsValid, make_client-IsValid,
  make_client-rate, overflow-Leased, IsValid, Leased,
}

enrol-Leased :
    (l : Limiter) (alive : ℕ → Bool) (ip : Bytes) (now : ℕ)
    → IsValid l
    → Leased l (enrol l alive ip now)
unfolding enrol
enrol-Leased l alive ip now v = elim (Bool-cases (leb maximum_tracked_clients (length l.clients))) [
  | inr room ↦ rw room (place l v)
  | inl full ↦
      let k = place (cleanup_clients l alive) (cleanup_clients-IsValid l alive v) in
      rw full (record {
        valid = k.valid;
        same_rate = k.same_rate ∙ kept_rate;
        client = k.client;
        held = k.held;
        rated = k.rated ∙ ap some kept_rate;
      })
]
  where
    kept_rate : (cleanup_clients l alive).per_ip_rate ≡ l.per_ip_rate
    kept_rate = unfold cleanup_clients in refl

    fresh :
        (s : Limiter)
        → IsValid s
        → leb maximum_tracked_clients (length s.clients) ≡ false
        → Leased s (
            let (l2, o) = make_client s now in
            (record l2 { clients = put ip o l2.clients }, some o))
    fresh s w room =
        let w' = make_client-IsValid s now w in
        let new = make_client-rate s now in
        let same : (make_client s now).0.per_ip_rate ≡ s.per_ip_rate = unfold make_client in refl in
        let kept : (make_client s now).0.clients ≡ s.clients = unfold make_client in refl in
        let (known, fewer) =
          RatedAll-put (make_client s now).0.heap (make_client s now).0.per_ip_rate ip
            (make_client s now).1 (make_client s now).0.clients (new ∙ ap some (sym same))
            w'.known in
        record {
          valid = record { room = ground (arith, fewer, kept); known = known; shared = w'.shared };
          same_rate = same;
          client = (make_client s now).1;
          held = refl;
          rated = new;
        }

    place :
        (s : Limiter)
        → IsValid s
        → Leased s (
            if leb maximum_tracked_clients (length s.clients)
            then overflow s now
            else let (l2, o) = make_client s now in
              (record l2 { clients = put ip o l2.clients }, some o))
    place s w = elim (Bool-cases (leb maximum_tracked_clients (length s.clients))) [
      | inl full ↦ rw full (overflow-Leased s now w)
      | inr room ↦ rw room (fresh s w room)
    ]

count_attachment-IsValid :
    (l : Limiter) (alive : ℕ → Bool) → IsValid l → IsValid (count_attachment l alive)
unfolding count_attachment
count_attachment-IsValid l alive v =
    let n = add_size l.attachments_since_cleanup 1 in
    let counted : Limiter = record l { attachments_since_cleanup = n } in
    let w : IsValid counted = record { room = v.room; known = v.known; shared = v.shared } in
    elim (Bool-cases (leb 64 n)) [
      | inl due ↦ rw due (cleanup_clients-IsValid counted alive w)
      | inr not_due ↦ rw not_due w
    ]

count_attachment_kept :
    (l : Limiter) (alive : ℕ → Bool)
    → ((count_attachment l alive).per_ip_rate ≡ l.per_ip_rate)
      × ((count_attachment l alive).heap ≡ l.heap)
unfolding count_attachment cleanup_clients
count_attachment_kept l alive = ground arith

-- With a per-address limit, `attach` always returns a lease on a client whose bucket runs at that
-- rate, a shared one when `kMaximumTrackedClients` addresses are tracked, and the map stays within
-- that number.
pub attach-Leased :
    (l : Limiter) (alive : ℕ → Bool) (ip : Bytes) (now : ℕ)
    → IsValid l
    → l.per_ip_rate ≢ 0
    → Leased l (attach l alive ip now)
unfolding attach
attach-Leased l alive ip now v limited =
    let l1 = count_attachment l alive in
    let v1 = count_attachment-IsValid l alive v in
    let (same, _) = count_attachment_kept l alive in
    elim (Bool-cases (l.per_ip_rate == 0)) [
      | inl off ↦ absurd (limited ((==_iff l.per_ip_rate 0).0 off))
      | inr on ↦ rw on (elim (Option-cases (lock alive (lookup ip l1.clients))) [
        | inr (o, e) ↦ rw e (record {
          valid = v1;
          same_rate = same;
          client = o;
          held = refl;
          rated =
              locked l1.heap l1.per_ip_rate o (lookup ip l1.clients)
                (Rated-lookup l1.heap l1.per_ip_rate ip l1.clients v1.known) e
              ∙ ap some same;
        })
        | inl e ↦
            let k = enrol-Leased l1 alive ip now v1 in
            rw e (record {
              valid = k.valid;
              same_rate = k.same_rate ∙ same;
              client = k.client;
              held = k.held;
              rated = k.rated ∙ ap some same;
            })
      ])
    ]
  where
    locked :
        (heap : List Bucket) (r o : ℕ) (found : Option ℕ)
        → Rated heap r found
        → lock alive found ≡ some o
        → rate_of heap o ≡ some r
    locked heap r o none h e = unfold lock in cc
    locked heap r o (some p) h e = unfold lock in ground arith
