-- ===== src/Logger/Shutdown.antt =====
-- src/logger.cpp: the end of the thread after `stop`.
use fastdl_mm.Prelude.{
  ℕ, suc, ◌+◌, ◌≤◌, ◌≡◌, refl, sym, ap, subst, ◌∙◌, ◌⊎◌, inl, inr, Bool, true, false, not, Option,
  none, some, List, [], ◌∷◌, arith, Bool-cases, if-elim, if-elim_false, if-elim_true, Bytes,
}
use fastdl_mm.Logger.{
  MkTime, write, Batch, take_batch, open_file, flush_batch, take_next, flush_next, step, run,
  AsyncLogger, Round, System, Event, writes, takes, flushes, stops,
}
use fastdl_mm.Logger.Delivery.{flush_next-running}

-- How many moves the thread has left in a stopping system: it flushes what it holds, takes what is queued,
-- flushes that, and sees the empty queue.
abbrev rank_of : Bool → List Bytes → Option Batch → ℕ
rank_of false q h = 0
rank_of true [] none = 1
rank_of true [] (some b) = 2
rank_of true (x ∷ q) none = 3
rank_of true (x ∷ q) (some b) = 4

abbrev pub rank : System → ℕ
rank s = rank_of s.running s.logger.queue s.hand

-- Whether an event is the thread's own move: the take of a running thread that holds nothing, the flush of
-- one that holds a batch.
abbrev is_move : Event → Bool → Option Batch → ℕ
is_move takes true none = 1
is_move (flushes r) true (some b) = 1
is_move _ _ _ = 0

abbrev pub moves : MkTime → System → List Event → ℕ
moves mktime s [] = 0
moves mktime s (e ∷ es) = is_move e s.running s.hand + moves mktime (step mktime s e) es

write-stopping : (l : AsyncLogger) (line : Bytes) → l.stopping ≡ true → write l line ≡ l
unfolding write
write-stopping l line h = if-elim_true (λ m. m ≡ l) h _ refl

list_cases : (q : List Bytes) → (q ≡ []) ⊎ ((x : Bytes) × ((xs : List Bytes) × (q ≡ x ∷ xs)))
list_cases [] = inl refl
list_cases (x ∷ xs) = inr (x, (xs, refl))

-- A later system, still stopping, after so many moves.
abbrev Moved : ℕ → System → System → Type 0
Moved n s t = (t.logger.stopping ≡ true) × (n + rank t ≡ rank s)

take_batch-Ranked :
    (s : System)
    → s.logger.stopping ≡ true
    → s.running ≡ true
    → s.hand ≡ none
    → Moved 1 s (take_batch s)
unfolding take_batch
take_batch-Ranked s h g k = elim (list_cases s.logger.queue) [
  | inl q ↦ simp (h, g, k, q) (refl, refl)
  | inr (x, (xs, q)) ↦ simp (h, g, k, q) (refl, refl)
]

flushed_lem :
    (s : System) (b : Batch)
    → s.running ≡ true
    → s.hand ≡ some b
    → suc (rank_of s.running s.logger.queue none) ≡ rank s
flushed_lem s b g k = elim (list_cases s.logger.queue) [
  | inl q ↦ simp (g, k, q) refl
  | inr (x, (xs, q)) ↦ simp (g, k, q) refl
]

flush_batch-Ranked :
    (mktime : MkTime) (s : System) (r : Round) (b : Batch)
    → s.logger.stopping ≡ true
    → s.running ≡ true
    → s.hand ≡ some b
    → Moved 1 s (flush_batch mktime s r b)
unfolding flush_batch
flush_batch-Ranked mktime s r b h g k =
    let P = Moved 1 s in
    let w = (open_file mktime s.logger s.worker r).0 in
    let e : (s.logger.stopping ≡ true) × (1 + rank_of s.running s.logger.queue none ≡ rank s) =
      (h, omega (arith, flushed_lem s b g k)) in
    if-elim P (not w.good) e (if-elim P r.fails e e)

flush_batch-stopping :
    (mktime : MkTime) (s : System) (r : Round) (b : Batch)
    → s.logger.stopping ≡ true
    → (flush_batch mktime s r b).logger.stopping ≡ true
unfolding flush_batch
flush_batch-stopping mktime s r b h =
    let P : System → Type 0 = λ t. t.logger.stopping ≡ true in
    if-elim P (not (open_file mktime s.logger s.worker r).0.good) h (if-elim P r.fails h h)

rank_ended : (t : System) → t.running ≡ false → rank t ≡ 0
rank_ended t h = ap (λ r. rank_of r t.logger.queue t.hand) h

stays : (s t : System) → t.logger.stopping ≡ true → rank t ≡ rank s → Moved 0 s t
stays s t h e = (h, omega (arith, e))

-- From a known value of `running` to a system's.
while_running :
    (e : Event) (o : Option Batch) (s t : System) {r : Bool}
    → s.running ≡ r
    → Moved (is_move e r o) s t
    → Moved (is_move e s.running o) s t
while_running e o s t g k = subst (λ r. Moved (is_move e r o) s t) (sym g) k

take_next-Ranked :
    (s : System) (o : Option Batch)
    → s.logger.stopping ≡ true
    → s.hand ≡ o
    → Moved (is_move takes s.running o) s (take_next s o)
unfolding take_next
take_next-Ranked s (some b) h k = elim (Bool-cases s.running) [
  | inl g ↦ while_running takes (some b) s s g (stays s s h refl)
  | inr g ↦ while_running takes (some b) s s g (stays s s h refl)
]
take_next-Ranked s none h k = elim (Bool-cases s.running) [
  | inl g ↦
      while_running takes none s (take_next s none) g
        (if-elim_true (Moved 1 s) g _ (take_batch-Ranked s h g k))
  | inr g ↦
      while_running takes none s (take_next s none) g
        (if-elim_false (Moved 0 s) g _ (stays s s h refl))
]

flush_next-Ranked :
    (mktime : MkTime) (s : System) (r : Round) (o : Option Batch)
    → s.logger.stopping ≡ true
    → s.hand ≡ o
    → Moved (is_move (flushes r) s.running o) s (flush_next mktime s r o)
unfolding flush_next
flush_next-Ranked mktime s r none h k = elim (Bool-cases s.running) [
  | inl g ↦ while_running (flushes r) none s s g (stays s s h refl)
  | inr g ↦ while_running (flushes r) none s s g (stays s s h refl)
]
flush_next-Ranked mktime s r (some b) h k =
    let t = flush_batch mktime s r b in
    elim (Bool-cases s.running) [
      | inl g ↦ while_running (flushes r) (some b) s t g (flush_batch-Ranked mktime s r b h g k)
      | inr g ↦ while_running (flushes r) (some b) s t g (
          stays s t (flush_batch-stopping mktime s r b h)
            (rank_ended t (flush_next-running mktime s r (some b) ∙ g) ∙ sym (rank_ended s g)))
    ]

step-Ranked :
    (mktime : MkTime) (s : System) (e : Event)
    → s.logger.stopping ≡ true
    → Moved (is_move e s.running s.hand) s (step mktime s e)
unfolding step
step-Ranked mktime s (writes line) h =
    subst (λ l. Moved 0 s (record s { logger = l })) (sym (write-stopping s.logger line h))
      (stays s s h refl)
step-Ranked mktime s stops h = (refl, omega arith)
step-Ranked mktime s takes h = take_next-Ranked s s.hand h refl
step-Ranked mktime s (flushes r) h = flush_next-Ranked mktime s r s.hand h refl

pub run-rank :
    (mktime : MkTime) (s : System) (es : List Event)
    → s.logger.stopping ≡ true
    → moves mktime s es + rank (run mktime s es) ≡ rank s
unfolding run
run-rank mktime s [] h = omega arith
run-rank mktime s (e ∷ es) h =
    let now = step-Ranked mktime s e h in
    omega (arith, now.1, run-rank mktime (step mktime s e) es now.0)

rank_le : (r : Bool) (q : List Bytes) (h : Option Batch) → (r ≡ false) ⊎ (1 ≤ rank_of r q h)
rank_le false q h = inl refl
rank_le true [] none = inr (omega arith)
rank_le true [] (some b) = inr (omega arith)
rank_le true (x ∷ q) none = inr (omega arith)
rank_le true (x ∷ q) (some b) = inr (omega arith)

rank_at_most : (r : Bool) (q : List Bytes) (h : Option Batch) → rank_of r q h ≤ 4
rank_at_most false q h = omega arith
rank_at_most true [] none = omega arith
rank_at_most true [] (some b) = omega arith
rank_at_most true (x ∷ q) none = omega arith
rank_at_most true (x ∷ q) (some b) = omega arith

-- Once the logger is stopping, a history in which the thread makes four moves (it takes what is queued
-- while it holds nothing, or flushes what it holds) has ended the thread, whatever is written or fails
-- between them.
pub run_ends :
    (mktime : MkTime) (s : System) (es : List Event)
    → s.logger.stopping ≡ true
    → 4 ≤ moves mktime s es
    → (run mktime s es).running ≡ false
run_ends mktime s es h k =
    let t = run mktime s es in
    elim (rank_le t.running t.logger.queue t.hand) [
      | inl e ↦ e
      | inr more ↦
          ground
            (arith, k, more, run-rank mktime s es h, rank_at_most s.running s.logger.queue s.hand)
    ]
