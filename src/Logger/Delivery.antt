-- ===== src/Logger/Delivery.antt =====
-- src/logger.cpp: every line that is handed over is written, waits, or is counted as dropped.
use mathlib.Core.List.{map-append}
use fastdl_mm.Prelude.{
  ℕ, suc, ◌+◌, ◌<◌, ◌≡◌, refl, ap, ◌∙◌, inl, inr, true, false, not, ◌&&◌, ◌||◌, Option, none, some,
  List, [], ◌∷◌, ◌++◌, map, arith, leb, ◌==◌, ==_iff, Bool-cases, if-elim, if-elim_false, length,
  is_empty, length-append, All, u32_mod, add_size, add_size-eq, Bytes,
}
use fastdl_mm.Resolver.{FilePath}
use fastdl_mm.Logger.{
  MkTime, max_queued_lines, write, Batch, take_batch, round_lines, open_file, put_lines,
  flush_batch, take_next, flush_next, step, run, Line, Round, System, Event, text, report, writes,
  takes, flushes, stops,
}
use fastdl_mm.Logger.Order.{offered, map-snd, given, offered-cons}

-- What the lines of a log file account for: a line for itself, a report for the lines that it reports.
abbrev pub weight : List Line → ℕ
weight [] = 0
weight (text s ∷ ls) = suc (weight ls)
weight (report n ∷ ls) = n + weight ls

abbrev pub held : Option Batch → ℕ
held none = 0
held (some b) = b.1 + length b.0

-- The lines that a system accounts for: in the files, in the thread's hand, in the queue, dropped.
abbrev pub accounted : System → ℕ
accounted s =
    weight (map (λ e. e.1) s.disk) + (held s.hand + (length s.logger.queue + s.logger.dropped))

-- The stream does not fail while a round's lines are put into it.
abbrev pub Lasts : Event → Type 0
Lasts (flushes r) = r.fails ≡ false
Lasts _ = Unit

weight-append : (ls ms : List Line) → weight (ls ++ ms) ≡ weight ls + weight ms
weight-append [] ms = omega arith
weight-append (text s ∷ ls) ms = omega (arith, weight-append ls ms)
weight-append (report n ∷ ls) ms = omega (arith, weight-append ls ms)

weight-texts : (lines : List Bytes) → weight (map text lines) ≡ length lines
weight-texts [] = refl
weight-texts (s ∷ lines) = ap suc (weight-texts lines)

weight-round_lines : (b : Batch) → weight (round_lines b) ≡ b.1 + length b.0
weight-round_lines (lines, dropped) = elim (Bool-cases (dropped == 0)) [
  | inl e ↦ let zero_dropped = (==_iff dropped 0).0 e in rw e (omega (arith, weight-texts lines))
  | inr e ↦ rw e (omega (arith, weight-texts lines))
]

weight-put_lines :
    (disk : List (FilePath × Line)) (path : FilePath) (ls : List Line)
    → weight (map (λ e. e.1) (disk ++ put_lines path ls)) ≡ weight (map (λ e. e.1) disk) + weight ls
weight-put_lines disk path ls =
    rw (map-append (λ e. e.1) disk (put_lines path ls), map-snd path ls)
      (weight-append (map (λ e. e.1) disk) ls)

write-accounted :
    (s : System) (line : Bytes)
    → accounted s + length (given s (writes line)) < u32_mod
    → accounted (record s { logger = write s.logger line })
      ≡ accounted s + length (given s (writes line))
unfolding write
write-accounted s line = elim (Bool-cases s.logger.stopping) [
  | inl e ↦ simp e (λ h. omega arith)
  | inr e ↦ elim (Bool-cases (leb max_queued_lines (length s.logger.queue))) [
    | inl f ↦ simp (e, f) (λ h. omega (arith, add_size-eq s.logger.dropped 1 (omega (arith, h)), h))
    | inr f ↦ simp (e, f) (λ h. omega (arith, length-append s.logger.queue (line ∷ [])))
  ]
]

take_batch-accounted :
    (s : System)
    → s.hand ≡ none
    → (take_batch s).running ≡ true
    → accounted (take_batch s) ≡ accounted s
unfolding take_batch
take_batch-accounted s h =
    let P : System → Type 0 = λ t. t.running ≡ true → accounted t ≡ accounted s in
    let l = s.logger in
    if-elim P (not (l.stopping || not (is_empty l.queue))) (λ g. refl)
      (if-elim P (is_empty l.queue && l.stopping) (λ g. ground (arith, g))
        (λ g. omega (arith, ap held h)))

flush_batch-accounted :
    (mktime : MkTime) (s : System) (r : Round) (b : Batch)
    → r.fails ≡ false
    → s.hand ≡ some b
    → accounted s < u32_mod
    → accounted (flush_batch mktime s r b) ≡ accounted s
unfolding flush_batch
flush_batch-accounted mktime s r b lasts h bound =
    let P : System → Type 0 = λ t. accounted t ≡ accounted s in
    let w = (open_file mktime s.logger s.worker r).0 in
    if-elim P (not w.good)
      (omega (
        arith,
        ap held h,
        add_size-eq b.1 (length b.0),
        bound,
        add_size-eq s.logger.dropped (add_size b.1 (length b.0)),
      ))
      (if-elim_false P lasts _ (
        omega
          (arith, ap held h, weight-put_lines s.disk w.file (round_lines b), weight-round_lines b)))

take_next-accounted :
    (s : System) (o : Option Batch)
    → s.hand ≡ o
    → (take_next s o).running ≡ true
    → accounted (take_next s o) ≡ accounted s
unfolding take_next
take_next-accounted s (some b) h = λ g. refl
take_next-accounted s none h =
    if-elim (λ t. t.running ≡ true → accounted t ≡ accounted s) s.running (take_batch-accounted s h)
      (λ g. refl)

flush_next-accounted :
    (mktime : MkTime) (s : System) (r : Round) (o : Option Batch)
    → s.hand ≡ o
    → r.fails ≡ false
    → accounted s < u32_mod
    → accounted (flush_next mktime s r o) ≡ accounted s
unfolding flush_next
flush_next-accounted mktime s r none h lasts bound = refl
flush_next-accounted mktime s r (some b) h lasts bound =
    flush_batch-accounted mktime s r b lasts h bound

step-accounted :
    (mktime : MkTime) (s : System) (e : Event)
    → Lasts e
    → (step mktime s e).running ≡ true
    → accounted s + length (given s e) < u32_mod
    → accounted (step mktime s e) ≡ accounted s + length (given s e)
unfolding step
step-accounted mktime s (writes line) k g h = write-accounted s line h
step-accounted mktime s stops k g h = omega arith
step-accounted mktime s takes k g h = omega (arith, take_next-accounted s s.hand refl g)
step-accounted mktime s (flushes r) k g h =
    omega (arith, flush_next-accounted mktime s r s.hand refl k (omega (arith, h)))

take_next-ended :
    (s : System) (o : Option Batch) → s.running ≡ false → (take_next s o).running ≡ false
unfolding take_next
take_next-ended s (some b) h = h
take_next-ended s none h = if-elim_false (λ (t : System). t.running ≡ false) h _ h

pub flush_next-running :
    (mktime : MkTime) (s : System) (r : Round) (o : Option Batch)
    → (flush_next mktime s r o).running ≡ s.running
unfolding flush_next flush_batch
flush_next-running mktime s r none = refl
flush_next-running mktime s r (some b) =
    let P : System → Type 0 = λ t. t.running ≡ s.running in
    if-elim P (not (open_file mktime s.logger s.worker r).0.good) refl (if-elim P r.fails refl refl)

-- A thread that has ended stays ended.
pub step-ended :
    (mktime : MkTime) (s : System) (e : Event)
    → s.running ≡ false
    → (step mktime s e).running ≡ false
unfolding step
step-ended mktime s (writes line) h = h
step-ended mktime s stops h = h
step-ended mktime s takes h = take_next-ended s s.hand h
step-ended mktime s (flushes r) h = flush_next-running mktime s r s.hand ∙ h

pub run-ended :
    (mktime : MkTime) (s : System) (es : List Event)
    → s.running ≡ false
    → (run mktime s es).running ≡ false
unfolding run
run-ended mktime s [] h = h
run-ended mktime s (e ∷ es) h = run-ended mktime (step mktime s e) es (step-ended mktime s e h)

-- In any history in which the stream does not fail while it writes, and at whose end the thread still
-- runs, every line that was accounted for or is handed over is in a file, in the thread's hand or in
-- the queue, or is counted: in a report in a file, or as dropped; as long as these are fewer than 2 ^
-- 32. Files that cannot be opened, a full queue and the order of the steps change nothing about this.
pub run-accounted :
    (mktime : MkTime) (s : System) (es : List Event)
    → All Lasts es
    → (run mktime s es).running ≡ true
    → accounted s + length (offered mktime s es) < u32_mod
    → accounted (run mktime s es) ≡ accounted s + length (offered mktime s es)
unfolding run offered
run-accounted mktime s [] k g h = omega arith
run-accounted mktime s (e ∷ es) k g h = elim (Bool-cases (step mktime s e).running) [
  | inr ended ↦ (let over = run-ended mktime (step mktime s e) es ended in ground (arith, g, over))
  | inl running ↦
      let split : length (offered mktime s (e ∷ es))
          ≡ length (given s e) + length (offered mktime (step mktime s e) es) =
        ap length (offered-cons mktime s e es)
        ∙ length-append (given s e) (offered mktime (step mktime s e) es) in
      let now = step-accounted mktime s e k.0 running (omega (arith, h, split)) in
      let later = run-accounted mktime (step mktime s e) es k.1 g (omega (arith, h, split, now)) in
      omega (arith, split, now, later)
]
