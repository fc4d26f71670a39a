-- ===== src/Logger/Order.antt =====
-- src/logger.cpp: the lines in the log against the lines that were handed to it.
use mathlib.Core.List.{append_assoc, append-nil, map-append}
use fastdl_mm.Prelude.{
  ℕ, zero, suc, ◌≡◌, refl, sym, ap, subst, ◌∙◌, inl, inr, false, not, ◌&&◌, ◌||◌, Option, none,
  some, List, [], ◌∷◌, ◌++◌, map, leb, ◌==◌, if◌then◌else◌, Bool-cases, if-elim, length, take,
  is_empty, Bytes,
}
use fastdl_mm.Resolver.{FilePath}
use fastdl_mm.Logger.{
  MkTime, max_queued_lines, write, Batch, take_batch, round_lines, open_file, put_lines,
  flush_batch, take_next, flush_next, step, run, Line, Round, System, Event, text, report, writes,
  takes, flushes, stops,
}

-- The first list is the second with some items left out.
pub data Within {ℓ} {A : Type ℓ} : List A → List A → Type ℓ where
  done : Within [] []
  keep : {x : A} {xs ys : List A} → Within xs ys → Within (x ∷ xs) (x ∷ ys)
  skip : {y : A} {xs ys : List A} → Within xs ys → Within xs (y ∷ ys)

module _ {ℓ} {A : Type ℓ} where
  within_self : (xs : List A) → Within xs xs
  within_self [] = done
  within_self (x ∷ xs) = keep (within_self xs)

  within_nil : (ys : List A) → Within [] ys
  within_nil [] = done
  within_nil (y ∷ ys) = skip (within_nil ys)

  within_trans : {ys zs : List A} → Within ys zs → {xs : List A} → Within xs ys → Within xs zs
  within_trans done h = h
  within_trans (skip k) h = skip (within_trans k h)
  within_trans (keep k) (keep h) = keep (within_trans k h)
  within_trans (keep k) (skip h) = skip (within_trans k h)

  within_append :
      {xs ys zs ws : List A} → Within xs ys → Within zs ws → Within (xs ++ zs) (ys ++ ws)
  within_append done k = k
  within_append (keep h) k = keep (within_append h k)
  within_append (skip h) k = skip (within_append h k)

  within_take : (n : ℕ) (xs : List A) → Within (take n xs) xs
  within_take zero xs = within_nil xs
  within_take (suc n) [] = done
  within_take (suc n) (x ∷ xs) = keep (within_take n xs)

-- The lines of a log file, without the reports.
abbrev pub texts : List Line → List Bytes
texts [] = []
texts (text s ∷ ls) = s ∷ texts ls
texts (report n ∷ ls) = texts ls

abbrev pub written : List (FilePath × Line) → List Bytes
written entries = texts (map (λ e. e.1) entries)

-- The lines that the calls of `write` in a history hand over while the logger is not stopping, from the
-- state that it has before them.
unfoldable pub offered : MkTime → System → List Event → List Bytes
offered mktime s [] = []
offered mktime s (writes line ∷ es) =
    (if s.logger.stopping then [] else line ∷ []) ++ offered mktime (step mktime s (writes line)) es
offered mktime s (e ∷ es) = offered mktime (step mktime s e) es

texts-append : (ls ms : List Line) → texts (ls ++ ms) ≡ texts ls ++ texts ms
texts-append [] ms = refl
texts-append (text s ∷ ls) ms = ap (◌∷◌ s) (texts-append ls ms)
texts-append (report n ∷ ls) ms = texts-append ls ms

pub map-snd : (path : FilePath) (ls : List Line) → map (λ e. e.1) (put_lines path ls) ≡ ls
map-snd path [] = refl
map-snd path (l ∷ ls) = ap (◌∷◌ l) (map-snd path ls)

pub written-put_lines :
    (disk : List (FilePath × Line)) (path : FilePath) (ls : List Line)
    → written (disk ++ put_lines path ls) ≡ written disk ++ texts ls
written-put_lines disk path ls =
    ap texts (
      map-append (λ e. e.1) disk (put_lines path ls)
      ∙ ap (λ ms. map (λ e. e.1) disk ++ ms) (map-snd path ls))
    ∙ texts-append (map (λ e. e.1) disk) ls

abbrev pub in_hand : Option Batch → List Bytes
in_hand none = []
in_hand (some b) = b.0

-- All lines of a system: in the files, in the thread's hand, in the queue.
abbrev pub content : System → List Bytes
content s = written s.disk ++ (in_hand s.hand ++ s.logger.queue)

-- The lines that one event hands over.
abbrev pub given : System → Event → List Bytes
given s (writes line) = if s.logger.stopping then [] else line ∷ []
given s _ = []

within_left : {A : Type 0} (xs ys : List A) → Within xs (xs ++ ys)
within_left xs ys =
    subst (λ zs. Within zs (xs ++ ys)) (append-nil xs)
      (within_append (within_self xs) (within_nil ys))

snoc-content :
    (d h q : List Bytes) (line : Bytes)
    → d ++ (h ++ (q ++ line ∷ [])) ≡ (d ++ (h ++ q)) ++ line ∷ []
snoc-content d h q line = simp append_assoc

write-content :
    (s : System) (line : Bytes)
    → Within
        (written s.disk ++ (in_hand s.hand ++ (write s.logger line).queue))
        (content s ++ given s (writes line))
unfolding write
write-content s line = elim (Bool-cases s.logger.stopping) [
  | inl e ↦ simp e (within_left (content s) [])
  | inr e ↦ elim (Bool-cases (leb max_queued_lines (length s.logger.queue))) [
    | inl f ↦ simp (e, f) (within_left (content s) (line ∷ []))
    | inr f ↦
        simp (e, f)
          (subst (λ xs. Within xs (content s ++ line ∷ []))
            (sym (snoc-content (written s.disk) (in_hand s.hand) s.logger.queue line))
            (within_self (content s ++ line ∷ [])))
  ]
]

take_batch-content : (s : System) → s.hand ≡ none → Within (content (take_batch s)) (content s)
unfolding take_batch
take_batch-content s h =
    let P : System → Type 0 = λ t. Within (content t) (content s) in
    let l = s.logger in
    let emptied : P (record s { logger = record l { queue = []; dropped = 0 }; running = false }) =
      within_append (within_self (written s.disk))
        (within_append (within_self (in_hand s.hand)) (within_nil l.queue)) in
    let handed : Within (written s.disk ++ (l.queue ++ [])) (content s) =
      simp (h, append-nil) (within_self (written s.disk ++ l.queue)) in
    if-elim P (not (l.stopping || not (is_empty l.queue))) (within_self (content s))
      (if-elim P (is_empty l.queue && l.stopping) emptied handed)

texts-take : (n : ℕ) (ls : List Line) → Within (texts (take n ls)) (texts ls)
texts-take zero ls = within_nil (texts ls)
texts-take (suc n) [] = done
texts-take (suc n) (text s ∷ ls) = keep (texts-take n ls)
texts-take (suc n) (report m ∷ ls) = texts-take n ls

texts-map : (lines : List Bytes) → texts (map text lines) ≡ lines
texts-map [] = refl
texts-map (s ∷ lines) = ap (◌∷◌ s) (texts-map lines)

texts-round_lines : (b : Batch) → texts (round_lines b) ≡ b.0
texts-round_lines (lines, dropped) = elim (Bool-cases (dropped == 0)) [
  | inl e ↦ rw e (texts-map lines)
  | inr e ↦ rw e (texts-map lines)
]

put-content :
    (s : System) (b : Batch) (path : FilePath) (ls : List Line)
    → s.hand ≡ some b
    → Within (texts ls) b.0
    → Within (written (s.disk ++ put_lines path ls) ++ s.logger.queue) (content s)
put-content s b path ls h k =
    rw
      (written-put_lines s.disk path ls, append_assoc (written s.disk) (texts ls) s.logger.queue, h)
      (within_append (within_self (written s.disk)) (within_append k (within_self s.logger.queue)))

flush_batch-content :
    (mktime : MkTime) (s : System) (r : Round) (b : Batch)
    → s.hand ≡ some b
    → Within (content (flush_batch mktime s r b)) (content s)
unfolding flush_batch
flush_batch-content mktime s r b h =
    let P : System → Type 0 = λ t. Within (content t) (content s) in
    let w = (open_file mktime s.logger s.worker r).0 in
    let lost : Within (written s.disk ++ s.logger.queue) (content s) =
      within_append (within_self (written s.disk))
        (within_append (within_nil (in_hand s.hand)) (within_self s.logger.queue)) in
    let lines = texts-round_lines b in
    let failed = put-content s b w.file (take r.taken (round_lines b)) h (
      subst (Within (texts (take r.taken (round_lines b)))) lines
        (texts-take r.taken (round_lines b))) in
    let put =
      put-content s b w.file (round_lines b) h
        (subst (λ xs. Within xs b.0) (sym lines) (within_self b.0)) in
    if-elim P (not w.good) lost (if-elim P r.fails failed put)

take_next-content :
    (s : System) (o : Option Batch) → s.hand ≡ o → Within (content (take_next s o)) (content s)
unfolding take_next
take_next-content s (some b) h = within_self (content s)
take_next-content s none h =
    if-elim (λ t. Within (content t) (content s)) s.running (take_batch-content s h)
      (within_self (content s))

flush_next-content :
    (mktime : MkTime) (s : System) (r : Round) (o : Option Batch)
    → s.hand ≡ o
    → Within (content (flush_next mktime s r o)) (content s)
unfolding flush_next
flush_next-content mktime s r none h = within_self (content s)
flush_next-content mktime s r (some b) h = flush_batch-content mktime s r b h

step-content :
    (mktime : MkTime) (s : System) (e : Event)
    → Within (content (step mktime s e)) (content s ++ given s e)
unfolding step
step-content mktime s (writes line) = write-content s line
step-content mktime s stops = within_left (content s) []
step-content mktime s takes =
    within_trans (within_left (content s) []) (take_next-content s s.hand refl)
step-content mktime s (flushes r) =
    within_trans (within_left (content s) []) (flush_next-content mktime s r s.hand refl)

pub offered-cons :
    (mktime : MkTime) (s : System) (e : Event) (es : List Event)
    → offered mktime s (e ∷ es) ≡ given s e ++ offered mktime (step mktime s e) es
unfolding offered
offered-cons mktime s (writes line) es = refl
offered-cons mktime s takes es = refl
offered-cons mktime s (flushes r) es = refl
offered-cons mktime s stops es = refl

-- In any history, with any failures of the files, the lines in the log's files, in the thread's hand and in
-- the queue are, in this order, those that were there before and those that were handed over since, in
-- their order, with some left out: no line is written twice, and none overtakes another.
pub run-content :
    (mktime : MkTime) (s : System) (es : List Event)
    → Within (content (run mktime s es)) (content s ++ offered mktime s es)
unfolding run
run-content mktime s [] = within_left (content s) (offered mktime s [])
run-content mktime s (e ∷ es) =
    let later = run-content mktime (step mktime s e) es in
    let now =
      within_append (step-content mktime s e) (within_self (offered mktime (step mktime s e) es)) in
    let joined : (content s ++ given s e) ++ offered mktime (step mktime s e) es
        ≡ content s ++ offered mktime s (e ∷ es) =
      append_assoc (content s) (given s e) (offered mktime (step mktime s e) es)
      ∙ ap (λ xs. content s ++ xs) (sym (offered-cons mktime s e es)) in
    subst (Within (content (run mktime (step mktime s e) es))) joined (within_trans now later)
