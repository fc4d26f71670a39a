-- ===== src/Logger/Failure.antt =====
-- src/logger.cpp: what becomes of the log once a write to an open file has failed.
use fastdl_mm.Prelude.{
  ◌≡◌, refl, ◌∙◌, true, false, not, ◌&&◌, ◌||◌, Option, none, some, List, [], ◌∷◌, if-elim,
  is_empty, All,
}
use fastdl_mm.Logger.{
  same_day, MkTime, Batch, take_batch, open_file, flush_batch, take_next, flush_next, step, run, Tm,
  Round, System, Event, writes, takes, flushes, stops,
}

-- The worker believes that the day's file is open, on a stream that has failed.
pub record Stuck (day : Tm) (s : System) : Type 0 where
  pub opened : s.worker.opened ≡ true
  pub failed : s.worker.good ≡ false
  pub on : s.worker.open_day ≡ day

-- A round of the loop, if the event is one, is on the day.
abbrev pub On : Tm → Event → Type 0
On day (flushes r) = same_day r.today day ≡ true
On day _ = Unit

-- A later system of the same day, with nothing new in the files.
abbrev Mute : Tm → System → System → Type 0
Mute day s t = Stuck day t × (t.disk ≡ s.disk)

same_Mute : (day : Tm) (s : System) → Stuck day s → Mute day s s
same_Mute day s h = (h, refl)

flush_next-Mute :
    (mktime : MkTime) (day : Tm) (s : System) (r : Round) (o : Option Batch)
    → Stuck day s
    → On day (flushes r)
    → Mute day s (flush_next mktime s r o)
unfolding flush_next flush_batch open_file
flush_next-Mute mktime day s r none h k = same_Mute day s h
flush_next-Mute mktime day s r (some b) h k =
    simp (h.opened, h.on, k, h.failed)
      (record { opened = h.opened; failed = h.failed; on = h.on }, refl)

take_next-Mute :
    (day : Tm) (s : System) (o : Option Batch) → Stuck day s → Mute day s (take_next s o)
unfolding take_next take_batch
take_next-Mute day s (some b) h = same_Mute day s h
take_next-Mute day s none h =
    let l = s.logger in
    let P = Mute day s in
    let stuck : P s = same_Mute day s h in
    if-elim P s.running
      (if-elim P (not (l.stopping || not (is_empty l.queue))) stuck (
        if-elim P (is_empty l.queue && l.stopping)
          (record { opened = h.opened; failed = h.failed; on = h.on }, refl)
          (record { opened = h.opened; failed = h.failed; on = h.on }, refl)))
      stuck

step-Mute :
    (mktime : MkTime) (day : Tm) (s : System) (e : Event)
    → Stuck day s
    → On day e
    → Mute day s (step mktime s e)
unfolding step
step-Mute mktime day s (writes line) h k =
    (record { opened = h.opened; failed = h.failed; on = h.on }, refl)
step-Mute mktime day s takes h k = take_next-Mute day s s.hand h
step-Mute mktime day s (flushes r) h k = flush_next-Mute mktime day s r s.hand h k
step-Mute mktime day s stops h k =
    (record { opened = h.opened; failed = h.failed; on = h.on }, refl)

-- Once the stream of a day's file has failed, no history of that day's rounds adds a line to any file, however
-- often the file could be opened again: `opened` stays true, so that `run` does not try to.
pub run-Stuck :
    (mktime : MkTime) (day : Tm) (s : System) (es : List Event)
    → Stuck day s
    → All (On day) es
    → (run mktime s es).disk ≡ s.disk
unfolding run
run-Stuck mktime day s [] h k = refl
run-Stuck mktime day s (e ∷ es) h k =
    let now = step-Mute mktime day s e h k.0 in
    run-Stuck mktime day (step mktime s e) es now.0 k.1 ∙ now.1
