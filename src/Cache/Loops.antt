-- ===== src/Cache/Loops.antt =====
-- src/compression_cache.cpp: the loops of `compress`.
use mathlib.Core.List.{append_assoc, append-nil}
use fastdl_mm.Prelude.{
  ℕ, zero, suc, ◌+◌, ◌-◌, ◌≤◌, ◌<◌, min, ◌≡◌, refl, sym, ap, subst, ◌∙◌, inl, inr, true, false, not,
  Option, none, some, [], ◌∷◌, ◌++◌, arith, ltb, ltb→lt, Bool-cases, if-elim, if-elim_false,
  if-elim_true, length, drop, Bytes,
}
use fastdl_mm.Cache.Compress.{
  gzip_header, feed, finish, compress_chunk, read_loop, Miniz, Attempt, Progress,
}
use fastdl_mm.Cache.Codec.{Reads, Ends, and_then-Ends, while_ok-Ends, until_end-Ends, Codec}

module _ (mz : Miniz) (codec : Codec mz) where
  -- The output so far is a header with what the stream made of the input.
  abbrev pub Wrote : Bytes → mz.Stream × Bytes → Type 0
  Wrote input w = (made : Bytes) × ((w.1 ≡ gzip_header ++ made) × codec.Coded w.0 input made)

  pub feed-Ends :
      (fuel : ℕ) (st : mz.Stream) (input before output : Bytes)
      → Wrote before (st, output)
      → length input + mz.work st ≤ fuel
      → Ends (Wrote (before ++ input)) (feed mz fuel st input output)
  unfolding feed
  feed-Ends fuel st [] before output h k = rw (append-nil before) h
  feed-Ends zero st (b ∷ input) before output h k = omega (arith, k)
  feed-Ends (suc fuel) st (b ∷ input) before output h k =
      let d = mz.deflate st false (b ∷ input) in
      let next = d.1.0 in
      let rest = d.1.1.0 in
      let made = d.1.1.1 in
      while_ok-Ends (Wrote (before ++ b ∷ input)) d.0 (feed mz fuel next rest (output ++ made))
        (λ e.
          let law =
            codec.deflates st next before h.0 b input rest made h.1.1
              (ap (λ status. (status, d.1)) e) in
          let used = law.0.0 in
          let wrote : Wrote (before ++ used) (next, output ++ made) = (
            h.0 ++ made,
            (ap (λ x. x ++ made) h.1.0 ∙ append_assoc gzip_header h.0 made, law.0.1.1),
          ) in
          let joined : (before ++ used) ++ rest ≡ before ++ b ∷ input =
            append_assoc before used rest ∙ ap (λ x. before ++ x) law.0.1.0 in
          subst (λ x. Ends (Wrote x) (feed mz fuel next rest (output ++ made))) joined
            (feed-Ends fuel next rest (before ++ used) (output ++ made) wrote
              (omega (arith, k, law.1))))

  -- The output of a stream that ended.
  abbrev pub Whole : Bytes → Bytes → Type 0
  Whole input output =
      (made : Bytes) × ((output ≡ gzip_header ++ made) × (codec.inflate made ≡ some input))

  pub finish-Ends :
      (fuel : ℕ) (st : mz.Stream) (input output : Bytes)
      → Wrote input (st, output)
      → mz.work st < fuel
      → Ends (Whole input) (finish mz fuel st output)
  unfolding finish
  finish-Ends zero st input output h k = omega (arith, k)
  finish-Ends (suc fuel) st input output h k =
      let d = mz.deflate st true [] in
      let next = d.1.0 in
      let rest = d.1.1.0 in
      let made = d.1.1.1 in
      let joined : output ++ made ≡ gzip_header ++ (h.0 ++ made) =
        ap (λ x. x ++ made) h.1.0 ∙ append_assoc gzip_header h.0 made in
      until_end-Ends (Whole input) d.0 (finish mz fuel next (output ++ made)) (output ++ made)
        (λ e.
          let law =
            codec.goes_on st next input h.0 rest made h.1.1 (ap (λ status. (status, d.1)) e) in
          finish-Ends fuel next input (output ++ made) (h.0 ++ made, (joined, law.0))
            (omega (arith, k, law.1)))
        (λ e. (
          h.0 ++ made,
          (joined, codec.ends st next input h.0 rest made h.1.1 (ap (λ status. (status, d.1)) e)),
        ))

-- The loop over the file has read the first part of its content.
pub record Read (mz : Miniz) (codec : Codec mz) (content : Bytes) (p : Progress mz) : Type 0 where
  pub input : Bytes
  pub wrote : Wrote mz codec input (p.stream, p.output)
  pub split : input ++ drop p.offset content ≡ content
  pub checked : p.crc ≡ mz.crc32 (mz.crc32 0 []) input

module _ (mz : Miniz) (codec : Codec mz) where
  compress_chunk-Ends :
      (content : Bytes) (p : Progress mz) (chunk : Option Bytes)
      → Read mz codec content p
      → ((s : Bytes)
          → chunk ≡ some s
          → s ++ drop (p.offset + length s) content ≡ drop p.offset content)
      → Ends (λ q. Read mz codec content q × (p.offset < q.offset)) (compress_chunk mz p chunk)
  unfolding compress_chunk
  compress_chunk-Ends content p none h k = tt
  compress_chunk-Ends content p (some []) h k = tt
  compress_chunk-Ends content p (some (b ∷ chunk)) h k =
      let s = b ∷ chunk in
      and_then-Ends (Wrote mz codec (h.input ++ s))
        (λ q. Read mz codec content q × (p.offset < q.offset))
        (feed mz (length s + mz.work p.stream) p.stream s p.output) _
        (feed-Ends mz codec (length s + mz.work p.stream) p.stream s h.input p.output h.wrote
          (omega arith))
        (λ fed w. (
          record {
            input = h.input ++ s;
            wrote = w;
            split =
                append_assoc h.input s (drop (p.offset + length s) content)
                ∙ ap (λ x. h.input ++ x) (k s refl)
                ∙ h.split;
            checked =
                ap (λ crc. mz.crc32 crc s) h.checked ∙ codec.crc32-append (mz.crc32 0 []) h.input s;
          },
          omega arith,
        ))

  drop-all : (n : ℕ) (s : Bytes) → length s ≤ n → drop n s ≡ []
  drop-all zero [] h = refl
  drop-all (suc n) [] h = refl
  drop-all zero (b ∷ s) h = ground (arith, h)
  drop-all (suc n) (b ∷ s) h = drop-all n s (omega (arith, h))

  -- The loop over the file has read all of it.
  abbrev pub Done : Bytes → Progress mz → Type 0
  Done content p =
      Wrote mz codec content (p.stream, p.output) × (p.crc ≡ mz.crc32 (mz.crc32 0 []) content)

  read-Done :
      (content : Bytes) (p : Progress mz)
      → Read mz codec content p
      → length content ≤ p.offset
      → Done content p
  read-Done content p h k =
      let whole : h.input ≡ content =
        sym (append-nil h.input)
        ∙ ap (λ x. h.input ++ x) (sym (drop-all p.offset content k))
        ∙ h.split in
      subst (λ x. Wrote mz codec x (p.stream, p.output) × (p.crc ≡ mz.crc32 (mz.crc32 0 []) x))
        whole (h.wrote, h.checked)

  pub read_loop-Ends :
      (fuel : ℕ) (t : Attempt) (content : Bytes) (p : Progress mz)
      → Reads t content
      → Read mz codec content p
      → length content - p.offset ≤ fuel
      → Ends (Done content) (read_loop mz fuel t (length content) p)
  unfolding read_loop
  read_loop-Ends zero t content p r h k =
      let n = length content in
      elim (Bool-cases (ltb p.offset n)) [
        | inl e ↦ if-elim_true (Ends (Done content)) e _ (omega (arith, k, ltb→lt p.offset n e))
        | inr e ↦
            let over : n ≤ p.offset = ground (arith, e) in
            if-elim_false (Ends (Done content)) e _ (read-Done content p h over)
      ]
  read_loop-Ends (suc fuel) t content p r h k =
      let n = length content in
      let chunk = t.read_at p.offset (min 65536 (n - p.offset)) in
      elim (Bool-cases (ltb p.offset n)) [
        | inl e ↦ if-elim_false (Ends (Done content)) (ap not e) _ (
            if-elim (Ends (Done content)) (t.stops p.offset) tt (
              and_then-Ends (λ q. Read mz codec content q × (p.offset < q.offset)) (Done content)
                (compress_chunk mz p chunk) _
                (compress_chunk-Ends content p chunk h
                  (λ s same. r p.offset (min 65536 (n - p.offset)) s same))
                (λ q step.
                  read_loop-Ends fuel t content q r step.0
                    (omega (arith, k, step.1, ltb→lt p.offset n e)))))
        | inr e ↦
            let over : n ≤ p.offset = ground (arith, e) in
            if-elim_true (Ends (Done content)) (ap not e) _ (read-Done content p h over)
      ]
