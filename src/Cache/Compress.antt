-- ===== src/Cache/Compress.antt =====
-- src/compression_cache.cpp: `compress`. The compressor is a parameter, and so is what the calls on files answer.
use fastdl_mm.Prelude.{
  ℕ, zero, suc, ◌+◌, ◌-◌, ◌/◌, ◌%◌, min, Bool, true, false, not, ◌&&◌, Option, none, some, List, [],
  ◌∷◌, ◌++◌, ltb, ◌==◌, if◌then◌else◌, length, u32_mod, Bytes,
}
use fastdl_mm.Server.{OpenedFileInfo}

pub data MzStatus : Type 0 where
  mz_ok mz_stream_end mz_error : MzStatus

-- The calls of miniz. `deflate` takes whether to finish and the input that is left, and gives the input that
-- it leaves and the output that it makes; `work` bounds the calls that a stream can still ask for.
pub record Miniz : Type 1 where
  pub Stream : Type 0
  pub init : Option Stream
  pub deflate : Stream → Bool → Bytes → MzStatus × (Stream × (Bytes × Bytes))
  pub work : Stream → ℕ
  pub crc32 : ℕ → Bytes → ℕ

-- The outcome of a loop that may break off; it runs out where the bound on its turns is too small.
pub data Run {ℓ} (A : Type ℓ) : Type ℓ where
  returns : A → Run A
  fails : Run A
  runs_out : Run A

-- What an attempt at a job meets: the two inspections, reads, the stop flag by offset, which of the calls on
-- files succeed, what stands in an abandoned file, the time, and the names that `maintainCache` may read.
pub record Attempt : Type 0 where
  pub before : Option OpenedFileInfo
  pub after : Option OpenedFileInfo
  pub read_at : ℕ → ℕ → Option Bytes
  pub stops : ℕ → Bool
  pub creates : Bool
  pub writes_gz : Bool
  pub writes_marker : Bool
  pub writes_meta : Bool
  pub renames_gz : Bool
  pub renames_meta : Bool
  pub renames_skip : Bool
  pub partial : Bytes
  pub now : ℕ
  pub names : List (Bytes × Bool)

abbrev pub same_info : OpenedFileInfo → OpenedFileInfo → Bool
same_info l r =
    l.size == r.size
    && (l.modified_identity == r.modified_identity && l.file_identity == r.file_identity)

abbrev pub is_same : OpenedFileInfo → Option OpenedFileInfo → Bool
is_same info none = false
is_same info (some other) = same_info other info

unfoldable pub write_little_endian : ℕ → Bytes
write_little_endian value =
    value % 256 ∷ value / 256 % 256 ∷ value / 65536 % 256 ∷ value / 16777216 % 256 ∷ []

abbrev pub gzip_header : Bytes
gzip_header = 31 ∷ 139 ∷ 8 ∷ 0 ∷ 0 ∷ 0 ∷ 0 ∷ 0 ∷ 4 ∷ 255 ∷ []

-- What a loop does on a status.
abbrev pub while_ok {ℓ} : {A : Type ℓ} → MzStatus → Run A → Run A
while_ok mz_ok more = more
while_ok mz_stream_end more = fails
while_ok mz_error more = fails

abbrev pub until_end : MzStatus → Run Bytes → Bytes → Run Bytes
until_end mz_ok more output = more
until_end mz_stream_end more output = returns output
until_end mz_error more output = fails

abbrev pub and_then {ℓ κ} : {A : Type ℓ} {B : Type κ} → Run A → (A → Run B) → Run B
and_then (returns a) f = f a
and_then fails f = fails
and_then runs_out f = runs_out

-- The locals of the loop over the file.
pub record Progress (mz : Miniz) : Type 0 where
  pub stream : mz.Stream
  pub crc : ℕ
  pub offset : ℕ
  pub output : Bytes

module _ (mz : Miniz) where
  -- The loop over the input of one read.
  unfoldable pub feed : ℕ → mz.Stream → Bytes → Bytes → Run (mz.Stream × Bytes)
  feed fuel st [] output = returns (st, output)
  feed zero st (b ∷ input) output = runs_out
  feed (suc fuel) st (b ∷ input) output =
      let (status, (next, (rest, made))) = mz.deflate st false (b ∷ input) in
      while_ok status (feed fuel next rest (output ++ made))

  -- The loop that ends the stream.
  unfoldable pub finish : ℕ → mz.Stream → Bytes → Run Bytes
  finish zero st output = runs_out
  finish (suc fuel) st output =
      let (status, (next, (rest, made))) = mz.deflate st true [] in
      until_end status (finish fuel next (output ++ made)) (output ++ made)

  -- One turn of the loop over the file, on what was read.
  unfoldable pub compress_chunk : Progress mz → Option Bytes → Run (Progress mz)
  unfolding feed
  compress_chunk p none = fails
  compress_chunk p (some []) = fails
  compress_chunk p (some (b ∷ chunk)) =
      let input = b ∷ chunk in
      and_then (feed (length input + mz.work p.stream) p.stream input p.output) (λ fed.
        returns (record {
          stream = fed.0;
          crc = mz.crc32 p.crc input;
          offset = p.offset + length input;
          output = fed.1;
        }))

  -- The loop over the file, of the size that it had when it was opened.
  unfoldable pub read_loop : ℕ → Attempt → ℕ → Progress mz → Run (Progress mz)
  unfolding compress_chunk
  read_loop zero t size p = if ltb p.offset size then runs_out else returns p
  read_loop (suc fuel) t size p =
      let next = compress_chunk p (t.read_at p.offset (min 65536 (size - p.offset))) in
      let loop : Progress mz → Run (Progress mz) = λ q. read_loop fuel t size q in
      if not (ltb p.offset size)
      then returns p
      else if t.stops p.offset
      then fails
      else and_then next loop

  abbrev pub trailer : ℕ → ℕ → Bytes
  trailer crc size = write_little_endian (crc % u32_mod) ++ write_little_endian (size % u32_mod)

  -- The bytes of the compressed file.
  unfoldable pub gzip_from : Attempt → ℕ → Option mz.Stream → Run Bytes
  unfolding read_loop finish
  gzip_from t size none = fails
  gzip_from t size (some st) =
      let p : Progress mz = record {
        stream = st;
        crc = mz.crc32 0 [];
        offset = 0;
        output = gzip_header;
      } in
      and_then (read_loop size t size p) (λ q.
        and_then (finish (suc (mz.work q.stream)) q.stream q.output)
          (λ output. returns (output ++ trailer q.crc size)))
