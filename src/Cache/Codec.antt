-- ===== src/Cache/Codec.antt =====
-- src/compression_cache.cpp: what `compress` expects of miniz, and what a gzip file is.
use fastdl_mm.Prelude.{
  ℕ, ◌+◌, ◌-◌, ◌*◌, ◌%◌, ◌<◌, ◌≡◌, refl, true, false, ◌&&◌, Option, none, some, [], ◌∷◌, ◌++◌,
  arith, ◌==◌, if◌then◌else◌, length, take, drop, u32_mod, Bytes, bytes_eq,
}
use fastdl_mm.Cache.Compress.{
  write_little_endian, gzip_header, while_ok, until_end, and_then, MzStatus, Miniz, Run, Attempt,
  mz_ok, mz_stream_end, mz_error, returns, fails, runs_out,
}

-- What the calls of miniz are documented to do: a stream that took `input` and gave `output` so far; what inflates
-- to what; that a call that returns `MZ_OK` makes progress; and that a CRC can be continued.
pub record Codec (mz : Miniz) : Type 1 where
  pub Coded : mz.Stream → Bytes → Bytes → Type 0
  pub inflate : Bytes → Option Bytes
  pub starts : (st : mz.Stream) → mz.init ≡ some st → Coded st [] []
  pub deflates :
      (st next : mz.Stream) (input output : Bytes) (b : ℕ) (more rest made : Bytes)
      → Coded st input output
      → mz.deflate st false (b ∷ more) ≡ (mz_ok, (next, (rest, made)))
      → ((used : Bytes) × ((used ++ rest ≡ b ∷ more) × Coded next (input ++ used) (output ++ made)))
        × (length rest + mz.work next < length (b ∷ more) + mz.work st)
  pub goes_on :
      (st next : mz.Stream) (input output rest made : Bytes)
      → Coded st input output
      → mz.deflate st true [] ≡ (mz_ok, (next, (rest, made)))
      → Coded next input (output ++ made) × (mz.work next < mz.work st)
  pub ends :
      (st next : mz.Stream) (input output rest made : Bytes)
      → Coded st input output
      → mz.deflate st true [] ≡ (mz_stream_end, (next, (rest, made)))
      → inflate (output ++ made) ≡ some input
  pub crc32-append : (crc : ℕ) (s t : Bytes) → mz.crc32 (mz.crc32 crc s) t ≡ mz.crc32 crc (s ++ t)

-- A file gives parts of its content, from the offset that is asked for on.
abbrev pub Reads : Attempt → Bytes → Type 0
Reads t content =
    (offset n : ℕ) (chunk : Bytes)
    → t.read_at offset n ≡ some chunk
    → chunk ++ drop (offset + length chunk) content ≡ drop offset content

-- A run that comes to an end, with a result that is as stated if there is one.
abbrev pub Ends {ℓ} : {A : Type ℓ} → (A → Type 0) → Run A → Type 0
Ends P (returns a) = P a
Ends P fails = Unit
Ends P runs_out = ⊥

-- The value of bytes, the lowest first.
abbrev pub little_endian : Bytes → ℕ
little_endian [] = 0
little_endian (b ∷ s) = b + 256 * little_endian s

-- The content of a file in the gzip format without optional fields (RFC 1952), if its checks hold.
abbrev pub check_gzip : (ℕ → Bytes → ℕ) → Bytes → Option Bytes → Option Bytes
check_gzip crc32 tail none = none
check_gzip crc32 tail (some content) =
    if little_endian (take 4 tail) == crc32 (crc32 0 []) content % u32_mod
      && little_endian (drop 4 tail) == length content % u32_mod
    then some content
    else none

abbrev pub gunzip : (ℕ → Bytes → ℕ) → (Bytes → Option Bytes) → Bytes → Option Bytes
gunzip crc32 inflate gz =
    let body = drop 10 gz in
    let n = length body - 8 in
    if bytes_eq (take 10 gz) gzip_header
    then check_gzip crc32 (drop n body) (inflate (take n body))
    else none

pub and_then-Ends {ℓ κ} :
    {A : Type ℓ} {B : Type κ} (P : A → Type 0) (Q : B → Type 0) (r : Run A) (f : A → Run B)
    → Ends P r
    → ((a : A) → P a → Ends Q (f a))
    → Ends Q (and_then r f)
and_then-Ends P Q (returns a) f h k = k a h
and_then-Ends P Q fails f h k = tt
and_then-Ends P Q runs_out f h k = h

pub while_ok-Ends {ℓ} :
    {A : Type ℓ} (P : A → Type 0) (status : MzStatus) (r : Run A)
    → (status ≡ mz_ok → Ends P r)
    → Ends P (while_ok status r)
while_ok-Ends P mz_ok r h = h refl
while_ok-Ends P mz_stream_end r h = tt
while_ok-Ends P mz_error r h = tt

pub until_end-Ends :
    (P : Bytes → Type 0) (status : MzStatus) (r : Run Bytes) (output : Bytes)
    → (status ≡ mz_ok → Ends P r)
    → (status ≡ mz_stream_end → P output)
    → Ends P (until_end status r output)
until_end-Ends P mz_ok r output h k = h refl
until_end-Ends P mz_stream_end r output h k = k refl
until_end-Ends P mz_error r output h k = tt

pub little_endian_lem : (n : ℕ) → n < u32_mod → little_endian (write_little_endian n) ≡ n
unfolding write_little_endian
little_endian_lem n h = omega (arith, h)
