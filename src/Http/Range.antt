-- ===== src/Http/Range.antt =====
-- src/fastdl_server.cpp: `trimAscii`, `parseUnsigned` and `parseRange`.
use fastdl_mm.Prelude.{
  ℕ, ◌+◌, ◌-◌, ◌*◌, ◌/◌, min, Bool, not, ◌&&◌, ◌||◌, Option, none, some, [], ◌∷◌, ltb, leb, ◌==◌,
  if◌then◌else◌, is_empty, any, u64_max, Bytes, trim_where, cut_at,
}

abbrev pub is_tab_or_space : ℕ → Bool
is_tab_or_space c = c == b' ' || c == 9

unfoldable pub trim_ascii : Bytes → Bytes
trim_ascii = trim_where is_tab_or_space

abbrev pub is_digit : ℕ → Bool
is_digit c = leb b'0' c && leb c b'9'

-- The loop of `parseUnsigned`.
unfoldable pub parse_digits : ℕ → Bytes → Option ℕ
parse_digits parsed [] = some parsed
parse_digits parsed (c ∷ s) =
    let digit = c - b'0' in
    let rest = parse_digits (parsed * 10 + digit) s in
    if not (is_digit c) then none else if ltb ((u64_max - digit) / 10) parsed then none else rest

unfoldable pub parse_unsigned : Bytes → Option ℕ
parse_unsigned [] = none
parse_unsigned (c ∷ s) = parse_digits 0 (c ∷ s)

pub data RangeStatus : Type 0 where
  absent valid invalid unsatisfiable : RangeStatus

pub record ByteRange : Type 0 where
  pub status : RangeStatus
  pub start : ℕ
  pub count : ℕ

-- `ByteRange{}` with a status.
abbrev pub without : RangeStatus → ByteRange
without s = record { status = s; start = 0; count = 0 }

abbrev pub is_letter : ℕ → ℕ → ℕ → Bool
is_letter lower upper c = c == lower || c == upper

-- What follows `bytes=`, in any case.
unfoldable pub range_spec : Bytes → Option Bytes
range_spec (c0 ∷ c1 ∷ c2 ∷ c3 ∷ c4 ∷ c5 ∷ spec) =
    if is_letter b'b' b'B' c0
      && is_letter b'y' b'Y' c1
      && is_letter b't' b'T' c2
      && is_letter b'e' b'E' c3
      && is_letter b's' b'S' c4
      && c5 == b'='
    then some spec
    else none
range_spec _ = none

abbrev pub has : ℕ → Bytes → Bool
has c s = any (λ d. d == c) s

-- The last bytes of the file.
unfoldable pub suffix_range : ℕ → Option ℕ → ByteRange
suffix_range total none = without invalid
suffix_range total (some suffix) =
    if suffix == 0
    then without invalid
    else record { status = valid; start = total - min suffix total; count = min suffix total }

-- The range from `start` to the given end, or to the last byte.
unfoldable pub bounded_range : ℕ → ℕ → Option ℕ → ByteRange
bounded_range total start none = without unsatisfiable
bounded_range total start (some end) =
    if ltb end start
    then without unsatisfiable
    else record { status = valid; start = start; count = min end (total - 1) - start + 1 }

unfoldable pub parse_end : ℕ → Bytes → Option ℕ
unfolding parse_unsigned
parse_end total [] = some (total - 1)
parse_end total (c ∷ s) = parse_unsigned (c ∷ s)

unfoldable pub open_range : ℕ → Option ℕ → Bytes → ByteRange
open_range total none second = without invalid
open_range total (some start) second =
    if leb total start
    then without unsatisfiable
    else bounded_range total start (parse_end total second)

unfoldable pub two_sided : ℕ → Bytes → Bytes → ByteRange
two_sided total [] second = suffix_range total (parse_unsigned second)
two_sided total (c ∷ first) second = open_range total (parse_unsigned (c ∷ first)) second

unfoldable pub split_range : ℕ → Bytes × Option Bytes → ByteRange
split_range total (first, none) = without invalid
split_range total (first, some second) =
    if has b'-' second
    then without invalid
    else if total == 0
    then without unsatisfiable
    else two_sided total first second

unfoldable pub parse_spec : ℕ → Option Bytes → ByteRange
parse_spec total none = without invalid
parse_spec total (some spec) =
    if is_empty spec || has b',' spec then without invalid else split_range total (cut_at b'-' spec)

unfoldable pub parse_range : Bytes → ℕ → ByteRange
parse_range raw total =
    let value = trim_ascii raw in
    if is_empty value then without absent else parse_spec total (range_spec value)
