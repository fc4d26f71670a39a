-- ===== src/Config.antt =====
-- src/config_parser.h and src/config_parser.cpp, and the reading and writing of the configuration file
-- in src/meta_plugin.cpp. A line is the text between two newlines.
pub mod Tests
pub mod Lines
pub mod File
pub mod RoundTrip
use fastdl_mm.Prelude.{
  ℕ, zero, suc, ◌+◌, ◌-◌, max, Bool, false, not, ◌&&◌, ◌||◌, Option, none, some, List, [], ◌∷◌,
  ◌++◌, map, ◌==◌, if◌then◌else◌, length, is_empty, add_size, Bytes, codes, bytes_eq, drop_while,
  trim_where, cut_at,
}

-- `" \t\r\n"`, and the whitespace that `operator>>` skips and stops at.
unfoldable pub is_blank : ℕ → Bool
is_blank c = c == b' ' || c == 9 || c == 13 || c == 10

unfoldable pub is_space : ℕ → Bool
unfolding is_blank
is_space c = is_blank c || c == 11 || c == 12

unfoldable pub trim : Bytes → Bytes
unfolding is_blank
trim = trim_where is_blank

-- The loop of `stripComment`: the text up to the first `//` outside quotes. The last byte is never
-- looked at, and never begins a comment.
unfoldable pub strip_from : Bool → Bytes → Bytes
strip_from quoted [] = []
strip_from quoted (c ∷ []) = c ∷ []
strip_from quoted (c ∷ d ∷ s) =
    let rest = strip_from (if c == b'"' then not quoted else quoted) (d ∷ s) in
    if not (c == b'"') && not quoted && c == b'/' && d == b'/' then [] else c ∷ rest

unfoldable pub strip_comment : Bytes → Bytes
unfolding strip_from
strip_comment = strip_from false

-- The text before the first byte that passes the test, and the text from it on.
unfoldable pub span_until : (ℕ → Bool) → Bytes → Bytes × Bytes
span_until p [] = ([], [])
span_until p (c ∷ s) =
    let (before, after) = span_until p s in if p c then ([], c ∷ s) else (c ∷ before, after)

-- `input >> name` on the trimmed line, then `getline`: the first word, and what follows it.
unfoldable pub split_name : Bytes → Bytes × Bytes
unfolding is_space drop_while span_until
split_name s = span_until is_space (drop_while is_space s)

unfoldable pub non_empty : Bytes → Option Bytes
non_empty [] = none
non_empty (c ∷ s) = some (c ∷ s)

-- The value after an opening quote, which nothing but blanks may follow.
unfoldable pub quoted_value : Bytes × Option Bytes → Option Bytes
unfolding trim
quoted_value (value, none) = none
quoted_value (value, some after) = if is_empty (trim after) then some value else none

-- A bare value ends at a blank or a tab.
unfoldable pub bare_value : Bytes → Bytes
unfolding span_until
bare_value s = (span_until (λ c. c == b' ' || c == 9) s).0

unfoldable pub parse_value : Bytes → Option Bytes
unfolding quoted_value cut_at bare_value
parse_value [] = none
parse_value (c ∷ s) = if c == b'"' then quoted_value (cut_at b'"' s) else some (bare_value (c ∷ s))

infixl 5 ◌>>=◌
abbrev pub ◌>>=◌ {ℓ κ} : {A : Type ℓ} {B : Type κ} → Option A → (A → Option B) → Option B
none >>= k = none
some a >>= k = k a

-- `false` of the source is `none`; the name and the value are the outputs of a `true`.
unfoldable pub parse_assignment : Bytes → Option (Bytes × Bytes)
parse_assignment raw = do
  line ← non_empty (trim (strip_comment raw))
  name ← non_empty (split_name line).0
  value ← parse_value (trim (cut_at 10 (split_name line).1).0)
  shown ← non_empty value
  some (name, shown)

pub record Setting : Type 0 where
  pub name : Bytes
  pub value : Bytes
  pub help : Bytes

abbrev pub spaces : ℕ → Bytes
spaces zero = []
spaces (suc n) = b' ' ∷ spaces n

-- `std::left << std::setw(width) << s`.
unfoldable pub pad : ℕ → Bytes → Bytes
pad width s = s ++ spaces (width - length s)

unfoldable pub longest : List Setting → ℕ
longest [] = 0
longest (s ∷ ss) = max (length s.name) (longest ss)

unfoldable pub assignment_line : ℕ → Setting → Bytes
unfolding pad
assignment_line width s = pad width s.name ++ (b'"' ∷ (s.value ++ b'"' ∷ []))

unfoldable pub help_line : ℕ → Setting → Bytes
unfolding pad
help_line width s =
    codes "// "
    ++ (pad width s.name ++ (s.help ++ (codes " (default \"" ++ (s.value ++ codes "\")"))))

abbrev pub reminder_lines : List Bytes
reminder_lines =
    []
    ∷ codes "// remember to set sv_downloadurl to \"http://your-ip:port/\""
    ∷ []
    ∷ codes "// CVARs:"
    ∷ []

-- The lines of `writeDefaultConfig`, for a table whose names, values and help texts have no line breaks, as the literals of
-- `g_settings` have none.
unfoldable pub write_default_config : List Setting → List Bytes
write_default_config ss =
    let width = longest ss + 4 in
    map (assignment_line width) ss ++ (reminder_lines ++ map (help_line width) ss)

-- What `loadConfigFile` has done so far: the calls of `pfnCVarSetString`, oldest first, and the counts.
pub record Loaded : Type 0 where
  pub assigned : List (Bytes × Bytes)
  pub loaded : ℕ
  pub skipped : ℕ

unfoldable pub is_known : List Setting → Bytes → Bool
is_known [] name = false
is_known (s ∷ ss) name = bytes_eq name s.name || is_known ss name

-- One line of the loop.
unfoldable pub load_line : List Setting → Loaded → Bytes → Loaded
load_line known l line = elim (parse_assignment line) [
  | none ↦
      if is_empty (trim (strip_comment line))
      then l
      else record l { skipped = add_size l.skipped 1 }
  | some (name, value) ↦
      if is_known known name
      then record l { assigned = l.assigned ++ (name, value) ∷ []; loaded = add_size l.loaded 1 }
      else record l { skipped = add_size l.skipped 1 }
]

unfoldable pub load_lines : List Setting → Loaded → List Bytes → Loaded
load_lines known l [] = l
load_lines known l (line ∷ lines) = load_lines known (load_line known l line) lines

abbrev pub nothing_loaded : Loaded
nothing_loaded = record { assigned = []; loaded = 0; skipped = 0 }

-- `loadConfigFile` on a file that opens and reads to its end.
unfoldable pub load_config_file : List Setting → List Bytes → Loaded
load_config_file known lines = load_lines known nothing_loaded lines
