-- ===== src/Config/RoundTrip.antt =====
-- src/config_parser.cpp and `writeDefaultConfig` of src/meta_plugin.cpp: an assignment that is written
-- is read back.
use mathlib.Core.List.{append_assoc}
use fastdl_mm.Prelude.{
  ℕ, zero, suc, ◌-◌, ◌<◌, ◌≡◌, refl, sym, ap, subst, ◌∙◌, Bool, true, false, ◌||◌, Option, some, [],
  ◌∷◌, ◌++◌, arith, ◌==◌, length, is_empty, All, All-append, Bytes, trim_where, cut_at, NoneOf,
  drop_while-stop, trim_where-blanks, cut_at-found, cut_at-none,
}
use fastdl_mm.Config.{
  is_blank, is_space, trim, strip_from, strip_comment, split_name, non_empty, parse_value, ◌>>=◌,
  parse_assignment, spaces, pad, assignment_line, Setting,
}
use fastdl_mm.Config.Lines.{is_quote_or_slash, strip_from-plain, strip_from-quoted, span_until-stop}

-- A name is not empty, and holds no space, quote or slash.
abbrev pub is_name_end : ℕ → Bool
is_name_end c = is_space c || is_quote_or_slash c

abbrev pub is_value_end : ℕ → Bool
is_value_end c = c == b'"' || c == 10

pub record IsWritable (s : Setting) : Type 0 where
  pub initial : ℕ
  pub others : Bytes
  pub named : s.name ≡ initial ∷ others
  pub plain : NoneOf is_name_end s.name
  pub unquoted : NoneOf is_value_end s.value

NoneOf-left : (p q : ℕ → Bool) (s : Bytes) → NoneOf (λ c. p c || q c) s → NoneOf p s
NoneOf-left p q [] h = tt
NoneOf-left p q (c ∷ s) h = (ground (arith, h.0), NoneOf-left p q s h.1)

NoneOf-right : (p q : ℕ → Bool) (s : Bytes) → NoneOf (λ c. p c || q c) s → NoneOf q s
NoneOf-right p q [] h = tt
NoneOf-right p q (c ∷ s) h = (ground (arith, h.0), NoneOf-right p q s h.1)

NoneOf-append : (p : ℕ → Bool) (s t : Bytes) → NoneOf p s → NoneOf p t → NoneOf p (s ++ t)
NoneOf-append p s t h k = All-append (λ c. p c ≡ false) s t h k

spaces-NoneOf : (p : ℕ → Bool) (n : ℕ) → p b' ' ≡ false → NoneOf p (spaces n)
spaces-NoneOf p zero h = tt
spaces-NoneOf p (suc n) h = (h, spaces-NoneOf p n h)

spaces-blank : (n : ℕ) → All (λ c. is_blank c ≡ true) (spaces n)
unfolding is_blank
spaces-blank zero = tt
spaces-blank (suc n) = (refl, spaces-blank n)

abbrev quoted : Bytes → Bytes
quoted v = b'"' ∷ (v ++ b'"' ∷ [])

strip_comment-line :
    (name v : Bytes) (n : ℕ)
    → NoneOf is_quote_or_slash name
    → NoneOf (λ c. c == b'"') v
    → strip_comment ((name ++ spaces n) ++ quoted v) ≡ (name ++ spaces n) ++ quoted v
unfolding strip_comment
strip_comment-line name v n h k =
    strip_from-plain (name ++ spaces n) (quoted v)
      (NoneOf-append is_quote_or_slash name (spaces n) h (spaces-NoneOf is_quote_or_slash n refl))
    ∙ ap (λ t. (name ++ spaces n) ++ t) (opened v k)
  where
    opened : (v : Bytes) → NoneOf (λ c. c == b'"') v → strip_from false (quoted v) ≡ quoted v
    opened [] k = unfold strip_from in refl
    opened (c ∷ v) k = unfold strip_from in ap (◌∷◌ b'"') (strip_from-quoted (c ∷ v) [] k)

parse_value-quoted : (v : Bytes) → NoneOf (λ c. c == b'"') v → parse_value (quoted v) ≡ some v
unfolding parse_value trim trim_where
parse_value-quoted v k = rw (cut_at-found b'"' v [] k)

trim-line :
    (i : ℕ) (t : Bytes) → is_name_end i ≡ false → trim (i ∷ (t ++ b'"' ∷ [])) ≡ i ∷ (t ++ b'"' ∷ [])
unfolding trim
trim-line i t h = trim_where-blanks is_blank [] i t b'"' tt (blank i h) refl
  where
    blank : (i : ℕ) → is_name_end i ≡ false → is_blank i ≡ false
    blank i h = unfold is_space in ground arith

trim-rest : (n : ℕ) (v : Bytes) → trim (spaces n ++ quoted v) ≡ quoted v
unfolding trim
trim-rest n v = trim_where-blanks is_blank (spaces n) b'"' v b'"' (spaces-blank n) refl refl

split_name-line :
    (i : ℕ) (others t : Bytes)
    → NoneOf is_name_end (i ∷ others)
    → split_name ((i ∷ others) ++ b' ' ∷ t) ≡ (i ∷ others, b' ' ∷ t)
unfolding split_name
split_name-line i others t h =
    let s = NoneOf-left is_space is_quote_or_slash (i ∷ others) h in
    rw (drop_while-stop is_space i (others ++ b' ' ∷ t) s.0)
      (span_until-stop is_space (i ∷ others) t b' ' s refl)

-- The line, so grouped that its last byte shows.
line-shape :
    (name v : Bytes) (n : ℕ)
    → (name ++ spaces (suc n)) ++ quoted v ≡ (name ++ (spaces (suc n) ++ b'"' ∷ v)) ++ b'"' ∷ []
line-shape name v n = simp append_assoc

newline-free :
    (v : Bytes) (n : ℕ)
    → NoneOf is_value_end v
    → NoneOf (λ c. c == 10) (b' ' ∷ (spaces n ++ quoted v))
newline-free v n k = (
  refl,
  NoneOf-append (λ c. c == 10) (spaces n) (quoted v) (spaces-NoneOf (λ c. c == 10) n refl)
      (
        refl,
        NoneOf-append (λ c. c == 10) v (b'"' ∷ [])
            (NoneOf-right (λ c. c == b'"') (λ c. c == 10) v k) (refl, tt),
      ),
)

parse_steps :
    (raw : Bytes) (c : ℕ) (s : Bytes) (i : ℕ) (others rest t v : Bytes)
    → trim (strip_comment raw) ≡ c ∷ s
    → split_name (c ∷ s) ≡ (i ∷ others, rest)
    → trim (cut_at 10 rest).0 ≡ t
    → parse_value t ≡ some v
    → parse_assignment raw ≡ (non_empty v >>= λ shown. some (i ∷ others, shown))
unfolding parse_assignment non_empty
parse_steps raw c s i others rest t v e1 e2 e3 e4 = rw (e1, e2, e3, e4)

pub kept_line :
    (i : ℕ) (others v : Bytes) (n : ℕ)
    → NoneOf is_name_end (i ∷ others)
    → NoneOf is_value_end v
    → let line = ((i ∷ others) ++ spaces (suc n)) ++ quoted v in trim (strip_comment line) ≡ line
kept_line i others v n h k =
    let name : Bytes = i ∷ others in
    let value = NoneOf-left (λ c. c == b'"') (λ c. c == 10) v k in
    ap trim
      (strip_comment-line name v (suc n) (NoneOf-right is_space is_quote_or_slash name h) value)
    ∙ subst (λ t. trim t ≡ t) (sym (line-shape name v n))
        (trim-line i (others ++ (spaces (suc n) ++ b'"' ∷ v)) h.0)

pub parse_quoted :
    (i : ℕ) (others v : Bytes) (n : ℕ)
    → NoneOf is_name_end (i ∷ others)
    → NoneOf is_value_end v
    → parse_assignment (((i ∷ others) ++ spaces (suc n)) ++ quoted v)
      ≡ (non_empty v >>= λ shown. some (i ∷ others, shown))
parse_quoted i others v n h k =
    let name : Bytes = i ∷ others in
    let line : Bytes = (name ++ spaces (suc n)) ++ quoted v in
    let value = NoneOf-left (λ c. c == b'"') (λ c. c == 10) v k in
    let regrouped : line ≡ name ++ b' ' ∷ (spaces n ++ quoted v) =
      append_assoc name (spaces (suc n)) (quoted v) in
    let parts : split_name line ≡ (name, b' ' ∷ (spaces n ++ quoted v)) =
      ap split_name regrouped ∙ split_name-line i others (spaces n ++ quoted v) h in
    let whole = cut_at-none 10 (b' ' ∷ (spaces n ++ quoted v)) (newline-free v n k) in
    let rest = trim-rest (suc n) v in
    let got = parse_value-quoted v value in
    parse_steps line i ((others ++ spaces (suc n)) ++ quoted v) i others
      (b' ' ∷ (spaces n ++ quoted v)) (quoted v) v (kept_line i others v n h k) parts
      (rw whole rest) got

-- An assignment is read if its value is not empty.
abbrev pub read_as : Bytes → Bytes → Option (Bytes × Bytes)
read_as name value = non_empty value >>= λ shown. some (name, shown)

-- Every line that `writeDefaultConfig` writes for a setting is read back as that setting's name and
-- value, if the value is not empty, and is refused if it is: for every name with no space, quote or
-- slash in it, every value with no quote or newline in it (a `//` in the value is no comment), and
-- every column that leaves a space behind the name.
pub parse_assignment-line :
    (s : Setting) (width : ℕ)
    → IsWritable s
    → length s.name < width
    → parse_assignment (assignment_line width s) ≡ read_as s.name s.value
unfolding assignment_line pad
parse_assignment-line s width w h =
    let k = width - length s.name - 1 in
    let gap : width - length s.name ≡ suc k = omega arith in
    subst (λ m. parse_assignment ((s.name ++ spaces m) ++ quoted s.value) ≡ read_as s.name s.value)
      (sym gap)
      (subst
        (λ name.
          parse_assignment ((name ++ spaces (suc k)) ++ quoted s.value) ≡ read_as name s.value)
        (sym w.named)
        (parse_quoted w.initial w.others s.value k (subst (NoneOf is_name_end) w.named w.plain)
          w.unquoted))

-- Such a line is not blank.
pub assignment_line-shown :
    (s : Setting) (width : ℕ)
    → IsWritable s
    → length s.name < width
    → is_empty (trim (strip_comment (assignment_line width s))) ≡ false
unfolding assignment_line pad
assignment_line-shown s width w h =
    let k = width - length s.name - 1 in
    let gap : width - length s.name ≡ suc k = omega arith in
    subst (λ m. is_empty (trim (strip_comment ((s.name ++ spaces m) ++ quoted s.value))) ≡ false)
      (sym gap)
      (subst
        (λ name.
          is_empty (trim (strip_comment ((name ++ spaces (suc k)) ++ quoted s.value))) ≡ false)
        (sym w.named)
        (ap is_empty (
          kept_line w.initial w.others s.value k (subst (NoneOf is_name_end) w.named w.plain)
            w.unquoted)))
