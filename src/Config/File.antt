-- ===== src/Config/File.antt =====
-- src/meta_plugin.cpp: `writeDefaultConfig` and `loadConfigFile` together.
use mathlib.Core.List.{append-nil, append_assoc}
use fastdl_mm.Prelude.{
  ℕ, suc, ◌+◌, ◌<◌, ◌≡◌, refl, ap, ◌∙◌, inl, inr, true, false, none, List, [], ◌∷◌, ◌++◌, map,
  arith, if◌then◌else◌, Bool-cases, length, is_empty, All, u32_mod, add_size, add_size-eq, Bytes,
  drop_while, drop_last_while, trim_where,
}
use fastdl_mm.Config.{
  trim, strip_from, strip_comment, non_empty, parse_assignment, longest, assignment_line, help_line,
  reminder_lines, write_default_config, is_known, load_line, load_lines, nothing_loaded,
  load_config_file, Setting, Loaded,
}
use fastdl_mm.Config.RoundTrip.{read_as, parse_assignment-line, assignment_line-shown, IsWritable}

-- A file's lines set nothing and are not reported: comments and blank lines.
abbrev pub IsQuiet : Bytes → Type 0
IsQuiet line = (parse_assignment line ≡ none) × (is_empty (trim (strip_comment line)) ≡ true)

load_lines-append :
    (known : List Setting) (l : Loaded) (xs ys : List Bytes)
    → load_lines known l (xs ++ ys) ≡ load_lines known (load_lines known l xs) ys
unfolding load_lines
load_lines-append known l [] ys = refl
load_lines-append known l (x ∷ xs) ys = load_lines-append known (load_line known l x) xs ys

load_lines-IsQuiet :
    (known : List Setting) (l : Loaded) (xs : List Bytes)
    → All IsQuiet xs
    → load_lines known l xs ≡ l
unfolding load_lines load_line
load_lines-IsQuiet known l [] h = refl
load_lines-IsQuiet known l (x ∷ xs) h =
    rw (h.0.0, load_line, h.0.1) (load_lines-IsQuiet known l xs h.1)

-- A comment that begins a line.
comment-IsQuiet : (s : Bytes) → IsQuiet (b'/' ∷ b'/' ∷ s)
unfolding parse_assignment strip_comment strip_from trim trim_where drop_while drop_last_while
    non_empty
comment-IsQuiet s = (refl, refl)

blank-IsQuiet : IsQuiet []
unfolding parse_assignment strip_comment strip_from trim trim_where drop_while drop_last_while
    non_empty
blank-IsQuiet = (refl, refl)

help-IsQuiet : (width : ℕ) (ss : List Setting) → All IsQuiet (map (help_line width) ss)
unfolding help_line
help-IsQuiet width [] = tt
help-IsQuiet width (s ∷ ss) = (comment-IsQuiet _, help-IsQuiet width ss)

-- The settings with a value, and how many have none.
abbrev pub valued : List Setting → List (Bytes × Bytes)
valued [] = []
valued (s ∷ ss) = if is_empty s.value then valued ss else (s.name, s.value) ∷ valued ss

abbrev pub unvalued : List Setting → ℕ
unvalued [] = 0
unvalued (s ∷ ss) = if is_empty s.value then suc (unvalued ss) else unvalued ss

abbrev pub AllKnown : List Setting → List Setting → Type 0
AllKnown known ss = All (λ (s : Setting). is_known known s.name ≡ true) ss

written-line :
    (known : List Setting) (l : Loaded) (s : Setting) (width : ℕ)
    → is_known known s.name ≡ true
    → IsWritable s
    → length s.name < width
    → load_line known l (assignment_line width s) ≡ (
        if is_empty s.value then record l { skipped = add_size l.skipped 1 } else record l {
          assigned = l.assigned ++ (s.name, s.value) ∷ [];
          loaded = add_size l.loaded 1;
        })
unfolding load_line
written-line known l s width k w h =
    let read = parse_assignment-line s width w h in
    let shown = assignment_line-shown s width w h in value_cases s.value refl read shown
  where
    value_cases :
        (v : Bytes)
        → s.value ≡ v
        → parse_assignment (assignment_line width s) ≡ read_as s.name s.value
        → is_empty (trim (strip_comment (assignment_line width s))) ≡ false
        → load_line known l (assignment_line width s) ≡ (
            if is_empty s.value then record l { skipped = add_size l.skipped 1 } else record l {
              assigned = l.assigned ++ (s.name, s.value) ∷ [];
              loaded = add_size l.loaded 1;
            })
    value_cases [] e read shown = unfold load_line non_empty in ground (arith, e, read, shown)
    value_cases (c ∷ v) e read shown = unfold load_line non_empty in ground (arith, e, read, k)

longest-le :
    (width : ℕ) (ss : List Setting)
    → longest ss < width
    → All (λ (s : Setting). length s.name < width) ss
unfolding longest
longest-le width [] h = tt
longest-le width (s ∷ ss) h = (omega arith, longest-le width ss (omega arith))

load_written :
    (known : List Setting) (width : ℕ) (l : Loaded) (ss : List Setting)
    → AllKnown known ss
    → All IsWritable ss
    → All (λ (s : Setting). length s.name < width) ss
    → l.loaded + length ss < u32_mod
    → l.skipped + length ss < u32_mod
    → load_lines known l (map (assignment_line width) ss) ≡ record {
      assigned = l.assigned ++ valued ss;
      loaded = l.loaded + length (valued ss);
      skipped = l.skipped + unvalued ss;
    }
unfolding load_lines
load_written known width l [] k w f h1 h2 = ground (arith, append-nil l.assigned)
load_written known width l (s ∷ ss) k w f h1 h2 =
    let rest = λ (x : Loaded). load_lines known x (map (assignment_line width) ss) in
    let skip : Loaded = record l { skipped = add_size l.skipped 1 } in
    let set : Loaded = record l {
      assigned = l.assigned ++ (s.name, s.value) ∷ [];
      loaded = add_size l.loaded 1;
    } in
    let one_skip = add_size-eq l.skipped 1 (omega arith) in
    let one_set = add_size-eq l.loaded 1 (omega arith) in
    let line = written-line known l s width k.0 w.0 f.0 in
    elim (Bool-cases (is_empty s.value)) [
      | inl none_given ↦
          let ih = load_written known width skip ss k.1 w.1 f.1 (omega arith) (omega arith) in
          ap rest (line ∙ rw none_given) ∙ ih ∙ ground (arith, one_skip)
      | inr given ↦
          let ih = load_written known width set ss k.1 w.1 f.1 (omega arith) (omega arith) in
          ap rest (line ∙ rw given)
          ∙ ih
          ∙ ground (arith, one_set, append_assoc l.assigned ((s.name, s.value) ∷ []) (valued ss))
    ]

-- A configuration that the plugin writes is read back whole: for any table of settings whose names
-- hold no space, quote or slash and whose values hold no quote or newline, loading what
-- `writeDefaultConfig` wrote sets each setting that has a value to that value, in the table's order and
-- nothing else, counts those as loaded, and counts as skipped exactly the settings whose value is
-- empty; the reminder and the help lines are ignored.
pub load-write_default_config :
    (ss : List Setting)
    → AllKnown ss ss
    → All IsWritable ss
    → length ss < u32_mod
    → load_config_file ss (write_default_config ss)
      ≡ record { assigned = valued ss; loaded = length (valued ss); skipped = unvalued ss }
unfolding load_config_file write_default_config
load-write_default_config ss k w h =
    let width = longest ss + 4 in
    let tail = reminder_lines ++ map (help_line width) ss in
    let quiet : All IsQuiet tail = (
      blank-IsQuiet,
      (comment-IsQuiet _, (blank-IsQuiet, (comment-IsQuiet _, help-IsQuiet width ss))),
    ) in
    let first =
      load_written ss width nothing_loaded ss k w (longest-le width ss (omega arith)) (omega arith)
        (omega arith) in
    load_lines-append ss nothing_loaded (map (assignment_line width) ss) tail
    ∙ load_lines-IsQuiet ss _ tail quiet
    ∙ first
    ∙ ground arith
