-- ===== src/Http/Ranges.antt =====
-- src/fastdl_server.cpp: which ranges are served.
use mathlib.Core.List.{append_assoc}
use fastdl_mm.Prelude.{
  ℕ, ◌+◌, ◌-◌, ◌*◌, ◌/◌, ◌≤◌, ◌<◌, min, ◌≡◌, refl, sym, ap, subst, ◌∙◌, ◌≢◌, ◌↔◌, ◌⊎◌, inl, inr,
  true, false, some, [], ◌∷◌, ◌++◌, arith, ltb, leb, ◌==◌, if◌then◌else◌, le→ltb_false, Bool-cases,
  All, All-append, u64_max, Bytes, codes, cut_at, NoneOf, trim_where-blanks, cut_at-found,
}
use fastdl_mm.Http.Range.{
  is_tab_or_space, trim_ascii, is_digit, parse_digits, parse_unsigned, without, range_spec, has,
  suffix_range, bounded_range, parse_end, open_range, two_sided, split_range, parse_spec,
  parse_range, valid, unsatisfiable,
}

-- The number that a text of digits stands for, after those that were read.
abbrev pub value_from : ℕ → Bytes → ℕ
value_from n [] = n
value_from n (c ∷ s) = value_from (n * 10 + (c - b'0')) s

abbrev pub value : Bytes → ℕ
value = value_from 0

abbrev pub Digits : Bytes → Type 0
Digits s = All (λ c. is_digit c ≡ true) s

value_from-le : (n : ℕ) (s : Bytes) → n ≤ value_from n s
value_from-le n [] = omega arith
value_from-le n (c ∷ s) = omega (arith, value_from-le (n * 10 + (c - b'0')) s)

digit-le : (c : ℕ) → is_digit c ≡ true → c - b'0' ≤ 9
digit-le c h = ground arith

parse_digits-some :
    (n : ℕ) (s : Bytes)
    → Digits s
    → value_from n s ≤ u64_max
    → parse_digits n s ≡ some (value_from n s)
unfolding parse_digits
parse_digits-some n [] h k = refl
parse_digits-some n (c ∷ s) h k =
    let digit = digit-le c h.0 in
    let grows = value_from-le (n * 10 + (c - b'0')) s in
    let fits : n ≤ (u64_max - (c - b'0')) / 10 = omega arith in
    rw (h.0, le→ltb_false ((u64_max - (c - b'0')) / 10) n fits)
      (parse_digits-some (n * 10 + (c - b'0')) s h.1 k)

parse_digits_sound :
    (n : ℕ) (s : Bytes) (v : ℕ)
    → n ≤ u64_max
    → parse_digits n s ≡ some v
    → Digits s × (v ≡ value_from n s) × (v ≤ u64_max)
unfolding parse_digits
parse_digits_sound n [] v h e = (tt, ground arith, ground arith)
parse_digits_sound n (c ∷ s) v h e = elim (Bool-cases (is_digit c)) [
  | inr other ↦ let bad = rw other at e in cc
  | inl digit ↦
      let e1 = rw digit at e in
      elim (Bool-cases (ltb ((u64_max - (c - b'0')) / 10) n)) [
        | inl over ↦ let bad = rw over at e1 in cc
        | inr fits ↦
            let le : n ≤ (u64_max - (c - b'0')) / 10 = ground arith in
            let small = digit-le c digit in
            let (ds, same, bound) =
              parse_digits_sound (n * 10 + (c - b'0')) s v (omega arith) (rw fits at e1) in
            ((digit, ds), same, bound)
      ]
]

-- `parseUnsigned` accepts exactly the non-empty texts of digits whose value fits 64 bits, and returns
-- that value: its test before each multiplication never refuses a value that fits and never lets one
-- wrap.
pub parse_unsigned_iff :
    (s : Bytes) (v : ℕ)
    → (parse_unsigned s ≡ some v) ↔ ((s ≢ []) × Digits s × (v ≡ value s) × (v ≤ u64_max))
unfolding parse_unsigned
parse_unsigned_iff [] v = (λ e. cc, λ h. absurd (h.0 refl))
parse_unsigned_iff (c ∷ s) v = (
  λ e.
      let (ds, same, bound) = parse_digits_sound 0 (c ∷ s) v (omega arith) e in
      (λ k. cc, ds, same, bound),
  λ h. parse_digits-some 0 (c ∷ s) h.1 (omega (arith, h.2, h.3)) ∙ ap some (sym h.2),
)

-- A served range is never empty and never passes the end of the file.
pub parse_range-within :
    (raw : Bytes) (total : ℕ)
    → (parse_range raw total).status ≡ valid
    → (0 < (parse_range raw total).count)
      × ((parse_range raw total).start + (parse_range raw total).count ≤ total)
unfolding parse_range parse_spec split_range two_sided open_range bounded_range suffix_range
parse_range-within raw total h = ground arith

digit-plain : (c d : ℕ) → is_digit c ≡ true → (d < b'0') ⊎ (b'9' < d) → (c == d) ≡ false
digit-plain c d h k = ground arith

Digits-NoneOf : (s : Bytes) (d : ℕ) → Digits s → (d < b'0') ⊎ (b'9' < d) → NoneOf (λ c. c == d) s
Digits-NoneOf [] d h k = tt
Digits-NoneOf (c ∷ s) d h k = (digit-plain c d h.0 k, Digits-NoneOf s d h.1 k)

NoneOf-has : (d : ℕ) (s : Bytes) → NoneOf (λ c. c == d) s → has d s ≡ false
NoneOf-has d [] h = refl
NoneOf-has d (c ∷ s) h = rw h.0 (NoneOf-has d s h.1)

parse_unsigned-Digits :
    (s : Bytes) → s ≢ [] → Digits s → value s ≤ u64_max → parse_unsigned s ≡ some (value s)
parse_unsigned-Digits s h ds b = (parse_unsigned_iff s (value s)).1 (h, ds, refl, b)

-- A header's value with its blanks: `bytes=`, a range, and a last byte that is no blank.
trim-header :
    (before spec : Bytes) (d : ℕ)
    → All (λ c. is_tab_or_space c ≡ true) before
    → is_tab_or_space d ≡ false
    → trim_ascii (before ++ (codes "bytes=" ++ (spec ++ d ∷ [])))
      ≡ codes "bytes=" ++ (spec ++ d ∷ [])
unfolding trim_ascii
trim-header before spec d h k =
    trim_where-blanks is_tab_or_space before b'b' (codes "ytes=" ++ spec) d h refl k

parse_range-spec :
    (before spec : Bytes) (d total : ℕ)
    → All (λ c. is_tab_or_space c ≡ true) before
    → is_tab_or_space d ≡ false
    → parse_range (before ++ (codes "bytes=" ++ (spec ++ d ∷ []))) total
      ≡ parse_spec total (some (spec ++ d ∷ []))
unfolding parse_range range_spec
parse_range-spec before spec d total h k = rw (trim-header before spec d h k)

split_spec :
    (a b : Bytes) (c total : ℕ) (s : Bytes)
    → a ++ b'-' ∷ b ≡ c ∷ s
    → Digits a
    → Digits b
    → parse_spec total (some (c ∷ s))
      ≡ (if total == 0 then without unsatisfiable else two_sided total a b)
unfolding parse_spec split_range
split_spec a b c total s e ha hb =
    let comma : NoneOf (λ x. x == b',') (a ++ b'-' ∷ b) =
      All-append (λ x. (x == b',') ≡ false) a (b'-' ∷ b) (Digits-NoneOf a b',' ha (omega arith))
        (refl, Digits-NoneOf b b',' hb (omega arith)) in
    let no_comma = NoneOf-has b',' (c ∷ s) (subst (NoneOf (λ x. x == b',')) e comma) in
    let cut : cut_at b'-' (c ∷ s) ≡ (a, some b) =
      ap (cut_at b'-') (sym e) ∙ cut_at-found b'-' a b (Digits-NoneOf a b'-' ha (omega arith)) in
    rw (no_comma, cut, NoneOf-has b'-' b (Digits-NoneOf b b'-' hb (omega arith)))

digit-no_blank : (d : ℕ) → is_digit d ≡ true → is_tab_or_space d ≡ false
digit-no_blank d h = ground arith

parse_end-snoc :
    (total : ℕ) (b : Bytes) (d : ℕ) → parse_end total (b ++ d ∷ []) ≡ parse_unsigned (b ++ d ∷ [])
unfolding parse_end
parse_end-snoc total [] d = refl
parse_end-snoc total (c ∷ b) d = refl

last-digit : (b : Bytes) (d : ℕ) → Digits (b ++ d ∷ []) → is_digit d ≡ true
last-digit [] d h = h.0
last-digit (c ∷ b) d h = last-digit b d h.1

snoc-ne-nil : (b : Bytes) (d : ℕ) → b ++ d ∷ [] ≢ []
snoc-ne-nil [] d e = cc
snoc-ne-nil (c ∷ b) d e = cc

serve :
    (total x y : ℕ)
    → x ≤ y
    → x < total
    → (if total == 0
        then without unsatisfiable
        else if leb total x
        then without unsatisfiable
        else bounded_range total x (some y))
      ≡ record { status = valid; start = x; count = min y (total - 1) - x + 1 }
unfolding bounded_range
serve total x y h k = ground arith

-- A range `first-last` of decimal numbers, where `last` fits 64 bits and is no less than `first`, which
-- lies within the file, after any blanks, is served from `first` to
-- `last` or to the end of the file, whichever comes first.
pub parse_range-bounded :
    (before a b : Bytes) (d total : ℕ)
    → All (λ c. is_tab_or_space c ≡ true) before
    → a ≢ []
    → Digits a
    → Digits (b ++ d ∷ [])
    → value (b ++ d ∷ []) ≤ u64_max
    → value a ≤ value (b ++ d ∷ [])
    → value a < total
    → parse_range (before ++ (codes "bytes=" ++ ((a ++ b'-' ∷ b) ++ d ∷ []))) total ≡ record {
      status = valid;
      start = value a;
      count = min (value (b ++ d ∷ [])) (total - 1) - value a + 1;
    }
unfolding two_sided open_range
parse_range-bounded before [] b d total hb ne ha hd fits le lt = absurd (ne refl)
parse_range-bounded before (c ∷ a) b d total hb ne ha hd fits le lt =
    let last = b ++ d ∷ [] in
    let regroup : (c ∷ a) ++ b'-' ∷ last ≡ c ∷ ((a ++ b'-' ∷ b) ++ d ∷ []) =
      sym (append_assoc (c ∷ a) (b'-' ∷ b) (d ∷ [])) in
    parse_range-spec before ((c ∷ a) ++ b'-' ∷ b) d total hb (digit-no_blank d (last-digit b d hd))
    ∙ split_spec (c ∷ a) last c total ((a ++ b'-' ∷ b) ++ d ∷ []) regroup ha hd
    ∙ rw
        (
          parse_unsigned-Digits (c ∷ a) (λ e. cc) ha (omega arith),
          parse_end-snoc total b d,
          parse_unsigned-Digits last (snoc-ne-nil b d) hd fits,
        )
        (serve total (value (c ∷ a)) (value last) le lt)
