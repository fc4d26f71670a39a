-- ===== src/Logger/Names.antt =====
-- src/logger.cpp: the names of the log's files, and which of them `purge` removes.
use mathlib.Core.List.{append_assoc}
use fastdl_mm.Prelude.{
  ℕ, zero, suc, ◌+◌, ◌-◌, ◌/◌, ◌%◌, ◌≤◌, ◌<◌, ◌≡◌, refl, sym, ap, ◌∙◌, inl, inr, Bool, true, false,
  not, ◌&&◌, Option, none, some, List, [], ◌∷◌, ◌++◌, arith, ltb, ◌==◌, le→ltb_false, ==_iff,
  Bool-cases, Option-cases, length, take, drop, is_empty, length-append, take-append-drop,
  drop-append, take-append, All, All-map, Bytes, bytes_eq, bytes_eq_sound, bytes_eq_refl,
  starts_with, decimal_from, two_digits, four_digits,
}
use fastdl_mm.Prelude.Int.{ltb_ℤ, ℤ, pos}
use fastdl_mm.Resolver.{FilePath}
use fastdl_mm.Logger.{
  date_stamp, MkTime, is_digit, check_date, parse_stamp, prefix_of, suffix_of, daily_name, stamp_of,
  is_before, is_old_stamp, is_old, purge_from, cutoff_of, purge, Tm, AsyncLogger,
}

-- A day that `%04d-%02d-%02d` writes in ten bytes and that `parseStamp` takes for a date.
pub record IsDate (day : Tm) : Type 0 where
  pub year : day.tm_year + 1900 < 10000
  pub month : day.tm_mon < 12
  pub first : 1 ≤ day.tm_mday
  pub last : day.tm_mday ≤ 31

ten_bytes : Tm → Bytes
ten_bytes day =
    let y = day.tm_year + 1900 in
    let m = day.tm_mon + 1 in
    let d = day.tm_mday in
    (b'0' + y / 1000)
    ∷ (b'0' + y / 100 % 10)
    ∷ (b'0' + y / 10 % 10)
    ∷ (b'0' + y % 10)
    ∷ b'-'
    ∷ (b'0' + m / 10)
    ∷ (b'0' + m % 10)
    ∷ b'-'
    ∷ (b'0' + d / 10)
    ∷ (b'0' + d % 10)
    ∷ []

date_stamp-ten_bytes : (day : Tm) → IsDate day → date_stamp day ≡ ten_bytes day
unfolding date_stamp ten_bytes
date_stamp-ten_bytes day h = rw (
  four_digits (day.tm_year + 1900) h.year,
  two_digits (day.tm_mon + 1) (omega (arith, h.month)),
  two_digits day.tm_mday (omega (arith, h.last)),
)

length-ten_bytes : (day : Tm) → length (ten_bytes day) ≡ 10
unfolding ten_bytes
length-ten_bytes day = refl

digit_lem : (n : ℕ) → n < 10 → is_digit (b'0' + n) ≡ true
digit_lem n h = ground arith

check_date_lem :
    (mktime : MkTime) (year month day y m d : ℕ)
    → year ≡ y
    → month ≡ m
    → day ≡ d
    → 1 ≤ m
    → m ≤ 12
    → 1 ≤ d
    → d ≤ 31
    → check_date mktime year month day ≡ mktime y m (pos d)
unfolding check_date
check_date_lem mktime year month day y m d ey em ed h1 h2 h3 h4 =
    let few_months : ltb m 1 ≡ false = le→ltb_false m 1 h1 in
    let many_months : ltb 12 m ≡ false = le→ltb_false 12 m h2 in
    let few_days : ltb d 1 ≡ false = le→ltb_false d 1 h3 in
    let many_days : ltb 31 d ≡ false = le→ltb_false 31 d h4 in
    rw (ey, em, ed, few_months, many_months, few_days, many_days)

parse_stamp-ten_bytes :
    (mktime : MkTime) (day : Tm)
    → IsDate day
    → parse_stamp mktime (ten_bytes day)
      ≡ mktime (day.tm_year + 1900) (day.tm_mon + 1) (pos day.tm_mday)
unfolding ten_bytes parse_stamp
parse_stamp-ten_bytes mktime day h =
    let y = day.tm_year + 1900 in
    let m = day.tm_mon + 1 in
    let d = day.tm_mday in
    let year = h.year in
    let month = h.month in
    let last = h.last in
    let years : decimal_from 0
          ((b'0' + y / 1000) ∷ (b'0' + y / 100 % 10) ∷ (b'0' + y / 10 % 10) ∷ (b'0' + y % 10) ∷ [])
        ≡ y =
      omega arith in
    let months : decimal_from 0 ((b'0' + m / 10) ∷ (b'0' + m % 10) ∷ []) ≡ m = omega arith in
    let days : decimal_from 0 ((b'0' + d / 10) ∷ (b'0' + d % 10) ∷ []) ≡ d = omega arith in
    rw
      (
        digit_lem (y / 1000) (omega arith),
        digit_lem (y / 100 % 10) (omega arith),
        digit_lem (y / 10 % 10) (omega arith),
        digit_lem (y % 10) (omega arith),
        digit_lem (m / 10) (omega arith),
        digit_lem (m % 10) (omega arith),
        digit_lem (d / 10) (omega arith),
        digit_lem (d % 10) (omega arith),
      )
      (check_date_lem mktime _ _ _ y m d years months days (omega arith) (omega arith) h.first
        h.last)

pub length-date_stamp : (day : Tm) → IsDate day → length (date_stamp day) ≡ 10
length-date_stamp day h = rw (date_stamp-ten_bytes day h) (length-ten_bytes day)

starts_with-append : (s t : Bytes) → starts_with s (s ++ t) ≡ true
unfolding starts_with
starts_with-append [] t = refl
starts_with-append (c ∷ s) t = ground (arith, starts_with-append s t)

starts_with_split : (s t : Bytes) → starts_with s t ≡ true → t ≡ s ++ drop (length s) t
unfolding starts_with
starts_with_split [] t h = refl
starts_with_split (c ∷ s) [] h = cc
starts_with_split (c ∷ s) (d ∷ t) h = ground (arith, starts_with_split s t)

stamp_of-append :
    (before stamp after : Bytes)
    → length stamp ≡ 10
    → stamp_of before after (before ++ (stamp ++ after)) ≡ some stamp
unfolding stamp_of
stamp_of-append before stamp after h =
    let whole : length (before ++ (stamp ++ after)) ≡ length before + 10 + length after =
      omega (arith, length-append before (stamp ++ after), length-append stamp after) in
    let head : length (before ++ stamp) ≡ length before + 10 =
      omega (arith, length-append before stamp) in
    let behind : drop (length before + 10) (before ++ (stamp ++ after)) ≡ after =
      rw (← head, ← append_assoc before stamp after) (drop-append (before ++ stamp) after) in
    let gap : length before + 10 + length after - length after ≡ length before + 10 = omega arith in
    let found : take 10 (drop (length before) (before ++ (stamp ++ after))) ≡ stamp =
      rw (drop-append before (stamp ++ after), ← h) (take-append stamp after) in
    let sized : (length before + 10 + length after == length before + 10 + length after) ≡ true =
      (==_iff _ _).1 refl in
    rw
      (
        whole,
        sized,
        starts_with-append before (stamp ++ after),
        gap,
        behind,
        bytes_eq_refl after,
        found,
      )
      (ground arith)

-- A file name of the log with the bytes of the stamp given.
abbrev pub name_with : FilePath → Bytes → Bytes
name_with base stamp = prefix_of base ++ (stamp ++ suffix_of base)

-- The name that the logger gives to the file of a day, with a year of at most four digits, is one that
-- `purge` removes exactly if that day's midnight exists and lies before the cutoff.
pub is_old-daily_name :
    (mktime : MkTime) (base : FilePath) (cutoff : ℤ) (day : Tm)
    → IsDate day
    → is_old mktime base cutoff (daily_name base day)
      ≡ is_before cutoff (mktime (day.tm_year + 1900) (day.tm_mon + 1) (pos day.tm_mday))
unfolding is_old daily_name is_old_stamp
is_old-daily_name mktime base cutoff day h = rw (
  stamp_of-append (prefix_of base) (date_stamp day) (suffix_of base) (length-date_stamp day h),
  date_stamp-ten_bytes day h,
  parse_stamp-ten_bytes mktime day h,
)

-- What the name of a removed file says: it is the log's, with a date in it before the cutoff.
abbrev pub Removable : MkTime → FilePath → ℤ → Bytes → Type 0
Removable mktime base cutoff name =
    (stamp : Bytes) × (t : ℤ) × (name ≡ name_with base stamp)
    × (length stamp ≡ 10)
    × (parse_stamp mktime stamp ≡ some t)
    × (ltb_ℤ t cutoff ≡ true)

drop_all : (s : Bytes) → drop (length s) s ≡ []
drop_all [] = refl
drop_all (c ∷ s) = drop_all s

drop-drop : (n m : ℕ) (s : Bytes) → drop m (drop n s) ≡ drop (n + m) s
drop-drop zero m s = let e : 0 + m ≡ m = omega arith in rw e
drop-drop (suc n) zero [] = let e : suc n + 0 ≡ suc n = omega arith in rw e
drop-drop (suc n) (suc m) [] = let e : suc n + suc m ≡ suc (n + suc m) = omega arith in rw e
drop-drop (suc n) m (c ∷ s) =
    let e : suc n + m ≡ suc (n + m) = omega arith in rw e (drop-drop n m s)

suffix_kept :
    (after name : Bytes)
    → (not (is_empty after) && not (bytes_eq (drop (length name - length after) name) after))
      ≡ false
    → drop (length name - length after) name ≡ after
suffix_kept [] name h = let e : length name - 0 ≡ length name = omega arith in rw e (drop_all name)
suffix_kept (c ∷ s) name h =
    bytes_eq_sound (drop (length name - length (c ∷ s)) name) (c ∷ s) (ground arith)

stamp_of_split :
    (before after name stamp : Bytes)
    → stamp_of before after name ≡ some stamp
    → (name ≡ before ++ (stamp ++ after)) × (length stamp ≡ 10)
unfolding stamp_of
stamp_of_split before after name stamp h =
    elim (Bool-cases (length name == length before + 10 + length after)) [
      | inr e ↦ let bad = rw e at h in cc
      | inl e ↦
          let sized : length name ≡ length before + 10 + length after = (==_iff _ _).0 e in
          let h1 = rw e at h in
          elim (Bool-cases (starts_with before name)) [
            | inr f ↦ let bad = rw f at h1 in cc
            | inl f ↦
                let h2 = rw f at h1 in
                elim (Bool-cases (
                  not (is_empty after)
                  && not (bytes_eq (drop (length name - length after) name) after))) [
                    | inl g ↦ let bad = rw g at h2 in cc
                    | inr g ↦
                        let h3 = rw g at h2 in
                        let taken : take 10 (drop (length before) name) ≡ stamp = cc in
                        let ten : length before + 10 ≡ length name - length after = omega arith in
                        let behind : drop 10 (drop (length before) name) ≡ after =
                          drop-drop (length before) 10 name
                          ∙ ap (λ n. drop n name) ten
                          ∙ suffix_kept after name g in
                        let whole : name ≡ before ++ (stamp ++ after) =
                          starts_with_split before name f
                          ∙ ap (λ (t : Bytes). before ++ t)
                              (sym (take-append-drop 10 (drop (length before) name))
                                ∙ (λ i. taken i ++ behind i)) in
                        (
                          whole,
                          omega (
                            arith,
                            sized,
                            ap (λ (t : Bytes). length t) whole,
                            length-append before (stamp ++ after),
                            length-append stamp after,
                          ),
                        )
                  ]
          ]
    ]

is_before-some :
    (cutoff : ℤ) (o : Option ℤ)
    → is_before cutoff o ≡ true
    → (t : ℤ) × (o ≡ some t) × (ltb_ℤ t cutoff ≡ true)
unfolding is_before
is_before-some cutoff none h = cc
is_before-some cutoff (some t) h = (t, refl, h)

is_old-Removable :
    (mktime : MkTime) (base : FilePath) (cutoff : ℤ) (name : Bytes)
    → is_old mktime base cutoff name ≡ true
    → Removable mktime base cutoff name
unfolding is_old is_old_stamp
is_old-Removable mktime base cutoff name h =
    elim (Option-cases (stamp_of (prefix_of base) (suffix_of base) name)) [
      | inl e ↦ let bad = rw e at h in cc
      | inr (stamp, e) ↦
          let (t, dated, old) = is_before-some cutoff (parse_stamp mktime stamp) (rw e at h) in
          let (named, ten) = stamp_of_split (prefix_of base) (suffix_of base) name stamp e in
          (stamp, t, named, ten, dated, old)
    ]

second : (a b : Bool) → (a && b) ≡ true → b ≡ true
second true b h = h
second false b h = cc

purge_from-Removable :
    (mktime : MkTime) (base : FilePath) (cutoff : ℤ) (entries : List (Bytes × Bool))
    → All (Removable mktime base cutoff) (purge_from mktime base cutoff entries)
unfolding purge_from
purge_from-Removable mktime base cutoff [] = tt
purge_from-Removable mktime base cutoff ((name, regular) ∷ entries) =
    let rest = purge_from-Removable mktime base cutoff entries in
    elim (Bool-cases (regular && is_old mktime base cutoff name)) [
      | inr e ↦ rw e rest
      | inl e ↦ rw e (is_old-Removable mktime base cutoff name (second regular _ e), rest)
    ]

-- Where the midnight `keep_days - 1` days before today exists, every file that `purge` removes has a name
-- of the log with a date before that midnight in it, and it removes files only if `keep_days` is not 0.
pub purge-Removable :
    (mktime : MkTime) (l : AsyncLogger) (today : Tm) (entries : List (Bytes × Bool)) (cutoff : ℤ)
    → cutoff_of mktime l.keep_days today ≡ some cutoff
    → All
        (λ name. Removable mktime l.base_path cutoff name × (0 < l.keep_days))
        (purge mktime l today entries)
unfolding purge
purge-Removable mktime l today entries cutoff h = elim (Bool-cases (l.keep_days == 0)) [
  | inl e ↦ rw e tt
  | inr e ↦
      let kept : 0 < l.keep_days = ground arith in
      rw (e, h)
        (All-map (λ name r. (r, kept)) (purge_from mktime l.base_path cutoff entries)
          (purge_from-Removable mktime l.base_path cutoff entries))
]
