-- ===== src/Http/Tests.antt =====
-- The theorems on the request headers at concrete texts.
use fastdl_mm.Prelude.{
  ◌+◌, ◌-◌, ◌≤◌, ◌<◌, min, ◌≡◌, refl, ◌≢◌, ◌↔◌, false, some, [], ◌∷◌, ◌++◌, arith, length, All,
  u64_max, Bytes, codes, trim_where, cut_at,
}
use fastdl_mm.Http.Range.{
  trim_ascii, parse_digits, parse_unsigned, range_spec, suffix_range, bounded_range, parse_end,
  open_range, two_sided, split_range, parse_spec, parse_range, valid,
}
use fastdl_mm.Http.Ranges.{
  value, Digits, parse_unsigned_iff, parse_range-within, parse_range-bounded,
}
use fastdl_mm.Http.Text.{is_control, sanitize}
use fastdl_mm.Http.TextLaws.{sanitize-IsSafe}

parse_unsigned_iff_example :
    (parse_unsigned (codes "42") ≡ some 42)
    ↔ ((codes "42" ≢ []) × Digits (codes "42") × (42 ≡ value (codes "42")) × (42 ≤ u64_max))
parse_unsigned_iff_example = parse_unsigned_iff (codes "42") 42

parse_range-within_example :
    (0 < (parse_range (codes "bytes=2-90") 50).count)
    × ((parse_range (codes "bytes=2-90") 50).start + (parse_range (codes "bytes=2-90") 50).count
        ≤ 50)
unfolding parse_range parse_spec split_range two_sided open_range bounded_range suffix_range
    range_spec parse_end parse_unsigned parse_digits trim_ascii trim_where cut_at
parse_range-within_example = parse_range-within (codes "bytes=2-90") 50 refl

parse_range-bounded_example :
    parse_range (codes " " ++ (codes "bytes=" ++ ((codes "2" ++ b'-' ∷ codes "9") ++ b'0' ∷ []))) 50
    ≡ record {
      status = valid;
      start = value (codes "2");
      count = min (value (codes "9" ++ b'0' ∷ [])) (50 - 1) - value (codes "2") + 1;
    }
parse_range-bounded_example =
    parse_range-bounded (codes " ") (codes "2") (codes "9") b'0' 50 (refl, tt) (λ e. cc) (refl, tt)
      (refl, (refl, tt)) (omega arith) (omega arith) (omega arith)

abbrev rude : Bytes
rude = b'a' ∷ 10 ∷ b'b' ∷ []

sanitize-IsSafe_example :
    (length (sanitize rude 4) ≤ 4) × All (λ c. is_control c ≡ false) (sanitize rude 4)
sanitize-IsSafe_example = sanitize-IsSafe rude 4 (omega arith, (omega arith, (omega arith, tt)))
