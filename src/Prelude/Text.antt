-- ===== src/Prelude/Text.antt =====
-- Texts as lists of bytes, and the operations of `std::string` that the sources call.
use Prim.Native.Nat.{ℕ, ◌+◌}
use Prim.Native.Char.{code}
use Prim.Native.String.{String}
use mathlib.Core.Path.{◌≡◌, refl}
use mathlib.Core.Logic.{◌↔◌}
use mathlib.Core.Bool.{Bool, true, false, ◌&&◌, ◌||◌}
use mathlib.Core.List.{List, [], ◌∷◌, ◌++◌, map}
use mathlib.Core.Option.{Option, none, some}
use native.Mathlib.Omega.{arith}
use fastdl_mm.Prelude.Tests.{leb, ◌==◌, if◌then◌else◌}

abbrev pub Bytes : Type 0
Bytes = List ℕ

-- The bytes of an ASCII literal.
abbrev pub codes : String → Bytes
codes String.[] = []
codes (String.◌∷◌ c s) = code c ∷ codes s

-- `a == b` on `std::string`.
unfoldable pub bytes_eq : Bytes → Bytes → Bool
bytes_eq [] [] = true
bytes_eq [] (_ ∷ _) = false
bytes_eq (_ ∷ _) [] = false
bytes_eq (a ∷ as') (b ∷ bs) = a == b && bytes_eq as' bs

pub bytes_eq_sound : (s t : Bytes) → bytes_eq s t ≡ true → s ≡ t
unfolding bytes_eq
bytes_eq_sound [] [] h = refl
bytes_eq_sound [] (_ ∷ _) h = cc
bytes_eq_sound (_ ∷ _) [] h = cc
bytes_eq_sound (a ∷ s) (b ∷ t) h = ground (arith, bytes_eq_sound s t)

pub bytes_eq_refl : (s : Bytes) → bytes_eq s s ≡ true
unfolding bytes_eq
bytes_eq_refl [] = refl
bytes_eq_refl (a ∷ s) = ground (arith, bytes_eq_refl s)

pub bytes_eq_iff : (s t : Bytes) → (bytes_eq s t ≡ true) ↔ (s ≡ t)
bytes_eq_iff s t = (bytes_eq_sound s t, λ e. rw e (bytes_eq_refl t))

-- `s.rfind(p, 0) == 0`.
unfoldable pub starts_with : Bytes → Bytes → Bool
starts_with [] s = true
starts_with (_ ∷ _) [] = false
starts_with (p ∷ ps) (c ∷ s) = p == c && starts_with ps s

-- `s.find(p) != npos`.
unfoldable pub contains : Bytes → Bytes → Bool
unfolding starts_with
contains p [] = starts_with p []
contains p (c ∷ s) = starts_with p (c ∷ s) || contains p s

-- `std::find(list.begin(), list.end(), s) != list.end()`.
unfoldable pub mem_bytes : Bytes → List Bytes → Bool
mem_bytes s [] = false
mem_bytes s (t ∷ ts) = bytes_eq t s || mem_bytes s ts

-- `std::tolower` in the "C" locale, on one byte and on a text.
unfoldable pub to_lower : ℕ → ℕ
to_lower c = if leb b'A' c && leb c b'Z' then c + 32 else c

unfoldable pub lower_ascii : Bytes → Bytes
unfolding to_lower
lower_ascii = map to_lower

-- The text from the first byte that fails the test on (`find_first_not_of` and `substr`).
unfoldable pub drop_while : (ℕ → Bool) → Bytes → Bytes
drop_while p [] = []
drop_while p (c ∷ s) = let rest = drop_while p s in if p c then rest else c ∷ s

-- The text up to the last byte that fails the test (`find_last_not_of` and `substr`).
abbrev pub keep_unless : Bool → ℕ → Bytes → Bytes
keep_unless true c [] = []
keep_unless false c [] = c ∷ []
keep_unless _ c (d ∷ s) = c ∷ d ∷ s

unfoldable pub drop_last_while : (ℕ → Bool) → Bytes → Bytes
drop_last_while p [] = []
drop_last_while p (c ∷ s) = keep_unless (p c) c (drop_last_while p s)

unfoldable pub trim_where : (ℕ → Bool) → Bytes → Bytes
unfolding drop_while drop_last_while
trim_where p s = drop_last_while p (drop_while p s)

-- The byte at the front or at the back, if any.
abbrev pub back? : Bytes → Option ℕ
back? [] = none
back? (c ∷ []) = some c
back? (_ ∷ d ∷ s) = back? (d ∷ s)

-- The pieces between separators, `find(sep, start)` and `substr` from one end to the other. A text
-- with n separators has n + 1 pieces.
unfoldable pub split_from : ℕ → Bytes → Bytes → List Bytes
split_from sep cur [] = cur ∷ []
split_from sep cur (c ∷ s) =
    let closed = cur ∷ split_from sep [] s in
    let longer = split_from sep (cur ++ c ∷ []) s in if c == sep then closed else longer

unfoldable pub split_on : ℕ → Bytes → List Bytes
unfolding split_from
split_on sep s = split_from sep [] s

-- The text before the first byte `sep`, and the text after it if there is one: `find(sep)` with the
-- two calls of `substr`.
unfoldable pub cut_at : ℕ → Bytes → Bytes × Option Bytes
cut_at sep [] = ([], none)
cut_at sep (c ∷ s) =
    let (before, after) = cut_at sep s in if c == sep then ([], some s) else (c ∷ before, after)

-- The bytes of a C string: those before the first zero byte, of a block that ends in one.
unfoldable pub c_string : Bytes → Bytes
c_string [] = []
c_string (c ∷ s) = let rest = c_string s in if c == 0 then [] else c ∷ rest
