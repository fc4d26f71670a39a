-- ===== src/Prelude/Trim.antt =====
-- What trimming and cutting a text give.
use fastdl_mm.Prelude.Tests.{◌==◌}
use fastdl_mm.Prelude.Lists.{All}
use fastdl_mm.Prelude.Text.{Bytes, drop_while, keep_unless, drop_last_while, trim_where, cut_at}
use Prim.Native.Nat.{ℕ}
use mathlib.Core.Path.{◌≡◌, refl}
use mathlib.Core.Bool.{Bool, true, false}
use mathlib.Core.List.{[], ◌∷◌, ◌++◌}
use mathlib.Core.Option.{none, some}
use native.Mathlib.Omega.{arith}

-- None of the bytes of a text passes the test.
abbrev pub NoneOf : (ℕ → Bool) → Bytes → Type 0
NoneOf p s = All (λ c. p c ≡ false) s

pub drop_while-stop :
    (p : ℕ → Bool) (c : ℕ) (s : Bytes) → p c ≡ false → drop_while p (c ∷ s) ≡ c ∷ s
unfolding drop_while
drop_while-stop p c s h = rw h

pub drop_while-skip :
    (p : ℕ → Bool) (s t : Bytes) → All (λ c. p c ≡ true) s → drop_while p (s ++ t) ≡ drop_while p t
unfolding drop_while
drop_while-skip p [] t h = refl
drop_while-skip p (c ∷ s) t h = rw h.0 (drop_while-skip p s t h.1)

keep_snoc :
    (b : Bool) (c : ℕ) (s : Bytes) (d : ℕ) → keep_unless b c (s ++ d ∷ []) ≡ c ∷ (s ++ d ∷ [])
keep_snoc true c [] d = refl
keep_snoc false c [] d = refl
keep_snoc true c (e ∷ s) d = refl
keep_snoc false c (e ∷ s) d = refl

drop_last_while-stop :
    (p : ℕ → Bool) (s : Bytes) (d : ℕ) → p d ≡ false → drop_last_while p (s ++ d ∷ []) ≡ s ++ d ∷ []
unfolding drop_last_while
drop_last_while-stop p [] d h = rw h
drop_last_while-stop p (c ∷ s) d h = rw (drop_last_while-stop p s d h) (keep_snoc (p c) c s d)

-- A text whose first and last bytes are not blank is kept, whatever blanks stand before it.
pub trim_where-blanks :
    (p : ℕ → Bool) (s : Bytes) (c : ℕ) (t : Bytes) (d : ℕ)
    → All (λ x. p x ≡ true) s
    → p c ≡ false
    → p d ≡ false
    → trim_where p (s ++ c ∷ (t ++ d ∷ [])) ≡ c ∷ (t ++ d ∷ [])
unfolding trim_where
trim_where-blanks p s c t d h k m =
    rw (drop_while-skip p s (c ∷ (t ++ d ∷ [])) h, drop_while-stop p c (t ++ d ∷ []) k)
      (drop_last_while-stop p (c ∷ t) d m)

pub cut_at-found :
    (sep : ℕ) (s t : Bytes) → NoneOf (λ c. c == sep) s → cut_at sep (s ++ sep ∷ t) ≡ (s, some t)
unfolding cut_at
cut_at-found sep [] t h = ground arith
cut_at-found sep (c ∷ s) t h = rw (h.0, cut_at-found sep s t h.1)

pub cut_at-none : (sep : ℕ) (s : Bytes) → NoneOf (λ c. c == sep) s → cut_at sep s ≡ (s, none)
unfolding cut_at
cut_at-none sep [] h = refl
cut_at-none sep (c ∷ s) h = rw (h.0, cut_at-none sep s h.1)
