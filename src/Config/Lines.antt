-- ===== src/Config/Lines.antt =====
-- src/config_parser.cpp: comments and blanks.
use fastdl_mm.Prelude.{
  ℕ, ◌≡◌, refl, ap, ◌⊎◌, inl, inr, Bool, true, false, not, ◌&&◌, ◌||◌, [], ◌∷◌, ◌++◌, arith, ◌==◌,
  if◌then◌else◌, Bool-cases, Bytes, NoneOf,
}
use fastdl_mm.Config.{strip_from, strip_comment, span_until}

abbrev pub is_quote_or_slash : ℕ → Bool
is_quote_or_slash c = c == b'"' || c == b'/'

-- Outside quotes, a text with neither quotes nor slashes is kept up to what follows it.
pub strip_from-plain :
    (s t : Bytes) → NoneOf is_quote_or_slash s → strip_from false (s ++ t) ≡ s ++ strip_from false t
unfolding strip_from
strip_from-plain [] t h = refl
strip_from-plain (c ∷ []) [] h = refl
strip_from-plain (c ∷ []) (d ∷ t) h = ground arith
strip_from-plain (c ∷ d ∷ s) t h = ground (arith, strip_from-plain (d ∷ s) t h.1)

-- Within quotes, everything up to the closing one is kept, comment signs included.
pub strip_from-quoted :
    (s t : Bytes)
    → NoneOf (λ c. c == b'"') s
    → strip_from true (s ++ b'"' ∷ t) ≡ s ++ strip_from true (b'"' ∷ t)
unfolding strip_from
strip_from-quoted [] t h = refl
strip_from-quoted (c ∷ []) t h = ground arith
strip_from-quoted (c ∷ d ∷ s) t h = ground (arith, strip_from-quoted (d ∷ s) t h.1)

pub span_until-stop :
    (p : ℕ → Bool) (s t : Bytes) (c : ℕ)
    → NoneOf p s
    → p c ≡ true
    → span_until p (s ++ c ∷ t) ≡ (s, c ∷ t)
unfolding span_until
span_until-stop p [] t c h k = rw k
span_until-stop p (d ∷ s) t c h k = rw (h.0, span_until-stop p s t c h.1 k)

-- Whether a text has a comment sign outside quotes, as a relation: the text before it, the state of
-- the quotes there being even.
abbrev pub quotes : Bytes → Bool → Bool
quotes [] q = q
quotes (c ∷ s) q = quotes s (if c == b'"' then not q else q)

strip_from_cases :
    (q : Bool) (s : Bytes)
    → (strip_from q s ≡ s)
      ⊎ ((rest : Bytes) × (s ≡ strip_from q s ++ b'/' ∷ b'/' ∷ rest)
          × (quotes (strip_from q s) q ≡ false))
unfolding strip_from
strip_from_cases q [] = inl refl
strip_from_cases q (c ∷ []) = inl refl
strip_from_cases q (c ∷ d ∷ s) =
    elim (Bool-cases (not (c == b'"') && not q && c == b'/' && d == b'/')) [
      | inl hit ↦ rw hit (inr (s, ground arith, ground arith))
      | inr miss ↦ rw miss (elim (strip_from_cases (if c == b'"' then not q else q) (d ∷ s)) [
        | inl e ↦ inl (ap (◌∷◌ c) e)
        | inr (rest, e, even) ↦ inr (rest, ap (◌∷◌ c) e, even)
      ])
    ]

-- What `stripComment` keeps is the whole line, or all of it before a `//` that stands outside quotes.
pub strip_comment_cases :
    (s : Bytes)
    → (strip_comment s ≡ s)
      ⊎ ((rest : Bytes) × (s ≡ strip_comment s ++ b'/' ∷ b'/' ∷ rest)
          × (quotes (strip_comment s) false ≡ false))
unfolding strip_comment
strip_comment_cases s = strip_from_cases false s
