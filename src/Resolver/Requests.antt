-- ===== src/Resolver/Requests.antt =====
-- src/path_resolver.cpp: every path of good components is accepted, however many slashes part them.
use mathlib.Core.List.{append-nil, append_assoc}
use fastdl_mm.Prelude.{
  ℕ, zero, suc, ◌+◌, ◌≤◌, ◌<◌, ◌≡◌, refl, sym, ap, ◌∙◌, false, some, List, [], ◌∷◌, ◌++◌, map,
  arith, ltb, ◌==◌, le→ltb_false, length, is_empty, any, length-append, All, All-append, Bytes,
  codes, bytes_eq_iff, split_from, split_on, c_string, NoneOf,
}
use fastdl_mm.Resolver.{
  is_refused_byte, is_refused_component, collect, some_components, validate_text, validate,
}
use fastdl_mm.Resolver.Validation.{IsComponent}

-- The path `/c1/c2/.../cn`, each component with its number of further slashes before it.
abbrev pub slashes : ℕ → Bytes
slashes zero = []
slashes (suc n) = b'/' ∷ slashes n

abbrev pub join : List (ℕ × Bytes) → Bytes
join [] = []
join ((n, c) ∷ cs) = b'/' ∷ (slashes n ++ (c ++ join cs))

abbrev pub components : List (ℕ × Bytes) → List Bytes
components cs = map (λ (c : ℕ × Bytes). c.1) cs

split_from-plain :
    (cur c t : Bytes)
    → NoneOf (λ b. b == b'/') c
    → split_from b'/' cur (c ++ t) ≡ split_from b'/' (cur ++ c) t
unfolding split_from
split_from-plain cur [] t h = ap (λ x. split_from b'/' x t) (sym (append-nil cur))
split_from-plain cur (d ∷ c) t h = rw h.0 (
    split_from-plain (cur ++ d ∷ []) c t h.1
    ∙ ap (λ x. split_from b'/' x t) (append_assoc cur (d ∷ []) c))

collect-slashes :
    (acc : List Bytes) (n : ℕ) (s : Bytes)
    → length acc ≤ 12
    → collect acc (split_from b'/' [] (slashes n ++ s)) ≡ collect acc (split_from b'/' [] s)
unfolding collect split_from
collect-slashes acc zero s h = refl
collect-slashes acc (suc n) s h = rw (le→ltb_false 12 (length acc) h) (collect-slashes acc n s h)

component-kept :
    (c : Bytes) → IsComponent c → (is_empty c ≡ false) × (is_refused_component c ≡ false)
component-kept [] h = absurd (h.0 refl)
component-kept (c ∷ s) h = (
  refl,
  ground
      (arith, bytes_eq_iff (c ∷ s) (codes "."), bytes_eq_iff (c ∷ s) (codes ".."), h.1, h.2, h.3),
)

collect-component :
    (acc pieces : List Bytes) (c : Bytes)
    → IsComponent c
    → length acc < 12
    → collect acc (c ∷ pieces) ≡ collect (acc ++ c ∷ []) pieces
unfolding collect
collect-component acc pieces c h k =
    let (named, good) = component-kept c h in
    let few : ltb 12 (length (acc ++ c ∷ [])) ≡ false =
      le→ltb_false 12 (length (acc ++ c ∷ [])) (omega (arith, length-append acc (c ∷ []))) in
    rw (named, good, few)

split_from-slash : (c u : Bytes) → split_from b'/' c (b'/' ∷ u) ≡ c ∷ split_from b'/' [] u
unfolding split_from
split_from-slash c u = refl

split_from-end : (c : Bytes) → split_from b'/' c [] ≡ c ∷ []
unfolding split_from
split_from-end c = refl

collect-end : (acc : List Bytes) → collect acc [] ≡ some acc
unfolding collect
collect-end acc = refl

collect-join :
    (acc : List Bytes) (n : ℕ) (c : Bytes) (cs : List (ℕ × Bytes))
    → All IsComponent (c ∷ components cs)
    → length acc + length (c ∷ components cs) ≤ 12
    → collect acc (split_from b'/' [] (slashes n ++ (c ++ join cs)))
      ≡ some (acc ++ c ∷ components cs)
collect-join acc n c [] h k =
    collect-slashes acc n (c ++ []) (omega arith)
    ∙ ap (collect acc) (split_from-plain [] c [] h.0.5 ∙ split_from-end c)
    ∙ collect-component acc [] c h.0 (omega arith)
    ∙ collect-end (acc ++ c ∷ [])
collect-join acc n c ((m, d) ∷ ds) h k =
    let next = slashes m ++ (d ++ join ds) in
    collect-slashes acc n (c ++ b'/' ∷ next) (omega arith)
    ∙ ap (collect acc) (split_from-plain [] c (b'/' ∷ next) h.0.5 ∙ split_from-slash c next)
    ∙ collect-component acc (split_from b'/' [] next) c h.0 (omega arith)
    ∙ collect-join (acc ++ c ∷ []) m d ds h.1 (omega (arith, length-append acc (c ∷ [])))
    ∙ ap some (append_assoc acc (c ∷ []) (d ∷ components ds))

abbrev IsPlain : ℕ → Type 0
IsPlain b = is_refused_byte b ≡ false

slashes-IsPlain : (n : ℕ) → All IsPlain (slashes n)
slashes-IsPlain zero = tt
slashes-IsPlain (suc n) = (refl, slashes-IsPlain n)

join-IsPlain : (cs : List (ℕ × Bytes)) → All IsComponent (components cs) → All IsPlain (join cs)
join-IsPlain [] h = tt
join-IsPlain ((n, c) ∷ cs) h = (
  refl,
  All-append IsPlain (slashes n) (c ++ join cs) (slashes-IsPlain n)
      (All-append IsPlain c (join cs) h.0.4 (join-IsPlain cs h.1)),
)

plain-any : (s : Bytes) → All IsPlain s → any is_refused_byte s ≡ false
plain-any [] h = refl
plain-any (c ∷ s) h = rw h.0 (plain-any s h.1)

c_string-plain : (s : Bytes) → All IsPlain s → c_string s ≡ s
unfolding c_string
c_string-plain [] h = refl
c_string-plain (c ∷ s) h = rw (nonzero c h.0, c_string-plain s h.1)
  where
    nonzero : (c : ℕ) → IsPlain c → (c == 0) ≡ false
    nonzero c h = ground arith

validate_text-join :
    (n : ℕ) (c : Bytes) (cs : List (ℕ × Bytes))
    → All IsComponent (c ∷ components cs)
    → length (c ∷ components cs) ≤ 12
    → length (join ((n, c) ∷ cs)) ≤ 2048
    → validate_text (join ((n, c) ∷ cs)) ≡ some (c ∷ components cs)
unfolding validate_text split_on some_components
validate_text-join n c cs h few short = rw (
  le→ltb_false 2048 (length (join ((n, c) ∷ cs))) short,
  plain-any (slashes n ++ (c ++ join cs)) (join-IsPlain ((n, c) ∷ cs) h).1,
  collect-join [] n c cs h (omega arith),
)

-- Every request path of 1 to 12 good components that is at most 2048 bytes long is accepted as just
-- those components, with any number of further slashes before each of them: an `sv_downloadurl` that
-- ends in a slash, which puts one before the first, is harmless.
pub validate-join :
    (n : ℕ) (c : Bytes) (cs : List (ℕ × Bytes))
    → All IsComponent (c ∷ components cs)
    → length (c ∷ components cs) ≤ 12
    → length (join ((n, c) ∷ cs)) ≤ 2048
    → validate (some (join ((n, c) ∷ cs))) ≡ some (c ∷ components cs)
unfolding validate
validate-join n c cs h few short =
    ap validate_text (c_string-plain (join ((n, c) ∷ cs)) (join-IsPlain ((n, c) ∷ cs) h))
    ∙ validate_text-join n c cs h few short
