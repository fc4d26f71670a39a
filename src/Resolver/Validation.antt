-- ===== src/Resolver/Validation.antt =====
-- src/path_resolver.cpp: which request paths `validate` accepts, and what it makes of them.
use fastdl_mm.Prelude.{
  ◌≤◌, ◌<◌, ◌≡◌, ◌≢◌, inl, inr, false, not, ◌||◌, Option, none, some, List, [], ◌∷◌, ◌++◌, arith,
  ltb, ◌==◌, le→ltb_false, Bool-cases, length, is_empty, any, All, All-append, Bytes, codes,
  bytes_eq, bytes_eq_iff, split_from, split_on, c_string, NoneOf,
}
use fastdl_mm.Resolver.{
  is_refused_byte, is_refused_component, collect, some_components, validate_text, validate,
}

-- A component that may stand in a path.
abbrev pub IsComponent : Bytes → Type 0
IsComponent c =
    (c ≢ [])
    × (c ≢ codes ".")
    × (c ≢ codes "..")
    × (length c ≤ 255)
    × All (λ b. is_refused_byte b ≡ false) c
    × NoneOf (λ b. b == b'/') c

-- A piece between slashes.
abbrev IsPiece : Bytes → Type 0
IsPiece c = All (λ b. is_refused_byte b ≡ false) c × NoneOf (λ b. b == b'/') c

split_from-IsPiece :
    (cur s : Bytes)
    → IsPiece cur
    → All (λ b. is_refused_byte b ≡ false) s
    → All IsPiece (split_from b'/' cur s)
unfolding split_from
split_from-IsPiece cur [] h k = (h, tt)
split_from-IsPiece cur (c ∷ s) h k = elim (Bool-cases (c == b'/')) [
  | inl cut ↦ rw cut (h, split_from-IsPiece [] s (tt, tt) k.1)
  | inr inside ↦ rw inside (
      split_from-IsPiece (cur ++ c ∷ []) s
        (
          All-append (λ b. is_refused_byte b ≡ false) cur (c ∷ []) h.0 (k.0, tt),
          All-append (λ b. (b == b'/') ≡ false) cur (c ∷ []) h.1 (inside, tt),
        )
        k.1)
]

kept-IsComponent :
    (piece : Bytes)
    → IsPiece piece
    → is_empty piece ≡ false
    → is_refused_component piece ≡ false
    → IsComponent piece
kept-IsComponent [] p h k = cc
kept-IsComponent (c ∷ s) p h k = (
  (λ e. cc),
  name (codes ".") (ground arith),
  name (codes "..") (ground arith),
  ground arith,
  p.0,
  p.1,
)
  where
    name : (t : Bytes) → bytes_eq (c ∷ s) t ≡ false → c ∷ s ≢ t
    name t h e = let same = (bytes_eq_iff (c ∷ s) t).1 e in cc

collect-IsComponent :
    (components pieces out : List Bytes)
    → All IsComponent components
    → length components ≤ 12
    → All IsPiece pieces
    → collect components pieces ≡ some out
    → All IsComponent out × (length out ≤ 12)
unfolding collect
collect-IsComponent components [] out h k p e = ground (arith, h)
collect-IsComponent components (piece ∷ pieces) out h k p e = elim (Bool-cases (is_empty piece)) [
  | inl blank ↦
      let e1 = rw blank at e in
      collect-IsComponent components pieces out h k p.1
        (rw (le→ltb_false 12 (length components) k) at e1)
  | inr named ↦
      let e1 = rw named at e in
      elim (Bool-cases (is_refused_component piece)) [
        | inl bad ↦ let none_left = rw bad at e1 in cc
        | inr good ↦
            let e2 = rw good at e1 in
            let next = components ++ piece ∷ [] in
            elim (Bool-cases (ltb 12 (length next))) [
              | inl many ↦ let none_left = rw many at e2 in cc
              | inr few ↦
                  collect-IsComponent next pieces out
                    (All-append IsComponent components (piece ∷ []) h
                      (kept-IsComponent piece p.0 named good, tt))
                    (ground (arith, few)) p.1 (rw few at e2)
            ]
      ]
]

clean : (s : Bytes) → any is_refused_byte s ≡ false → All (λ b. is_refused_byte b ≡ false) s
clean [] h = tt
clean (c ∷ s) h = (ground arith, clean s (ground arith))

some_components-inv :
    (o : Option (List Bytes)) (cs : List Bytes)
    → some_components o ≡ some cs
    → (o ≡ some cs) × (0 < length cs)
unfolding some_components
some_components-inv none cs e = cc
some_components-inv (some []) cs e = cc
some_components-inv (some (d ∷ ds)) cs e = (e, ground arith)

split_on-IsPiece :
    (s : Bytes) → All (λ b. is_refused_byte b ≡ false) s → All IsPiece (split_on b'/' s)
unfolding split_on
split_on-IsPiece s h = split_from-IsPiece [] s (tt, tt) h

validate_text-IsComponent :
    (s : Bytes) (cs : List Bytes)
    → validate_text s ≡ some cs
    → All IsComponent cs × (length cs ≤ 12) × (0 < length cs)
unfolding validate_text
validate_text-IsComponent [] cs e = cc
validate_text-IsComponent (c ∷ s) cs e =
    elim (Bool-cases (ltb 2048 (length (c ∷ s)) || not (c == b'/'))) [
      | inl bad ↦ let none_left = rw bad at e in cc
      | inr good ↦
          let e1 = rw good at e in
          elim (Bool-cases (any is_refused_byte (c ∷ s))) [
            | inl dirty ↦ let none_left = rw dirty at e1 in cc
            | inr clear ↦
                let (kept, pos) = some_components-inv _ cs (rw clear at e1) in
                let pieces = split_on-IsPiece s (clean (c ∷ s) clear).1 in
                let (good_cs, few) =
                  collect-IsComponent [] (split_on b'/' s) cs tt (omega arith) pieces kept in
                (good_cs, few, pos)
          ]
    ]

-- Whatever the request line, the relative path that `validate` hands on has between 1 and 12
-- components, none of them empty, `.` or `..`, none longer than 255 bytes, and none with a slash, a
-- backslash, a colon, a question mark, a hash or a control byte in it.
pub validate-IsComponent :
    (raw : Option Bytes) (cs : List Bytes)
    → validate raw ≡ some cs
    → All IsComponent cs × (length cs ≤ 12) × (0 < length cs)
unfolding validate
validate-IsComponent none cs e = cc
validate-IsComponent (some raw) cs e = validate_text-IsComponent (c_string raw) cs e
