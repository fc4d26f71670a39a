-- ===== src/Prelude/Tests.antt =====
-- Boolean tests on the native numbers, the conditional, and case lemmas that keep an equation.
use Prim.Native.Nat.{ℕ, ◌≤◌, ◌<◌, compare, Ordering}
use mathlib.Core.Path.{◌≡◌, refl, sym, ap, subst}
use fastdl_mm.Prelude.Lists.{is_none}
use mathlib.Core.Logic.{◌↔◌, ◌⊎◌, inl, inr}
use mathlib.Core.Bool.{Bool, true, false}
use mathlib.Core.Option.{Option, none, some}
use native.Mathlib.Omega.{arith}

abbrev pub ltb : ℕ → ℕ → Bool
ltb a b = elim (compare a b) [ Ordering.lt ↦ true | _ ↦ false ]

abbrev pub leb : ℕ → ℕ → Bool
leb a b = elim (compare a b) [ Ordering.gt ↦ false | _ ↦ true ]

infix 50 ◌==◌
abbrev pub ◌==◌ : ℕ → ℕ → Bool
a == b = elim (compare a b) [ Ordering.eq ↦ true | _ ↦ false ]

infix 1 if◌then◌else◌
abbrev pub if◌then◌else◌ {ℓ} : {A : Type ℓ} → Bool → A → A → A
if true then x else y = x
if false then x else y = y

pub ltb→lt : (a b : ℕ) → ltb a b ≡ true → a < b
ltb→lt a b h = ground arith

pub lt→ltb : (a b : ℕ) → a < b → ltb a b ≡ true
lt→ltb a b h = ground arith

pub leb→le : (a b : ℕ) → leb a b ≡ true → a ≤ b
leb→le a b h = ground arith

pub le→leb : (a b : ℕ) → a ≤ b → leb a b ≡ true
le→leb a b h = ground arith

pub lt→leb_false : (a b : ℕ) → b < a → leb a b ≡ false
lt→leb_false a b h = ground arith

pub le→ltb_false : (a b : ℕ) → b ≤ a → ltb a b ≡ false
le→ltb_false a b h = ground arith

pub ==_iff : (a b : ℕ) → ((a == b) ≡ true) ↔ (a ≡ b)
==_iff a b = ground arith

pub Bool-cases : (b : Bool) → (b ≡ true) ⊎ (b ≡ false)
Bool-cases true = inl refl
Bool-cases false = inr refl

pub Option-cases {ℓ} : {A : Type ℓ} (o : Option A) → (o ≡ none) ⊎ ((a : A) × (o ≡ some a))
Option-cases none = inl refl
Option-cases (some a) = inr (a, refl)

-- What holds of both branches holds of the conditional.
pub if-elim {ℓ κ} :
    {A : Type ℓ} (P : A → Type κ) (c : Bool) {x y : A} → P x → P y → P (if c then x else y)
if-elim P true p q = p
if-elim P false p q = q

-- The same where the test is known; the branch not taken is given, often as `_`.
pub if-elim_false {ℓ κ} :
    {A : Type ℓ} (P : A → Type κ) {c : Bool}
    → c ≡ false
    → (x : A) {y : A} → P y
    → P (if c then x else y)
if-elim_false P h x {y} k = subst (λ b. P (if b then x else y)) (sym h) k

pub if-elim_true {ℓ κ} :
    {A : Type ℓ} (P : A → Type κ) {c : Bool}
    → c ≡ true
    → {x : A} (y : A) → P x
    → P (if c then x else y)
if-elim_true P h {x} y k = subst (λ b. P (if b then x else y)) (sym h) k

pub impossible {ℓ} : {A : Type ℓ} → false ≡ true → A
impossible {A = A} h = subst (λ b. if b then Unit else A) (sym h) tt

pub no_some {ℓ κ} : {A : Type ℓ} {B : Type κ} {a : A} → none ≡ some a → B
no_some h = impossible (sym (ap is_none h))

-- What is known of a test whose first branch cannot give the value.
pub guarded : (c : Bool) (x : Bool) → (if c then false else x) ≡ true → (c ≡ false) × (x ≡ true)
guarded true x h = impossible h
guarded false x h = (refl, h)

pub guarded_some {ℓ} :
    {A : Type ℓ} (c : Bool) (x : Option A) (a : A)
    → (if c then none else x) ≡ some a
    → (c ≡ false) × (x ≡ some a)
guarded_some true x a h = no_some h
guarded_some false x a h = (refl, h)
