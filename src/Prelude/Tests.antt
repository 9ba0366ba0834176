-- ===== src/Prelude/Tests.antt =====
-- Boolean tests on the native numbers, the conditional, and splits that keep an equation.
use Prim.Native.Nat.{ℕ, compare, Ordering}
use mathlib.Core.Path.{◌≡◌, refl}
use mathlib.Core.Logic.{◌↔◌, ◌⊎◌, inl, inr}
use mathlib.Core.Bool.{Bool, true, false}
use mathlib.Core.Option.{Option, none, some}
use Prim.Native.String.{String, compare as compare_text}
use text.Mathlib.TextEquality.{path_by_compare, eq_iff}
use native.Mathlib.Omega.{arith}

abbrev pub ltb : ℕ → ℕ → Bool
ltb a b = elim (compare a b) [ Ordering.lt ↦ true | _ ↦ false ]

abbrev pub leb : ℕ → ℕ → Bool
leb a b = elim (compare a b) [ Ordering.gt ↦ false | _ ↦ true ]

infix 50 ◌==◌
abbrev pub ◌==◌ : ℕ → ℕ → Bool
a == b = elim (compare a b) [ Ordering.eq ↦ true | _ ↦ false ]

infix 1 if◌then◌else◌
abbrev pub if◌then◌else◌ {ℓ} : {A : Type ℓ} → Bool → A → A → A
if true then x else y = x
if false then x else y = y

pub ==_iff : (a b : ℕ) → ((a == b) ≡ true) ↔ (a ≡ b)
==_iff a b = ground arith

pub Bool-cases : (b : Bool) → (b ≡ true) ⊎ (b ≡ false)
Bool-cases true = inl refl
Bool-cases false = inr refl

pub Option-cases {ℓ} : {A : Type ℓ} (o : Option A) → (o ≡ none) ⊎ ((a : A) × (o ≡ some a))
Option-cases none = inl refl
Option-cases (some a) = inr (a, refl)

-- `==` on Go strings
abbrev pub same_text : String → String → Bool
same_text s t = elim (compare_text s t) [ Ordering.eq ↦ true | _ ↦ false ]

pub eq_of_same_text : (s t : String) → same_text s t ≡ true → s ≡ t
eq_of_same_text s t = go (compare_text s t) (path_by_compare s t)
  where
    go :
        (o : Ordering)
        → (o ≡ Ordering.eq → s ≡ t)
        → elim o [ Ordering.eq ↦ true | _ ↦ false ] ≡ true
        → s ≡ t
    go Ordering.lt f h = cc
    go Ordering.eq f h = f refl
    go Ordering.gt f h = cc

pub same_text_refl : (s : String) → same_text s s ≡ true
same_text_refl s = ground (arith, eq_iff s s)
