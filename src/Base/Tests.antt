-- ===== src/Base/Tests.antt =====
-- Boolean tests on the native numbers, the conditional, and decisions on texts.
use Prim.Native.Nat.{ℕ, compare, Ordering}
use Prim.Native.String.{String}
use mathlib.Core.Path.{◌≡◌, refl}
use mathlib.Core.Logic.{◌⊎◌, ◌≢◌, inl, inr}
use mathlib.Core.Bool.{Bool, true, false}
use mathlib.Core.Option.{Option, none, some}
use text.Mathlib.Text.{◌==◌ as str_eq}
use text.Mathlib.TextEquality.{eq_iff}

abbrev pub ltb : ℕ → ℕ → Bool
ltb a b = elim (compare a b) [ Ordering.lt ↦ true | _ ↦ false ]

abbrev pub leb : ℕ → ℕ → Bool
leb a b = elim (compare a b) [ Ordering.gt ↦ false | _ ↦ true ]

infix 50 ◌==◌
abbrev pub ◌==◌ : ℕ → ℕ → Bool
a == b = elim (compare a b) [ Ordering.eq ↦ true | _ ↦ false ]

infix 1 if◌then◌else◌
abbrev pub if◌then◌else◌ {ℓ} : {A : Type ℓ} → Bool → A → A → A
if true then x else y = x
if false then x else y = y

pub Bool-cases : (b : Bool) → (b ≡ true) ⊎ (b ≡ false)
Bool-cases true = inl refl
Bool-cases false = inr refl

pub Option-cases {ℓ} : {A : Type ℓ} (o : Option A) → (o ≡ none) ⊎ ((a : A) × (o ≡ some a))
Option-cases none = inl refl
Option-cases (some a) = inr (a, refl)

-- `===` on strings, as a decision.
unfoldable pub string_discrete : Discrete String
string_discrete s t =
    elim (str_eq s t) as (λ b. (str_eq s t ≡ b → Dec (s ≡ t))) [
      | true ↦ λ e. yes ((eq_iff s t).0 e)
      | false ↦ λ e. no (λ p. false_ne (eq_iff s t).1 p e)
    ]
      refl
  where
    false_ne : (s ≡ t → str_eq s t ≡ true) → s ≡ t → str_eq s t ≡ false → ⊥
    false_ne f p e = cc (f p)

pub strings_differ : (s t : String) → str_eq s t ≡ false → s ≢ t
strings_differ s t e p = cc (e, (eq_iff s t).1 p)
