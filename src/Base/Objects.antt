-- ===== src/Base/Objects.antt =====
-- JavaScript objects that are enumerated: keys with values, in the order in which they were added.
use Prim.Native.String.{String}
use mathlib.Core.Path.{◌≡◌, refl}
use mathlib.Core.Logic.{ite, ◌≢◌}
use mathlib.Core.List.{List, [], ◌∷◌}
use mathlib.Core.Option.{Option, none, some}
use native.Mathlib.Omega.{arith}
use dyn_dco.Base.Tests.{string_discrete}

module _ {ℓ} {A : Type ℓ} where
  -- `o[k]`
  abbrev pub lookup : String → List (String × A) → Option A
  lookup k [] = none
  lookup k ((x, v) ∷ rest) = ite (string_discrete x k) (some v) (lookup k rest)

  -- `o[k] = v`
  abbrev pub assign : String → A → List (String × A) → List (String × A)
  assign k v [] = (k, v) ∷ []
  assign k v ((x, w) ∷ rest) = ite (string_discrete x k) ((x, v) ∷ rest) ((x, w) ∷ assign k v rest)

  -- `delete o[k]`
  abbrev pub remove_key : String → List (String × A) → List (String × A)
  remove_key k [] = []
  remove_key k ((x, w) ∷ rest) =
      ite (string_discrete x k) (remove_key k rest) ((x, w) ∷ remove_key k rest)

  pub lookup-assign_same :
      (k : String) (v : A) (o : List (String × A)) → lookup k (assign k v o) ≡ some v
  lookup-assign_same k v [] = ground arith
  lookup-assign_same k v ((x, w) ∷ rest) = ground (arith, lookup-assign_same k v rest)

  pub lookup-assign_other :
      (k j : String) (v : A) (o : List (String × A)) → k ≢ j → lookup j (assign k v o) ≡ lookup j o
  lookup-assign_other k j v [] ne = ground arith
  lookup-assign_other k j v ((x, w) ∷ rest) ne = ground (arith, lookup-assign_other k j v rest)

  pub lookup-remove_same : (k : String) (o : List (String × A)) → lookup k (remove_key k o) ≡ none
  lookup-remove_same k [] = refl
  lookup-remove_same k ((x, w) ∷ rest) = ground (arith, lookup-remove_same k rest)

  pub lookup-remove_other :
      (k j : String) (o : List (String × A)) → k ≢ j → lookup j (remove_key k o) ≡ lookup j o
  lookup-remove_other k j [] ne = refl
  lookup-remove_other k j ((x, w) ∷ rest) ne = ground (arith, lookup-remove_other k j rest)
