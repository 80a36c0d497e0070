-- ===== src/Graph/Index.antt =====
-- The index that a lookup table of graph-drawing.js stands for: the place of an id in a list.
use dyn_dco.Base.{
  ℕ, suc, ◌+◌, ◌≤◌, String, ◌≡◌, refl, ◌≢◌, Option, none, some, List, [], ◌∷◌, ◌++◌, true, false,
  arith, ite, string_discrete, Table, update, length, contains,
}

abbrev pub position_from : ℕ → String → List String → Option ℕ
position_from i k [] = none
position_from i k (x ∷ xs) = ite (string_discrete x k) (some i) (position_from (suc i) k xs)

-- `refs` is the lookup table of the list `xs`.
abbrev pub IsIndex : Table ℕ → List String → Type 0
IsIndex refs xs = (k : String) → refs k ≡ position_from 0 k xs

-- No id stands twice in the list.
abbrev pub Distinct : List String → Type 0
Distinct [] = Unit {0}
Distinct (x ∷ xs) = (contains xs x ≡ false) × Distinct xs

pub position-absent :
    (i : ℕ) (k : String) (xs : List String) → contains xs k ≡ false → position_from i k xs ≡ none
position-absent i k [] h = refl
position-absent i k (x ∷ xs) h = ground (arith, position-absent (suc i) k xs)

pub position-present :
    (i : ℕ) (k : String) (xs : List String) → contains xs k ≡ true → position_from i k xs ≢ none
position-present i k [] h = cc
position-present i k (x ∷ xs) h = ground (arith, position-present (suc i) k xs)

position-append_self :
    (i : ℕ) (y : String) (xs : List String)
    → contains xs y ≡ false
    → position_from i y (xs ++ y ∷ []) ≡ some (i + length xs)
position-append_self i y [] h = ground arith
position-append_self i y (x ∷ xs) h = ground (arith, position-append_self (suc i) y xs)

position-append_ne :
    (i : ℕ) (k y : String) (xs : List String)
    → y ≢ k
    → position_from i k (xs ++ y ∷ []) ≡ position_from i k xs
position-append_ne i k y [] h = ground arith
position-append_ne i k y (x ∷ xs) h = ground (arith, position-append_ne (suc i) k y xs)

pub contains-append :
    (xs : List String) (y k : String)
    → contains (xs ++ y ∷ []) k ≡ ite (string_discrete y k) true (contains xs k)
contains-append [] y k = refl
contains-append (x ∷ xs) y k = ground (arith, contains-append xs y k)

pub Distinct-append :
    (xs : List String) (y : String) → Distinct xs → contains xs y ≡ false → Distinct (xs ++ y ∷ [])
Distinct-append [] y d h = (refl, tt)
Distinct-append (x ∷ xs) y d h = ground (arith, contains-append xs y x, Distinct-append xs y d.1)

pub IsIndex-append :
    (refs : Table ℕ) (xs : List String) (y : String)
    → contains xs y ≡ false
    → IsIndex refs xs
    → IsIndex (update refs y (some (length xs))) (xs ++ y ∷ [])
IsIndex-append refs xs y h ix k =
    ground (arith, ix k, position-append_self 0 y xs h, position-append_ne 0 k y xs)

-- A place that is found is not before the start of the search.
position-ge : (i j : ℕ) (k : String) (xs : List String) → position_from i k xs ≡ some j → i ≤ j
position-ge i j k [] h = cc
position-ge i j k (x ∷ xs) h = ground (arith, position-ge (suc i) j k xs)

-- The id at the place that is found is the one that was looked for.
pub position-head :
    (i : ℕ) (k x : String) (xs : List String) → position_from i k (x ∷ xs) ≡ some (i + 0) → x ≡ k
position-head i k x xs h = ground (arith, position-ge (suc i) i k xs)

pub position-tail :
    (i j : ℕ) (k x : String) (xs : List String)
    → position_from i k (x ∷ xs) ≡ some (i + suc j)
    → (x ≢ k) × (position_from (suc i) k xs ≡ some (suc i + j))
position-tail i j k x xs h = ground arith
