-- ===== src/GraphPanel/Counts.antt =====
-- The choice of the number of vertices (src/main/resources/web-data/js/graph.js).
use dyn_dco.GraphPanel.Selection.{min}
use dyn_dco.Base.{
  ℕ, zero, suc, ◌+◌, ◌≤◌, arith, ◌≡◌, refl, Option, none, some, List, [], ◌∷◌, ◌++◌, Bool, true,
  false, ltb, ◌==◌, if◌then◌else◌, All, Bool-cases, inl, inr,
}

-- `for (var i = first; …; i += step)`, `count` times
abbrev pub intervals : ℕ → ℕ → ℕ → List ℕ
intervals first step zero = []
intervals first step (suc count) = first ∷ intervals (first + step) step count

-- `vertexCountIntervals`
unfoldable pub vertex_count_intervals : List ℕ
vertex_count_intervals = intervals 5 5 5 ++ intervals 50 50 5 ++ intervals 400 100 7

-- The select box: its options, and the one that is chosen.
pub record Selector : Type 0 where
  pub options : List ℕ
  pub choice : Option ℕ

abbrev pub has_option : List ℕ → ℕ → Bool
has_option [] n = false
has_option (m ∷ ms) n = let rest = has_option ms n in if m == n then true else rest

-- The loop over the intervals, which ends at the first one above the maximum.
abbrev pub options_up_to : ℕ → List ℕ → List ℕ
options_up_to maximum [] = []
options_up_to maximum (n ∷ ns) =
    let rest = options_up_to maximum ns in if ltb maximum n then [] else n ∷ rest

-- `selector.val(n)`: nothing is chosen if there is no such option.
abbrev pub choose : ℕ → Selector → Selector
choose n s = record s { choice = if has_option s.options n then some n else none }

-- The first option of a select box is chosen when nothing else is.
abbrev pub first_option : List ℕ → Option ℕ
first_option [] = none
first_option (n ∷ ns) = some n

-- `populateTargetCountSelector`
unfoldable pub populate_target_count_selector : ℕ → Selector → Selector
populate_target_count_selector maximum s =
    let options = options_up_to maximum vertex_count_intervals in
    let emptied : Selector = record { options = options; choice = first_option options } in
    elim s.choice [
      | none ↦ emptied
      | some n ↦ if ltb maximum n then choose maximum emptied else choose n emptied
    ]

abbrev pub IsSorted : List ℕ → Type 0
IsSorted [] = Unit
IsSorted (n ∷ ns) = All (n ≤◌) ns × IsSorted ns

has_option-All : (n m : ℕ) (ns : List ℕ) → All (n ≤◌) ns → has_option ns m ≡ true → n ≤ m
has_option-All n m [] h e = absurd (cc e)
has_option-All n m (k ∷ ns) h e = elim (Bool-cases (k == m)) [
  | inl q ↦ ground (arith, q, h.0)
  | inr q ↦ has_option-All n m ns h.1 (ground (arith, q, e))
]

-- The loop drops no option up to the maximum.
options_up_to-has_option :
    (maximum n : ℕ) (ns : List ℕ)
    → IsSorted ns
    → n ≤ maximum
    → has_option ns n ≡ true
    → has_option (options_up_to maximum ns) n ≡ true
options_up_to-has_option maximum n [] s h e = e
options_up_to-has_option maximum n (k ∷ ns) s h e = elim (Bool-cases (k == n)) [
  | inl q ↦ ground (arith, q, h)
  | inr q ↦
      let e2 = step k ns q e in
      ground
        (arith, q, h, options_up_to-has_option maximum n ns s.1 h e2, has_option-All k n ns s.0 e2)
]
  where
    step :
        (k : ℕ) (ns : List ℕ)
        → (k == n) ≡ false
        → has_option (k ∷ ns) n ≡ true
        → has_option ns n ≡ true
    step k ns q e = ground (arith, q, e)

abbrev all_above : ℕ → List ℕ → Bool
all_above n [] = true
all_above n (m ∷ ms) = let rest = all_above n ms in if ltb m n then false else rest

abbrev is_sorted : List ℕ → Bool
is_sorted [] = true
is_sorted (n ∷ ns) = let rest = is_sorted ns in if all_above n ns then rest else false

all_above-All : (n : ℕ) (ns : List ℕ) → all_above n ns ≡ true → All (n ≤◌) ns
all_above-All n [] e = tt
all_above-All n (m ∷ ms) e = elim (Bool-cases (ltb m n)) [
  | inl q ↦ absurd (ground (arith, q, e))
  | inr q ↦ (ground (arith, q), all_above-All n ms (ground (arith, q, e)))
]

is_sorted-IsSorted : (ns : List ℕ) → is_sorted ns ≡ true → IsSorted ns
is_sorted-IsSorted [] e = tt
is_sorted-IsSorted (n ∷ ns) e = elim (Bool-cases (all_above n ns)) [
  | inl q ↦ (all_above-All n ns q, is_sorted-IsSorted ns (ground (arith, q, e)))
  | inr q ↦ absurd (ground (arith, q, e))
]

intervals-IsSorted : IsSorted vertex_count_intervals
unfolding vertex_count_intervals
intervals-IsSorted = is_sorted-IsSorted vertex_count_intervals refl

-- If the maximum and the choice so far are among the intervals, then the new choice is an option: the
-- choice so far, or the maximum where it is lower.
populate-choice :
    (maximum n : ℕ) (s : Selector)
    → has_option vertex_count_intervals maximum ≡ true
    → has_option vertex_count_intervals n ≡ true
    → s.choice ≡ some n
    → (populate_target_count_selector maximum s).choice ≡ some (min n maximum)
unfolding populate_target_count_selector
populate-choice maximum n s h k e = elim (Bool-cases (ltb maximum n)) [
  | inl q ↦ ground (
    arith,
    e,
    q,
    options_up_to-has_option maximum maximum vertex_count_intervals intervals-IsSorted (omega arith)
        h,
  )
  | inr q ↦ ground (
    arith,
    e,
    q,
    options_up_to-has_option maximum n vertex_count_intervals intervals-IsSorted (ground (arith, q))
        k,
  )
]
