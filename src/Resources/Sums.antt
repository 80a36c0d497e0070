-- ===== src/Resources/Sums.antt =====
-- Sums over the statistics of workers and nodes (src/main/resources/web-data/js/util.js,
-- linechart.js).
use dyn_dco.Base.{
  ℕ, zero, suc, ◌+◌, ◌<◌, arith, ◌≡◌, refl, Option, none, some, List, [], ◌∷◌, length, get_elem?,
}

-- An element of an array that may be undefined counts as 0.
abbrev pub or_0 : Option ℕ → ℕ
or_0 none = 0
or_0 (some n) = n

-- `Array.sumElements`
unfoldable pub sum_elements : List (Option ℕ) → List ℕ → List (Option ℕ)
sum_elements sum [] = sum
sum_elements [] (n ∷ ns) = some n ∷ sum_elements [] ns
sum_elements (o ∷ sum) (n ∷ ns) = some (or_0 o + n) ∷ sum_elements sum ns

-- `statistics.forEach(…)`
unfoldable pub sum_statistics : List (Option ℕ) → List (List ℕ) → List (Option ℕ)
sum_statistics sum [] = sum
sum_statistics sum (array ∷ rest) = sum_statistics (sum_elements sum array) rest

-- `new Array(n)`
abbrev pub new_array : ℕ → List (Option ℕ)
new_array zero = []
new_array (suc n) = none ∷ new_array n

-- The arrays that are summed up: those that were sent to nodes, to workers, to the coordinator and to
-- others.
pub record SentStatistics : Type 0 where
  pub to_nodes : List ℕ
  pub to_workers : List ℕ
  pub to_coordinator : List ℕ
  pub to_others : List ℕ

unfoldable pub sum_message_sent : SentStatistics → List (Option ℕ)
unfolding sum_statistics sum_elements
sum_message_sent s =
    sum_statistics (new_array (length s.to_nodes))
      (s.to_nodes ∷ s.to_workers ∷ s.to_coordinator ∷ s.to_others ∷ [])

pub record ReceivedStatistics : Type 0 where
  pub other : List ℕ
  pub request : List ℕ
  pub signal : List ℕ
  pub receive_timeout : List ℕ
  pub bulk_signal : List ℕ
  pub continue : List ℕ
  pub heartbeat : List ℕ

unfoldable pub sum_message_received : ReceivedStatistics → List (Option ℕ)
unfolding sum_statistics sum_elements
sum_message_received s = sum_statistics (new_array (length s.other)) (
    s.other ∷ s.request ∷ s.signal ∷ s.receive_timeout ∷ s.bulk_signal ∷ s.continue ∷ s.heartbeat
    ∷ [])

-- The element of an array, 0 if there is none.
abbrev pub at : List ℕ → ℕ → ℕ
at xs i = or_0 (get_elem? xs i)

abbrev pub sum_at : List (Option ℕ) → ℕ → ℕ
sum_at [] i = 0
sum_at (o ∷ os) zero = or_0 o
sum_at (o ∷ os) (suc i) = sum_at os i

sum_elements-at :
    (sum : List (Option ℕ)) (xs : List ℕ) (i : ℕ)
    → sum_at (sum_elements sum xs) i ≡ sum_at sum i + at xs i
unfolding sum_elements
sum_elements-at sum [] i = omega arith
sum_elements-at [] (n ∷ ns) zero = omega arith
sum_elements-at [] (n ∷ ns) (suc i) = omega (arith, sum_elements-at [] ns i)
sum_elements-at (o ∷ sum) (n ∷ ns) zero = omega arith
sum_elements-at (o ∷ sum) (n ∷ ns) (suc i) = omega (arith, sum_elements-at sum ns i)

-- The sum of what the arrays have at an index.
abbrev pub total_at : List (List ℕ) → ℕ → ℕ
total_at [] i = 0
total_at (xs ∷ rest) i = at xs i + total_at rest i

sum_statistics-at :
    (sum : List (Option ℕ)) (arrays : List (List ℕ)) (i : ℕ)
    → sum_at (sum_statistics sum arrays) i ≡ sum_at sum i + total_at arrays i
unfolding sum_statistics
sum_statistics-at sum [] i = omega arith
sum_statistics-at sum (xs ∷ rest) i =
    omega (arith, sum_statistics-at (sum_elements sum xs) rest i, sum_elements-at sum xs i)

sum_at-new_array : (n i : ℕ) → sum_at (new_array n) i ≡ 0
sum_at-new_array zero i = refl
sum_at-new_array (suc n) zero = refl
sum_at-new_array (suc n) (suc i) = sum_at-new_array n i

-- For each worker the messages sent are those to nodes, to workers, to the coordinator and to others
-- together, also where one of the arrays is shorter than the others.
sum_message_sent_lem :
    (s : SentStatistics) (i : ℕ)
    → sum_at (sum_message_sent s) i
      ≡ at s.to_nodes i + at s.to_workers i + at s.to_coordinator i + at s.to_others i
unfolding sum_message_sent
sum_message_sent_lem s i = omega (
  arith,
  sum_statistics-at (new_array (length s.to_nodes))
      (s.to_nodes ∷ s.to_workers ∷ s.to_coordinator ∷ s.to_others ∷ []) i,
  sum_at-new_array (length s.to_nodes) i,
)

-- `getSum` and `Array.sum`
abbrev pub sum_from : ℕ → List ℕ → ℕ
sum_from sum [] = sum
sum_from sum (n ∷ ns) = sum_from (sum + n) ns

abbrev pub get_sum : List ℕ → ℕ
get_sum = sum_from 0

-- `getSystemLoad`, `getProcessTime` and `getProcessLoad`: the loop over the indices.
unfoldable pub fill_with_sum : List ℕ → List ℕ → List ℕ
fill_with_sum loads [] = []
fill_with_sum loads (n ∷ rest) = get_sum loads ∷ fill_with_sum loads rest

unfoldable pub get_system_load : List ℕ → List ℕ
unfolding fill_with_sum
get_system_load loads = fill_with_sum loads loads

fill_with_sum-at :
    (loads rest : List ℕ) (i : ℕ)
    → i < length rest
    → get_elem? (fill_with_sum loads rest) i ≡ some (get_sum loads)
unfolding fill_with_sum
fill_with_sum-at loads [] i h = absurd (omega arith)
fill_with_sum-at loads (n ∷ rest) zero h = refl
fill_with_sum-at loads (n ∷ rest) (suc i) h = fill_with_sum-at loads rest i (omega arith)

-- Every entry of the load is the sum over all nodes, whichever node it stands for.
get_system_load_lem :
    (loads : List ℕ) (i : ℕ)
    → i < length loads
    → get_elem? (get_system_load loads) i ≡ some (get_sum loads)
unfolding get_system_load
get_system_load_lem loads i h = fill_with_sum-at loads loads i h
