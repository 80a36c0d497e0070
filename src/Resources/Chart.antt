-- ===== src/Resources/Chart.antt =====
-- LineChart: the three series of a chart and the window that it shows
-- (src/main/resources/web-data/js/linechart.js).
pub mod Extremes
pub mod Series
use dyn_dco.Base.{
  ℕ, suc, ◌+◌, ◌*◌, String, Option, none, some, List, [], ◌∷◌, ◌++◌, Bool, true, false, ltb, leb,
  if◌then◌else◌, length,
}
use dyn_dco.Resources.Sums.{get_sum}

-- A value and its place in the array. `none` for Infinity.
pub record Extreme : Type 0 where
  pub v : Option ℕ
  pub id : ℕ

-- `v < min`
abbrev pub below : ℕ → Option ℕ → Bool
below v none = true
below v (some m) = ltb v m

-- The loop of `Array.getMinMax`.
unfoldable pub min_max_from : ℕ → Extreme → ℕ × ℕ → List ℕ → Extreme × (ℕ × ℕ)
min_max_from k lowest highest [] = (lowest, highest)
min_max_from k lowest highest (v ∷ rest) =
    min_max_from (suc k) (if below v lowest.v then record { v = some v; id = k } else lowest)
      (if ltb highest.0 v then (v, k) else highest) rest

-- `Array.getMinMax`: the lowest value and the highest one, each with its index.
unfoldable pub get_min_max : List ℕ → Extreme × (ℕ × ℕ)
unfolding min_max_from
get_min_max array = min_max_from 0 (record { v = none; id = 0 }) (0, 0) array

-- `Array.avg`: the sum over the number of elements, as a fraction.
unfoldable pub avg : List ℕ → ℕ × ℕ
avg [] = (0, 1)
avg (n ∷ ns) = (get_sum (n ∷ ns), length (n ∷ ns))

-- A point of a series; `id` is its text in the tooltip.
pub record Point (V : Type 0) : Type 0 where
  pub date : ℕ
  pub value : V
  pub id : String

-- The series, the latest date, the highest value, and the window of dates that is shown.
pub record Chart : Type 0 where
  pub averages : List (Point (ℕ × ℕ))
  pub minima : List (Point (Option ℕ))
  pub maxima : List (Point ℕ)
  pub highest_date : ℕ
  pub max_y : ℕ
  pub low : ℕ
  pub high : ℕ

-- `update` shifts the window if it showed the latest date and the new one would come too near to its
-- end. `interval` is `scc.conf.resources.intervalCharts`.
unfoldable pub shifts : ℕ → ℕ → Chart → Bool
shifts interval date c =
    if leb c.low c.highest_date
    then (if leb c.highest_date c.high then ltb c.high (date + 2 * interval) else false)
    else false

-- `update`: the new data of the workers, and the texts for the lowest and the highest.
unfoldable pub update : ℕ → (ℕ → String) → (ℕ → String) → ℕ → List ℕ → Chart → Chart
unfolding get_min_max
update interval min_text max_text date array c =
    let (lowest, highest) = get_min_max array in
    let shift = shifts interval date c in
    record {
      averages = c.averages ++ record { date = date; value = avg array; id = "Average" } ∷ [];
      minima = c.minima ++ record { date = date; value = lowest.v; id = min_text lowest.id } ∷ [];
      maxima = c.maxima ++ record { date = date; value = highest.0; id = max_text highest.1 } ∷ [];
      highest_date = date;
      max_y = if ltb c.max_y highest.0 then highest.0 else c.max_y;
      low = if shift then c.low + interval else c.low;
      high = if shift then date + 2 * interval else c.high;
    }
