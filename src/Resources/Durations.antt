-- ===== src/Resources/Durations.antt =====
-- Durations in hours, minutes, seconds and milliseconds
-- (src/main/resources/web-data/js/util.js, linechart.js).
use dyn_dco.Base.{
  ℕ, suc, ◌+◌, ◌*◌, ◌/◌, ◌%◌, ◌≤◌, ◌<◌, arith, ◌≡◌, List, [], ◌∷◌, length, leb, if◌then◌else◌,
}

-- A part of a duration: how many of a unit, and how many milliseconds the unit has.
pub record Part : Type 0 where
  pub count : ℕ
  pub unit : ℕ

-- The loop of `durationPretty` over its units.
unfoldable pub pretty_parts : ℕ → List ℕ → List Part
pretty_parts ms [] = []
pretty_parts ms (v ∷ rest) =
    let smaller = pretty_parts (ms % v) rest in
    let same = pretty_parts ms rest in
    if leb v ms then record { count = ms / v; unit = v } ∷ smaller else same

-- `Date.prototype.durationPretty`
unfoldable pub duration_pretty : ℕ → List Part
unfolding pretty_parts
duration_pretty ms = pretty_parts ms (3600000 ∷ 60000 ∷ 1000 ∷ [])

-- The loop of `durationRounded`: `units` counts the parts so far.
unfoldable pub rounded_parts : ℕ → ℕ → List ℕ → List Part
rounded_parts units ms [] = []
rounded_parts units ms (v ∷ rest) =
    let more = rounded_parts (suc units) (ms % v) rest in
    let same = rounded_parts units ms rest in
    if leb v ms
    then (if leb units 2 then record { count = ms / v; unit = v } ∷ more else same)
    else same

-- `Date.prototype.durationRounded`
unfoldable pub duration_rounded : ℕ → List Part
unfolding rounded_parts
duration_rounded ms = rounded_parts 0 ms (3600000 ∷ 60000 ∷ 1000 ∷ 1 ∷ [])

-- The milliseconds that the parts stand for.
abbrev pub value : List Part → ℕ
value [] = 0
value (p ∷ ps) = p.count * p.unit + value ps

-- The parts of the pretty duration and the milliseconds beyond full seconds make up the duration.
value-duration_pretty : (ms : ℕ) → value (duration_pretty ms) + ms % 1000 ≡ ms
unfolding duration_pretty
value-duration_pretty ms = ground arith

-- The rounded duration has at most three parts, and stands for at most the duration and for less than
-- a second short of it.
pub value-duration_rounded :
    (ms : ℕ)
    → (length (duration_rounded ms) ≤ 3)
      × (value (duration_rounded ms) ≤ ms)
      × (ms < value (duration_rounded ms) + 1000)
unfolding duration_rounded
value-duration_rounded ms = ground arith
