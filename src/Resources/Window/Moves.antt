-- ===== src/Resources/Window/Moves.antt =====
-- Moving a chart (src/main/resources/web-data/js/linechart.js).
use dyn_dco.Base.{not, ◌||◌, List, [], ◌∷◌, ℕ, ◌+◌, ◌-◌, ◌≤◌, ◌*◌, arith, ◌≡◌, Bool, true, false}
use dyn_dco.Resources.Window.{
  View, left, right, origin, third, Factor, times, beyond, set_move, set_zoom,
}
use dyn_dco.Resources.Chart.{Chart}
use dyn_dco.Resources.Chart.Series.{IsVisible}

-- The window of a chart.
abbrev pub window : View → ℕ × ℕ
window v = (v.chart.low, v.chart.high)

-- The button for the left undoes the one for the right, and, unless the window would begin before the
-- year 1970, the other way round.
set_move-set_move :
    (interval : ℕ) (v : View)
    → v.chart.low ≤ v.chart.high
    → third (v.chart.high - v.chart.low) ≤ v.chart.low
    → (window (set_move interval left (set_move interval right v).0).0 ≡ window v)
      × (window (set_move interval right (set_move interval left v).0).0 ≡ window v)
unfolding set_move
set_move-set_move interval v h k = (ground arith, ground arith)

abbrev pub is_nil {ℓ} : {A : Type ℓ} → List A → Bool
is_nil [] = true
is_nil (x ∷ xs) = false

-- A chart without data.
abbrev pub is_empty : Chart → Bool
is_empty c = is_nil c.averages

-- `setMove` to the latest date comes to its end, except on a chart without data; `setZoom`, except on a chart without data that is not zoomed in beyond the limit.
set_zoom-completes :
    (interval : ℕ) (rescale : ℕ × ℕ → Factor → ℕ × ℕ) (by : Factor) (v : View)
    → ((set_move interval origin v).1 ≡ not (is_empty v.chart))
      × ((set_zoom interval rescale by v).1
          ≡ (beyond (times v.zoom_scale by) || not (is_empty v.chart)))
unfolding set_move set_zoom
set_zoom-completes interval rescale by v = (ground arith, ground arith)

-- A chart with data that shows its latest date, zoomed within the limit, ends two intervals after the
-- latest date, and is as wide as d3 makes it, if that does not reach back before the year 1970.
set_zoom-latest :
    (interval : ℕ) (rescale : ℕ × ℕ → Factor → ℕ × ℕ) (by : Factor) (v : View)
    → is_empty v.chart ≡ false
    → IsVisible v.chart
    → beyond (times v.zoom_scale by) ≡ false
    → (window (set_zoom interval rescale by v).0 ≡ (
      v.chart.highest_date
          + 2 * interval
          - ((rescale v.scaled (times v.factor by)).1 - (rescale v.scaled (times v.factor by)).0),
      v.chart.highest_date + 2 * interval,
    ))
unfolding set_move set_zoom
set_zoom-latest interval rescale by v h k l = ground (arith, h, k.from, k.to, l)
