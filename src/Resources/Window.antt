-- ===== src/Resources/Window.antt =====
-- LineChart: zooming, moving and drawing a chart (src/main/resources/web-data/js/linechart.js).
pub mod Limits
pub mod Moves
use dyn_dco.Base.{
  ℕ, ◌+◌, ◌-◌, ◌*◌, ◌/◌, String, Option, none, some, List, [], ◌∷◌, ◌&&◌, ◌||◌, Bool, true, false,
  ltb, leb, if◌then◌else◌, length,
}
use dyn_dco.Resources.Sums.{get_sum}
use dyn_dco.Resources.Chart.{Point, Chart, update}

-- A zoom factor, as an exact fraction.
pub record Factor : Type 0 where
  pub num : ℕ
  pub den : ℕ

abbrev pub times : Factor → Factor → Factor
times a b = record { num = a.num * b.num; den = a.den * b.den }

abbrev pub no_zoom : Factor
no_zoom = record { num = 1; den = 1 }

-- A chart as it is shown: `zoom_scale`, what d3's zoom keeps (the domain that it scales, and its factor),
-- and the upper end of the y axis in hundredths.
pub record View : Type 0 where
  pub chart : Chart
  pub zoom_scale : Factor
  pub scaled : ℕ × ℕ
  pub factor : Factor
  pub y_top : ℕ

-- The buttons.
pub data Move : Type 0 where
  left origin right : Move

-- `newZoomScale > 2.5`
abbrev pub beyond : Factor → Bool
beyond z = ltb (5 * z.den) (2 * z.num)

-- `dataLength`, `dataAvg` and `dataLatest`
unfoldable pub data_length : Chart → ℕ
data_length c = length c.averages

abbrev pub last_point {ℓ} : {A : Type ℓ} → A → List A → A
last_point p [] = p
last_point p (q ∷ ps) = last_point q ps

unfoldable pub data_latest : Chart → Option ℕ
data_latest c = elim c.maxima [ [] ↦ none | p ∷ ps ↦ some (last_point p ps).value ]

-- `x.domain(…)`, then `zoom.x(x)`: d3 scales the new domain from now on.
abbrev pub show_domain : ℕ → ℕ → View → View
show_domain low high v = record v {
  chart = record v.chart { low = low; high = high };
  scaled = (low, high);
  factor = no_zoom;
}

-- `Math.round(n / 3)`
abbrev pub third : ℕ → ℕ
third n = (2 * n + 3) / 6

module _ (interval : ℕ) where
  -- `setMove`, and whether it came to its end: before the first message the latest date is the number
  -- 0, which has no addMilliseconds.
  unfoldable pub set_move : Move → View → View × Bool
  set_move left v =
      let move = third (v.chart.high - v.chart.low) in
      (show_domain (v.chart.low - move) (v.chart.high - move) v, true)
  set_move right v =
      let move = third (v.chart.high - v.chart.low) in
      (show_domain (v.chart.low + move) (v.chart.high + move) v, true)
  set_move origin v =
      let width = v.chart.high - v.chart.low in
      let high = v.chart.highest_date + 2 * interval in
      elim v.chart.averages [ [] ↦ (v, false) | p ∷ ps ↦ (show_domain (high - width) high v, true) ]

  -- Whether `setZoom` moves the chart to the latest date: that is in the window, or no date is.
  abbrev pub moves_to_latest : ℕ → ℕ → Chart → Bool
  moves_to_latest first last c =
      leb c.high first
      || (leb c.low c.highest_date && leb c.highest_date (c.high + interval))
      || leb last c.low

  -- `setZoom`; `rescale` is the domain that d3 gives a scale for a factor. Without data it throws after
  -- the factors have changed.
  unfoldable pub set_zoom : (ℕ × ℕ → Factor → ℕ × ℕ) → Factor → View → View × Bool
  set_zoom rescale by v =
      let z = times v.zoom_scale by in
      let f = times v.factor by in
      let domain = rescale v.scaled f in
      let zoomed = record v {
        zoom_scale = z;
        factor = f;
        chart = record v.chart { low = domain.0; high = domain.1 };
      } in
      if beyond z then (v, true) else elim v.chart.averages [
        | [] ↦ (zoomed, false)
        | p ∷ ps ↦
            if moves_to_latest p.date (last_point p ps).date v.chart
            then set_move origin zoomed
            else (zoomed, true)
      ]

-- `updateChart`: nothing without data.
unfoldable pub update_chart : View → View
update_chart v = elim v.chart.averages [
  | [] ↦ v
  | p ∷ ps ↦ record v {
    scaled = (v.chart.low, v.chart.high);
    factor = no_zoom;
    y_top = if ltb v.y_top (v.chart.max_y * 105) then v.chart.max_y * 110 else v.y_top;
  }
]

-- `update`, which draws the chart if it overlaps the viewport.
unfoldable pub receive : ℕ → (ℕ → String) → (ℕ → String) → Bool → ℕ → List ℕ → View → View
receive interval min_text max_text overlapping date array v =
    let w = record v { chart = update interval min_text max_text date array v.chart } in
    if overlapping then update_chart w else w
