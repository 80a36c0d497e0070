-- ===== src/Resources/Chart/Series.antt =====
-- What an update keeps of a chart (src/main/resources/web-data/js/linechart.js).
use dyn_dco.Base.{
  ℕ, ◌+◌, ◌≤◌, arith, String, ◌≡◌, List, [], ◌∷◌, length, length-append, ltb, All, All-append,
  All-mono, Bool-cases, inl, inr,
}
use dyn_dco.Resources.Chart.{Chart, get_min_max, shifts, update}

-- The series have as many points, and no maximum is above the highest value.
pub record IsChart (c : Chart) : Type 0 where
  pub averages : length c.averages ≡ length c.maxima
  pub minima : length c.minima ≡ length c.maxima
  pub bounded : All (λ p. p.value ≤ c.max_y) c.maxima

-- The latest date is in the window.
pub record IsVisible (c : Chart) : Type 0 where
  pub from : c.low ≤ c.highest_date
  pub to : c.highest_date ≤ c.high

module _ (interval : ℕ) (min_text max_text : ℕ → String) (date : ℕ) (array : List ℕ) where
  max_y-le :
      (c : Chart)
      → (c.max_y ≤ (update interval min_text max_text date array c).max_y)
        × ((get_min_max array).1.0 ≤ (update interval min_text max_text date array c).max_y)
  unfolding update
  max_y-le c = elim (Bool-cases (ltb c.max_y (get_min_max array).1.0)) [
    | inl e ↦ rw e (ground (arith, e), omega arith)
    | inr e ↦ rw e (omega arith, ground (arith, e))
  ]

  -- After an update the three series still have as many points, one more, and the highest value is
  -- still not below any maximum that is shown.
  pub update-IsChart :
      (c : Chart) → IsChart c → IsChart (update interval min_text max_text date array c)
  unfolding update
  update-IsChart c h =
      let m = max_y-le c in
      record {
        averages =
            omega (
              arith,
              h.averages,
              length-append c.averages (_ ∷ []),
              length-append c.maxima (_ ∷ []),
            );
        minima =
            omega
              (arith, h.minima, length-append c.minima (_ ∷ []), length-append c.maxima (_ ∷ []));
        bounded =
            All-append _ c.maxima (_ ∷ [])
              (All-mono _ _ (λ p le. omega (arith, le, m.0)) c.maxima h.bounded) (m.1, tt);
      }

  -- If the latest date was in the window, then the new one is, provided that it is not earlier and is
  -- at least one interval after the start of the window.
  update-IsVisible :
      (c : Chart)
      → IsVisible c
      → c.highest_date ≤ date
      → c.low + interval ≤ date
      → IsVisible (update interval min_text max_text date array c)
  unfolding update shifts
  update-IsVisible c h later room = record {
    from = ground (arith, h.from, h.to, later, room);
    to = ground (arith, h.from, h.to, later, room);
  }
