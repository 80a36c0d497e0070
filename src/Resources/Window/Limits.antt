-- ===== src/Resources/Window/Limits.antt =====
-- What bounds the zoom and the axes of a chart (src/main/resources/web-data/js/linechart.js).
use dyn_dco.Base.{
  ap, ◌∙◌, length, ℕ, ◌*◌, ◌≤◌, arith, String, ◌≡◌, refl, sym, subst, List, [], ◌∷◌, ◌++◌, Bool,
  true, false, All, All-mono,
}
use dyn_dco.Resources.Chart.{Chart, update}
use dyn_dco.Resources.Chart.Series.{IsChart, update-IsChart}
use dyn_dco.Resources.Window.Moves.{is_nil, is_empty}
use dyn_dco.Resources.Window.{
  View, Move, left, right, origin, Factor, beyond, set_move, set_zoom, update_chart, receive,
}

-- The zoom is at most 2.5, and the series are as they should.
pub record IsInLimits (v : View) : Type 0 where
  pub zoom : beyond v.zoom_scale ≡ false
  pub series : IsChart v.chart

-- The same series.
record KeepsSeries (c d : Chart) : Type 0 where
  averages : d.averages ≡ c.averages
  minima : d.minima ≡ c.minima
  maxima : d.maxima ≡ c.maxima
  max_y : d.max_y ≡ c.max_y

KeepsSeries-IsChart : (c d : Chart) → KeepsSeries c d → IsChart c → IsChart d
KeepsSeries-IsChart c d k h = record {
  averages = cc (ap length k.averages, ap length k.maxima, h.averages);
  minima = cc (ap length k.minima, ap length k.maxima, h.minima);
  bounded =
      subst (λ m. All (λ p. p.value ≤ m) d.maxima) (sym k.max_y)
        (subst (All (λ p. p.value ≤ c.max_y)) (sym k.maxima) h.bounded);
}

drawn-max_y :
    (v : View) (n : ℕ)
    → n ≤ v.chart.max_y
    → is_empty v.chart ≡ false
    → n * 105 ≤ (update_chart v).y_top
unfolding update_chart
drawn-max_y v n h e = ground (arith, h, e)

is_nil-append {ℓ} : {A : Type ℓ} (xs : List A) (x : A) → is_nil (xs ++ x ∷ []) ≡ false
is_nil-append [] x = refl
is_nil-append (y ∷ xs) x = refl

module _ (interval : ℕ) (rescale : ℕ × ℕ → Factor → ℕ × ℕ) (min_text max_text : ℕ → String) where
  -- What happens to a chart.
  pub data Step : View → View → Type 0 where
    zooming : (by : Factor) (v : View) → Step v (set_zoom interval rescale by v).0
    moving : (m : Move) (v : View) → Step v (set_move interval m v).0
    message :
        (overlapping : Bool) (date : ℕ) (array : List ℕ) (v : View)
        → Step v (receive interval min_text max_text overlapping date array v)
    drawing : (v : View) → Step v (update_chart v)

  pub data Reach (s : View) : View → Type 0 where
    here : Reach s s
    next : {v w : View} → Reach s v → Step v w → Reach s w

  set_move-Keeps :
      (m : Move) (v : View)
      → (beyond (set_move interval m v).0.zoom_scale ≡ beyond v.zoom_scale)
        × KeepsSeries v.chart (set_move interval m v).0.chart
  unfolding set_move
  set_move-Keeps left v =
      (refl, record { averages = refl; minima = refl; maxima = refl; max_y = refl })
  set_move-Keeps right v =
      (refl, record { averages = refl; minima = refl; maxima = refl; max_y = refl })
  set_move-Keeps origin v = (ground arith, ground arith)

  set_zoom-KeepsSeries :
      (by : Factor) (v : View) → KeepsSeries v.chart (set_zoom interval rescale by v).0.chart
  unfolding set_zoom set_move
  set_zoom-KeepsSeries by v = ground arith

  set_zoom-beyond :
      (by : Factor) (v : View)
      → beyond v.zoom_scale ≡ false
      → beyond (set_zoom interval rescale by v).0.zoom_scale ≡ false
  unfolding set_zoom set_move
  set_zoom-beyond by v h = ground (arith, h)

  update_chart-Keeps :
      (v : View)
      → (beyond (update_chart v).zoom_scale ≡ beyond v.zoom_scale)
        × KeepsSeries v.chart (update_chart v).chart
  unfolding update_chart
  update_chart-Keeps v = (ground arith, ground arith)

  kept-IsInLimits :
      {v w : View}
      → (beyond w.zoom_scale ≡ beyond v.zoom_scale) × KeepsSeries v.chart w.chart
      → IsInLimits v
      → IsInLimits w
  kept-IsInLimits {v} {w} (z, k) h = record {
    zoom = z ∙ h.zoom;
    series = KeepsSeries-IsChart v.chart w.chart k h.series;
  }

  -- `update` before it draws.
  updated : ℕ → List ℕ → View → View
  updated date array v = record v { chart = update interval min_text max_text date array v.chart }

  updated-IsInLimits :
      (date : ℕ) (array : List ℕ) (v : View) → IsInLimits v → IsInLimits (updated date array v)
  unfolding updated
  updated-IsInLimits date array v h = record {
    zoom = h.zoom;
    series = update-IsChart interval min_text max_text date array v.chart h.series;
  }

  receive-IsInLimits :
      (overlapping : Bool) (date : ℕ) (array : List ℕ) (v : View)
      → IsInLimits v
      → IsInLimits (receive interval min_text max_text overlapping date array v)
  unfolding receive updated
  receive-IsInLimits true date array v h =
      kept-IsInLimits {v = updated date array v} (update_chart-Keeps (updated date array v))
        (updated-IsInLimits date array v h)
  receive-IsInLimits false date array v h = updated-IsInLimits date array v h

  Step-IsInLimits : {v w : View} → Step v w → IsInLimits v → IsInLimits w
  Step-IsInLimits (zooming by v) h = record {
    zoom = set_zoom-beyond by v h.zoom;
    series = KeepsSeries-IsChart v.chart _ (set_zoom-KeepsSeries by v) h.series;
  }
  Step-IsInLimits (moving m v) h = kept-IsInLimits {v = v} (set_move-Keeps m v) h
  Step-IsInLimits (message overlapping date array v) h =
      receive-IsInLimits overlapping date array v h
  Step-IsInLimits (drawing v) h = kept-IsInLimits {v = v} (update_chart-Keeps v) h

  -- Whatever messages come and buttons are clicked, a chart that was zoomed in at most 2.5 times, with
  -- three series of one length and no maximum above the highest value, stays so.
  pub Reach-IsInLimits : {v w : View} → IsInLimits v → Reach v w → IsInLimits w
  Reach-IsInLimits h here = h
  Reach-IsInLimits h (next r st) = Step-IsInLimits st (Reach-IsInLimits h r)

  updated-is_empty :
      (date : ℕ) (array : List ℕ) (v : View) → is_empty (updated date array v).chart ≡ false
  unfolding updated update
  updated-is_empty date array v = is_nil-append v.chart.averages _

  -- After a message to a chart in the viewport every maximum of the chart is on its y axis, with five
  -- hundredths of its height above it.
  receive-Fits :
      (date : ℕ) (array : List ℕ) (v : View)
      → IsInLimits v
      → All
          (λ p. p.value * 105 ≤ (receive interval min_text max_text true date array v).y_top)
          (receive interval min_text max_text true date array v).chart.maxima
  unfolding receive updated
  receive-Fits date array v h =
      let u = updated date array v in
      subst (All _) (sym (update_chart-Keeps u).1.maxima) (
        All-mono _ _ (λ p le. drawn-max_y u p.value le (updated-is_empty date array v))
          u.chart.maxima (updated-IsInLimits date array v h).series.bounded)
