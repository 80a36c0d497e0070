-- ===== src/Resources/Updates/Life.antt =====
-- A life of the resources view (src/main/resources/web-data/js/resources-charts.js).
use dyn_dco.Base.{
  subst, ℕ, arith, String, ◌≡◌, refl, sym, ◌∙◌, List, [], ◌∷◌, map, Bool, true, false, Bool-cases,
  inl, inr, if◌then◌else◌,
}
use dyn_dco.Resources.Window.{Move, Factor}
use dyn_dco.Resources.Registry.{
  Mark, LineChart, Resources, Message, Environment, is_name, names, create_charts, add_new_charts,
}
use dyn_dco.Resources.Registry.Boxed.{IsBoxed, create_charts-IsBoxed, add_new_charts-IsBoxed}
use dyn_dco.Resources.Updates.{
  Outcome, and_then, each_chart, zooming, moving, on_close, update_line_chart, update_line_charts,
  update_statistics, update_estimations, on_message, add_mark, mark_reset, restart_statistics,
  mark_converged, handle_state_change,
}

-- The same charts by name, and the same boxes.
record Keeps (r q : Resources) : Type 0 where
  charts : names q.line_charts ≡ names r.line_charts
  workers : q.worker_charts ≡ r.worker_charts
  nodes : q.node_charts ≡ r.node_charts

Keeps-refl : (r : Resources) → Keeps r r
Keeps-refl r = record { charts = refl; workers = refl; nodes = refl }

Keeps-trans : {r q s : Resources} → Keeps r q → Keeps q s → Keeps r s
Keeps-trans h k = record {
  charts = k.charts ∙ h.charts;
  workers = k.workers ∙ h.workers;
  nodes = k.nodes ∙ h.nodes;
}

Keeps-IsBoxed : {r q : Resources} → Keeps r q → IsBoxed r → IsBoxed q
Keeps-IsBoxed {r} {q} k h name e = ground (arith, k.charts, k.workers, k.nodes, h name, e)

names-each_chart :
    (f : LineChart → LineChart × Bool)
    → ((c : LineChart) → (f c).0.json_name ≡ c.json_name)
    → (cs : List LineChart) → names (each_chart f cs).0 ≡ names cs
names-each_chart f h [] = refl
names-each_chart f h (c ∷ cs) = ground (arith, h c, names-each_chart f h cs)

names-map :
    (f : LineChart → LineChart)
    → ((c : LineChart) → (f c).json_name ≡ c.json_name)
    → (cs : List LineChart) → names (map f cs) ≡ names cs
names-map f h [] = refl
names-map f h (c ∷ cs) = ground (arith, h c, names-map f h cs)

module _ (env : Environment) where
  zooming-Keeps :
      (rescale : ℕ × ℕ → Factor → ℕ × ℕ) (by : Factor) (r : Resources)
      → Keeps r (zooming env rescale by r).state
  unfolding zooming
  zooming-Keeps rescale by r = record {
    charts = names-each_chart _ (λ c. refl) r.line_charts;
    workers = refl;
    nodes = refl;
  }

  moving-Keeps : (m : Move) (r : Resources) → Keeps r (moving env m r).state
  unfolding moving
  moving-Keeps m r = record {
    charts = names-each_chart _ (λ c. refl) r.line_charts;
    workers = refl;
    nodes = refl;
  }

  on_close-Keeps : (r : Resources) → Keeps r (on_close env r)
  unfolding on_close
  on_close-Keeps r = record {
    charts = names-map _ (λ c. refl) r.line_charts;
    workers = refl;
    nodes = refl;
  }

  update_line_chart-name :
      (msg : Message) (c : LineChart) → (update_line_chart env msg c).0.json_name ≡ c.json_name
  unfolding update_line_chart
  update_line_chart-name msg c = ground arith

  update_line_charts-Keeps :
      (msg : Message) (r : Resources) → Keeps r (update_line_charts env msg r).state
  unfolding update_line_charts
  update_line_charts-Keeps msg r = record {
    charts = names-each_chart _ (update_line_chart-name msg) r.line_charts;
    workers = refl;
    nodes = refl;
  }

  update_statistics-Keeps :
      (msg : Message) (r : Resources) → Keeps r (update_statistics env msg r).state
  unfolding update_statistics
  update_statistics-Keeps msg r = ground arith

  update_estimations-Keeps :
      (msg : Message) (r : Resources) → Keeps r (update_estimations env msg r).state
  unfolding update_estimations
  update_estimations-Keeps msg r = ground arith

  and_then-Keeps :
      (r : Resources) (o : Outcome) (f : Resources → Outcome)
      → Keeps r o.state
      → ((q : Resources) → Keeps q (f q).state)
      → Keeps r (and_then o f).state
  and_then-Keeps r o f h k = elim (Bool-cases o.completed) [
    | inl e ↦ rw e (Keeps-trans {r = r} {q = o.state} {s = (f o.state).state} h (k o.state))
    | inr e ↦ rw e h
  ]

  -- The statistics and the estimate, unless the computation converged.
  abbrev computed : Message → Resources → Outcome
  computed msg s =
      if is_name s.computation_state "converged"
      then record { state = s; completed = true }
      else and_then (update_statistics env msg s) (update_estimations env msg)

  computed-Keeps : (msg : Message) (s : Resources) → Keeps s (computed msg s).state
  computed-Keeps msg s = elim (Bool-cases (is_name s.computation_state "converged")) [
    | inl e ↦
        subst
          (λ b.
            Keeps s
              (if b
                then record { state = s; completed = true }
                else and_then (update_statistics env msg s) (update_estimations env msg)).state)
          (sym e) (Keeps-refl s)
    | inr e ↦
        subst
          (λ b.
            Keeps s
              (if b
                then record { state = s; completed = true }
                else and_then (update_statistics env msg s) (update_estimations env msg)).state)
          (sym e)
          (and_then-Keeps s (update_statistics env msg s) (update_estimations env msg)
            (update_statistics-Keeps msg s) (update_estimations-Keeps msg))
  ]

  on_message-IsBoxed :
      (now : ℕ) (msg : Message) (r : Resources) → IsBoxed r → IsBoxed (on_message env now msg r).0
  unfolding on_message
  on_message-IsBoxed now msg r h =
      let a = add_new_charts env now msg r in
      let u = update_line_charts env msg a in
      Keeps-IsBoxed {r = a} {q = (and_then u (computed msg)).state}
        (and_then-Keeps a u (computed msg) (update_line_charts-Keeps msg a) (computed-Keeps msg))
        (add_new_charts-IsBoxed env now msg r h)

  add_mark-Keeps : (m : Mark) (r : Resources) → Keeps r (add_mark env m r)
  add_mark-Keeps m r = record {
    charts = names-map _ (λ c. refl) r.line_charts;
    workers = refl;
    nodes = refl;
  }

  if-Keeps : (b : Bool) (r q : Resources) → Keeps r q → Keeps r (if b then q else r)
  if-Keeps true r q h = h
  if-Keeps false r q h = Keeps-refl r

  handle_state_change-Keeps :
      (now : ℕ) (state : String) (r : Resources) → Keeps r (handle_state_change env now state r)
  unfolding handle_state_change mark_reset restart_statistics mark_converged
  handle_state_change-Keeps now state r =
      let marked = mark_reset env now state r in
      let restarted = restart_statistics env now state marked in
      let first : Keeps r marked = if-Keeps _ r _ (add_mark-Keeps _ r) in
      let second : Keeps marked restarted =
        if-Keeps _ marked _ (record { charts = refl; workers = refl; nodes = refl }) in
      let third = if-Keeps (is_name state "converged") restarted _ (add_mark-Keeps _ restarted) in
      let all =
        Keeps-trans {r = r} {q = marked} first
          (Keeps-trans {r = marked} {q = restarted} second third) in
      record { charts = all.charts; workers = all.workers; nodes = all.nodes }

  -- What happens to the view.
  pub data Step : Resources → Resources → Type 0 where
    message : (now : ℕ) (msg : Message) (r : Resources) → Step r (on_message env now msg r).0
    state_change :
        (now : ℕ) (state : String) (r : Resources) → Step r (handle_state_change env now state r)
    zoom :
        (rescale : ℕ × ℕ → Factor → ℕ × ℕ) (by : Factor) (r : Resources)
        → Step r (zooming env rescale by r).state
    move : (m : Move) (r : Resources) → Step r (moving env m r).state
    close : (r : Resources) → Step r (on_close env r)

  pub data Reach (r : Resources) : Resources → Type 0 where
    here : Reach r r
    next : {q s : Resources} → Reach r q → Step q s → Reach r s

  Step-IsBoxed : {r q : Resources} → Step r q → IsBoxed r → IsBoxed q
  Step-IsBoxed (message now msg r) h = on_message-IsBoxed now msg r h
  Step-IsBoxed (state_change now state r) h =
      Keeps-IsBoxed {r = r} (handle_state_change-Keeps now state r) h
  Step-IsBoxed (zoom rescale by r) h = Keeps-IsBoxed {r = r} (zooming-Keeps rescale by r) h
  Step-IsBoxed (move m r) h = Keeps-IsBoxed {r = r} (moving-Keeps m r) h
  Step-IsBoxed (close r) h = Keeps-IsBoxed {r = r} (on_close-Keeps r) h

  reached-IsBoxed : {r q : Resources} → IsBoxed r → Reach r q → IsBoxed q
  reached-IsBoxed h here = h
  reached-IsBoxed h (next r st) = Step-IsBoxed st (reached-IsBoxed h r)

  -- If at first every chart has a box in the section of workers or of nodes, then so it is after the
  -- charts of the configuration have been made, and after any messages, changes of the state, clicks on
  -- buttons and losses of the connection.
  pub Reach-IsBoxed :
      (r : Resources) {q : Resources} (now : ℕ)
      → IsBoxed r
      → Reach (create_charts env now r) q
      → IsBoxed q
  Reach-IsBoxed r now h reach = reached-IsBoxed (create_charts-IsBoxed env now r h) reach
