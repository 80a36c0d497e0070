-- ===== src/Resources/Updates.antt =====
-- The handlers of the resources view (src/main/resources/web-data/js/resources-charts.js).
pub mod Polls
pub mod Life
use dyn_dco.Base.{
  ℕ, ◌+◌, ◌-◌, String, Option, none, some, List, [], ◌∷◌, ◌++◌, map, length, Bool, true, false, leb,
  not, ◌||◌, if◌then◌else◌, lookup, contains,
}
use dyn_dco.Resources.Sums.{get_sum}
use dyn_dco.Resources.Durations.{duration_pretty}
use dyn_dco.Resources.Window.{
  View, Move, Factor, set_move, set_zoom, update_chart, receive, data_length, data_latest,
}
use dyn_dco.Resources.Registry.{
  Mark, reset, converge, LineChart, Estimation, Resources, Message, Environment, is_name,
  is_configured, add_new_charts,
}

-- A handler, or a step of one, that came to its end or threw.
pub record Outcome : Type 0 where
  pub state : Resources
  pub completed : Bool

pub data ZoomerButton : Type 0 where
  zoom_in zoom_out : ZoomerButton
  move : Move → ZoomerButton

abbrev pub and_then : Outcome → (Resources → Outcome) → Outcome
and_then o f = if o.completed then f o.state else o

-- A loop over charts ends where a call throws.
abbrev pub each_chart : (LineChart → LineChart × Bool) → List LineChart → List LineChart × Bool
each_chart f [] = ([], true)
each_chart f (c ∷ cs) =
    let (d, done) = f c in
    let (ds, all_done) = each_chart f cs in if done then (d ∷ ds, all_done) else (d ∷ cs, false)

abbrev pub get_chart : String → List LineChart → Option LineChart
get_chart name [] = none
get_chart name (c ∷ cs) =
    let rest = get_chart name cs in if is_name c.json_name name then some c else rest

abbrev pub with_view : LineChart → View × Bool → LineChart × Bool
with_view c r = (record c { view = r.0 }, r.1)

-- `coreCharts`
abbrev pub core_charts : List String
core_charts = "jmx_system_load" ∷ "jmx_process_time" ∷ "jmx_process_load" ∷ []

abbrev pub is_missing {ℓ} : {A : Type ℓ} → Option A → Bool
is_missing none = true
is_missing (some a) = false

module _ (env : Environment) where
  -- `zooming` and `moving`
  unfoldable pub zooming : (ℕ × ℕ → Factor → ℕ × ℕ) → Factor → Resources → Outcome
  zooming rescale by r =
      let (charts, done) =
        each_chart (λ c. with_view c (set_zoom env.interval_charts rescale by c.view))
          r.line_charts in
      record { state = record r { line_charts = charts }; completed = done }

  unfoldable pub moving : Move → Resources → Outcome
  moving m r =
      let (charts, done) =
        each_chart (λ c. with_view c (set_move env.interval_charts m c.view)) r.line_charts in
      record { state = record r { line_charts = charts }; completed = done }

  -- The buttons of "chartZoomer", which zoom by 1.2 and 0.8.
  unfoldable pub click_zoomer : (ℕ × ℕ → Factor → ℕ × ℕ) → ZoomerButton → Resources → Outcome
  unfolding zooming moving
  click_zoomer rescale zoom_in r = zooming rescale (record { num = 6; den = 5 }) r
  click_zoomer rescale zoom_out r = zooming rescale (record { num = 4; den = 5 }) r
  click_zoomer rescale (move m) r = moving m r

  -- `onclose`
  unfoldable pub on_close : Resources → Resources
  on_close r = record r {
    line_charts = map {A = LineChart} (λ c. record c { view = update_chart c.view }) r.line_charts;
  }

  -- Whether `update` throws when it writes the ids of the items into its texts: the message has none for
  -- the type of the chart, and the items are not cores.
  unfoldable pub lacks_ids : Message → String → Bool
  lacks_ids msg name =
      if is_configured name env.config_nodes
      then (if contains core_charts name
          then false
          else is_missing (lookup "nodeId" msg.node_statistics))
      else is_missing (lookup "workerId" msg.worker_statistics)

  -- `v.update(msg)`; it throws before it changes anything.
  unfoldable pub update_line_chart : Message → LineChart → LineChart × Bool
  update_line_chart msg c = elim (env.data_callback c.json_name msg) [
    | none ↦ (c, false)
    | some array ↦ if lacks_ids msg c.json_name then (c, false) else (
      record c {
        view =
            receive env.interval_charts (env.min_text c.json_name msg)
              (env.max_text c.json_name msg) (env.is_overlapping_viewport c.json_name) msg.timestamp
              array c.view;
      },
      true,
    )
  ]

  unfoldable pub update_line_charts : Message → Resources → Outcome
  update_line_charts msg r =
      let (charts, done) = each_chart (update_line_chart msg) r.line_charts in
      record { state = record r { line_charts = charts }; completed = done }

  -- The statistics, if they are due; they throw if the message has no workers.
  unfoldable pub update_statistics : Message → Resources → Outcome
  update_statistics msg r =
      let start = if is_name r.start_time "?" then env.date_time msg.timestamp else r.start_time in
      let timed = record r {
        start_time = start;
        run_time = duration_pretty (msg.timestamp - env.read_date start);
      } in
      if leb (r.statistics_updated + env.interval_statistics) msg.timestamp
      then elim (lookup "workerId" msg.worker_statistics) [
        | none ↦ record { state = timed; completed = false }
        | some ids ↦ record {
          state = record timed { workers = length ids; statistics_updated = msg.timestamp };
          completed = true;
        }
      ]
      else record { state = r; completed = true }

  -- The latest value of `runtime_mem_max` and the averages of `runtime_mem_total`.
  abbrev estimate : ℕ → ℕ → LineChart → LineChart → Estimation
  estimate vertices edges mem_max mem_total = record {
    vertices = vertices;
    edges = edges;
    max_memory = data_latest mem_max.view.chart;
    total_memory = map (λ p. p.value) mem_total.view.chart.averages;
  }

  abbrev estimated : Message → LineChart → Resources → Outcome
  estimated msg mem_total r = elim (get_chart "runtime_mem_max" r.line_charts) [
    | none ↦ record { state = r; completed = false }
    | some mem_max ↦ elim (lookup "numberOfOutgoingEdges" msg.worker_statistics) [
      | none ↦ record { state = r; completed = false }
      | some edges ↦ elim (lookup "numberOfVertices" msg.worker_statistics) [
        | none ↦ record { state = r; completed = false }
        | some vertices ↦ record {
          state = record r {
            estimation = some (estimate (get_sum vertices) (get_sum edges) mem_max mem_total);
            estimations_updated = msg.timestamp;
          };
          completed = true;
        }
      ]
    ]
  ]

  -- The estimate, if it is due and the chart of the memory has ten values.
  unfoldable pub update_estimations : Message → Resources → Outcome
  update_estimations msg r =
      if leb (r.estimations_updated + env.interval_estimation) msg.timestamp
      then elim (get_chart "runtime_mem_total" r.line_charts) [
        | none ↦ record { state = r; completed = false }
        | some mem_total ↦
            if leb 10 (data_length mem_total.view.chart)
            then estimated msg mem_total r
            else record { state = r; completed = true }
      ]
      else record { state = r; completed = true }

  -- `onmessage` for provider "resources", and the delay of the next order, if it is sent.
  unfoldable pub on_message : ℕ → Message → Resources → Resources × Option ℕ
  on_message now msg r =
      let updated = update_line_charts msg (add_new_charts env now msg r) in
      let computed = and_then updated (λ s.
        if is_name s.computation_state "converged"
        then record { state = s; completed = true }
        else and_then (update_statistics msg s) (update_estimations msg)) in
      (computed.state, if computed.completed then some env.interval_charts else none)

  abbrev pub add_mark : Mark → Resources → Resources
  add_mark m r = record r {
    line_charts = map {A = LineChart} (λ c. record c { marks = c.marks ++ m ∷ [] }) r.line_charts;
  }

  -- The three tests of `handleStateChange`.
  unfoldable pub mark_reset : ℕ → String → Resources → Resources
  mark_reset now state r =
      if is_name r.computation_state "" || is_name state "resetting"
      then add_mark (reset now) r
      else r

  unfoldable pub restart_statistics : ℕ → String → Resources → Resources
  restart_statistics now state r =
      if is_name state "resetting"
      then record r { start_time = env.date_time now; run_time = [] }
      else r

  unfoldable pub mark_converged : ℕ → String → Resources → Resources
  mark_converged now state r = if is_name state "converged" then add_mark (converge now) r else r

  -- `handleStateChange`
  unfoldable pub handle_state_change : ℕ → String → Resources → Resources
  handle_state_change now state r =
      record (mark_converged now state (restart_statistics now state (mark_reset now state r))) {
        computation_state = state;
      }
