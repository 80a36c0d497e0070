-- ===== src/Resources/Registry.antt =====
-- The charts of the resources view and its statistics
-- (src/main/resources/web-data/js/resources-charts.js).
pub mod Boxes
pub mod Boxed
use Prim.Native.String.{◌++◌ as concat}
use dyn_dco.Base.{
  ℕ, ◌+◌, ◌-◌, ◌*◌, String, Option, none, some, List, [], ◌∷◌, ◌++◌, map, length, get_elem?, Bool,
  true, false, leb, not, ◌||◌, ◌&&◌, if◌then◌else◌, ite, string_discrete, contains, lookup,
}
use dyn_dco.Resources.Durations.{Part}
use dyn_dco.Resources.Window.{View, no_zoom}

-- A chart of the configuration.
pub record Config : Type 0 where
  pub json_name : String
  pub skip : Bool

-- `addComputationState`: a separator, at its date.
pub data Mark : Type 0 where
  reset converge : ℕ → Mark

-- A chart of `lineCharts`.
pub record LineChart : Type 0 where
  pub json_name : String
  pub view : View
  pub marks : List Mark

-- What the estimate is made of.
pub record Estimation : Type 0 where
  pub vertices : ℕ
  pub edges : ℕ
  pub max_memory : Option ℕ
  pub total_memory : List (ℕ × ℕ)

-- The variables of the module, `lineCharts`, the boxes that charts are added to, and the texts on the
-- page; `run_time` is the pretty duration.
pub record Resources : Type 0 where
  pub line_charts : List LineChart
  pub worker_charts : List String
  pub node_charts : List String
  pub has_added_new_charts : Bool
  pub computation_state : String
  pub start_time : String
  pub run_time : List Part
  pub workers : ℕ
  pub statistics_updated : ℕ
  pub estimation : Option Estimation
  pub estimations_updated : ℕ

-- A message of provider "resources".
pub record Message : Type 0 where
  pub timestamp : ℕ
  pub worker_statistics : List (String × List ℕ)
  pub node_statistics : List (String × List ℕ)

-- What the module uses of the configuration and the browser: the charts, the data of a chart
-- (`dataCallback`; `none` where `update` throws on it), the texts of its lowest and highest values, whether it overlaps the viewport, a key
-- read as an index of an array, and dates as texts.
pub record Environment : Type 0 where
  pub config_workers : List Config
  pub config_nodes : List Config
  pub data_callback : String → Message → Option (List ℕ)
  pub min_text : String → Message → ℕ → String
  pub max_text : String → Message → ℕ → String
  pub is_overlapping_viewport : String → Bool
  pub array_index : String → Option ℕ
  pub date_time : ℕ → String
  pub read_date : String → ℕ
  pub interval_charts : ℕ
  pub interval_statistics : ℕ
  pub interval_estimation : ℕ

-- `setup`: the window is from five minutes ago to two intervals from now.
abbrev pub new_view : ℕ → ℕ → View
new_view interval now =
    let low = now - 5 * 60 * 1000 in
    let high = now + 2 * interval in
    record {
      chart = record {
        averages = [];
        minima = [];
        maxima = [];
        highest_date = 0;
        max_y = 0;
        low = low;
        high = high;
      };
      zoom_scale = no_zoom;
      scaled = (low, high);
      factor = no_zoom;
      y_top = 100;
    }

abbrev pub is_name : String → String → Bool
is_name a b = ite (string_discrete a b) true false

-- `lineCharts[jsonName] = lineChart`
abbrev pub put_chart : LineChart → List LineChart → List LineChart
put_chart c [] = c ∷ []
put_chart c (d ∷ ds) =
    let rest = put_chart c ds in if is_name d.json_name c.json_name then c ∷ ds else d ∷ rest

abbrev pub names : List LineChart → List String
names [] = []
names (c ∷ cs) = c.json_name ∷ names cs

abbrev pub box_of : String → String
box_of name = concat name "Chart"

-- The test of `ChartsContains` on one list.
abbrev pub is_configured : String → List Config → Bool
is_configured key [] = false
is_configured key (c ∷ cs) =
    let rest = is_configured key cs in if is_name c.json_name key then true else rest

module _ (env : Environment) (now : ℕ) where
  -- `ChartsCreate`
  unfoldable pub charts_create : String → Resources → Resources
  charts_create name r = record r {
    line_charts =
        put_chart (record { json_name = name; view = new_view env.interval_charts now; marks = [] })
          r.line_charts;
  }

  abbrev pub add_once : String → List String → List String
  add_once box boxes = if contains boxes box then boxes else boxes ++ box ∷ []

  -- The charts of the configuration, as the module is created.
  unfoldable pub create_worker : Config → Resources → Resources
  create_worker c r =
      let made = charts_create c.json_name r in
      if c.skip
      then r
      else record made { worker_charts = add_once (box_of c.json_name) made.worker_charts }

  unfoldable pub create_node : Config → Resources → Resources
  create_node c r =
      let made = charts_create c.json_name r in
      if c.skip
      then r
      else record made { node_charts = add_once (box_of c.json_name) made.node_charts }

  abbrev pub create_workers : List Config → Resources → Resources
  create_workers [] r = r
  create_workers (c ∷ cs) r = create_workers cs (create_worker c r)

  abbrev pub create_nodes : List Config → Resources → Resources
  create_nodes [] r = r
  create_nodes (c ∷ cs) r = create_nodes cs (create_node c r)

  unfoldable pub create_charts : Resources → Resources
  create_charts r = create_nodes env.config_nodes (create_workers env.config_workers r)

  -- `ChartsContains`
  unfoldable pub charts_contains : String → Bool
  charts_contains key = is_configured key env.config_workers || is_configured key env.config_nodes

  -- `chartSkipped`: the configuration is an array, which has a property for an index only.
  unfoldable pub chart_skipped : List Config → String → Bool
  chart_skipped configs key = elim (env.array_index key) [
    | none ↦ false
    | some i ↦ elim (get_elem? configs i) [ none ↦ false | some c ↦ c.skip ]
  ]

  -- Whether a statistic of a message gets a chart of its own.
  unfoldable pub is_new : List Config → String → Bool
  unfolding charts_contains chart_skipped
  is_new configs key = not (charts_contains key) && not (chart_skipped configs key)

  unfoldable pub add_worker : String → Resources → Resources
  add_worker key r =
      let made = charts_create key r in
      if is_new env.config_workers key
      then record made { worker_charts = made.worker_charts ++ box_of key ∷ [] }
      else r

  unfoldable pub add_node : String → Resources → Resources
  add_node key r =
      let made = charts_create key r in
      if is_new env.config_nodes key
      then record made { node_charts = made.node_charts ++ box_of key ∷ [] }
      else r

  abbrev pub add_workers : List (String × List ℕ) → Resources → Resources
  add_workers [] r = r
  add_workers ((key, v) ∷ s) r = add_workers s (add_worker key r)

  abbrev pub add_nodes : List (String × List ℕ) → Resources → Resources
  add_nodes [] r = r
  add_nodes ((key, v) ∷ s) r = add_nodes s (add_node key r)

  -- The new charts, on the first message.
  unfoldable pub add_new_charts : Message → Resources → Resources
  add_new_charts msg r =
      if r.has_added_new_charts
      then r
      else record (add_nodes msg.node_statistics (add_workers msg.worker_statistics r)) {
        has_added_new_charts = true;
      }
