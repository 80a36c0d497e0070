-- ===== src/Resources/Scenarios.antt =====
-- A chart that is zoomed, messages with new statistics, and the sections of the program
-- (src/main/resources/web-data/js/linechart.js, resources-charts.js).
use dyn_dco.Base.{
  ℕ, ◌≡◌, ◌||◌, ◌&&◌, refl, none, some, [], ◌∷◌, ◌++◌, true, false, not, string_discrete, String,
  List, Option, no_entries, lookup, contains,
}
use dyn_dco.Resources.Window.{View, Factor, set_zoom}
use dyn_dco.Resources.Window.Limits
use dyn_dco.Resources.Window.Limits.{IsInLimits, Reach-IsInLimits}
use dyn_dco.Resources.Registry.{
  Resources, Message, Environment, new_view, create_charts, create_worker, create_node,
  charts_create, charts_contains, chart_skipped, is_new, add_worker, add_node, add_new_charts,
}
use dyn_dco.Resources.Registry.Boxes.{has_chart, has_key, config_names, has_chart-add_new_charts}
use dyn_dco.Resources.Registry.Boxed.{IsBoxed}
use dyn_dco.Resources.Sections.{Box, Layout, show_boxes}
use dyn_dco.Resources.Sections.Shown.{visible}
use dyn_dco.Resources.Sections.Redrawn.{contains-updated_charts}
use dyn_dco.Resources.Sections.{updated_charts, update_chart}
use dyn_dco.Resources.Registry.{box_of}
use dyn_dco.Resources.Tables.Sections.{visible-loaded, boxes_of, loaded}
use dyn_dco.Resources.Configuration
use dyn_dco.Resources.Setup.{Given, with_setup}
use dyn_dco.Resources.Setup.Unknown.{on_message-unknown_node}
use dyn_dco.Resources.Updates.{on_message, handle_state_change}
use dyn_dco.Resources.Updates.Life.{Step, Reach, Reach-IsBoxed}
use dyn_dco.Resources.Setup.Answered.{on_message-polls}

abbrev closer : Factor
closer = record { num = 6; den = 5 }

-- As if d3 kept the domain.
abbrev rescale : ℕ × ℕ → Factor → ℕ × ℕ
rescale d f = d

abbrev fresh : View
fresh = new_view 3000 1_000_000

Reach-IsInLimits_example : IsInLimits (set_zoom 3000 rescale closer fresh).0
Reach-IsInLimits_example =
    Reach-IsInLimits 3000 rescale (λ i. "Min") (λ i. "Max") {v = fresh}
      {w = (set_zoom 3000 rescale closer fresh).0}
      (record { zoom = refl; series = record { averages = refl; minima = refl; bounded = tt } })
      (Limits.Reach.next Limits.Reach.here (Limits.Step.zooming closer fresh))

abbrev environment : Environment
environment = record {
  config_workers = record { json_name = "workerId"; skip = true } ∷ [];
  config_nodes =
      record { json_name = "runtime_mem_max"; skip = false }
      ∷ record { json_name = "runtime_mem_total"; skip = false }
      ∷ [];
  data_callback = λ name msg. some (1 ∷ 2 ∷ []);
  min_text = λ name msg i. "Min";
  max_text = λ name msg i. "Max";
  is_overlapping_viewport = λ name. true;
  array_index = λ key. none;
  date_time = λ ms. "1970/01/01 00:00:00";
  read_date = λ s. 0;
  interval_charts = 3000;
  interval_statistics = 6000;
  interval_estimation = 20000;
}

abbrev nothing : Resources
nothing = record {
  line_charts = [];
  worker_charts = "chartZoomer" ∷ [];
  node_charts = "chartZoomer" ∷ [];
  has_added_new_charts = false;
  computation_state = "";
  start_time = "?";
  run_time = [];
  workers = 0;
  statistics_updated = 0;
  estimation = none;
  estimations_updated = 0;
}

abbrev message : Message
message = record {
  timestamp = 1_000_000;
  worker_statistics =
      ("workerId", 0 ∷ 1 ∷ [])
      ∷ ("numberOfVertices", 5 ∷ 6 ∷ [])
      ∷ ("numberOfOutgoingEdges", 7 ∷ 8 ∷ [])
      ∷ [];
  node_statistics = [];
}

abbrev configured : Resources
configured = create_charts environment 1_000_000 nothing

has_chart-add_new_charts_example :
    has_chart (add_new_charts environment 1_000_000 message configured) "numberOfVertices"
    ≡ has_chart configured "numberOfVertices"
      || (not configured.has_added_new_charts
          && (has_key message.worker_statistics "numberOfVertices"
              || has_key message.node_statistics "numberOfVertices")
          && not (
              contains
                (config_names (environment.config_workers ++ environment.config_nodes))
                "numberOfVertices"))
has_chart-add_new_charts_example =
    has_chart-add_new_charts environment 1_000_000 message configured "numberOfVertices" refl

Reach-IsBoxed_example :
    IsBoxed (
      handle_state_change environment 2 "converged" (on_message environment 1 message configured).0)
Reach-IsBoxed_example =
    Reach-IsBoxed environment nothing 1_000_000 (λ k e. cc e)
      (Reach.next (Reach.next Reach.here (Step.message 1 message configured))
        (Step.state_change 2 "converged" (on_message environment 1 message configured).0))

-- The message again, with what the nodes report for the two charts of the memory.
abbrev complete : Message
complete = record message {
  node_statistics =
      ("nodeId", 0 ∷ []) ∷ ("runtime_mem_max", 9 ∷ []) ∷ ("runtime_mem_total", 8 ∷ []) ∷ [];
}

abbrev only_ids : Environment
only_ids = record environment {
  config_workers = record { json_name = "workerId"; skip = true } ∷ [];
  config_nodes =
      record { json_name = "nodeId"; skip = true }
      ∷ record { json_name = "runtime_mem_max"; skip = false }
      ∷ record { json_name = "runtime_mem_total"; skip = false }
      ∷ [];
}

abbrev no_givens : List (Given String)
no_givens = []

on_message-polls_example :
    (on_message (with_setup "s" no_givens only_ids) 1_000_000 complete configured).1 ≡ some 3000
unfolding string_discrete create_charts create_worker create_node charts_create charts_contains
    chart_skipped is_new add_worker add_node add_new_charts
on_message-polls_example =
    on_message-polls no_givens only_ids complete "s" 1_000_000 configured
      (record {
        ids = 0 ∷ 1 ∷ [];
        edges = 7 ∷ 8 ∷ [];
        vertices = 5 ∷ 6 ∷ [];
        has_ids = refl;
        has_edges = refl;
        has_vertices = refl;
      })
      (record { total = refl; max = refl })

abbrev sections : Layout
sections = record {
  sections = "crash" ∷ [];
  resource_boxes = λ s. lookup s (boxes_of (loaded environment 0 nothing));
  line_charts = [];
  is_overlapping_viewport = λ name. true;
}

abbrev box : String → Box
box id = record { id = id; hidden = true }

visible-loaded_example :
    visible
      (show_boxes sections "crash" (box "logBox" ∷ box "graphStatBox" ∷ box "chartZoomer" ∷ [])).0
    ≡ "chartZoomer" ∷ "logBox" ∷ []
unfolding string_discrete
visible-loaded_example =
    visible-loaded environment 0 nothing sections "crash"
      ("chartZoomer" ∷ "logTitle" ∷ "logBox" ∷ "infrastructureTitle" ∷ "jmx_mem_freeChart"
        ∷ "runtime_mem_freeChart" ∷ "runtime_mem_maxChart" ∷ "runtime_mem_totalChart" ∷ [])
      (box "logBox" ∷ box "graphStatBox" ∷ box "chartZoomer" ∷ []) refl refl

abbrev parameters : Configuration.Page
parameters = record { res_stat = no_entries; infrastructure = []; graph = [] }

abbrev configuration : Option (List (String × String)) → Configuration.Message
configuration execution = record {
  execution_configuration = execution;
  system_properties = (("os.name", "Linux") ∷ ("awt.toolkit", "X") ∷ []) ∷ [];
  graph_configuration = ("consoleHttpPort", some "-1") ∷ [];
}

abbrev si : String
si = "s"

-- The nodes report the temperature of their processors.
abbrev warm : Message
warm = record message { node_statistics = ("temperature", 50 ∷ []) ∷ [] }

on_message-unknown_node_example :
    (on_message (with_setup si [] environment) 1_000_000 warm configured).1 ≡ none
unfolding string_discrete create_charts create_worker create_node charts_create charts_contains
    chart_skipped is_new
on_message-unknown_node_example =
    on_message-unknown_node si [] environment 1_000_000 "temperature" warm configured refl refl refl
      refl refl

abbrev one_chart : Layout
one_chart = record {
  sections = [];
  resource_boxes = no_entries;
  line_charts = "messagesSent" ∷ [];
  is_overlapping_viewport = λ name. true;
}

contains-updated_charts_example :
    contains (updated_charts one_chart ("logBox" ∷ "messagesSentChart" ∷ [])) "messagesSent"
    ≡ contains ("logBox" ∷ "messagesSentChart" ∷ []) (box_of "messagesSent")
      && update_chart one_chart "messagesSent"
contains-updated_charts_example =
    contains-updated_charts one_chart ("logBox" ∷ "messagesSentChart" ∷ []) "messagesSent"

-- A message without the parameters of the execution leaves those of the one before.
on_messages_test :
    (Configuration.on_messages "8080"
        (configuration (some (("stepsLimit", "5") ∷ [])) ∷ configuration none ∷ [])
        parameters).res_stat
      "stepsLimit"
    ≡ some "5"
unfolding string_discrete Configuration.on_message
on_messages_test = refl
