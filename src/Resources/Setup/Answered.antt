-- ===== src/Resources/Setup/Answered.antt =====
-- Which messages the program answers with the next order
-- (src/main/resources/web-data/js/resources-charts.js and linechart.js).
use dyn_dco.Base.{
  arith, ℕ, String, ◌≡◌, refl, ap, ◌∙◌, Option, none, some, List, [], ◌∷◌, ◌||◌, Bool, false,
  if◌then◌else◌, lookup, contains, Option-cases, inl, inr,
}
use dyn_dco.Resources.Registry.{
  LineChart, Resources, Message, Environment, is_configured, names, add_new_charts,
}
use dyn_dco.Resources.Updates.{is_missing, core_charts, lacks_ids, on_message}
use dyn_dco.Resources.Updates.Polls.{lacks_data, HasStatistics, HasMemoryCharts, on_message-answers}
use dyn_dco.Resources.Setup.{
  Kind, worker, node, Callback, Given, initial, statistics, extend_config, set_kind, set_callback,
  set_format_tt, set_texts, set_size, setup, given, with_setup,
}
use dyn_dco.Resources.Setup.Unknown.{given-json_name, setup-reads}

-- The list of the ids of the items of a chart.
abbrev ids_name : Kind → String
ids_name worker = "workerId"
ids_name node = "nodeId"

abbrev kind_of : Environment → String → Kind
kind_of env name = if is_configured name env.config_nodes then node else worker

module _ {F : Type 0} (givens : List (Given F)) (env : Environment) (msg : Message) where
  -- The data of a chart: what its callback makes of the message, or the list of its name.
  abbrev pub data_of : String → Option (List ℕ)
  data_of name = elim (given givens name).data_callback [
    | none ↦ lookup name (statistics (kind_of env name) msg)
    | some f ↦ f msg
  ]

  -- What the message lacks for a chart: its data, or the ids of its items, unless they are cores.
  abbrev pub incomplete_for : String → Bool
  incomplete_for name =
      is_missing (data_of name)
      || (if is_configured name env.config_nodes
          then (if contains core_charts name
              then false
              else is_missing (lookup "nodeId" msg.node_statistics))
          else is_missing (lookup "workerId" msg.worker_statistics))

  abbrev pub incomplete : List String → Bool
  incomplete [] = false
  incomplete (name ∷ rest) = let others = incomplete rest in incomplete_for name || others

  setup-calls :
      (nodes : List _) (g : Given F) (si : F) (f : Callback)
      → g.data_callback ≡ some f
      → (setup nodes g (initial si)).data_callback ≡ some f
  unfolding setup set_size set_texts set_format_tt set_callback set_kind extend_config
  setup-calls nodes g si f e = rw e refl

  data_callback-data_of :
      (si : F) (name : String) → (with_setup si givens env).data_callback name msg ≡ data_of name
  data_callback-data_of si name = elim (Option-cases (given givens name).data_callback) [
    | inl e ↦
        setup-reads env.config_nodes (given givens name) si msg e
        ∙ rw (given-json_name givens name) (ground (arith, e))
    | inr (f, e) ↦
        ap (λ (o : Option Callback). elim o [ none ↦ none | some g ↦ g msg ])
          (setup-calls env.config_nodes (given givens name) si f e)
        ∙ ground (arith, e)
  ]

  lacks_data-incomplete :
      (si : F) (cs : List LineChart)
      → lacks_data (with_setup si givens env) msg cs ≡ incomplete (names cs)
  unfolding lacks_ids
  lacks_data-incomplete si [] = refl
  lacks_data-incomplete si (c ∷ cs) =
      ground (arith, data_callback-data_of si c.json_name, lacks_data-incomplete si cs)

  -- A message of the server is answered by the next order, sent after the interval of the charts, exactly
  -- if it has for every chart, those included that it adds, its data and the ids of its items, which a
  -- chart of cores does not need; otherwise nothing is ordered again. This is for a message with the statistics
  -- of workers that the handler reads, and where the charts of the memory are there.
  pub on_message-polls :
      (si : F) (now : ℕ) (r : Resources)
      → HasStatistics (with_setup si givens env) msg
      → HasMemoryCharts
          (with_setup si givens env)
          msg
          (add_new_charts (with_setup si givens env) now msg r).line_charts
      → (on_message (with_setup si givens env) now msg r).1 ≡ (
          if incomplete (names (add_new_charts (with_setup si givens env) now msg r).line_charts)
          then none
          else some env.interval_charts)
  on_message-polls si now r h m =
      on_message-answers (with_setup si givens env) msg now r h m
      ∙ ap (λ b. if b then none else some env.interval_charts)
          (lacks_data-incomplete si
            (add_new_charts (with_setup si givens env) now msg r).line_charts)
