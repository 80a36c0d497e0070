-- ===== src/Resources/Setup/Unknown.antt =====
-- What a statistic of nodes that is not configured does to the resources view
-- (src/main/resources/web-data/js/linechart.js and resources-charts.js).
use dyn_dco.Base.{
  arith, ℕ, String, ◌≡◌, refl, sym, ◌∙◌, subst, none, some, List, [], ◌∷◌, true, false,
  if◌then◌else◌, lookup, contains, Bool-cases, inl, inr,
}
use dyn_dco.Resources.Registry.{
  Config, LineChart, Resources, Message, Environment, is_name, is_configured, names,
  charts_contains, is_new, add_new_charts,
}
use dyn_dco.Resources.Registry.Boxes.{has_key, has_chart, has_chart-add_tested}
use dyn_dco.Resources.Updates.{on_message}
use dyn_dco.Resources.Updates.Polls.{lacks_data, updated-charts}
use dyn_dco.Resources.Setup.{
  worker, node, Given, initial, statistics, extend_config, set_kind, set_callback, set_format_tt,
  set_texts, set_size, setup, given, with_setup,
}

module _ {F : Type 0} where
  -- A chart of no configured statistic reads the workers' data.
  pub setup-reads :
      (nodes : List Config) (g : Given F) (si : F) (msg : Message)
      → g.data_callback ≡ none
      → (elim (setup nodes g (initial si)).data_callback [ none ↦ none | some f ↦ f msg ])
        ≡ lookup g.json_name
            (statistics (if is_configured g.json_name nodes then node else worker) msg)
  unfolding setup set_size set_texts set_format_tt set_callback set_kind extend_config
  setup-reads nodes g si msg e = rw e refl

  pub given-json_name :
      (givens : List (Given F)) (key : String) → (given givens key).json_name ≡ key
  given-json_name [] key = refl
  given-json_name (g ∷ gs) key = elim (Bool-cases (is_name g.json_name key)) [
    | inl e ↦ rw e (ground (arith, e))
    | inr e ↦ rw e (given-json_name gs key)
  ]

lacks_data-missing :
    (env : Environment) (msg : Message) (key : String) (cs : List LineChart)
    → contains (names cs) key ≡ true
    → env.data_callback key msg ≡ none
    → lacks_data env msg cs ≡ true
lacks_data-missing env msg key [] h e = absurd (cc h)
lacks_data-missing env msg key (c ∷ cs) h e = elim (Bool-cases (is_name c.json_name key)) [
  | inl q ↦ ground (arith, q, e)
  | inr q ↦ ground (arith, q, lacks_data-missing env msg key cs (ground (arith, h, q)) e)
]

-- The name is in no table.
is_new-is_configured :
    (env : Environment) (now : ℕ) (configs : List Config) (key : String)
    → is_new env now configs key ≡ true
    → is_configured key env.config_nodes ≡ false
unfolding is_new charts_contains
is_new-is_configured env now configs key h = ground (arith, h)

module _ {F : Type 0} (si : F) (givens : List (Given F)) (env : Environment) where
  abbrev program : Environment
  program = with_setup si givens env

  data_callback-missing :
      (now : ℕ) (key : String) (msg : Message)
      → (given givens key).data_callback ≡ none
      → is_new program now env.config_nodes key ≡ true
      → lookup key msg.worker_statistics ≡ none
      → program.data_callback key msg ≡ none
  data_callback-missing now key msg e h w =
      setup-reads env.config_nodes (given givens key) si msg e
      ∙ subst
          (λ k.
            lookup k (statistics (if is_configured k env.config_nodes then node else worker) msg)
            ≡ none)
          (sym (given-json_name givens key))
          (rw (is_new-is_configured program now env.config_nodes key h) w)

  -- If the first message has a statistic of nodes that is not configured, has no callback, and is not one
  -- of the workers too, the handler does not come to its end, so that nothing is ordered again.
  pub on_message-unknown_node :
      (now : ℕ) (key : String) (msg : Message) (r : Resources)
      → r.has_added_new_charts ≡ false
      → has_key msg.node_statistics key ≡ true
      → is_new program now env.config_nodes key ≡ true
      → (given givens key).data_callback ≡ none
      → lookup key msg.worker_statistics ≡ none
      → (on_message program now msg r).1 ≡ none
  unfolding on_message
  on_message-unknown_node now key msg r first k new e w =
      let a = add_new_charts program now msg r in
      let added : has_chart a key ≡ true =
        ground (arith, has_chart-add_tested program now msg r key, first, k, new) in
      ground (
        arith,
        (updated-charts program msg a).0,
        lacks_data-missing program msg key a.line_charts added
            (data_callback-missing now key msg e new w),
      )
