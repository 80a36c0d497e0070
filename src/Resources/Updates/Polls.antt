-- ===== src/Resources/Updates/Polls.antt =====
-- When the resources view orders data again (src/main/resources/web-data/js/resources-charts.js).
use dyn_dco.Base.{
  not, ◌||◌, ℕ, arith, String, ◌≡◌, refl, sym, subst, ap, ◌∙◌, none, some, List, [], ◌∷◌, Bool,
  true, false, if◌then◌else◌, contains, lookup, Bool-cases, inl, inr,
}
use dyn_dco.Resources.Registry.{
  LineChart, Resources, Message, Environment, is_name, names, add_new_charts,
}
use dyn_dco.Resources.Updates.{
  and_then, each_chart, get_chart, lacks_ids, update_line_chart, update_line_charts,
  update_statistics, update_estimations, on_message,
}

-- The message has no data for a chart, or no ids of its items.
abbrev pub lacks : Environment → Message → String → Bool
lacks env msg name = elim (env.data_callback name msg) [
  | none ↦ true
  | some array ↦ lacks_ids env msg name
]

-- That is so for one of the charts.
abbrev pub lacks_data : Environment → Message → List LineChart → Bool
lacks_data env msg [] = false
lacks_data env msg (c ∷ cs) = let rest = lacks_data env msg cs in lacks env msg c.json_name || rest

module _ (env : Environment) (msg : Message) where
  update_line_chart-name : (c : LineChart) → (update_line_chart env msg c).0.json_name ≡ c.json_name
  unfolding update_line_chart
  update_line_chart-name c = ground arith

  update_line_chart-done :
      (c : LineChart) → (update_line_chart env msg c).1 ≡ not (lacks env msg c.json_name)
  unfolding update_line_chart
  update_line_chart-done c = ground arith

  names-each_chart :
      (cs : List LineChart) → names (each_chart (update_line_chart env msg) cs).0 ≡ names cs
  names-each_chart [] = refl
  names-each_chart (c ∷ cs) = ground (arith, update_line_chart-name c, names-each_chart cs)

  each_chart-done :
      (cs : List LineChart)
      → (each_chart (update_line_chart env msg) cs).1 ≡ not (lacks_data env msg cs)
  each_chart-done [] = refl
  each_chart-done (c ∷ cs) = ground (arith, update_line_chart-done c, each_chart-done cs)

  get_chart-names :
      (name : String) (cs : List LineChart)
      → contains (names cs) name ≡ true
      → (c : LineChart) × (get_chart name cs ≡ some c)
  get_chart-names name [] h = absurd (cc h)
  get_chart-names name (c ∷ cs) h = elim (Bool-cases (is_name c.json_name name)) [
    | inl e ↦ (c, rw e refl)
    | inr e ↦ rw e (get_chart-names name cs (ground (arith, e, h)))
  ]

  update_statistics-done :
      (ids : List ℕ) (r : Resources)
      → lookup "workerId" msg.worker_statistics ≡ some ids
      → ((update_statistics env msg r).completed ≡ true)
        × ((update_statistics env msg r).state.line_charts ≡ r.line_charts)
  unfolding update_statistics
  update_statistics-done ids r e = (ground (arith, e), ground (arith, e))

  update_estimations-done :
      (mem_total mem_max : LineChart) (edges vertices : List ℕ) (r : Resources)
      → get_chart "runtime_mem_total" r.line_charts ≡ some mem_total
      → get_chart "runtime_mem_max" r.line_charts ≡ some mem_max
      → lookup "numberOfOutgoingEdges" msg.worker_statistics ≡ some edges
      → lookup "numberOfVertices" msg.worker_statistics ≡ some vertices
      → (update_estimations env msg r).completed ≡ true
  unfolding update_estimations
  update_estimations-done mem_total mem_max edges vertices r e f g h = ground (arith, e, f, g, h)

  -- The statistics that the handler reads are in the message.
  pub record HasStatistics : Type 0 where
    pub ids : List ℕ
    pub edges : List ℕ
    pub vertices : List ℕ
    pub has_ids : lookup "workerId" msg.worker_statistics ≡ some ids
    pub has_edges : lookup "numberOfOutgoingEdges" msg.worker_statistics ≡ some edges
    pub has_vertices : lookup "numberOfVertices" msg.worker_statistics ≡ some vertices

  -- The charts of the memory are there.
  pub record HasMemoryCharts (cs : List LineChart) : Type 0 where
    pub total : contains (names cs) "runtime_mem_total" ≡ true
    pub max : contains (names cs) "runtime_mem_max" ≡ true

  computed-done :
      (s : Resources)
      → HasStatistics
      → HasMemoryCharts s.line_charts
      → (and_then (update_statistics env msg s) (update_estimations env msg)).completed ≡ true
  computed-done s h m =
      let (done, charts) = update_statistics-done h.ids s h.has_ids in
      let t = (update_statistics env msg s).state in
      let (total, et) = get_chart-names "runtime_mem_total" s.line_charts m.total in
      let (max, em) = get_chart-names "runtime_mem_max" s.line_charts m.max in
      ground (
        arith,
        done,
        update_estimations-done total max h.edges h.vertices t (ap (get_chart _) charts ∙ et)
            (ap (get_chart _) charts ∙ em) h.has_edges h.has_vertices,
      )

  pub updated-charts :
      (r : Resources)
      → ((update_line_charts env msg r).completed ≡ not (lacks_data env msg r.line_charts))
        × (names (update_line_charts env msg r).state.line_charts ≡ names r.line_charts)
        × ((update_line_charts env msg r).state.computation_state ≡ r.computation_state)
  unfolding update_line_charts
  updated-charts r = (each_chart-done r.line_charts, names-each_chart r.line_charts, refl)

  -- A message with the statistics that the handler reads is answered by the next order exactly if it
  -- lacks nothing for any chart, where the charts of the memory are there.
  pub on_message-answers :
      (now : ℕ) (r : Resources)
      → HasStatistics
      → HasMemoryCharts (add_new_charts env now msg r).line_charts
      → (on_message env now msg r).1 ≡ (
          if lacks_data env msg (add_new_charts env now msg r).line_charts
          then none
          else some env.interval_charts)
  unfolding on_message
  on_message-answers now r h m =
      let a = add_new_charts env now msg r in
      let u = update_line_charts env msg a in
      let (done, kept, state) = updated-charts a in
      let kept_total = subst (λ x. contains x "runtime_mem_total" ≡ true) (sym kept) m.total in
      let kept_max = subst (λ x. contains x "runtime_mem_max" ≡ true) (sym kept) m.max in
      ground (arith, done, computed-done u.state h (record { total = kept_total; max = kept_max }))
