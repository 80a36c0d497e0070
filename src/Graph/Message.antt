-- ===== src/Graph/Message.antt =====
-- `onmessage` of GraphD3 (src/main/resources/web-data/js/graph-drawing.js).
pub mod Taken
pub mod Handled
use dyn_dco.Base.{
  ℕ, ◌+◌, ◌*◌, String, Option, none, some, List, [], ◌∷◌, ◌++◌, map, false, ltb, if◌then◌else◌,
  length,
}
use dyn_dco.Graph.Types.{
  Vertex, VertexData, GraphMessage, too_many, no_match, Canvas, Options, Action, Numbers,
  after_no_match, after_too_many, expose, refresh_after,
}
use dyn_dco.Graph.VertexLoops.{VertexLoop, visit_all}
use dyn_dco.Graph.EdgeLoops.{visit_edges}
use dyn_dco.Graph.Canvas.{
  find_vertex, save, restart, overflowing_vertices, remove_vertices_from_canvas,
}

-- What `onmessage` is given: `executionConfiguration`, `none` if it is "unknown", or the graph.
pub data Incoming (N : Type 0) : Type 0 where
  configuration : Option (N × N) → Incoming N
  graph : GraphMessage N → Incoming N

module _ {N : Type 0} where
  abbrev pub loop_of : Canvas N → VertexLoop N
  loop_of c = record {
    vertices = c.vertices;
    refs = c.vertex_refs;
    sequence = c.vertex_sequence;
    new_vertex_count = 0;
    too_many_vertices = 0;
    new_vertices = false;
  }

  -- The canvas after the loop over the vertices of the message.
  unfoldable pub take_vertices : ℕ → List (String × VertexData N) → Canvas N → Canvas N
  take_vertices max vs c =
      let l = visit_all max (loop_of c) vs in
      record c {
        vertices = l.vertices;
        vertex_refs = l.refs;
        vertex_sequence = l.sequence;
        vertex_sequence_end = c.vertex_sequence;
      }

  unfoldable pub take_edges : Option (List (String × List String)) → Canvas N → Canvas N
  take_edges none c = c
  take_edges (some es) c =
      let l = visit_edges c.vertex_refs (record { edges = c.edges; refs = c.edge_refs }) es in
      record c { edges = l.edges; edge_refs = l.refs }

  -- The oldest vertices go if there are too many; otherwise the drawing is only brought up to date.
  unfoldable pub make_room : List String → Canvas N → Canvas N
  make_room [] c = restart c
  make_room (id ∷ removed) c = remove_vertices_from_canvas (id ∷ removed) c

  -- The text about vertices that were left out.
  unfoldable pub tell_left_out : ℕ → ℕ → Canvas N → Canvas N × List (Action N)
  tell_left_out max left_out c =
      if ltb 0 left_out
      then (
        record c { background = too_many (left_out + length c.vertices) max },
        after_too_many ∷ [],
      )
      else (c, [])

  -- The vertex in the exposition panel, if its circle is there.
  abbrev pub exposed : Canvas N → List (Action N)
  exposed c = elim c.exposed_vertex_id [
    | none ↦ []
    | some id ↦ elim (find_vertex id c.vertices) [ none ↦ [] | some v ↦ expose v ∷ [] ]
  ]

  abbrev pub refreshed : Options → List (Action N)
  refreshed o =
      if o.auto_refresh
      then elim o.refresh_rate [ none ↦ [] | some seconds ↦ refresh_after (seconds * 1000) ∷ [] ]
      else []

  unfoldable pub on_configuration : Option (N × N) → Canvas N → Canvas N
  on_configuration none c = c
  on_configuration (some (signal, collect)) c = record c {
    signal_threshold = signal;
    collect_threshold = collect;
  }

module _ (n : Numbers) where
  open n use {Num, gtb, parse_float, median}

  -- The lowest, median and highest state.
  unfoldable pub gradient : String → String → List (Vertex Num) → Num × Num × Num
  gradient lowest_state highest_state vs =
      let mid = median (map (λ (v : Vertex Num). v.r) vs) in
      let lowest = parse_float lowest_state in
      let highest = parse_float highest_state in
      (if gtb lowest mid then mid else lowest, mid, if gtb mid highest then mid else highest)

  -- The canvas with the vertices and the edges of the message, before room is made.
  unfoldable pub fill :
      ℕ → GraphMessage Num → List (String × VertexData Num) → Canvas Num → Canvas Num
  unfolding take_vertices take_edges save
  fill max m vs c =
      let saved = save (take_vertices max vs c) in
      take_edges m.edges (record saved {
        gradient_domain = some (gradient m.lowest_state m.highest_state saved.vertices);
      })

  unfoldable pub on_graph : Options → GraphMessage Num → Canvas Num → Canvas Num × List (Action Num)
  unfolding fill make_room tell_left_out
  on_graph o m c = elim m.vertices [
    | none ↦ (record c { background = no_match }, after_no_match ∷ [])
    | some vs ↦
        let max = o.max_vertex_count in
        let to_remove = overflowing_vertices max (take_vertices max vs c) in
        let left_out = (visit_all max (loop_of c) vs).too_many_vertices in
        let (told, actions) = tell_left_out max left_out (make_room to_remove (fill max m vs c)) in
        (told, actions ++ exposed told ++ refreshed o)
  ]

  unfoldable pub on_message : Options → Incoming Num → Canvas Num → Canvas Num × List (Action Num)
  unfolding on_configuration on_graph
  on_message o (configuration e) c = (on_configuration e c, [])
  on_message o (graph m) c = on_graph o m c
