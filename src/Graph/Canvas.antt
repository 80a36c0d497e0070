-- ===== src/Graph/Canvas.antt =====
-- GraphD3: the operations on the canvas (src/main/resources/web-data/js/graph-drawing.js).
pub mod Invariant
pub mod Overflow
pub mod Selection
pub mod Circles
use dyn_dco.Base.{
  ℕ, ◌+◌, ◌-◌, String, Option, none, some, List, [], ◌∷◌, Bool, false, not, ltb, leb, if◌then◌else◌,
  ite, string_discrete, no_entries, length, keep_if, contains,
}
use dyn_dco.Graph.Types.{Vertex, Edge, Background, showing, canvas_empty, connection_lost, Canvas}
use dyn_dco.Graph.Compact.{compact}
use dyn_dco.Graph.VertexLoops.{ids, remove_vertices}
use dyn_dco.Graph.EdgeLoops.{remove_edges}

-- The keys of `verticesWithEdges`, each as often as an edge has it.
abbrev pub endpoints : List Edge → List String
endpoints [] = []
endpoints (e ∷ es) = e.source ∷ e.target ∷ endpoints es

module _ {N : Type 0} where
  -- `vertexStorage.save`
  unfoldable pub save : Canvas N → Canvas N
  save c = record c { stored = ids c.vertices }

  -- `restart`: the circles are bound to the vertices anew. The layout is d3's.
  unfoldable pub restart : Canvas N → Canvas N
  restart c = record c {
    circles = ids c.vertices;
    background = elim c.vertices [ [] ↦ canvas_empty | _ ∷ _ ↦ showing (length c.vertices) ];
  }

  -- `removeVerticesFromCanvas`
  unfoldable pub remove_vertices_from_canvas : List String → Canvas N → Canvas N
  unfolding compact save restart
  remove_vertices_from_canvas removed c =
      let (vs, vrefs) = remove_vertices removed c.vertices c.vertex_refs in
      let (es, erefs) = remove_edges removed c.edges c.edge_refs in
      restart
        (save (record c { vertices = vs; vertex_refs = vrefs; edges = es; edge_refs = erefs }))

  -- The vertex that a circle is bound to.
  abbrev pub find_vertex : String → List (Vertex N) → Option (Vertex N)
  find_vertex id [] = none
  find_vertex id (v ∷ vs) = ite (string_discrete v.id id) (some v) (find_vertex id vs)

  -- `$("circle").filter(…)`
  abbrev pub circles_where : (Vertex N → Bool) → Canvas N → List String
  circles_where p c =
      keep_if (λ id. elim (find_vertex id c.vertices) [ none ↦ false | some v ↦ p v ]) c.circles

  -- `getLatestVertices`
  unfoldable pub latest_vertices : Canvas N → List String
  latest_vertices c = circles_where (λ v. ltb c.vertex_sequence_end v.seq) c

  -- `findExistingVertices`
  unfoldable pub find_existing_vertices : List String → Canvas N → List String
  find_existing_vertices sought c = circles_where (λ v. contains sought v.id) c

  -- `getOverflowingVertices`. The highest sequence number to keep is `sequence - max + 1`.
  unfoldable pub overflowing_vertices : ℕ → Canvas N → List String
  overflowing_vertices max c =
      if ltb max (length c.vertices)
      then circles_where (λ v. ltb v.seq (c.vertex_sequence + 1 - max)) c
      else []

  -- `removeOverflowingVertices`
  unfoldable pub remove_overflowing_vertices : ℕ → Canvas N → Canvas N
  remove_overflowing_vertices max c = remove_vertices_from_canvas (overflowing_vertices max c) c

  -- `removeNonLatestVertices`
  unfoldable pub remove_non_latest_vertices : Canvas N → Canvas N
  remove_non_latest_vertices c =
      remove_vertices_from_canvas (circles_where (λ v. leb v.seq c.vertex_sequence_end) c) c

  -- `removeOrphans`
  unfoldable pub remove_orphans : Canvas N → Canvas N
  remove_orphans c =
      let with_edges = endpoints c.edges in
      remove_vertices_from_canvas (circles_where (λ v. not (contains with_edges v.id)) c) c

  -- `destroy`; the pending order of the graph is dropped by `scc.resetOrders`.
  unfoldable pub destroy : Canvas N → Canvas N
  destroy c = record c {
    vertices = [];
    edges = [];
    vertex_refs = no_entries;
    edge_refs = no_entries;
    circles = [];
  }

  -- `onclose`
  unfoldable pub on_close : Canvas N → Canvas N
  unfolding destroy
  on_close c = record (destroy c) { background = connection_lost }

  -- `onopen` makes a new, empty drawing.
  unfoldable pub on_open : Canvas N → Canvas N
  on_open c = record c { circles = []; background = Background.loading }

  -- `update` of the Graph module: the ids to order, if any are stored.
  unfoldable pub update_graph : Canvas N → Canvas N × Option (List String)
  update_graph c = elim c.stored [
    | [] ↦ (record c { background = canvas_empty }, none)
    | id ∷ rest ↦ (c, some (id ∷ rest))
  ]

  -- `removeAllVertices`
  unfoldable pub remove_all_vertices : Canvas N → Canvas N × Option (List String)
  unfolding save destroy on_open update_graph
  remove_all_vertices c = update_graph (on_open (destroy (save (record c { vertices = [] }))))
