-- ===== src/Graph/Queries.antt =====
-- The orders of the graph module (src/main/resources/web-data/js/graph-drawing.js and graph.js).
pub mod Latest
use dyn_dco.Base.{ℕ, String, Option, none, some, List, [], ◌∷◌, Bool, if◌then◌else◌, leb}
use dyn_dco.Console.Orders.{Request, Console, order}
use dyn_dco.Graph.Types.{Vertex, Canvas}
use dyn_dco.Graph.Canvas.{latest_vertices, update_graph}
use dyn_dco.Graph.Pointer.{Pointer, load_vicinity}

-- `vicinityIncoming` and `vicinityRadius`
pub record Vicinity : Type 0 where
  pub incoming : Bool
  pub radius : ℕ

-- The objects that are given to `order`: "vertexIds", "substring" and "top". `none` for a property that
-- is missing or undefined, which JSON leaves out.
pub data Query (N : Type 0) : Type 0 where
  vertex_ids : List String → Option Vicinity → Query N
  substring : ℕ → String → Query N
  top : Option N → Option N → ℕ → String → Query N

-- The inputs of the panel and the option "gp_exposeVertices", as they are read. The numbers are those of
-- the options of the select boxes.
pub record Inputs : Type 0 where
  pub expose_vertices : Bool
  pub max_vertex_count : ℕ
  pub target_count : ℕ
  pub top_criterium : String
  pub vicinity : Vicinity

abbrev pub min : ℕ → ℕ → ℕ
min a b = if leb a b then a else b

-- `text` is JSON.stringify of a query, with "exposeVertices" as the first argument says.
abbrev pub request : {N : Type 0} → (Bool → Query N → String) → Inputs → Query N → Request
request text inputs q = record {
  provider = "graph";
  requestor = "Graph";
  body = text inputs.expose_vertices q;
}

module _ {N C : Type 0} (text : Bool → Query N → String) where
  -- `order`
  unfoldable pub order_graph : Inputs → Query N → ℕ → Console C → Console C
  order_graph inputs q delay console = order (request text inputs q) delay none console

  -- `update`
  unfoldable pub update : Inputs → Canvas N → ℕ → Console C → Console C
  update inputs canvas delay console = elim (update_graph canvas).1 [
    | none ↦ console
    | some stored ↦ order_graph inputs (vertex_ids stored none) delay console
  ]

  -- `addBySubstring`
  unfoldable pub add_by_substring : Inputs → String → Console C → Console C
  add_by_substring inputs s = order_graph inputs (substring (min 100 inputs.max_vertex_count) s) 0

  -- `addTop`. No code sets `graphD3.signalThreshold` and `graphD3.collectThreshold`.
  unfoldable pub add_top : Inputs → Console C → Console C
  add_top inputs = order_graph inputs (top none none inputs.target_count inputs.top_criterium) 0

  -- The ids together with their vicinity.
  unfoldable pub add_vicinities : Inputs → List String → Console C → Console C
  add_vicinities inputs found = order_graph inputs (vertex_ids found (some inputs.vicinity)) 0

  -- `addAllVicinities`
  unfoldable pub add_all_vicinities : Inputs → Canvas N → Console C → Console C
  add_all_vicinities inputs canvas = add_vicinities inputs canvas.stored

  -- `addRecentVicinities`
  unfoldable pub add_recent_vicinities : Inputs → Canvas N → Console C → Console C
  add_recent_vicinities inputs canvas = add_vicinities inputs (latest_vertices canvas)

  -- "dblclick" on a vertex, or next to one.
  unfoldable pub double_click : Inputs → Option (Vertex N) → Console C → Console C
  double_click inputs none console = console
  double_click inputs (some v) console = add_vicinities inputs (v.id ∷ []) console

  abbrev pub add_found : Inputs → Option (List String) → Console C → Console C
  add_found inputs none console = console
  add_found inputs (some found) console = add_vicinities inputs found console

  -- The function that "mousemove" gives to `setTimeout`.
  unfoldable pub load_hovered : Inputs → Pointer N → Console C → Pointer N × Console C
  load_hovered inputs p console =
      let (left, found) = load_vicinity p in (left, add_found inputs found console)
