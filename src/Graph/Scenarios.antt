-- ===== src/Graph/Scenarios.antt =====
-- The mouse, the queries and the looks on small canvases
-- (src/main/resources/web-data/js/graph-drawing.js).
use dyn_dco.Base.{
  ℕ, String, ◌≡◌, refl, none, some, [], ◌∷◌, Bool, true, false, arith, no_entries, ltb, All,
  contains, string_discrete,
}
use dyn_dco.Console.Orders.{Console, pending_for}
use dyn_dco.Console.Orders.Coherent.{IsCoherent}
use dyn_dco.Graph.VertexLoops.{ids}
use dyn_dco.Graph.Canvas.{remove_non_latest_vertices}
use dyn_dco.Graph.Pointer.{Pointer, dashes, plain, only_on_hover, mouse_move, tick}
use dyn_dco.Graph.Pointer.Hover.{IsHover, Reach, moving, ticking, here, next, Reach-IsHover}
use dyn_dco.Graph.Queries.{Query, Inputs, load_hovered, add_recent_vicinities}
use dyn_dco.Graph.Queries.Latest.{add_recent_vicinities-supersedes, load_hovered-hovering, waiting}
use dyn_dco.Graph.Design.{Palette, Design, apply_design, green_or_red}
use dyn_dco.Graph.Design.Chosen.{apply_design-latest_query}
use dyn_dco.Graph.VertexLoops.{visit_all, visit, accept}
use dyn_dco.Graph.Message.{graph, on_message}
use dyn_dco.Graph.Exposed.{Sidebar, exposes_information, click_expose, open_sidebar, receive}
use dyn_dco.Graph.Types.{Vertex}
use dyn_dco.GraphPanel.Exposition as Exposition
use dyn_dco.GraphPanel.Exposition.{children, no_nodes, no_members, json_into_tree, node_rows}
use dyn_dco.Graph.Exposed.Forgotten
use dyn_dco.Graph.Exposed.Forgotten.{receive-forgets_clicks}
use dyn_dco.Graph.Canvas.{overflowing_vertices, remove_vertices_from_canvas}
use dyn_dco.Graph.Compact.{compact}
use dyn_dco.Graph.Examples.{vertex, three, three-IsWellFormed, counts, entry, message, options}

abbrev idle : Pointer ℕ
idle = record {
  hovering = none;
  tooltip = dashes;
  tooltip_shown = false;
  fade_pending = false;
  vicinity_pending = none;
  class_of = λ e. plain;
}

idle-IsHover : IsHover only_on_hover true idle
idle-IsHover = record {
  unasked = λ e. refl;
  shown = refl;
  vicinity = λ id e. absurd (cc e);
  tooltip = λ id e. absurd (cc e);
  edges = λ id e q n. absurd (cc q);
}

-- The mouse moves onto the vertex "a", and the layout ticks.
abbrev over : Pointer ℕ
over = tick only_on_hover false (mouse_move only_on_hover true (some (vertex "a" 1)) idle)

over-Reach : Reach only_on_hover true idle over
over-Reach =
    next (next here (moving (some (vertex "a" 1)) idle))
      (ticking false (mouse_move only_on_hover true (some (vertex "a" 1)) idle))

Reach-IsHover_example : IsHover only_on_hover true over
Reach-IsHover_example = Reach-IsHover only_on_hover true over-Reach idle-IsHover

abbrev quiet : Console ℕ
quiet = record {
  orders = [];
  callbacks = no_entries;
  pending = [];
  next_timer = 1;
  is_open = true;
  sent = [];
  not_sent = [];
}

quiet-IsCoherent : IsCoherent quiet
quiet-IsCoherent = record {
  positive = omega arith;
  named = tt;
  numbered = tt;
  distinct = tt;
  below = λ p i e. cc e;
  apart = λ p q i e f. cc e;
}

abbrev inputs : Inputs
inputs = record {
  expose_vertices = true;
  max_vertex_count = 250;
  target_count = 100;
  top_criterium = "Highest degree";
  vicinity = record { incoming = true; radius = 1 };
}

abbrev text : Bool → Query ℕ → String
text expose q = "{}"

load_hovered-hovering_example :
    (over.hovering ≡ some "a")
    × (pending_for "graph" (load_hovered text inputs over quiet).1
        ≡ waiting text inputs 1 ("a" ∷ []))
unfolding mouse_move tick
load_hovered-hovering_example =
    load_hovered-hovering text inputs only_on_hover true "a" quiet idle-IsHover over-Reach refl
      quiet-IsCoherent

add_recent_vicinities-supersedes_example :
    pending_for "graph" (add_recent_vicinities text inputs three quiet)
    ≡ waiting text inputs 1 ("c" ∷ [])
add_recent_vicinities-supersedes_example =
    add_recent_vicinities-supersedes text inputs three quiet three-IsWellFormed quiet-IsCoherent

-- Colors are their names.
abbrev palette : Palette ℕ
palette = record {
  Color = String;
  Size = ℕ;
  color = λ s. s;
  color_gradient = λ d r. "green";
  size_gradient = λ d r. 10;
  hex = λ s. s;
  pixels = λ n. n;
  number = λ n. n;
  gtb = λ a b. ltb b a;
}

abbrev unpainted : Design palette
unpainted = record {
  vertex_color = none;
  vertex_border = none;
  vertex_size = none;
  fill = no_entries;
  stroke = no_entries;
  r = no_entries;
}

apply_design-latest_query_example :
    All
      (λ v.
        (apply_design palette (("gd_vertexBorder", "Latest query") ∷ []) three unpainted).stroke
          v.id
        ≡ some (
            green_or_red palette (contains (ids (remove_non_latest_vertices three).vertices) v.id)))
      three.vertices
unfolding string_discrete
apply_design-latest_query_example =
    apply_design-latest_query palette (("gd_vertexBorder", "Latest query") ∷ []) three unpainted
      (refl, tt) refl three-IsWellFormed (record { fill = refl; stroke = refl; r = refl })

-- The panel is closed, with the vertex "c" in the storage.
abbrev closed : Sidebar ℕ
closed = record { canvas = three; stored_id = some "c"; visible = false; shown = none }

-- The vertices have empty information.
abbrev all_expose : Vertex ℕ → Bool
all_expose = exposes_information (λ ms. children no_nodes) (λ s. no_members)

receive-forgets_clicks_example :
    (receive counts all_expose options
      (graph message)
      (click_expose all_expose (some (vertex "b" 2)) (open_sidebar closed))).shown
    ≡ some (vertex "c" 3)
unfolding string_discrete on_message overflowing_vertices remove_vertices_from_canvas visit_all
    visit accept compact click_expose receive open_sidebar Exposition.expose json_into_tree
    node_rows
receive-forgets_clicks_example =
    receive-forgets_clicks counts all_expose options message (("d", entry) ∷ ("b", entry) ∷ []) "c"
      (vertex "c" 3) closed refl
      (Forgotten.Reach.next Forgotten.Reach.here
        (Forgotten.Step.clicking (some (vertex "b" 2)) (open_sidebar closed)))
      refl refl refl
