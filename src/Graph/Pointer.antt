-- ===== src/Graph/Pointer.antt =====
-- The mouse on the canvas: the tooltip, the edges of the vertex under the mouse, and the vicinity that
-- is loaded by itself (src/main/resources/web-data/js/graph-drawing.js).
pub mod Hover
use dyn_dco.Base.{
  String, Option, none, some, List, [], ◌∷◌, Bool, true, false, ◌&&◌, ◌||◌, if◌then◌else◌, ite,
  string_discrete,
}
use dyn_dco.Graph.Types.{Vertex, Edge}

-- The class of an edge: "edge outgoing", "edge", "edge hiddenOpacity".
pub data EdgeClass : Type 0 where
  outgoing plain hidden_opacity : EdgeClass

-- The option "gp_drawEdges".
pub data DrawEdges : Type 0 where
  always when_still only_on_hover : DrawEdges

-- What the tooltip says: dashes, or about a vertex.
pub data Tooltip (N : Type 0) : Type 0 where
  dashes : Tooltip N
  about : Vertex N → Tooltip N

-- `hoveringOverVertex`, the tooltip, whether `fadeTooltipTimeout` is going to hide it, the vertex that
-- `vicinityAutoLoadDelay` is going to order, and the classes that the edges got last.
pub record Pointer (N : Type 0) : Type 0 where
  pub hovering : Option String
  pub tooltip : Tooltip N
  pub tooltip_shown : Bool
  pub fade_pending : Bool
  pub vicinity_pending : Option String
  pub class_of : Edge → EdgeClass

abbrev pub same_id : String → String → Bool
same_id a b = ite (string_discrete a b) true false

-- The edges of the vertex under the mouse.
abbrev pub hover_class : String → Edge → EdgeClass
hover_class id e =
    if same_id e.source id
    then outgoing
    else (if same_id e.target id then plain else hidden_opacity)

-- `setEdgeDrawing`
unfoldable pub set_edge_drawing : {N : Type 0} → DrawEdges → Pointer N → Pointer N
set_edge_drawing always p = record p { class_of = λ e. plain }
set_edge_drawing when_still p = record p { class_of = λ e. plain }
set_edge_drawing only_on_hover p = record p { class_of = λ e. hidden_opacity }

-- The class of all edges when no vertex is under the mouse.
abbrev pub away_class : DrawEdges → EdgeClass
away_class always = plain
away_class when_still = plain
away_class only_on_hover = hidden_opacity

-- And when the layout ticks: "When graph is still" they are hidden while it moves.
abbrev pub still_class : DrawEdges → Bool → EdgeClass
still_class always is_still = plain
still_class when_still is_still = if is_still then plain else hidden_opacity
still_class only_on_hover is_still = hidden_opacity

-- The class of an edge when the layout ticks. `is_still` is whether force.alpha() is below 0.05; the
-- empty text counts as no vertex.
abbrev pub tick_class : DrawEdges → Bool → Option String → Edge → EdgeClass
tick_class draw is_still none e = still_class draw is_still
tick_class draw is_still (some id) e =
    if same_id id "" then still_class draw is_still else hover_class id e

module _ {N : Type 0} where
  -- "mousemove" on a vertex, or next to one. `auto_add` is whether "gs_autoAddVicinities" is "Yes".
  unfoldable pub mouse_move : DrawEdges → Bool → Option (Vertex N) → Pointer N → Pointer N
  mouse_move draw auto_add target p = elim target [
    | none ↦ record p {
      hovering = none;
      tooltip = dashes;
      fade_pending = true;
      vicinity_pending = none;
      class_of = λ e. away_class draw;
    }
    | some v ↦ record p {
      hovering = some v.id;
      tooltip = about v;
      tooltip_shown = true;
      fade_pending = false;
      vicinity_pending = if auto_add then some v.id else p.vicinity_pending;
      class_of = hover_class v.id;
    }
  ]

  -- The timers.
  unfoldable pub fade_tooltip : Pointer N → Pointer N
  fade_tooltip p =
      if p.fade_pending then record p { fade_pending = false; tooltip_shown = false } else p

  abbrev pub ordered : Option String → Pointer N → Pointer N × Option (List String)
  ordered none p = (p, none)
  ordered (some id) p = (record p { vicinity_pending = none }, some (id ∷ []))

  -- The ids that are ordered with their vicinity.
  unfoldable pub load_vicinity : Pointer N → Pointer N × Option (List String)
  load_vicinity p = ordered p.vicinity_pending p

  -- "tick"
  unfoldable pub tick : DrawEdges → Bool → Pointer N → Pointer N
  tick draw is_still p = record p { class_of = tick_class draw is_still p.hovering }
