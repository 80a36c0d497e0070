-- ===== src/Graph/Exposed.antt =====
-- The vertex in the exposition panel (src/main/resources/web-data/js/graph-drawing.js and graph.js).
pub mod Forgotten
use dyn_dco.Base.{String, Option, none, some, List, [], ◌∷◌, Bool, true, false, if◌then◌else◌}
use dyn_dco.Graph.Types.{
  Vertex, Canvas, Options, Action, Numbers, after_no_match, after_too_many, expose, refresh_after,
}
use dyn_dco.GraphPanel.Exposition.{Members, Converted}
use dyn_dco.GraphPanel.Exposition as Exposition
use dyn_dco.Graph.Message.{Incoming, on_message}

-- The canvas, whose `exposed_vertex_id` is that of GraphD3, `localStorage["exposedVertexId"]`, whether the
-- panel is visible, and the vertex in it.
pub record Sidebar (N : Type 0) : Type 0 where
  pub canvas : Canvas N
  pub stored_id : Option String
  pub visible : Bool
  pub shown : Option (Vertex N)

module _ {N : Type 0} (exposes : Vertex N → Bool) where
  -- What the calls of `expose` leave in the panel, up to one that throws.
  abbrev pub shown_by : List (Action N) → Option (Vertex N) → Option (Vertex N)
  shown_by [] old = old
  shown_by (after_no_match ∷ rest) old = shown_by rest old
  shown_by (after_too_many ∷ rest) old = shown_by rest old
  shown_by (expose v ∷ rest) old =
      let later = shown_by rest (some v) in if exposes v then later else old
  shown_by (refresh_after ms ∷ rest) old = shown_by rest old

  -- "click" on a vertex, or next to one: the id is put into a variable of the handler and into the
  -- storage, not into GraphD3.
  unfoldable pub click_expose : Option (Vertex N) → Sidebar N → Sidebar N
  click_expose none s = s
  click_expose (some v) s =
      if s.visible
      then record s { stored_id = some v.id; shown = if exposes v then some v else s.shown }
      else s

-- Whether `expose` of the Graph module comes to its end: `information` is that of a vertex, as JSON.parse
-- has read it. It throws before it changes the panel.
abbrev pub exposes_information :
    {N : Type 0} → (Members → Converted) → (String → Members) → Vertex N → Bool
exposes_information array_like information v =
    elim (Exposition.expose array_like [] (information v.info)) [ none ↦ false | some rows ↦ true ]

module _ {N : Type 0} where
  -- The panel opens when the page is laid out, or with the option "gp_exposeVertices".
  unfoldable pub open_sidebar : Sidebar N → Sidebar N
  open_sidebar s = record s {
    canvas = record s.canvas { exposed_vertex_id = s.stored_id };
    visible = true;
  }

  -- The handler of "change" on that option, after the order of an update if it is "Yes".
  unfoldable pub change_expose : Bool → Sidebar N → Sidebar N
  unfolding open_sidebar
  change_expose true s = open_sidebar s
  change_expose false s = record s { visible = false }

module _ (n : Numbers) where
  open n use {Num}

  -- A message for the canvas.
  unfoldable pub receive : (Vertex Num → Bool) → Options → Incoming Num → Sidebar Num → Sidebar Num
  receive exposes o j s =
      let (canvas, actions) = on_message n o j s.canvas in
      record s { canvas = canvas; shown = shown_by exposes actions s.shown }
