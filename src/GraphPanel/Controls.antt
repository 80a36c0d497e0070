-- ===== src/GraphPanel/Controls.antt =====
-- The options and inputs of the graph's panel (src/main/resources/web-data/js/graph.js).
pub mod Bounded
use dyn_dco.Base.{
  ℕ, ◌-◌, ◌+◌, String, Option, none, some, List, [], ◌∷◌, ◌++◌, map, Bool, true, false, ltb, ◌==◌,
  if◌then◌else◌, ite, string_discrete,
}
use dyn_dco.Console.Orders.{Console}
use dyn_dco.Graph.Types.{Canvas}
use dyn_dco.Graph.Canvas.{remove_overflowing_vertices}
use dyn_dco.Graph.Queries.{Query, Inputs, add_by_substring}
use dyn_dco.GraphPanel.Counts.{
  Selector, intervals, vertex_count_intervals, populate_target_count_selector,
}

-- The options that `layout` gives to the select boxes of the radius and of the refresh rate; `none` for
-- "Never".
unfoldable pub vicinity_radii : List ℕ
vicinity_radii = intervals 1 1 4

unfoldable pub refresh_rates : List (Option ℕ)
refresh_rates = map some (intervals 1 1 10 ++ intervals 15 5 10) ++ none ∷ []

-- The canvas, the option "gp_maxVertexCount" in the settings, the select box for the number of vertices,
-- and the text of the input "gs_addBySubstring".
pub record Controls (N : Type 0) : Type 0 where
  pub canvas : Canvas N
  pub max_vertex_count : ℕ
  pub target_count : Selector
  pub substring : String

-- The border of the exposition panel that is dragged.
pub record Dragbar : Type 0 where
  pub resizing : Bool
  pub ghostbars : ℕ
  pub exposition_width : ℕ
  pub canvas_right : ℕ

-- `mousedown.resizeExposition`
unfoldable pub drag_down : Dragbar → Dragbar
drag_down d = record d { resizing = true; ghostbars = d.ghostbars + 1 }

-- `mouseup.resizeExposition`: `remove` takes away the first element with the id only.
unfoldable pub drag_up : ℕ → ℕ → Dragbar → Dragbar
drag_up document_width x d =
    if d.resizing
    then record {
      resizing = false;
      ghostbars = d.ghostbars - 1;
      exposition_width = document_width + 2 - x;
      canvas_right = document_width + 2 - x;
    }
    else d

-- `GSTR.addBySubstring`
abbrev pub placeholder : String
placeholder = "Vertex with ID having this substring"

module _ {N : Type 0} where
  -- "change" on "gp_maxVertexCount": the handler of the settings runs first, as it was bound first.
  unfoldable pub change_max_vertex_count : ℕ → Controls N → Controls N
  change_max_vertex_count n c = record c {
    max_vertex_count = n;
    canvas = remove_overflowing_vertices n c.canvas;
    target_count = populate_target_count_selector n c.target_count;
  }

  -- "change" on "gs_addBySubstring"
  unfoldable pub change_substring : String → Controls N → Controls N
  change_substring text c = record c { substring = ite (string_discrete text "") placeholder text }

module _ {N C : Type 0} (text : Bool → Query N → String) where
  -- "click" on "gs_addBySubstringAdd"
  unfoldable pub click_add : Inputs → Controls N → Console C → Console C
  click_add inputs c console = add_by_substring text inputs c.substring console

  -- "keypress" in "gs_addBySubstring"
  unfoldable pub press_key : ℕ → Inputs → Controls N → Console C → Console C
  press_key which inputs c console =
      let added = add_by_substring text inputs c.substring console in
      if which == 13 then added else console
