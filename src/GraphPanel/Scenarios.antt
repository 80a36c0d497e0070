-- ===== src/GraphPanel/Scenarios.antt =====
-- A new limit of vertices and a text to search for (src/main/resources/web-data/js/graph.js).
use dyn_dco.Base.{
  ℕ, String, ◌≤◌, ◌≡◌, refl, arith, some, [], ◌∷◌, Bool, true, false, no_entries, length,
  strings_differ,
}
use dyn_dco.Console.Orders.{Console, pending_for}
use dyn_dco.Console.Orders.Coherent.{IsCoherent}
use dyn_dco.Graph.Canvas.Invariant.{IsWellFormed}
use dyn_dco.Graph.Queries.{Query, Inputs, min, substring, request}
use dyn_dco.Graph.Examples.{three, three-IsWellFormed}
use dyn_dco.GraphPanel.Counts.{vertex_count_intervals, populate_target_count_selector}
use dyn_dco.GraphPanel.Controls.{
  Controls, drag_down, drag_up, change_max_vertex_count, change_substring, press_key, click_add,
  placeholder,
}
use dyn_dco.GraphPanel.Controls.Bounded.{change_max_vertex_count-Bounded, press_key-click_add}

abbrev controls : Controls ℕ
controls = record {
  canvas = three;
  max_vertex_count = 250;
  target_count = record { options = 5 ∷ 10 ∷ []; choice = some 10 };
  substring = placeholder;
}

change_max_vertex_count-Bounded_example :
    IsWellFormed (change_max_vertex_count 5 controls).canvas
    × (length (change_max_vertex_count 5 controls).canvas.vertices ≤ 5)
    × (5 ≤ 5)
unfolding change_max_vertex_count populate_target_count_selector vertex_count_intervals
change_max_vertex_count-Bounded_example =
    change_max_vertex_count-Bounded 5 5 controls three-IsWellFormed refl

abbrev quiet : Console ℕ
quiet = record {
  orders = [];
  callbacks = no_entries;
  pending = [];
  next_timer = 1;
  is_open = true;
  sent = [];
  not_sent = [];
}

quiet-IsCoherent : IsCoherent quiet
quiet-IsCoherent = record {
  positive = omega arith;
  named = tt;
  numbered = tt;
  distinct = tt;
  below = λ p i e. cc e;
  apart = λ p q i e f. cc e;
}

abbrev inputs : Inputs
inputs = record {
  expose_vertices = true;
  max_vertex_count = 250;
  target_count = 100;
  top_criterium = "Highest degree";
  vicinity = record { incoming = true; radius = 1 };
}

abbrev text : Bool → Query ℕ → String
text expose q = "{}"

press_key_test :
    (press_key text 13 inputs (change_substring "page" controls) quiet
      ≡ click_add text inputs (change_substring "page" controls) quiet)
    × (pending_for "graph" (click_add text inputs (change_substring "page" controls) quiet)
        ≡ record {
          id = 1;
          delay = 0;
          request = request text inputs (substring (min 100 250) "page");
        }
          ∷ [])
    × (min 100 250 ≤ 100)
press_key_test =
    press_key-click_add text inputs controls "page" quiet (strings_differ "page" "" refl)
      quiet-IsCoherent

-- The mouse was let go outside of the window: one of the two bars stays.
drag_test :
    (drag_up 1000 600 (
      drag_down (
        drag_down (record {
          resizing = false;
          ghostbars = 0;
          exposition_width = 350;
          canvas_right = 350;
        })))).ghostbars
    ≡ 1
unfolding drag_up drag_down
drag_test = refl
