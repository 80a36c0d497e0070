-- ===== src/Graph/Status.antt =====
-- The text behind the graph: what is written into it when the server is not ready, and by the functions
-- that are given to `setTimeout` (src/main/resources/web-data/js/graph-drawing.js, graph.js).
pub mod Truthful
use dyn_dco.Base.{[], ◌∷◌, length}
use dyn_dco.Graph.Types.{Background, Canvas, canvas_empty, showing}

module _ {N : Type 0} where
  -- `notready` of the Graph module
  unfoldable pub notready : Canvas N → Canvas N
  notready c = record c { background = Background.not_ready }

  -- Two seconds after a message without vertices.
  unfoldable pub hide_no_match : Canvas N → Canvas N
  hide_no_match c = elim c.vertices [ [] ↦ record c { background = canvas_empty } | _ ∷ _ ↦ c ]

  -- Four seconds after a message with too many.
  unfoldable pub hide_too_many : Canvas N → Canvas N
  hide_too_many c = record c { background = showing (length c.vertices) }
