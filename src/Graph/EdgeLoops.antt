-- ===== src/Graph/EdgeLoops.antt =====
-- The loops of graph-drawing.js over d3's edge array: the one of `onmessage` over `j.edges`, and the
-- second one of `removeVerticesFromCanvas` (src/main/resources/web-data/js/graph-drawing.js).
pub mod Closed
pub mod Complete
use Prim.Native.String.{◌++◌ as concat}
use dyn_dco.Base.{
  ℕ, suc, String, Option, none, some, List, [], ◌∷◌, ◌++◌, Bool, true, false, if◌then◌else◌, Table,
  update, length, contains,
}
use dyn_dco.Graph.Types.{Edge}
use dyn_dco.Graph.Compact.{compact}

-- The variables that the loop over `j.edges` changes.
pub record EdgeLoop : Type 0 where
  pub edges : List Edge
  pub refs : Table ℕ

abbrev pub edge_id : String → String → String
edge_id source target = concat source (concat "-" target)

unfoldable pub push_edge : EdgeLoop → String → String → EdgeLoop
push_edge l source target = record {
  edges = l.edges ++ record { id = edge_id source target; source = source; target = target } ∷ [];
  refs = update l.refs (edge_id source target) (some (length l.edges));
}

-- `v != undefined`
abbrev pub is_defined {ℓ} : {A : Type ℓ} → Option A → Bool
is_defined none = false
is_defined (some _) = true

unfoldable pub visit_edge : Table ℕ → EdgeLoop → String → String → EdgeLoop
unfolding push_edge
visit_edge vertex_refs l source target = elim (l.refs (edge_id source target)) [
  | none ↦
      if is_defined (vertex_refs source)
      then (if is_defined (vertex_refs target) then push_edge l source target else l)
      else l
  | some _ ↦ l
]

unfoldable pub visit_targets : Table ℕ → EdgeLoop → String → List String → EdgeLoop
visit_targets vertex_refs l source [] = l
visit_targets vertex_refs l source (target ∷ rest) =
    visit_targets vertex_refs (visit_edge vertex_refs l source target) source rest

unfoldable pub visit_edges : Table ℕ → EdgeLoop → List (String × List String) → EdgeLoop
visit_edges vertex_refs l [] = l
visit_edges vertex_refs l ((source, targets) ∷ rest) =
    visit_edges vertex_refs (visit_targets vertex_refs l source targets) rest

abbrev pub touches : List String → Edge → Bool
touches removed e = if contains removed e.source then true else contains removed e.target

-- The second loop of `removeVerticesFromCanvas`.
abbrev pub remove_edges : List String → List Edge → Table ℕ → List Edge × Table ℕ
remove_edges removed = compact (λ e. e.id) (touches removed) 0
