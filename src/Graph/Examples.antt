-- ===== src/Graph/Examples.antt =====
-- Small canvases, the messages for them, and what the theorems say of them
-- (src/main/resources/web-data/js/graph-drawing.js).
use dyn_dco.Base.{
  ℕ, String, ◌≡◌, refl, sym, none, some, List, [], ◌∷◌, ◌≤◌, true, ltb, arith, no_entries, length,
  keep_if, contains, Table, string_discrete,
}
use dyn_dco.Graph.Types.{
  Vertex, VertexData, GraphMessage, Radius, Background, Options, Numbers, Canvas,
}
use dyn_dco.Graph.Index.{position_from}
use dyn_dco.Graph.Compact.{compact}
use dyn_dco.Graph.Compact.Loop.{remove_loop, remove_loop-compact}
use dyn_dco.Graph.VertexLoops.{ids, visit_all, visit, accept}
use dyn_dco.Graph.EdgeLoops.{EdgeLoop, visit_edge, visit_targets, visit_edges}
use dyn_dco.Graph.Canvas.{
  endpoints, overflowing_vertices, remove_vertices_from_canvas, remove_orphans, on_close,
}
use dyn_dco.Graph.Canvas.Invariant.{IsWellFormed}
use dyn_dco.Graph.Canvas.Selection.{remove_orphans_lem}
use dyn_dco.Graph.Message.{graph, on_message}
use dyn_dco.Graph.Message.Handled.{IsKeyed, length-on_message}
use dyn_dco.Graph.Session.{Step, Reach, Reach-IsWellFormed}
use dyn_dco.Graph.Status.{hide_too_many}
use dyn_dco.Graph.Status.Truthful as Truthful
use dyn_dco.Graph.Status.Truthful.{IsTruthful, Reach-IsTruthful}

abbrev pub counts : Numbers
counts = record { Num = ℕ; gtb = λ a b. ltb b a; parse_float = λ s. 0; median = λ rs. 1 }

abbrev pub vertex : String → ℕ → Vertex ℕ
vertex id seq = record {
  id = id;
  state = "1";
  seq = seq;
  es = 0;
  ss = 0;
  cs = 0;
  info = "";
  r = Radius.text "1";
  t = "V";
}

abbrev pub entry : VertexData ℕ
entry = record { s = "7"; es = 0; ss = 0; cs = 0; info = ""; t = "V" }

-- Three vertices, of which `a` and `b` are older than the last message, and the edge from `a` to `c`.
abbrev pub three : Canvas ℕ
three = record {
  vertices = vertex "a" 1 ∷ vertex "b" 2 ∷ vertex "c" 3 ∷ [];
  edges = record { id = "a-c"; source = "a"; target = "c" } ∷ [];
  vertex_refs = λ k. position_from 0 k ("a" ∷ "b" ∷ "c" ∷ []);
  edge_refs = λ k. position_from 0 k ("a-c" ∷ []);
  vertex_sequence = 3;
  vertex_sequence_end = 2;
  circles = "a" ∷ "b" ∷ "c" ∷ [];
  stored = "a" ∷ "b" ∷ "c" ∷ [];
  gradient_domain = none;
  signal_threshold = 0;
  collect_threshold = 0;
  background = Background.loading;
  exposed_vertex_id = none;
}

pub three-IsWellFormed : IsWellFormed three
unfolding string_discrete
three-IsWellFormed = record {
  distinct = (refl, (refl, (refl, tt)));
  index = λ k. refl;
  bounded = (omega arith, (omega arith, (omega arith, tt)));
  distinct_seqs =
      (((λ e. omega arith), ((λ e. omega arith), tt)), (((λ e. omega arith), tt), (tt, tt)));
  edges_ok = record {
    joined = (record { named = refl; from = refl; to = refl }, tt);
    distinct = (refl, tt);
    index = λ k. refl;
  };
  drawn = refl;
}

-- The message has a new vertex and an old one, and two edges.
abbrev pub message : GraphMessage ℕ
message = record {
  vertices = some (("d", entry) ∷ ("b", entry) ∷ []);
  edges = some (("d", "b" ∷ "x" ∷ []) ∷ []);
  lowest_state = "0";
  highest_state = "9";
}

abbrev pub options : Options
options = record { max_vertex_count = 3; auto_refresh = true; refresh_rate = some 5 }

message-IsKeyed : IsKeyed counts (graph message)
unfolding string_discrete
message-IsKeyed vs e = rw (sym (some_inj e)) (refl, (refl, tt))
  where
    some_inj : {xs ys : List (String × VertexData ℕ)} → some xs ≡ some ys → xs ≡ ys
    some_inj e = cc

-- the oldest vertex makes room
on_message_test :
    ids (on_message counts options (graph message) three).0.vertices ≡ "b" ∷ "c" ∷ "d" ∷ []
unfolding string_discrete on_message overflowing_vertices remove_vertices_from_canvas visit_all
    visit accept visit_edges visit_targets visit_edge compact
on_message_test = refl

-- the edge to a vertex that is not there is left out
on_message_edges_test :
    (on_message counts options (graph message) three).0.edges
    ≡ record { id = "d-b"; source = "d"; target = "b" } ∷ []
unfolding string_discrete on_message overflowing_vertices remove_vertices_from_canvas visit_all
    visit accept visit_edges visit_targets visit_edge compact
on_message_edges_test = refl

Reach-IsWellFormed_example :
    IsWellFormed (on_close (on_message counts options (graph message) three).0)
Reach-IsWellFormed_example = Reach-IsWellFormed counts three-IsWellFormed (
    Reach.next (Reach.next Reach.here (Step.receive three options (graph message) message-IsKeyed))
      (Step.close (on_message counts options (graph message) three).0))

length-on_message_example : length (on_message counts options (graph message) three).0.vertices ≤ 3
length-on_message_example =
    length-on_message counts options message (("d", entry) ∷ ("b", entry) ∷ []) three
      three-IsWellFormed message-IsKeyed refl

remove_orphans_lem_example :
    ((remove_orphans three).vertices
      ≡ keep_if (λ v. contains (endpoints three.edges) v.id) three.vertices)
    × ((remove_orphans three).edges ≡ three.edges)
remove_orphans_lem_example = remove_orphans_lem three three-IsWellFormed

abbrev no_edges : EdgeLoop
no_edges = record { edges = []; refs = no_entries }

abbrev known : Table ℕ
known k = some 0

remove_loop-compact_example :
    remove_loop (λ id. id) (contains ("a" ∷ "b" ∷ [])) 3 0 ("a" ∷ "b" ∷ "c" ∷ []) known
    ≡ some (compact (λ id. id) (contains ("a" ∷ "b" ∷ [])) 0 ("a" ∷ "b" ∷ "c" ∷ []) known)
remove_loop-compact_example =
    remove_loop-compact (λ id. id) (contains ("a" ∷ "b" ∷ [])) ("a" ∷ "b" ∷ "c" ∷ []) known 3
      (omega arith)

-- "b" and "c" are removed, and then the text of a message with too many vertices gives way.
Reach-IsTruthful_example :
    IsTruthful (hide_too_many (remove_vertices_from_canvas ("b" ∷ "c" ∷ []) three))
Reach-IsTruthful_example =
    Reach-IsTruthful counts three-IsWellFormed (record { says = tt; kept = omega arith })
      (Truthful.Reach.next
        (Truthful.Reach.next Truthful.Reach.here
          (Truthful.Step.live (Step.remove three ("b" ∷ "c" ∷ []))))
        (Truthful.Step.too_many_over (remove_vertices_from_canvas ("b" ∷ "c" ∷ []) three)))
