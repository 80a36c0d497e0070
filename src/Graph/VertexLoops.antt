-- ===== src/Graph/VertexLoops.antt =====
-- The loops of graph-drawing.js over d3's vertex array: the one of `onmessage` over `j.vertices`, and
-- the first one of `removeVerticesFromCanvas` (src/main/resources/web-data/js/graph-drawing.js).
pub mod Window
pub mod Accepted
pub mod Fresh
pub mod Intake
use dyn_dco.Base.{
  ℕ, suc, String, none, some, List, [], ◌∷◌, ◌++◌, map, Bool, true, ltb, if◌then◌else◌, Table,
  update, length, modify, contains,
}
use dyn_dco.Graph.Types.{Vertex, VertexData, radius}
use dyn_dco.Graph.Compact.{compact}

-- The variables that the loop over `j.vertices` changes.
pub record VertexLoop (N : Type 0) : Type 0 where
  pub vertices : List (Vertex N)
  pub refs : Table ℕ
  pub sequence : ℕ
  pub new_vertex_count : ℕ
  pub too_many_vertices : ℕ
  pub new_vertices : Bool

module _ {N : Type 0} where
  abbrev pub ids : List (Vertex N) → List String
  ids = map λ v. v.id

  -- The vertex object that is pushed for an id that has no reference.
  abbrev pub new_vertex : ℕ → String → VertexData N → Vertex N
  new_vertex seq id d = record {
    id = id;
    state = d.s;
    seq = seq;
    es = d.es;
    ss = d.ss;
    cs = d.cs;
    info = d.info;
    r = radius d.s;
    t = d.t;
  }

  -- The assignments to a vertex object that is there already: all but `id` and `es`.
  abbrev pub refresh : ℕ → VertexData N → Vertex N → Vertex N
  refresh seq d v = record v {
    state = d.s;
    seq = seq;
    ss = d.ss;
    cs = d.cs;
    info = d.info;
    r = radius d.s;
    t = d.t;
  }

  -- One round for an entry within the limit.
  unfoldable pub accept : VertexLoop N → String → VertexData N → VertexLoop N
  accept l id d =
      let seq = suc l.sequence in
      elim (l.refs id) [
        | none ↦ record l {
          vertices = l.vertices ++ new_vertex seq id d ∷ [];
          refs = update l.refs id (some (length l.vertices));
          sequence = seq;
          new_vertices = true;
        }
        | some i ↦ record l { vertices = modify i (refresh seq d) l.vertices; sequence = seq }
      ]

  -- The body of `$.each(j.vertices, …)`.
  unfoldable pub visit : ℕ → VertexLoop N → String × VertexData N → VertexLoop N
  visit max l (id, d) =
      let count = suc l.new_vertex_count in
      if ltb max count
      then record l {
        refs = update l.refs id none;
        new_vertex_count = count;
        too_many_vertices = suc l.too_many_vertices;
      }
      else accept (record l { new_vertex_count = count }) id d

  unfoldable pub visit_all : ℕ → VertexLoop N → List (String × VertexData N) → VertexLoop N
  visit_all max l [] = l
  visit_all max l (e ∷ rest) = visit_all max (visit max l e) rest

  -- The first loop of `removeVerticesFromCanvas`.
  abbrev pub remove_vertices : List String → List (Vertex N) → Table ℕ → List (Vertex N) × Table ℕ
  remove_vertices removed = compact (λ v. v.id) (λ v. contains removed v.id) 0
