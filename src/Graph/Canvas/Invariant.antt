-- ===== src/Graph/Canvas/Invariant.antt =====
-- The invariant of the canvas, and removal.
use dyn_dco.Base.{
  ℕ, ◌≤◌, String, ◌≡◌, refl, none, List, [], ◌∷◌, true, false, not, arith, Table, All, All-keep_if,
  contains, Bool-cases, inl, inr,
}
use dyn_dco.Graph.Types.{Vertex, Edge, Canvas}
use dyn_dco.Graph.Index.{IsIndex, Distinct, position-absent}
use dyn_dco.Graph.Compact.{staying, compact-staying, Distinct-staying, compact-IsIndex}
use dyn_dco.Graph.VertexLoops.{ids}
use dyn_dco.Graph.VertexLoops.Fresh.{DistinctSeqs}
use dyn_dco.Graph.VertexLoops.Window.{DistinctSeqs-keep_if}
use dyn_dco.Graph.EdgeLoops.{touches, remove_edges}
use dyn_dco.Graph.EdgeLoops.Closed.{edge_ids, Joins, EdgesOk}
use dyn_dco.Graph.Canvas.{remove_vertices_from_canvas}

-- The lookup tables index the arrays, no id and no sequence number stands twice, every edge has its
-- two vertices, and there is a circle for each vertex.
pub record IsWellFormed {N : Type 0} (c : Canvas N) : Type 0 where
  pub distinct : Distinct (ids c.vertices)
  pub index : IsIndex c.vertex_refs (ids c.vertices)
  pub bounded : All (λ v. v.seq ≤ c.vertex_sequence) c.vertices
  pub distinct_seqs : DistinctSeqs c.vertices
  pub edges_ok : EdgesOk (ids c.vertices) c.edges c.edge_refs
  pub drawn : c.circles ≡ ids c.vertices

pub IsIndex-absent :
    (refs : Table ℕ) (xs : List String)
    → IsIndex refs xs
    → (k : String) → contains xs k ≡ false
    → refs k ≡ none
IsIndex-absent refs xs ix k h = ground (arith, ix k, position-absent 0 k xs)

abbrev pub kept_edges : List String → List Edge → List Edge
kept_edges removed = staying (λ e. e.id) (touches removed)

module _ {N : Type 0} where
  abbrev pub kept : List String → List (Vertex N) → List (Vertex N)
  kept removed = staying (λ v. v.id) (λ v. contains removed v.id)

  -- An id that is not removed stays.
  contains-kept :
      (removed : List String) (vs : List (Vertex N)) (k : String)
      → contains (ids vs) k ≡ true
      → contains removed k ≡ false
      → contains (ids (kept removed vs)) k ≡ true
  contains-kept removed [] k h g = cc
  contains-kept removed (v ∷ vs) k h g = ground (arith, contains-kept removed vs k)

  Joins-kept :
      (removed : List String) (vs : List (Vertex N)) (e : Edge)
      → not (touches removed e) ≡ true
      → Joins (ids vs) e
      → Joins (ids (kept removed vs)) e
  Joins-kept removed vs e g j = record {
    named = j.named;
    from = contains-kept removed vs e.source j.from (ground arith);
    to = contains-kept removed vs e.target j.to (ground arith);
  }

  All-Joins-kept :
      (removed : List String) (vs : List (Vertex N)) (es : List Edge)
      → All (Joins (ids vs)) es
      → All (Joins (ids (kept removed vs))) (kept_edges removed es)
  All-Joins-kept removed vs [] h = tt
  All-Joins-kept removed vs (e ∷ es) h = elim (Bool-cases (not (touches removed e))) [
    | inl g ↦ rw g (Joins-kept removed vs e g h.0, All-Joins-kept removed vs es h.1)
    | inr g ↦ rw g (All-Joins-kept removed vs es h.1)
  ]

  -- What is needed of a canvas whose lookup table may have lost entries, and whose circles may be
  -- behind its vertices.
  pub record IsRemovable (c : Canvas N) : Type 0 where
    pub distinct : Distinct (ids c.vertices)
    pub absent : (k : String) → contains (ids c.vertices) k ≡ false → c.vertex_refs k ≡ none
    pub bounded : All (λ v. v.seq ≤ c.vertex_sequence) c.vertices
    pub distinct_seqs : DistinctSeqs c.vertices
    pub edges_ok : EdgesOk (ids c.vertices) c.edges c.edge_refs

  pub IsRemovable-of : {c : Canvas N} → IsWellFormed c → IsRemovable c
  IsRemovable-of {c} h = record {
    distinct = h.distinct;
    absent = IsIndex-absent c.vertex_refs (ids c.vertices) h.index;
    bounded = h.bounded;
    distinct_seqs = h.distinct_seqs;
    edges_ok = h.edges_ok;
  }

  pub vertices-remove :
      (removed : List String) (c : Canvas N)
      → (remove_vertices_from_canvas removed c).vertices ≡ kept removed c.vertices
  unfolding remove_vertices_from_canvas
  vertices-remove removed c = compact-staying _ _ 0 c.vertices c.vertex_refs

  pub edges-remove :
      (removed : List String) (c : Canvas N)
      → (remove_vertices_from_canvas removed c).edges ≡ kept_edges removed c.edges
  unfolding remove_vertices_from_canvas
  edges-remove removed c = compact-staying _ _ 0 c.edges c.edge_refs

  edges-remove-EdgesOk :
      (removed : List String) (c : Canvas N)
      → IsRemovable c
      → EdgesOk
          (ids (kept removed c.vertices))
          (kept_edges removed c.edges)
          (remove_edges removed c.edges c.edge_refs).1
  edges-remove-EdgesOk removed c h = record {
    joined = All-Joins-kept removed c.vertices c.edges h.edges_ok.joined;
    distinct = Distinct-staying _ _ c.edges h.edges_ok.distinct;
    index =
        compact-IsIndex _ _ c.edges c.edge_refs h.edges_ok.distinct
          (IsIndex-absent c.edge_refs (edge_ids c.edges) h.edges_ok.index);
  }

  -- A canvas with distinct ids, whose lookup table has no entry for an id that is not there, is
  -- well-formed after any removal: both tables are reindexed, and edges of removed vertices go.
  pub remove-IsWellFormed :
      (removed : List String) (c : Canvas N)
      → IsRemovable c
      → IsWellFormed (remove_vertices_from_canvas removed c)
  unfolding remove_vertices_from_canvas
  remove-IsWellFormed removed c h = record {
    distinct =
        rw (compact-staying _ _ 0 c.vertices c.vertex_refs)
          (Distinct-staying (λ (v : Vertex N). v.id) _ c.vertices h.distinct);
    index =
        rw (compact-staying _ _ 0 c.vertices c.vertex_refs)
          (compact-IsIndex _ _ c.vertices c.vertex_refs h.distinct h.absent);
    bounded =
        rw (compact-staying _ _ 0 c.vertices c.vertex_refs) (All-keep_if _ _ c.vertices h.bounded);
    distinct_seqs =
        rw (compact-staying _ _ 0 c.vertices c.vertex_refs)
          (DistinctSeqs-keep_if _ c.vertices h.distinct_seqs);
    edges_ok =
        rw
          (
            compact-staying _ _ 0 c.vertices c.vertex_refs,
            compact-staying _ _ 0 c.edges c.edge_refs,
          )
          (edges-remove-EdgesOk removed c h);
    drawn = refl;
  }
