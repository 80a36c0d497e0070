-- ===== src/Graph/Canvas/Selection.antt =====
-- Which vertices the circles of the page select, and what the buttons that remove vertices leave.
use dyn_dco.Base.{
  String, ◌≡◌, refl, ◌∙◌, none, some, Option-cases, List, [], ◌∷◌, Bool, true, false, not, arith,
  All, All-mono, keep_if, keep_if-All, contains, inl, inr, if◌then◌else◌, leb, ltb,
}
use dyn_dco.Graph.Types.{Vertex, Edge, Canvas}
use dyn_dco.Graph.Index.{Distinct}
use dyn_dco.Graph.VertexLoops.{ids}
use dyn_dco.Graph.EdgeLoops.{touches}
use dyn_dco.Graph.Canvas.{
  endpoints, circles_where, find_vertex, remove_non_latest_vertices, remove_orphans,
}
use dyn_dco.Graph.Canvas.Invariant.{IsWellFormed, kept, vertices-remove, edges-remove}

contains-keep_if :
    (q : String → Bool) (xs : List String) (k : String)
    → contains (keep_if q xs) k ≡ (if contains xs k then q k else false)
contains-keep_if q [] k = refl
contains-keep_if q (x ∷ xs) k = ground (arith, contains-keep_if q xs k)

contains-endpoints :
    (es : List Edge)
    → All
        (λ e. (contains (endpoints es) e.source ≡ true) × (contains (endpoints es) e.target ≡ true))
        es
contains-endpoints [] = tt
contains-endpoints (e ∷ es) = (
  (ground arith, ground arith),
  All-mono _ _ (λ f h. (ground (arith, h.0), ground (arith, h.1))) es (contains-endpoints es),
)

module _ {N : Type 0} where
  find_vertex-id :
      (k : String) (vs : List (Vertex N)) {v : Vertex N} → find_vertex k vs ≡ some v → v.id ≡ k
  find_vertex-id k [] {v} h = cc
  find_vertex-id k (w ∷ vs) {v} h = ground (arith, find_vertex-id k vs {v = v})

  -- no circle of an endpoint is selected as an orphan
  endpoint-not-selected :
      (c : Canvas N) (k : String)
      → contains (endpoints c.edges) k ≡ true
      → contains (circles_where (λ v. not (contains (endpoints c.edges) v.id)) c) k ≡ false
  endpoint-not-selected c k h = elim (Option-cases (find_vertex k c.vertices)) [
    | inl e ↦ ground (arith, selected)
    | inr (v, e) ↦ ground (arith, selected, find_vertex-id k c.vertices e)
  ]
    where
      selected : contains (circles_where (λ v. not (contains (endpoints c.edges) v.id)) c) k ≡ (
          if contains c.circles k
          then elim (find_vertex k c.vertices) [
            | none ↦ false
            | some v ↦ not (contains (endpoints c.edges) v.id)
          ]
          else false)
      selected = contains-keep_if _ c.circles k

  keep_if-congr :
      (p q : Vertex N → Bool) (vs : List (Vertex N))
      → All (λ v. p v ≡ q v) vs
      → keep_if p vs ≡ keep_if q vs
  keep_if-congr p q [] h = refl
  keep_if-congr p q (v ∷ vs) h = ground (arith, h.0, keep_if-congr p q vs h.1)

  pub contains-ids : (vs : List (Vertex N)) → All (λ v. contains (ids vs) v.id ≡ true) vs
  contains-ids [] = tt
  contains-ids (v ∷ vs) = (ground arith, All-mono _ _ (λ w h. ground arith) vs (contains-ids vs))

  -- With distinct ids a vertex is found by its id.
  pub find_vertex_self :
      (vs : List (Vertex N)) → Distinct (ids vs) → All (λ v. find_vertex v.id vs ≡ some v) vs
  find_vertex_self [] d = tt
  find_vertex_self (v ∷ vs) d = (ground arith, both vs (contains-ids vs) (find_vertex_self vs d.1))
    where
      both :
          (ws : List (Vertex N))
          → All (λ w. contains (ids vs) w.id ≡ true) ws
          → All (λ w. find_vertex w.id vs ≡ some w) ws
          → All (λ w. find_vertex w.id (v ∷ vs) ≡ some w) ws
      both [] a b = tt
      both (w ∷ ws) a b = (ground arith, both ws a.1 b.1)

  pub contains-circles_where :
      (p : Vertex N → Bool) (c : Canvas N)
      → Distinct (ids c.vertices)
      → All
          (λ v.
            contains (circles_where p c) v.id ≡ (if contains c.circles v.id then p v else false))
          c.vertices
  contains-circles_where p c d =
      All-mono _ _
        (λ v e. ground (
          arith,
          contains-keep_if (λ id. elim (find_vertex id c.vertices) [ none ↦ false | some w ↦ p w ])
              c.circles v.id,
        ))
        c.vertices (find_vertex_self c.vertices d)

  -- On a well-formed canvas the circles select by the test alone.
  kept-circles_where :
      (p : Vertex N → Bool) (c : Canvas N)
      → IsWellFormed c
      → kept (circles_where p c) c.vertices ≡ keep_if (λ v. not (p v)) c.vertices
  kept-circles_where p c h = keep_if-congr _ _ c.vertices (
      both c.vertices (contains-circles_where p c h.distinct)
        (rw h.drawn (contains-ids c.vertices)))
    where
      both :
          (ws : List (Vertex N))
          → All
              (λ w.
                contains (circles_where p c) w.id
                ≡ (if contains c.circles w.id then p w else false))
              ws
          → All (λ w. contains c.circles w.id ≡ true) ws
          → All (λ w. not (contains (circles_where p c) w.id) ≡ not (p w)) ws
      both [] a b = tt
      both (w ∷ ws) a b = (ground (arith, a.0, b.0), both ws a.1 b.1)

  -- removing what is not of the latest query leaves exactly the vertices of it
  pub remove_non_latest_lem :
      (c : Canvas N)
      → IsWellFormed c
      → (remove_non_latest_vertices c).vertices
        ≡ keep_if (λ v. ltb c.vertex_sequence_end v.seq) c.vertices
  unfolding remove_non_latest_vertices
  remove_non_latest_lem c h =
      vertices-remove _ c
      ∙ kept-circles_where _ c h
      ∙ keep_if-congr _ _ c.vertices (everywhere c.vertices)
    where
      everywhere :
          (ws : List (Vertex N))
          → All (λ w. not (leb w.seq c.vertex_sequence_end) ≡ ltb c.vertex_sequence_end w.seq) ws
      everywhere [] = tt
      everywhere (w ∷ ws) = (ground arith, everywhere ws)

  -- The orphans are the vertices that no edge ends at; the edges stay.
  pub remove_orphans_lem :
      (c : Canvas N)
      → IsWellFormed c
      → ((remove_orphans c).vertices ≡ keep_if (λ v. contains (endpoints c.edges) v.id) c.vertices)
        × ((remove_orphans c).edges ≡ c.edges)
  unfolding remove_orphans
  remove_orphans_lem c h = (
    vertices-remove _ c
        ∙ kept-circles_where _ c h
        ∙ keep_if-congr _ _ c.vertices (everywhere c.vertices),
    edges-remove _ c
        ∙ keep_if-All (λ e. not (touches (circles_where unused c) e)) c.edges
            (All-mono _ _
              (λ e t.
                ground (
                  arith,
                  endpoint-not-selected c e.source t.0,
                  endpoint-not-selected c e.target t.1,
                ))
              c.edges (contains-endpoints c.edges)),
  )
    where
      unused : Vertex N → Bool
      unused v = not (contains (endpoints c.edges) v.id)

      everywhere :
          (ws : List (Vertex N))
          → All
              (λ w.
                not (not (contains (endpoints c.edges) w.id)) ≡ contains (endpoints c.edges) w.id)
              ws
      everywhere [] = tt
      everywhere (w ∷ ws) = (ground arith, everywhere ws)
