-- ===== src/Graph/Canvas/Circles.antt =====
-- What the circles of a well-formed canvas select, as a list and one by one
-- (src/main/resources/web-data/js/graph-drawing.js).
use dyn_dco.Base.{
  arith, ◌≡◌, refl, none, some, List, [], ◌∷◌, Bool, true, false, All, All-mono, All-zip,
  if◌then◌else◌, keep_if, contains, subst,
}
use dyn_dco.Graph.Types.{Vertex, Canvas}
use dyn_dco.Graph.VertexLoops.{ids}
use dyn_dco.Graph.Canvas.{circles_where, find_vertex}
use dyn_dco.Graph.Canvas.Invariant.{IsWellFormed}
use dyn_dco.Graph.Canvas.Selection.{find_vertex_self, contains-ids, contains-circles_where}

drawn_lem : {a b q : Bool} → a ≡ (if b then q else false) → b ≡ true → a ≡ q
drawn_lem e f = ground (arith, e, f)

module _ {N : Type 0} (p : Vertex N → Bool) where
  keep_if-ids :
      (all vs : List (Vertex N))
      → All (λ v. find_vertex v.id all ≡ some v) vs
      → keep_if (λ id. elim (find_vertex id all) [ none ↦ false | some v ↦ p v ]) (ids vs)
        ≡ ids (keep_if p vs)
  keep_if-ids all [] h = refl
  keep_if-ids all (v ∷ vs) h = ground (arith, h.0, keep_if-ids all vs h.1)

  -- The circles select the ids of the vertices that pass the test.
  pub circles_where_lem :
      (c : Canvas N) → IsWellFormed c → circles_where p c ≡ ids (keep_if p c.vertices)
  circles_where_lem c h =
      rw h.drawn (keep_if-ids c.vertices c.vertices (find_vertex_self c.vertices h.distinct))

  -- An id is among them if its vertex passes.
  pub contains-selected :
      (c : Canvas N)
      → IsWellFormed c
      → All (λ v. contains (ids (keep_if p c.vertices)) v.id ≡ p v) c.vertices
  contains-selected c h =
      subst (λ xs. All (λ v. contains xs v.id ≡ p v) c.vertices) (circles_where_lem c h)
        (All-mono _ _ (λ v h. drawn_lem h.0 h.1) c.vertices
          (All-zip _ (λ v. contains c.circles v.id ≡ true) c.vertices
            (contains-circles_where p c h.distinct) (rw h.drawn (contains-ids c.vertices))))
