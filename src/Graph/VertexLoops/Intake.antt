-- ===== src/Graph/VertexLoops/Intake.antt =====
-- The loop of `onmessage` over the vertices of a message, within the limit and beyond it.
use dyn_dco.Base.{
  ℕ, zero, suc, ◌+◌, ◌≤◌, String, ◌≡◌, refl, none, List, [], ◌∷◌, ◌++◌, map, true, arith, contains,
  if◌then◌else◌, inl, inr, length, modify, Option-cases, Bool-cases, ltb,
}
use dyn_dco.Graph.Types.{Vertex, VertexData}
use dyn_dco.Graph.Index.{contains-append}
use dyn_dco.Graph.VertexLoops.{VertexLoop, ids, accept, visit, visit_all, new_vertex, refresh}

module _ {N : Type 0} where
  abbrev pub keys : List (String × VertexData N) → List String
  keys = map λ e. e.0

  pub ids-append : (vs : List (Vertex N)) (v : Vertex N) → ids (vs ++ v ∷ []) ≡ ids vs ++ v.id ∷ []
  ids-append [] v = refl
  ids-append (x ∷ vs) v = ground (arith, ids-append vs v)

  -- A refreshed vertex keeps its id.
  pub ids-modify :
      (i seq : ℕ) (d : VertexData N) (vs : List (Vertex N))
      → ids (modify i (refresh seq d) vs) ≡ ids vs
  ids-modify i seq d [] = refl
  ids-modify zero seq d (x ∷ vs) = refl
  ids-modify (suc i) seq d (x ∷ vs) = ground (arith, ids-modify i seq d vs)

  pub length-ids : (vs : List (Vertex N)) → length (ids vs) ≡ length vs
  length-ids [] = refl
  length-ids (x ∷ vs) = omega (arith, length-ids vs)

  pub visit_all-append :
      (max : ℕ) (l : VertexLoop N) (xs ys : List (String × VertexData N))
      → visit_all max l (xs ++ ys) ≡ visit_all max (visit_all max l xs) ys
  unfolding visit_all
  visit_all-append max l [] ys = refl
  visit_all-append max l (x ∷ xs) ys = visit_all-append max (visit max l x) xs ys

  -- Beyond the limit every entry loses its reference, and nothing else changes.
  pub record Beyond (l r : VertexLoop N) (es : List (String × VertexData N)) : Type 0 where
    pub same_vertices : r.vertices ≡ l.vertices
    pub same_sequence : r.sequence ≡ l.sequence
    pub lost : (k : String) → r.refs k ≡ (if contains (keys es) k then none else l.refs k)
    pub counted : r.too_many_vertices ≡ l.too_many_vertices + length es

  pub visit_all-Beyond :
      (max : ℕ) (l : VertexLoop N) (es : List (String × VertexData N))
      → max ≤ l.new_vertex_count
      → Beyond l (visit_all max l es) es
  unfolding visit_all visit
  visit_all-Beyond max l [] h = record {
    same_vertices = refl;
    same_sequence = refl;
    lost = λ k. refl;
    counted = omega arith;
  }
  visit_all-Beyond max l ((id, d) ∷ es) h =
      let next = visit max l (id, d) in
      let ih = visit_all-Beyond max next es (ground arith) in
      record {
        same_vertices = ground (arith, ih.same_vertices);
        same_sequence = ground (arith, ih.same_sequence);
        lost = λ k. ground (arith, ih.lost k);
        counted = ground (arith, ih.counted);
      }

  accept-grows :
      (l : VertexLoop N) (id : String) (d : VertexData N) (k : String)
      → contains (ids l.vertices) k ≡ true
      → contains (ids (accept l id d).vertices) k ≡ true
  unfolding accept
  accept-grows l id d k h = elim (Option-cases (l.refs id)) [
    | inl e ↦
        let v = new_vertex (suc l.sequence) id d in
        rw (e, accept, ids-append l.vertices v)
          (ground (arith, contains-append (ids l.vertices) id k))
    | inr (i, e) ↦ rw (e, accept, ids-modify i (suc l.sequence) d l.vertices) h
  ]

  visit-grows :
      (max : ℕ) (l : VertexLoop N) (e : String × VertexData N) (k : String)
      → contains (ids l.vertices) k ≡ true
      → contains (ids (visit max l e).vertices) k ≡ true
  unfolding visit
  visit-grows max l (id, d) k h = elim (Bool-cases (ltb max (suc l.new_vertex_count))) [
    | inl e ↦ rw e h
    | inr e ↦ rw e (accept-grows (record l { new_vertex_count = suc l.new_vertex_count }) id d k h)
  ]

  -- The loop removes no vertex.
  pub visit_all-grows :
      (max : ℕ) (l : VertexLoop N) (es : List (String × VertexData N)) (k : String)
      → contains (ids l.vertices) k ≡ true
      → contains (ids (visit_all max l es).vertices) k ≡ true
  unfolding visit_all
  visit_all-grows max l [] k h = h
  visit_all-grows max l (e ∷ es) k h =
      visit_all-grows max (visit max l e) es k (visit-grows max l e k h)
