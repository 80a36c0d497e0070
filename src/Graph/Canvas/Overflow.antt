-- ===== src/Graph/Canvas/Overflow.antt =====
-- The vertex limit: what `getOverflowingVertices` selects leaves no more vertices than the limit.
use dyn_dco.Base.{
  ℕ, ◌≤◌, ◌+◌, ◌-◌, ◌≡◌, refl, List, [], ◌∷◌, true, false, arith, length, All, All-mono,
  All-keep_if, contains, Bool-cases, inl, inr, if◌then◌else◌, ltb, ap,
}
use dyn_dco.Graph.Types.{Vertex, Canvas}
use dyn_dco.Graph.Index.{Distinct}
use dyn_dco.Graph.VertexLoops.{ids}
use dyn_dco.Graph.VertexLoops.Fresh.{DistinctSeqs}
use dyn_dco.Graph.VertexLoops.Window.{length-le_window, DistinctSeqs-keep_if}
use dyn_dco.Graph.Canvas.{circles_where, overflowing_vertices, remove_overflowing_vertices}
use dyn_dco.Graph.Canvas.Invariant.{IsWellFormed, kept, vertices-remove}
use dyn_dco.Graph.Canvas.Selection.{contains-circles_where, contains-ids}

-- A canvas in the middle of a message: what was there at sequence number `start` has a circle, and
-- at most `max` vertices came or were refreshed since.
pub record IsTaken {N : Type 0} (start max : ℕ) (c : Canvas N) : Type 0 where
  pub distinct : Distinct (ids c.vertices)
  pub bounded : All (λ v. v.seq ≤ c.vertex_sequence) c.vertices
  pub distinct_seqs : DistinctSeqs c.vertices
  pub drawn : All (λ v. v.seq ≤ start → contains c.circles v.id ≡ true) c.vertices
  pub few : c.vertex_sequence ≤ start + max

module _ {N : Type 0} where
  pub kept-nil : (vs : List (Vertex N)) → kept [] vs ≡ vs
  kept-nil [] = refl
  kept-nil (v ∷ vs) = ap (v ∷◌) (kept-nil vs)

  -- the numbers of the vertices that stay
  kept-recent :
      (start max : ℕ) (c : Canvas N)
      → IsTaken start max c
      → All
          (λ v. c.vertex_sequence + 1 - max ≤ v.seq)
          (kept (circles_where (λ v. ltb v.seq (c.vertex_sequence + 1 - max)) c) c.vertices)
  kept-recent start max c h = both c.vertices h.drawn (contains-circles_where _ c h.distinct)
    where
      both :
          (ws : List (Vertex N))
          → All (λ v. v.seq ≤ start → contains c.circles v.id ≡ true) ws
          → All
              (λ v.
                contains (circles_where (λ w. ltb w.seq (c.vertex_sequence + 1 - max)) c) v.id ≡ (
                  if contains c.circles v.id
                  then ltb v.seq (c.vertex_sequence + 1 - max)
                  else false))
              ws
          → All
              (λ v. c.vertex_sequence + 1 - max ≤ v.seq)
              (kept (circles_where (λ w. ltb w.seq (c.vertex_sequence + 1 - max)) c) ws)
      both [] a b = tt
      both (v ∷ vs) a b =
          elim (Bool-cases
            (contains (circles_where (λ w. ltb w.seq (c.vertex_sequence + 1 - max)) c) v.id)) [
              | inl e ↦ rw e (both vs a.1 b.1)
              | inr e ↦ rw e (ground (arith, h.few, a.0, b.0, e), both vs a.1 b.1)
            ]

  pub overflow_bound :
      (start max : ℕ) (c : Canvas N)
      → IsTaken start max c
      → length (kept (overflowing_vertices max c) c.vertices) ≤ max
  unfolding overflowing_vertices
  overflow_bound start max c h = elim (Bool-cases (ltb max (length c.vertices))) [
    | inr e ↦ rw (e, kept-nil c.vertices) (ground arith)
    | inl e ↦ rw e (
        length-le_window max (c.vertex_sequence + 1 - max) _
          (DistinctSeqs-keep_if _ c.vertices h.distinct_seqs) (kept-recent start max c h)
          (All-keep_if _ _ c.vertices (All-mono _ _ (λ v b. omega arith) c.vertices h.bounded)))
  ]

  IsTaken-of : (max : ℕ) (c : Canvas N) → IsWellFormed c → IsTaken c.vertex_sequence max c
  IsTaken-of max c h = record {
    distinct = h.distinct;
    bounded = h.bounded;
    distinct_seqs = h.distinct_seqs;
    drawn = rw h.drawn (All-mono _ _ (λ v e le. e) c.vertices (contains-ids c.vertices));
    few = omega arith;
  }

  -- After a change of the limit the canvas holds no more vertices than the new one.
  pub length-remove_overflowing :
      (max : ℕ) (c : Canvas N)
      → IsWellFormed c
      → length (remove_overflowing_vertices max c).vertices ≤ max
  unfolding remove_overflowing_vertices
  length-remove_overflowing max c h =
      rw (vertices-remove (overflowing_vertices max c) c)
        (overflow_bound c.vertex_sequence max c (IsTaken-of max c h))
