-- ===== src/Graph/VertexLoops/Fresh.antt =====
-- The loop of `onmessage` over the vertices of a message, within the limit: what holds of the
-- vertices after each entry, from a canvas whose sequence number was `start`.
use dyn_dco.Base.{
  ℕ, zero, suc, ◌+◌, ◌≤◌, ◌<◌, String, ◌≡◌, ◌≢◌, some, List, [], ◌∷◌, ◌++◌, arith, if◌then◌else◌,
  modify, All, All-append, All-mono, leb,
}
use dyn_dco.Graph.Types.{Vertex, VertexData}
use dyn_dco.Graph.Index.{position_from, position-head, position-tail}
use dyn_dco.Graph.VertexLoops.{ids, refresh}

module _ {N : Type 0} where
  -- The vertices whose number is not above `start`.
  abbrev pub count_old : ℕ → List (Vertex N) → ℕ
  count_old start [] = 0
  count_old start (v ∷ vs) =
      let rest = count_old start vs in if leb v.seq start then suc rest else rest

  abbrev pub DistinctSeqs : List (Vertex N) → Type 0
  DistinctSeqs [] = Unit {0}
  DistinctSeqs (v ∷ vs) = All (λ w. w.seq ≢ v.seq) vs × DistinctSeqs vs

  pub All-modify :
      (P : Vertex N → Type 0) (j i seq : ℕ) (k : String) (d : VertexData N) (vs : List (Vertex N))
      → All P vs
      → ((v : Vertex N) → v.id ≡ k → P (refresh seq d v))
      → position_from j k (ids vs) ≡ some (j + i)
      → All P (modify i (refresh seq d) vs)
  All-modify P j i seq k d [] h f e = tt
  All-modify P j zero seq k d (v ∷ vs) h f e = (f v (position-head j k v.id (ids vs) e), h.1)
  All-modify P j (suc i) seq k d (v ∷ vs) h f e =
      (h.0, All-modify P (suc j) i seq k d vs h.1 f (position-tail j i k v.id (ids vs) e).1)

  -- Refreshing an old vertex leaves one old vertex less.
  pub count_old-modify :
      (start j i seq : ℕ) (k : String) (d : VertexData N) (vs : List (Vertex N))
      → start < seq
      → All (λ v. v.id ≡ k → v.seq ≤ start) vs
      → position_from j k (ids vs) ≡ some (j + i)
      → suc (count_old start (modify i (refresh seq d) vs)) ≡ count_old start vs
  count_old-modify start j i seq k d [] lt h e = cc
  count_old-modify start j zero seq k d (v ∷ vs) lt h e =
      ground (arith, h.0 (position-head j k v.id (ids vs) e))
  count_old-modify start j (suc i) seq k d (v ∷ vs) lt h e = ground (
    arith,
    count_old-modify start (suc j) i seq k d vs lt h.1 (position-tail j i k v.id (ids vs) e).1,
  )

  pub count_old-append :
      (start : ℕ) (vs : List (Vertex N)) (v : Vertex N)
      → start < v.seq
      → count_old start (vs ++ v ∷ []) ≡ count_old start vs
  count_old-append start [] v h = ground arith
  count_old-append start (x ∷ vs) v h = ground (arith, count_old-append start vs v)

  pub All-seq-modify :
      (P : ℕ → Type 0) (i seq : ℕ) (d : VertexData N) (vs : List (Vertex N))
      → P seq
      → All (λ v. P v.seq) vs
      → All (λ v. P v.seq) (modify i (refresh seq d) vs)
  All-seq-modify P i seq d [] p h = tt
  All-seq-modify P zero seq d (v ∷ vs) p h = (p, h.1)
  All-seq-modify P (suc i) seq d (v ∷ vs) p h = (h.0, All-seq-modify P i seq d vs p h.1)

  pub DistinctSeqs-modify :
      (i seq : ℕ) (d : VertexData N) (vs : List (Vertex N))
      → All (λ v. v.seq < seq) vs
      → DistinctSeqs vs
      → DistinctSeqs (modify i (refresh seq d) vs)
  DistinctSeqs-modify i seq d [] h u = tt
  DistinctSeqs-modify zero seq d (v ∷ vs) h u = (All-mono _ _ (λ w lt. omega arith) vs h.1, u.1)
  DistinctSeqs-modify (suc i) seq d (v ∷ vs) h u = (
    All-seq-modify (λ s. s ≢ v.seq) i seq d vs (omega arith) u.0,
    DistinctSeqs-modify i seq d vs h.1 u.1,
  )

  pub DistinctSeqs-append :
      (vs : List (Vertex N)) (v : Vertex N)
      → All (λ w. w.seq < v.seq) vs
      → DistinctSeqs vs
      → DistinctSeqs (vs ++ v ∷ [])
  DistinctSeqs-append [] v h u = (tt, tt)
  DistinctSeqs-append (x ∷ vs) v h u =
      (All-append _ vs (v ∷ []) u.0 (omega arith), DistinctSeqs-append vs v h.1 u.1)
