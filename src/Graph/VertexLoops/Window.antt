-- ===== src/Graph/VertexLoops/Window.antt =====
-- Vertices with distinct sequence numbers in a window of `n` numbers are at most `n`.
use dyn_dco.Base.{
  ℕ, zero, suc, ◌+◌, ◌≤◌, ◌<◌, ◌≡◌, ◌≢◌, refl, List, [], ◌∷◌, arith, keep_if, keep_if-holds,
  All-keep_if, Bool, Bool-cases, inl, inr, length, All, All-mono, ltb,
}
use dyn_dco.Graph.Types.{Vertex}
use dyn_dco.Graph.VertexLoops.Fresh.{DistinctSeqs}

module _ {N : Type 0} where
  abbrev up_to : ℕ → List (Vertex N) → List (Vertex N)
  up_to m = keep_if (λ v. ltb v.seq m)

  length-up_to :
      (m : ℕ) (vs : List (Vertex N)) → All (λ v. v.seq < m) vs → length (up_to m vs) ≡ length vs
  length-up_to m [] h = refl
  length-up_to m (v ∷ vs) h = ground (arith, length-up_to m vs h.1)

  length-le-up_to :
      (m : ℕ) (vs : List (Vertex N))
      → DistinctSeqs vs
      → All (λ v. v.seq < suc m) vs
      → length vs ≤ suc (length (up_to m vs))
  length-le-up_to m [] u h = omega arith
  length-le-up_to m (v ∷ vs) u h = ground (arith, length-le-up_to m vs u.1 h.1, rest)
    where
      rest : v.seq ≡ m → length (up_to m vs) ≡ length vs
      rest e = length-up_to m vs (both vs u.0 h.1)
        where
          both :
              (ws : List (Vertex N))
              → All (λ w. w.seq ≢ v.seq) ws
              → All (λ w. w.seq < suc m) ws
              → All (λ w. w.seq < m) ws
          both [] a b = tt
          both (w ∷ ws) a b = (omega arith, both ws a.1 b.1)

  pub DistinctSeqs-keep_if :
      (p : Vertex N → Bool) (vs : List (Vertex N)) → DistinctSeqs vs → DistinctSeqs (keep_if p vs)
  DistinctSeqs-keep_if p [] u = tt
  DistinctSeqs-keep_if p (v ∷ vs) u = elim (Bool-cases (p v)) [
    | inl e ↦ rw e (All-keep_if _ p vs u.0, DistinctSeqs-keep_if p vs u.1)
    | inr e ↦ rw e (DistinctSeqs-keep_if p vs u.1)
  ]

  -- Distinct numbers in a window of `n` numbers are at most `n`.
  pub length-le_window :
      (n low : ℕ) (vs : List (Vertex N))
      → DistinctSeqs vs
      → All (λ v. low ≤ v.seq) vs
      → All (λ v. v.seq < low + n) vs
      → length vs ≤ n
  length-le_window zero low [] u above below = omega arith
  length-le_window zero low (v ∷ vs) u above below = absurd (omega arith)
  length-le_window (suc n) low vs u above below =
      let test : Vertex N → Bool = λ v. ltb v.seq (low + n) in
      let ih =
        length-le_window n low (up_to (low + n) vs) (DistinctSeqs-keep_if test vs u)
          (All-keep_if _ test vs above)
          (All-mono _ _ (λ v e. ground arith) (keep_if test vs) (keep_if-holds test vs)) in
      omega (arith, ih, length-le-up_to (low + n) vs u (All-mono _ _ (λ v e. omega arith) vs below))
