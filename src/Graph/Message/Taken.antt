-- ===== src/Graph/Message/Taken.antt =====
-- The canvas after the loop over the vertices of a message.
use dyn_dco.Base.{
  ℕ, ◌≤◌, ◌<◌, ◌+◌, ◌-◌, String, ◌≡◌, refl, sym, ◌∙◌, none, List, [], ◌∷◌, ◌++◌, Bool, true, false,
  arith, length, All, All-mono, take, drop, take-append-drop, length-take, contains, Bool-cases,
  inl, inr, if◌then◌else◌, ltb, ap, dec_lt, dec_le,
}
use dyn_dco.Graph.Types.{Vertex, VertexData, Canvas}
use dyn_dco.Graph.Index.{IsIndex, Distinct, position-absent}
use dyn_dco.Graph.VertexLoops.{VertexLoop, ids, visit_all}
use dyn_dco.Graph.VertexLoops.Intake.{keys, Beyond, visit_all-append, visit_all-Beyond}
use dyn_dco.Graph.VertexLoops.Fresh.{count_old}
use dyn_dco.Graph.VertexLoops.Accepted.{Accepted, all_seen, visit_all-Accepted, contains-all_seen}
use dyn_dco.Graph.Canvas.{circles_where, overflowing_vertices}
use dyn_dco.Graph.Canvas.Invariant.{IsWellFormed, IsIndex-absent}
use dyn_dco.Graph.Canvas.Selection.{contains-circles_where, contains-ids}
use dyn_dco.Graph.Canvas.Overflow.{IsTaken}
use dyn_dco.Graph.Message.{loop_of, take_vertices}

-- What the rest of the handler needs to know of it.
pub record TakenOk {N : Type 0} (start max : ℕ) (c : Canvas N) : Type 0 where
  pub taken : IsTaken start max c
  pub absent : (k : String) → contains (ids c.vertices) k ≡ false → c.vertex_refs k ≡ none
  pub index : overflowing_vertices max c ≡ [] → IsIndex c.vertex_refs (ids c.vertices)

module _ {N : Type 0} where
  count_old-All :
      (start : ℕ) (vs : List (Vertex N))
      → All (λ v. v.seq ≤ start) vs
      → length vs ≡ count_old start vs
  count_old-All start [] h = refl
  count_old-All start (v ∷ vs) h = ground (arith, count_old-All start vs h.1)

  count_old-pos :
      (start : ℕ) (vs : List (Vertex N)) → All (λ v. v.seq ≤ start → 1 ≤ count_old start vs) vs
  count_old-pos start [] = tt
  count_old-pos start (v ∷ vs) = (
    λ le. ground arith,
    All-mono _ _ (λ w f le. ground (arith, f le)) vs (count_old-pos start vs),
  )

  -- ids in the two parts of a message are different
  keys-apart :
      (xs ys : List (String × VertexData N)) (k : String)
      → Distinct (keys (xs ++ ys))
      → contains (keys xs) k ≡ true
      → contains (keys ys) k ≡ false
  keys-apart [] ys k d h = cc
  keys-apart (x ∷ xs) ys k d h = ground (arith, keys-apart xs ys k d.1, in_right xs ys k)
    where
      in_right :
          (xs ys : List (String × VertexData N)) (k : String)
          → contains (keys (xs ++ ys)) k ≡ false
          → contains (keys ys) k ≡ false
      in_right [] ys k h = h
      in_right (x ∷ xs) ys k h = in_right xs ys k (ground arith)

  Distinct-left :
      (xs ys : List (String × VertexData N)) → Distinct (keys (xs ++ ys)) → Distinct (keys xs)
  Distinct-left [] ys d = tt
  Distinct-left (x ∷ xs) ys d = (in_left xs ys x.0 d.0, Distinct-left xs ys d.1)
    where
      in_left :
          (xs ys : List (String × VertexData N)) (k : String)
          → contains (keys (xs ++ ys)) k ≡ false
          → contains (keys xs) k ≡ false
      in_left [] ys k h = refl
      in_left (x ∷ xs) ys k h = ground (arith, in_left xs ys k)

  -- If no vertex is selected for removal after `max` entries were taken, then every vertex is one of
  -- the entries: an old one would be too many, and would be selected.
  no_old_left :
      (start max : ℕ) (seen : List String) (c : Canvas N)
      → IsTaken start max c
      → All (λ v. start < v.seq → contains seen v.id ≡ true) c.vertices
      → length c.vertices ≡ max + count_old start c.vertices
      → c.vertex_sequence ≡ start + max
      → overflowing_vertices max c ≡ []
      → All (λ v. contains seen v.id ≡ true) c.vertices
  unfolding overflowing_vertices
  no_old_left start max seen c t fresh tally sequence none_selected =
      all c.vertices t.drawn fresh (contains-circles_where _ c t.distinct)
        (count_old-pos start c.vertices)
    where
      test : Vertex N → Bool
      test v = ltb v.seq (c.vertex_sequence + 1 - max)

      all :
          (vs : List (Vertex N))
          → All (λ v. v.seq ≤ start → contains c.circles v.id ≡ true) vs
          → All (λ v. start < v.seq → contains seen v.id ≡ true) vs
          → All
              (λ v.
                contains (circles_where test c) v.id
                ≡ (if contains c.circles v.id then test v else false))
              vs
          → All (λ v. v.seq ≤ start → 1 ≤ count_old start c.vertices) vs
          → All (λ v. contains seen v.id ≡ true) vs
      all [] a b d e = tt
      all (v ∷ vs) a b d e = (
        elim (dec_lt start v.seq) [ yes p ↦ b.0 p | no np ↦ absurd (old (omega arith)) ],
        all vs a.1 b.1 d.1 e.1,
      )
        where
          old : v.seq ≤ start → ⊥
          old le =
              let many : ltb max (length c.vertices) ≡ true = ground (arith, e.0 le) in
              let nothing : circles_where test c ≡ [] = rw many at none_selected in
              ground (arith, a.0 le, d.0, nothing)

  absent_of_All :
      (seen : List String) (vs : List (Vertex N)) (k : String)
      → All (λ v. contains seen v.id ≡ true) vs
      → contains seen k ≡ false
      → contains (ids vs) k ≡ false
  absent_of_All seen [] k h e = refl
  absent_of_All seen (v ∷ vs) k h e = ground (arith, h.0, absent_of_All seen vs k h.1)

  module _ (c : Canvas N) (h : IsWellFormed c) where
    -- before the loop
    start-Accepted : Accepted c.vertex_sequence c.circles [] (loop_of c)
    start-Accepted = record {
      distinct = h.distinct;
      index = h.index;
      bounded = h.bounded;
      distinct_seqs = h.distinct_seqs;
      drawn = rw h.drawn (All-mono _ _ (λ v e le. e) c.vertices (contains-ids c.vertices));
      fresh = All-mono _ _ (λ v b lt. absurd (omega arith)) c.vertices h.bounded;
      sequence = omega arith;
      tally = omega (arith, count_old-All c.vertex_sequence c.vertices h.bounded);
      none_left_out = refl;
    }

    -- A message within the limit.
    within :
        (max : ℕ) (vs : List (String × VertexData N))
        → Distinct (keys vs)
        → length vs ≤ max
        → TakenOk c.vertex_sequence max (take_vertices max vs c)
    unfolding take_vertices
    within max vs d fits =
        let (acc, count) =
          visit_all-Accepted c.vertex_sequence c.circles max [] (loop_of c) vs start-Accepted d
            (λ k m. refl) (omega arith) in
        record {
          taken = record {
            distinct = acc.distinct;
            bounded = acc.bounded;
            distinct_seqs = acc.distinct_seqs;
            drawn = acc.drawn;
            few = omega (arith, acc.sequence, count);
          };
          absent = IsIndex-absent _ _ acc.index;
          index = λ e. acc.index;
        }

    -- A message beyond the limit.
    beyond :
        (max : ℕ) (vs : List (String × VertexData N))
        → Distinct (keys vs)
        → max ≤ length vs
        → TakenOk c.vertex_sequence max (take_vertices max vs c)
    unfolding take_vertices
    beyond max vs d many =
        let xs = take max vs in
        let ys = drop max vs in
        let l : VertexLoop N = visit_all max (loop_of c) xs in
        let d' : Distinct (keys (xs ++ ys)) = rw (take-append-drop max vs) d in
        let size : length xs ≡ max = length-take max vs many in
        let (acc, count) =
          visit_all-Accepted c.vertex_sequence c.circles max [] (loop_of c) xs start-Accepted
            (Distinct-left xs ys d') (λ k m. refl) (omega arith) in
        let path : visit_all max (loop_of c) vs ≡ visit_all max l ys =
          ap (visit_all max (loop_of c)) (sym (take-append-drop max vs))
          ∙ visit_all-append max (loop_of c) xs ys in
        let b : Beyond l (visit_all max (loop_of c) vs) ys =
          rw path (visit_all-Beyond max l ys (omega (arith, count))) in
        let taken : IsTaken c.vertex_sequence max (take_vertices max vs c) = record {
          distinct = rw b.same_vertices acc.distinct;
          bounded = rw (b.same_vertices, b.same_sequence) acc.bounded;
          distinct_seqs = rw b.same_vertices acc.distinct_seqs;
          drawn = rw b.same_vertices acc.drawn;
          few = omega (arith, acc.sequence, count, b.same_sequence);
        } in
        record {
          taken = taken;
          absent = λ k e. ground (
            arith,
            b.lost k,
            IsIndex-absent l.refs (ids l.vertices) acc.index k (rw b.same_vertices at e),
          );
          index = λ e k.
              let seen_all : All (λ v. contains (all_seen [] xs) v.id ≡ true)
                  (visit_all max (loop_of c) vs).vertices =
                no_old_left c.vertex_sequence max (all_seen [] xs) (take_vertices max vs c) taken
                  (rw b.same_vertices acc.fresh)
                  (rw b.same_vertices (omega (arith, acc.tally, count)))
                  (omega (arith, acc.sequence, count, b.same_sequence)) e in
              elim (Bool-cases (contains (keys ys) k)) [
                | inl skipped ↦ ground (
                  arith,
                  b.lost k,
                  position-absent 0 k (ids (visit_all max (loop_of c) vs).vertices) (
                      absent_of_All (all_seen [] xs) (visit_all max (loop_of c) vs).vertices k
                        seen_all (not_seen k skipped)),
                )
                | inr kept ↦ rw (b.lost k, kept, b.same_vertices) (acc.index k)
              ];
        }
      where
        not_seen :
            (k : String)
            → contains (keys (drop max vs)) k ≡ true
            → contains (all_seen [] (take max vs)) k ≡ false
        not_seen k e = ground (
          arith,
          contains-all_seen [] (take max vs) k,
          keys-apart (take max vs) (drop max vs) k (rw (take-append-drop max vs) d),
        )

    -- After the loop, for every limit and every message.
    pub take_vertices-TakenOk :
        (max : ℕ) (vs : List (String × VertexData N))
        → Distinct (keys vs)
        → TakenOk c.vertex_sequence max (take_vertices max vs c)
    take_vertices-TakenOk max vs d = elim (dec_le (length vs) max) [
      | yes fits ↦ within max vs d fits
      | no many ↦ beyond max vs d (omega arith)
    ]
