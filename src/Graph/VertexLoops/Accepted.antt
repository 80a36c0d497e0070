-- ===== src/Graph/VertexLoops/Accepted.antt =====
-- What holds after the entries of a message that are within the limit, for a canvas whose sequence
-- number was `start` and whose circles were `circles`.
use dyn_dco.Base.{
  ℕ, suc, ◌+◌, ◌≤◌, ◌<◌, String, ◌≡◌, refl, none, some, List, [], ◌∷◌, true, false, arith, contains,
  if◌then◌else◌, inl, inr, length, length-append, length-modify, All, All-append, All-mono,
  Option-cases, ltb, ap,
}
use dyn_dco.Graph.Types.{VertexData}
use dyn_dco.Graph.Index.{
  position_from, position-present, IsIndex, IsIndex-append, Distinct, Distinct-append,
}
use dyn_dco.Graph.VertexLoops.{VertexLoop, ids, accept, visit, visit_all, new_vertex, refresh}
use dyn_dco.Graph.VertexLoops.Intake.{keys, ids-append, ids-modify, length-ids}
use dyn_dco.Graph.VertexLoops.Fresh.{
  count_old, DistinctSeqs, All-modify, count_old-modify, count_old-append, All-seq-modify,
  DistinctSeqs-modify, DistinctSeqs-append,
}

-- The ids of the entries, after those of `seen`.
abbrev pub all_seen : {N : Type 0} → List String → List (String × VertexData N) → List String
all_seen seen [] = seen
all_seen seen (e ∷ es) = all_seen (e.0 ∷ seen) es

pub contains-all_seen :
    {N : Type 0} (seen : List String) (es : List (String × VertexData N)) (k : String)
    → contains (all_seen seen es) k ≡ (if contains (keys es) k then true else contains seen k)
contains-all_seen seen [] k = refl
contains-all_seen seen ((id, d) ∷ es) k = ground (arith, contains-all_seen (id ∷ seen) es k)

module _ {N : Type 0} (start : ℕ) (circles : List String) where
  -- `seen` are the ids of the entries so far.
  pub record Accepted (seen : List String) (l : VertexLoop N) : Type 0 where
    pub distinct : Distinct (ids l.vertices)
    pub index : IsIndex l.refs (ids l.vertices)
    pub bounded : All (λ v. v.seq ≤ l.sequence) l.vertices
    pub distinct_seqs : DistinctSeqs l.vertices
    -- the old vertices have circles, the others are among the entries
    pub drawn : All (λ v. v.seq ≤ start → contains circles v.id ≡ true) l.vertices
    pub fresh : All (λ v. start < v.seq → contains seen v.id ≡ true) l.vertices
    pub sequence : l.sequence ≡ start + l.new_vertex_count
    pub tally : length l.vertices ≡ l.new_vertex_count + count_old start l.vertices
    pub none_left_out : l.too_many_vertices ≡ 0

  module _ {seen : List String} (l : VertexLoop N) (h : Accepted seen l) (id : String)
      (d : VertexData N) (new : contains seen id ≡ false) where
    grown : All (λ v. start < v.seq → contains (id ∷ seen) v.id ≡ true) l.vertices
    grown = All-mono _ _ (λ v f lt. ground (arith, f lt)) l.vertices h.fresh

    below : All (λ v. v.seq < suc l.sequence) l.vertices
    below = All-mono _ _ (λ v b. omega arith) l.vertices h.bounded

    absent : l.refs id ≡ none → contains (ids l.vertices) id ≡ false
    absent e = ground (arith, h.index id, position-present 0 id (ids l.vertices))

    -- A pushed vertex.
    push-Accepted :
        l.refs id ≡ none
        → Accepted
            (id ∷ seen)
            (accept (record l { new_vertex_count = suc l.new_vertex_count }) id d)
    unfolding accept
    push-Accepted e =
        let v = new_vertex (suc l.sequence) id d in
        rw (e, accept)
          (record {
            distinct =
                rw (ids-append l.vertices v)
                  (Distinct-append (ids l.vertices) id h.distinct (absent e));
            index =
                rw (ids-append l.vertices v, ← length-ids l.vertices)
                  (IsIndex-append l.refs (ids l.vertices) id (absent e) h.index);
            bounded =
                All-append _ l.vertices (v ∷ [])
                  (All-mono _ _ (λ w b. omega arith) l.vertices h.bounded) (omega arith);
            distinct_seqs = DistinctSeqs-append l.vertices v below h.distinct_seqs;
            drawn =
                All-append _ l.vertices (v ∷ []) h.drawn
                  (λ le. absurd (omega (arith, h.sequence)), tt);
            fresh = All-append _ l.vertices (v ∷ []) grown (λ lt. ground arith, tt);
            sequence = omega (arith, h.sequence);
            tally = omega (
              arith,
              h.tally,
              length-append l.vertices (v ∷ []),
              count_old-append start l.vertices v (omega (arith, h.sequence)),
            );
            none_left_out = h.none_left_out;
          })

    -- A refreshed vertex: it was an old one, since its id is not among the entries so far.
    refresh-Accepted :
        (i : ℕ)
        → l.refs id ≡ some i
        → Accepted
            (id ∷ seen)
            (accept (record l { new_vertex_count = suc l.new_vertex_count }) id d)
    unfolding accept
    refresh-Accepted i e =
        let seq : ℕ = suc l.sequence in
        let at : position_from 0 id (ids l.vertices) ≡ some (0 + i) = ground (arith, h.index id) in
        let old : All (λ v. v.id ≡ id → v.seq ≤ start) l.vertices =
          All-mono _ _ (λ v f p. ground (arith, f)) l.vertices h.fresh in
        rw (e, accept)
          (record {
            distinct = rw (ids-modify i seq d l.vertices) h.distinct;
            index = rw (ids-modify i seq d l.vertices) h.index;
            bounded =
                All-seq-modify (λ s. s ≤ seq) i seq d l.vertices (omega arith)
                  (All-mono _ _ (λ w b. omega arith) l.vertices h.bounded);
            distinct_seqs = DistinctSeqs-modify i seq d l.vertices below h.distinct_seqs;
            drawn =
                All-modify _ 0 i seq id d l.vertices h.drawn
                  (λ v p le. absurd (omega (arith, h.sequence))) at;
            fresh = All-modify _ 0 i seq id d l.vertices grown (λ v p lt. ground arith) at;
            sequence = omega (arith, h.sequence);
            tally = omega (
              arith,
              h.tally,
              length-modify i (refresh seq d) l.vertices,
              count_old-modify start 0 i seq id d l.vertices (omega (arith, h.sequence)) old at,
            );
            none_left_out = h.none_left_out;
          })

    accept-Accepted :
        Accepted (id ∷ seen) (accept (record l { new_vertex_count = suc l.new_vertex_count }) id d)
    accept-Accepted = elim (Option-cases (l.refs id)) [
      | inl e ↦ push-Accepted e
      | inr (i, e) ↦ refresh-Accepted i e
    ]

  count-accept :
      (l : VertexLoop N) (id : String) (d : VertexData N)
      → (accept l id d).new_vertex_count ≡ l.new_vertex_count
  unfolding accept
  count-accept l id d = ground arith

  visit-within :
      (max : ℕ) (l : VertexLoop N) (id : String) (d : VertexData N)
      → suc l.new_vertex_count ≤ max
      → visit max l (id, d) ≡ accept (record l { new_vertex_count = suc l.new_vertex_count }) id d
  unfolding visit
  visit-within max l id d h =
      let within : ltb max (suc l.new_vertex_count) ≡ false = ground arith in rw within

  visit_all-cons :
      (max : ℕ) (l : VertexLoop N) (id : String) (d : VertexData N)
      (es : List (String × VertexData N))
      → suc l.new_vertex_count ≤ max
      → visit_all max l ((id, d) ∷ es)
        ≡ visit_all max (accept (record l { new_vertex_count = suc l.new_vertex_count }) id d) es
  unfolding visit_all
  visit_all-cons max l id d es h = ap (λ m. visit_all max m es) (visit-within max l id d h)

  visit_all-nil : (max : ℕ) (l : VertexLoop N) → visit_all max l [] ≡ l
  unfolding visit_all
  visit_all-nil max l = refl

  -- Entries within the limit, with ids that are new among the entries.
  pub visit_all-Accepted :
      (max : ℕ) (seen : List String) (l : VertexLoop N) (es : List (String × VertexData N))
      → Accepted seen l
      → Distinct (keys es)
      → ((k : String) → contains (keys es) k ≡ true → contains seen k ≡ false)
      → l.new_vertex_count + length es ≤ max
      → Accepted (all_seen seen es) (visit_all max l es)
        × ((visit_all max l es).new_vertex_count ≡ l.new_vertex_count + length es)
  visit_all-Accepted max seen l [] h u new fits = rw (visit_all-nil max l) (h, omega arith)
  visit_all-Accepted max seen l ((id, d) ∷ es) h u new fits =
      let l' = accept (record l { new_vertex_count = suc l.new_vertex_count }) id d in
      let counted : l'.new_vertex_count ≡ suc l.new_vertex_count = count-accept _ id d in
      let ih =
        visit_all-Accepted max (id ∷ seen) l' es (accept-Accepted l h id d (new id (ground arith)))
          u.1 (λ k m. ground (arith, new k)) (omega arith) in
      rw (visit_all-cons max l id d es (omega arith)) (ih.0, omega (arith, ih.1))
