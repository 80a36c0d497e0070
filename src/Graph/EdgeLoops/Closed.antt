-- ===== src/Graph/EdgeLoops/Closed.antt =====
-- The loop of `onmessage` over the edges of a message: no edge without its two vertices.
use dyn_dco.Base.{
  ℕ, String, ◌≡◌, refl, none, List, [], ◌∷◌, ◌++◌, map, true, false, arith, Table, length, All,
  All-append, Option-cases, Bool-cases, inl, inr, contains,
}
use dyn_dco.Graph.Types.{Edge}
use dyn_dco.Graph.Index.{position-present, IsIndex, IsIndex-append, Distinct, Distinct-append}
use dyn_dco.Graph.EdgeLoops.{
  EdgeLoop, edge_id, is_defined, push_edge, visit_edge, visit_targets, visit_edges,
}

abbrev pub edge_ids : List Edge → List String
edge_ids = map λ e. e.id

edge_ids-append : (es : List Edge) (e : Edge) → edge_ids (es ++ e ∷ []) ≡ edge_ids es ++ e.id ∷ []
edge_ids-append [] e = refl
edge_ids-append (x ∷ es) e = ground (arith, edge_ids-append es e)

length-edge_ids : (es : List Edge) → length (edge_ids es) ≡ length es
length-edge_ids [] = refl
length-edge_ids (x ∷ es) = omega (arith, length-edge_ids es)

-- An edge that is named after its ends, which are both in `vs`.
pub record Joins (vs : List String) (e : Edge) : Type 0 where
  pub named : e.id ≡ edge_id e.source e.target
  pub from : contains vs e.source ≡ true
  pub to : contains vs e.target ≡ true

pub record EdgesOk (vs : List String) (es : List Edge) (refs : Table ℕ) : Type 0 where
  pub joined : All (Joins vs) es
  pub distinct : Distinct (edge_ids es)
  pub index : IsIndex refs (edge_ids es)

module _ (vs : List String) (vertex_refs : Table ℕ)
    (sound : (k : String) → is_defined (vertex_refs k) ≡ true → contains vs k ≡ true) where
  push_edge-EdgesOk :
      (l : EdgeLoop) (source target : String)
      → l.refs (edge_id source target) ≡ none
      → is_defined (vertex_refs source) ≡ true
      → is_defined (vertex_refs target) ≡ true
      → EdgesOk vs l.edges l.refs
      → let r = push_edge l source target in EdgesOk vs r.edges r.refs
  unfolding push_edge
  push_edge-EdgesOk l source target e hs ht h =
      let id = edge_id source target in
      let edge : Edge = record { id = id; source = source; target = target } in
      let absent : contains (edge_ids l.edges) id ≡ false =
        ground (arith, h.index id, position-present 0 id (edge_ids l.edges)) in
      record {
        joined =
            All-append _ l.edges (edge ∷ []) h.joined
              (record { named = refl; from = sound source hs; to = sound target ht }, tt);
        distinct =
            rw (edge_ids-append l.edges edge)
              (Distinct-append (edge_ids l.edges) id h.distinct absent);
        index =
            rw (edge_ids-append l.edges edge, ← length-edge_ids l.edges)
              (IsIndex-append l.refs (edge_ids l.edges) id absent h.index);
      }

  visit_edge-EdgesOk :
      (l : EdgeLoop) (source target : String)
      → EdgesOk vs l.edges l.refs
      → let r = visit_edge vertex_refs l source target in EdgesOk vs r.edges r.refs
  unfolding visit_edge
  visit_edge-EdgesOk l source target h = elim (Option-cases (l.refs (edge_id source target))) [
    | inr (i, e) ↦ rw (e, visit_edge) h
    | inl e ↦
        rw (e, visit_edge)
          (elim (Bool-cases (is_defined (vertex_refs source))) [
            | inr f ↦ rw f h
            | inl t ↦ rw t (elim (Bool-cases (is_defined (vertex_refs target))) [
              | inr f' ↦ rw f' h
              | inl t' ↦ rw t' (push_edge-EdgesOk l source target e t t' h)
            ])
          ])
  ]

  visit_targets-EdgesOk :
      (l : EdgeLoop) (source : String) (targets : List String)
      → EdgesOk vs l.edges l.refs
      → let r = visit_targets vertex_refs l source targets in EdgesOk vs r.edges r.refs
  unfolding visit_targets
  visit_targets-EdgesOk l source [] h = h
  visit_targets-EdgesOk l source (target ∷ rest) h =
      visit_targets-EdgesOk (visit_edge vertex_refs l source target) source rest
        (visit_edge-EdgesOk l source target h)

  pub visit_edges-EdgesOk :
      (l : EdgeLoop) (es : List (String × List String))
      → EdgesOk vs l.edges l.refs
      → let r = visit_edges vertex_refs l es in EdgesOk vs r.edges r.refs
  unfolding visit_edges
  visit_edges-EdgesOk l [] h = h
  visit_edges-EdgesOk l ((source, targets) ∷ rest) h =
      visit_edges-EdgesOk (visit_targets vertex_refs l source targets) rest
        (visit_targets-EdgesOk l source targets h)
