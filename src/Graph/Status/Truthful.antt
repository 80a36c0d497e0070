-- ===== src/Graph/Status/Truthful.antt =====
-- What the text behind the graph says in a life of the graph view
-- (src/main/resources/web-data/js/graph-drawing.js, graph.js).
use dyn_dco.Base.{
  ℕ, ◌≤◌, ◌<◌, arith, String, ◌≡◌, refl, none, some, List, [], ◌∷◌, length, ltb, Bool-cases, inl,
  inr, List-cases, Option-cases,
}
use dyn_dco.Graph.Types.{Vertex, Background, Canvas, Options, Numbers, canvas_empty, showing}
use dyn_dco.Graph.VertexLoops.{ids, remove_vertices}
use dyn_dco.Graph.VertexLoops.Intake.{length-ids}
use dyn_dco.Graph.Canvas.{
  save, restart, remove_vertices_from_canvas, remove_overflowing_vertices,
  remove_non_latest_vertices, remove_orphans, remove_all_vertices, destroy, update_graph, on_open,
  on_close,
}
use dyn_dco.Graph.Message.{
  Incoming, configuration, graph, on_message, on_graph, on_configuration, fill, take_edges,
  make_room, tell_left_out,
}
use dyn_dco.Graph.Message.Handled.{IsKeyed, length-handled}
use dyn_dco.Graph.Canvas.Invariant.{IsWellFormed}
use dyn_dco.Graph.Session as Session
use dyn_dco.Graph.Status.{notready, hide_no_match, hide_too_many}

-- A text about the vertices that are shown has their number; the text that only the first `m` of the `k`
-- vertices of a query are shown has at least as many as are shown, and more than that for the query.
abbrev pub SaysTruth : Background → ℕ → Type 0
SaysTruth Background.loading n = Unit {0}
SaysTruth Background.canvas_empty n = n ≡ 0
SaysTruth Background.no_match n = Unit {0}
SaysTruth Background.connection_lost n = Unit {0}
SaysTruth Background.not_ready n = Unit {0}
SaysTruth (Background.showing k) n = k ≡ n
SaysTruth (Background.too_many k m) n = (n ≤ m) × (n < k)

-- The text is true, and no more vertices are shown than the browser keeps.
pub record IsTruthful {N : Type 0} (c : Canvas N) : Type 0 where
  pub says : SaysTruth c.background (length c.vertices)
  pub kept : length c.vertices ≤ length c.stored

module _ {N : Type 0} where
  restarted-SaysTruth :
      (vs : List (Vertex N)) (k : ℕ)
      → k ≡ length vs
      → SaysTruth (elim vs [ [] ↦ canvas_empty | _ ∷ _ ↦ showing k ]) (length vs)
  restarted-SaysTruth [] k e = refl
  restarted-SaysTruth (v ∷ vs) k e = e

  restart-IsTruthful : (c : Canvas N) → length c.vertices ≤ length c.stored → IsTruthful (restart c)
  unfolding restart
  restart-IsTruthful c h = record {
    says = restarted-SaysTruth c.vertices (length c.vertices) refl;
    kept = h;
  }

  ids-kept : (vs : List (Vertex N)) → length vs ≤ length (ids vs)
  ids-kept vs = omega (arith, length-ids vs)

  -- Whatever is removed, the text is brought up to date.
  remove-IsTruthful :
      (removed : List String) (c : Canvas N) → IsTruthful (remove_vertices_from_canvas removed c)
  unfolding remove_vertices_from_canvas save restart
  remove-IsTruthful removed c = record {
    says = restarted-SaysTruth (remove_vertices removed c.vertices c.vertex_refs).0 _ refl;
    kept = ids-kept (remove_vertices removed c.vertices c.vertex_refs).0;
  }

  update-IsTruthful : (c : Canvas N) → IsTruthful c → IsTruthful (update_graph c).0
  unfolding update_graph
  update-IsTruthful c h = elim (List-cases c.stored) [
    | inl e ↦ rw (e, update_graph) (record { says = ground (arith, e, h.kept); kept = h.kept })
    | inr (id, rest, e) ↦ rw (e, update_graph) h
  ]

  hide_no_match-IsTruthful : (c : Canvas N) → IsTruthful c → IsTruthful (hide_no_match c)
  unfolding hide_no_match
  hide_no_match-IsTruthful c h = elim (List-cases c.vertices) [
    | inl e ↦ rw (e, hide_no_match) (record { says = ground (arith, e); kept = h.kept })
    | inr (v, vs, e) ↦ rw (e, hide_no_match) h
  ]

  tell_left_out-IsTruthful :
      (max left_out : ℕ) (c : Canvas N)
      → length c.vertices ≤ max
      → IsTruthful c
      → IsTruthful (tell_left_out max left_out c).0
  unfolding tell_left_out
  tell_left_out-IsTruthful max left_out c l h = elim (Bool-cases (ltb 0 left_out)) [
    | inl e ↦ rw e (record { says = (l, ground (arith, e)); kept = h.kept })
    | inr e ↦ rw e h
  ]

  take_edges-kept :
      (es : _) (c : Canvas N)
      → length c.vertices ≤ length c.stored
      → length (take_edges es c).vertices ≤ length (take_edges es c).stored
  unfolding take_edges
  take_edges-kept none c h = h
  take_edges-kept (some es) c h = h

  make_room-IsTruthful :
      (removed : List String) (c : Canvas N)
      → length c.vertices ≤ length c.stored
      → IsTruthful (make_room removed c)
  unfolding make_room
  make_room-IsTruthful [] c h = restart-IsTruthful c h
  make_room-IsTruthful (id ∷ removed) c h = remove-IsTruthful (id ∷ removed) c

module _ (n : Numbers) where
  open n use {Num}

  on_message-IsTruthful :
      (o : Options) (i : Incoming Num) (c : Canvas Num)
      → IsKeyed n i
      → IsWellFormed c
      → IsTruthful c
      → IsTruthful (on_message n o i c).0
  unfolding on_message on_graph on_configuration fill save
  on_message-IsTruthful o (configuration none) c k w h = h
  on_message-IsTruthful o (configuration (some e)) c k w h = record { says = h.says; kept = h.kept }
  on_message-IsTruthful o (graph m) c k w h = elim (Option-cases m.vertices) [
    | inl e ↦ rw e (record { says = tt; kept = h.kept })
    | inr (vs, e) ↦ rw e (
        tell_left_out-IsTruthful _ _ _ (length-handled n o.max_vertex_count m vs c w (k vs e))
          (make_room-IsTruthful _ _ (take_edges-kept m.edges _ (ids-kept _))))
  ]

  -- What happens to the graph view, with the timers; whether one was cleared is left open: it may run
  -- at any time.
  pub data Step : Canvas Num → Canvas Num → Type 0 where
    live : {c d : Canvas Num} → Session.Step n c d → Step c d
    no_match_over : (c : Canvas Num) → Step c (hide_no_match c)
    too_many_over : (c : Canvas Num) → Step c (hide_too_many c)
    retrying : (c : Canvas Num) → Step c (notready c)

  pub data Reach (s : Canvas Num) : Canvas Num → Type 0 where
    here : Reach s s
    next : {c d : Canvas Num} → Reach s c → Step c d → Reach s d

  live-IsTruthful :
      {c d : Canvas Num} → Session.Step n c d → IsWellFormed c → IsTruthful c → IsTruthful d
  unfolding remove_overflowing_vertices remove_non_latest_vertices remove_orphans
      remove_all_vertices on_open on_close destroy update_graph
  live-IsTruthful (Session.Step.receive c o i k) w h = on_message-IsTruthful o i c k w h
  live-IsTruthful (Session.Step.remove c removed) w h = remove-IsTruthful removed c
  live-IsTruthful (Session.Step.limit c max) w h = remove-IsTruthful _ c
  live-IsTruthful (Session.Step.only_latest c) w h = remove-IsTruthful _ c
  live-IsTruthful (Session.Step.no_orphans c) w h = remove-IsTruthful _ c
  live-IsTruthful (Session.Step.clear c) w h = record { says = refl; kept = omega arith }
  live-IsTruthful (Session.Step.update c) w h = update-IsTruthful c h
  live-IsTruthful (Session.Step.close c) w h = record { says = tt; kept = omega arith }
  live-IsTruthful (Session.Step.connect c e) w h = record { says = tt; kept = h.kept }

  -- A text changes nothing of the canvas else.
  background-IsWellFormed :
      (b : Background) (c : Canvas Num)
      → IsWellFormed c
      → IsWellFormed (record c { background = b })
  background-IsWellFormed b c h = record {
    distinct = h.distinct;
    index = h.index;
    bounded = h.bounded;
    distinct_seqs = h.distinct_seqs;
    edges_ok = h.edges_ok;
    drawn = h.drawn;
  }

  Step-IsWellFormed : {c d : Canvas Num} → Step c d → IsWellFormed c → IsWellFormed d
  unfolding hide_too_many notready hide_no_match
  Step-IsWellFormed (Step.live st) h = Session.Step-IsWellFormed n st h
  Step-IsWellFormed (Step.no_match_over c) h = elim (List-cases c.vertices) [
    | inl e ↦ rw (e, hide_no_match) (background-IsWellFormed canvas_empty c h)
    | inr (v, vs, e) ↦ rw (e, hide_no_match) h
  ]
  Step-IsWellFormed (Step.too_many_over c) h = background-IsWellFormed _ c h
  Step-IsWellFormed (Step.retrying c) h = background-IsWellFormed _ c h

  Reach-IsWellFormed : {c d : Canvas Num} → IsWellFormed c → Reach c d → IsWellFormed d
  Reach-IsWellFormed h Reach.here = h
  Reach-IsWellFormed h (Reach.next r st) = Step-IsWellFormed st (Reach-IsWellFormed h r)

  Step-IsTruthful : {c d : Canvas Num} → Step c d → IsWellFormed c → IsTruthful c → IsTruthful d
  unfolding hide_too_many notready
  Step-IsTruthful (Step.live st) w h = live-IsTruthful st w h
  Step-IsTruthful (Step.no_match_over c) w h = hide_no_match-IsTruthful c h
  Step-IsTruthful (Step.too_many_over c) w h = record { says = refl; kept = h.kept }
  Step-IsTruthful (Step.retrying c) w h = record { says = tt; kept = h.kept }

  -- On a well-formed canvas, if the text behind the graph is true of the vertices at first, and no more
  -- vertices are shown than the browser keeps, then so it is after any messages with distinct vertex ids,
  -- actions of the user, losses of the connection and timers: a number of vertices that it says are
  -- shown is theirs, the canvas that it says is empty has none, and when it says that of a query only the
  -- first are shown, no more than those are, and fewer than it says that the query yields.
  pub Reach-IsTruthful :
      {c d : Canvas Num} → IsWellFormed c → IsTruthful c → Reach c d → IsTruthful d
  Reach-IsTruthful w h Reach.here = h
  Reach-IsTruthful w h (Reach.next r st) =
      Step-IsTruthful st (Reach-IsWellFormed w r) (Reach-IsTruthful w h r)
