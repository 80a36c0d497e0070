-- ===== src/Graph/Session.antt =====
-- A life of the graph view: what the server and the user do to the canvas, in any order
-- (src/main/resources/web-data/js/graph-drawing.js, graph.js).
use dyn_dco.Base.{ℕ, String, ◌≡◌, ◌≢◌, refl, some, List, [], ◌∷◌, ap, ◌∙◌, inl, inr, List-cases}
use dyn_dco.Graph.Types.{Options, Numbers, Canvas}
use dyn_dco.Graph.VertexLoops.{ids}
use dyn_dco.Graph.Canvas.{
  remove_vertices_from_canvas, remove_overflowing_vertices, remove_non_latest_vertices,
  remove_orphans, remove_all_vertices, update_graph, on_open, on_close,
}
use dyn_dco.Graph.Canvas.Invariant.{IsWellFormed, IsRemovable-of, remove-IsWellFormed}
use dyn_dco.Graph.Message.{Incoming, on_message}
use dyn_dco.Graph.Message.Handled.{IsKeyed, IsSaved, on_message-IsWellFormed}

module _ (n : Numbers) where
  open n use {Num}

  -- The socket opens at the start, or after it was closed: the canvas is empty then.
  pub data Step : Canvas Num → Canvas Num → Type 0 where
    receive :
        (c : Canvas Num) (o : Options) (i : Incoming Num)
        → IsKeyed n i
        → Step c (on_message n o i c).0
    remove :
        (c : Canvas Num) (removed : List String) → Step c (remove_vertices_from_canvas removed c)
    limit : (c : Canvas Num) (max : ℕ) → Step c (remove_overflowing_vertices max c)
    only_latest : (c : Canvas Num) → Step c (remove_non_latest_vertices c)
    no_orphans : (c : Canvas Num) → Step c (remove_orphans c)
    clear : (c : Canvas Num) → Step c (remove_all_vertices c).0
    update : (c : Canvas Num) → Step c (update_graph c).0
    close : (c : Canvas Num) → Step c (on_close c)
    connect : (c : Canvas Num) → c.vertices ≡ [] → Step c (on_open c)

  pub data Reach (s : Canvas Num) : Canvas Num → Type 0 where
    here : Reach s s
    next : {c d : Canvas Num} → Reach s c → Step c d → Reach s d

  close-IsWellFormed : (c : Canvas Num) → IsWellFormed (on_close c)
  unfolding on_close
  close-IsWellFormed c = record {
    distinct = tt;
    index = λ k. refl;
    bounded = tt;
    distinct_seqs = tt;
    edges_ok = record { joined = tt; distinct = tt; index = λ k. refl };
    drawn = refl;
  }

  clear-IsWellFormed : (c : Canvas Num) → IsWellFormed (remove_all_vertices c).0
  unfolding remove_all_vertices
  clear-IsWellFormed c = record {
    distinct = tt;
    index = λ k. refl;
    bounded = tt;
    distinct_seqs = tt;
    edges_ok = record { joined = tt; distinct = tt; index = λ k. refl };
    drawn = refl;
  }

  update-IsWellFormed : (c : Canvas Num) → IsWellFormed c → IsWellFormed (update_graph c).0
  unfolding update_graph
  update-IsWellFormed c h = elim (List-cases c.stored) [
    | inl e ↦
        rw (e, update_graph)
          (record {
            distinct = h.distinct;
            index = h.index;
            bounded = h.bounded;
            distinct_seqs = h.distinct_seqs;
            edges_ok = h.edges_ok;
            drawn = h.drawn;
          })
    | inr (id, rest, e) ↦ rw (e, update_graph) h
  ]

  connect-IsWellFormed :
      (c : Canvas Num) → c.vertices ≡ [] → IsWellFormed c → IsWellFormed (on_open c)
  unfolding on_open
  connect-IsWellFormed c e h = record {
    distinct = h.distinct;
    index = h.index;
    bounded = h.bounded;
    distinct_seqs = h.distinct_seqs;
    edges_ok = h.edges_ok;
    drawn = rw e;
  }

  pub Step-IsWellFormed : {c d : Canvas Num} → Step c d → IsWellFormed c → IsWellFormed d
  unfolding remove_overflowing_vertices remove_non_latest_vertices remove_orphans
  Step-IsWellFormed (receive c o i keyed) h = on_message-IsWellFormed n o i c h keyed
  Step-IsWellFormed (remove c removed) h = remove-IsWellFormed removed c (IsRemovable-of h)
  Step-IsWellFormed (limit c max) h = remove-IsWellFormed _ c (IsRemovable-of h)
  Step-IsWellFormed (only_latest c) h = remove-IsWellFormed _ c (IsRemovable-of h)
  Step-IsWellFormed (no_orphans c) h = remove-IsWellFormed _ c (IsRemovable-of h)
  Step-IsWellFormed (clear c) h = clear-IsWellFormed c
  Step-IsWellFormed (update c) h = update-IsWellFormed c h
  Step-IsWellFormed (close c) h = close-IsWellFormed c
  Step-IsWellFormed (connect c e) h = connect-IsWellFormed c e h

  -- Whatever happens to a well-formed canvas, in any order, it stays well-formed.
  pub Reach-IsWellFormed : {c d : Canvas Num} → IsWellFormed c → Reach c d → IsWellFormed d
  Reach-IsWellFormed h here = h
  Reach-IsWellFormed h (next r st) = Step-IsWellFormed st (Reach-IsWellFormed h r)

  -- After the connection broke down and came back, the vertices that were on the canvas are ordered
  -- again, if it was saved and held any.
  pub reconnect_orders :
      (c : Canvas Num)
      → IsSaved c
      → c.vertices ≢ []
      → (update_graph (on_open (on_close c))).1 ≡ some (ids c.vertices)
  unfolding update_graph on_open on_close
  reconnect_orders c saved some_vertex = elim (List-cases c.vertices) [
    | inl e ↦ absurd (some_vertex e)
    | inr (v, vs, e) ↦
        let stored : c.stored ≡ v.id ∷ ids vs = saved ∙ ap ids e in rw (stored, update_graph) (rw e)
  ]
