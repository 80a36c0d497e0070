-- ===== src/Graph/Queries/Latest.antt =====
-- What waits to be sent after the graph has ordered
-- (src/main/resources/web-data/js/graph-drawing.js and main.js).
use dyn_dco.Base.{
  ℕ, String, ◌≡◌, sym, ◌∙◌, Option, none, some, List, [], ◌∷◌, Bool, keep_if, ltb, subst, ap,
}
use dyn_dco.Console.Orders.{Timer, Console, pending_for}
use dyn_dco.Console.Orders.Coherent.{IsCoherent}
use dyn_dco.Console.Orders.Pending.{order-supersedes}
use dyn_dco.Graph.Types.{Canvas}
use dyn_dco.Graph.VertexLoops.{ids}
use dyn_dco.Graph.Canvas.{latest_vertices}
use dyn_dco.Graph.Canvas.Invariant.{IsWellFormed}
use dyn_dco.Graph.Canvas.Circles.{circles_where_lem}
use dyn_dco.Graph.Pointer.{DrawEdges, Pointer, ordered, load_vicinity}
use dyn_dco.Graph.Pointer.Hover.{Reach, IsHover, Reach-IsHover}
use dyn_dco.Graph.Queries.{
  Query, Inputs, vertex_ids, request, order_graph, add_vicinities, add_found, add_recent_vicinities,
  load_hovered,
}

module _ {N : Type 0} where
  -- The latest vertices are those with a sequence number above that of the end of the query before.
  latest_vertices_lem :
      (c : Canvas N)
      → IsWellFormed c
      → latest_vertices c ≡ ids (keep_if (λ v. ltb c.vertex_sequence_end v.seq) c.vertices)
  unfolding latest_vertices
  latest_vertices_lem c h = circles_where_lem _ c h

-- The timer that is going to order the ids with their vicinity.
abbrev pub waiting :
    {N : Type 0} → (Bool → Query N → String) → Inputs → ℕ → List String → List Timer
waiting text inputs id found =
    record {
      id = id;
      delay = 0;
      request = request text inputs (vertex_ids found (some inputs.vicinity));
    }
    ∷ []

module _ {N C : Type 0} (text : Bool → Query N → String) (inputs : Inputs) where
  add_vicinities-supersedes :
      (found : List String) (console : Console C)
      → IsCoherent console
      → pending_for "graph" (add_vicinities text inputs found console)
        ≡ waiting text inputs console.next_timer found
  unfolding add_vicinities order_graph
  add_vicinities-supersedes found console h = order-supersedes _ 0 none console h

  -- After "addRecentVicinities" the only order of the graph that waits is one for the vertices of the
  -- latest query, in their order.
  pub add_recent_vicinities-supersedes :
      (canvas : Canvas N) (console : Console C)
      → IsWellFormed canvas
      → IsCoherent console
      → pending_for "graph" (add_recent_vicinities text inputs canvas console)
        ≡ waiting text inputs console.next_timer
            (ids (keep_if (λ v. ltb canvas.vertex_sequence_end v.seq) canvas.vertices))
  unfolding add_recent_vicinities
  add_recent_vicinities-supersedes canvas console w h =
      add_vicinities-supersedes (latest_vertices canvas) console h
      ∙ ap (waiting text inputs console.next_timer) (latest_vertices_lem canvas w)

  -- When the timer of the mouse runs that waits for a vicinity, however the mouse has moved and the
  -- layout has ticked before, it is that of the vertex under the mouse, and the order for it is the
  -- only one of the graph that waits.
  pub load_hovered-hovering :
      (draw : DrawEdges) (auto_add : Bool) {p q : Pointer N} (id : String) (console : Console C)
      → IsHover draw auto_add p
      → Reach draw auto_add p q
      → q.vicinity_pending ≡ some id
      → IsCoherent console
      → (q.hovering ≡ some id)
        × (pending_for "graph" (load_hovered text inputs q console).1
            ≡ waiting text inputs console.next_timer (id ∷ []))
  unfolding load_hovered load_vicinity
  load_hovered-hovering draw auto_add {q = q} id console i r e h = (
    (Reach-IsHover draw auto_add r i).vicinity id e,
    subst P (sym e) (add_vicinities-supersedes (id ∷ []) console h),
  )
    where
      P : Option String → Type 0
      P o =
          pending_for "graph" (add_found text inputs (ordered o q).1 console)
          ≡ waiting text inputs console.next_timer (id ∷ [])
