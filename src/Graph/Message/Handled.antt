-- ===== src/Graph/Message/Handled.antt =====
-- What `onmessage` leaves on the canvas.
use dyn_dco.Base.{
  ℕ, ◌≤◌, String, ◌≡◌, refl, sym, none, some, Option, List, [], ◌∷◌, true, false, arith, length,
  All-mono, contains, Bool-cases, Option-cases, inl, inr, ltb,
}
use dyn_dco.Graph.Types.{VertexData, GraphMessage, Options, Numbers, Canvas}
use dyn_dco.Graph.Index.{IsIndex, Distinct}
use dyn_dco.Graph.VertexLoops.{ids}
use dyn_dco.Graph.VertexLoops.Intake.{keys, visit_all-grows}
use dyn_dco.Graph.EdgeLoops.{is_defined}
use dyn_dco.Graph.EdgeLoops.Closed.{EdgesOk, visit_edges-EdgesOk}
use dyn_dco.Graph.Canvas.{overflowing_vertices, save, restart, remove_vertices_from_canvas}
use dyn_dco.Graph.Canvas.Invariant.{
  IsWellFormed, IsRemovable, remove-IsWellFormed, vertices-remove, kept,
}
use dyn_dco.Graph.Canvas.Overflow.{overflow_bound, kept-nil}
use dyn_dco.Graph.Message.{
  Incoming, configuration, graph, loop_of, take_vertices, take_edges, make_room, fill,
  tell_left_out, gradient, on_configuration, on_graph, on_message,
}
use dyn_dco.Graph.Message.Taken.{TakenOk, take_vertices-TakenOk}

module _ {N : Type 0} where
  -- Edges keep their vertices when vertices come.
  EdgesOk-mono :
      (vs ws : List String) (c : Canvas N)
      → ((k : String) → contains vs k ≡ true → contains ws k ≡ true)
      → EdgesOk vs c.edges c.edge_refs
      → EdgesOk ws c.edges c.edge_refs
  EdgesOk-mono vs ws c f h = record {
    joined =
        All-mono _ _
          (λ e j. record { named = j.named; from = f e.source j.from; to = f e.target j.to })
          c.edges h.joined;
    distinct = h.distinct;
    index = h.index;
  }

  take_edges-EdgesOk :
      (es : Option (List (String × List String))) (c : Canvas N)
      → ((k : String) → contains (ids c.vertices) k ≡ false → c.vertex_refs k ≡ none)
      → EdgesOk (ids c.vertices) c.edges c.edge_refs
      → let r = take_edges es c in EdgesOk (ids c.vertices) r.edges r.edge_refs
  unfolding take_edges
  take_edges-EdgesOk none c absent h = h
  take_edges-EdgesOk (some es) c absent h =
      visit_edges-EdgesOk (ids c.vertices) c.vertex_refs sound
        (record { edges = c.edges; refs = c.edge_refs }) es h
    where
      sound :
          (k : String) → is_defined (c.vertex_refs k) ≡ true → contains (ids c.vertices) k ≡ true
      sound k e = ground (arith, absent k)

  -- The canvas when room is made: the vertices are taken, saved and graded, and the edges are in.
  pub record IsFilled (c : Canvas N) (to_remove : List String) : Type 0 where
    pub removable : IsRemovable c
    pub index : to_remove ≡ [] → IsIndex c.vertex_refs (ids c.vertices)

  make_room-IsWellFormed :
      (to_remove : List String) (c : Canvas N)
      → IsFilled c to_remove
      → IsWellFormed (make_room to_remove c)
  unfolding make_room restart
  make_room-IsWellFormed [] c h = record {
    distinct = h.removable.distinct;
    index = h.index refl;
    bounded = h.removable.bounded;
    distinct_seqs = h.removable.distinct_seqs;
    edges_ok = h.removable.edges_ok;
    drawn = refl;
  }
  make_room-IsWellFormed (id ∷ rest) c h = remove-IsWellFormed (id ∷ rest) c h.removable

  vertices-make_room :
      (to_remove : List String) (c : Canvas N)
      → (make_room to_remove c).vertices ≡ kept to_remove c.vertices
  unfolding make_room restart
  vertices-make_room [] c = sym (kept-nil c.vertices)
  vertices-make_room (id ∷ rest) c = vertices-remove (id ∷ rest) c

  -- The loop over the edges leaves all else alone.
  record SameButEdges (c r : Canvas N) : Type 0 where
    vertices : r.vertices ≡ c.vertices
    refs : r.vertex_refs ≡ c.vertex_refs
    sequence : r.vertex_sequence ≡ c.vertex_sequence

  take_edges-SameButEdges :
      (es : Option (List (String × List String))) (c : Canvas N) → SameButEdges c (take_edges es c)
  unfolding take_edges
  take_edges-SameButEdges none c = record { vertices = refl; refs = refl; sequence = refl }
  take_edges-SameButEdges (some es) c = record { vertices = refl; refs = refl; sequence = refl }

  IsFilled-edges :
      (es : Option (List (String × List String))) (c : Canvas N) {to_remove : List String}
      → IsFilled c to_remove
      → IsFilled (take_edges es c) to_remove
  IsFilled-edges es c h =
      let same = take_edges-SameButEdges es c in
      let r = h.removable in
      record {
        removable = record {
          distinct = rw same.vertices r.distinct;
          absent = λ k e. rw same.refs (r.absent k (rw same.vertices at e));
          bounded = rw (same.vertices, same.sequence) r.bounded;
          distinct_seqs = rw same.vertices r.distinct_seqs;
          edges_ok = rw same.vertices (take_edges-EdgesOk es c r.absent r.edges_ok);
        };
        index = λ e. rw (same.refs, same.vertices) (h.index e);
      }

  -- The edges from before the message keep their vertices in the loop over its vertices.
  edges-take_vertices :
      (max : ℕ) (vs : List (String × VertexData N)) (c : Canvas N)
      → EdgesOk (ids c.vertices) c.edges c.edge_refs
      → let r = take_vertices max vs c in EdgesOk (ids r.vertices) r.edges r.edge_refs
  unfolding take_vertices
  edges-take_vertices max vs c =
      EdgesOk-mono (ids c.vertices) (ids (take_vertices max vs c).vertices) c
        (visit_all-grows max (loop_of c) vs)

  -- Telling how many were left out changes a text only.
  tell-IsWellFormed :
      (max left_out : ℕ) (c : Canvas N)
      → IsWellFormed c
      → IsWellFormed (tell_left_out max left_out c).0
  unfolding tell_left_out
  tell-IsWellFormed max left_out c h = elim (Bool-cases (ltb 0 left_out)) [
    | inl e ↦ rw e (record {
      distinct = h.distinct;
      index = h.index;
      bounded = h.bounded;
      distinct_seqs = h.distinct_seqs;
      edges_ok = h.edges_ok;
      drawn = h.drawn;
    })
    | inr e ↦ rw e h
  ]

  vertices-tell :
      (max left_out : ℕ) (c : Canvas N) → (tell_left_out max left_out c).0.vertices ≡ c.vertices
  unfolding tell_left_out
  vertices-tell max left_out c = ground arith

  -- The storage holds what is on the canvas.
  abbrev pub IsSaved : Canvas N → Type 0
  IsSaved c = c.stored ≡ ids c.vertices

  take_edges-IsSaved :
      (es : Option (List (String × List String))) (c : Canvas N)
      → IsSaved c
      → IsSaved (take_edges es c)
  unfolding take_edges
  take_edges-IsSaved none c h = h
  take_edges-IsSaved (some es) c h = h

  remove-IsSaved :
      (removed : List String) (c : Canvas N) → IsSaved (remove_vertices_from_canvas removed c)
  unfolding remove_vertices_from_canvas
  remove-IsSaved removed c = refl

  make_room-IsSaved :
      (to_remove : List String) (c : Canvas N) → IsSaved c → IsSaved (make_room to_remove c)
  unfolding make_room restart
  make_room-IsSaved [] c h = h
  make_room-IsSaved (id ∷ rest) c h = remove-IsSaved (id ∷ rest) c

  tell-IsSaved :
      (max left_out : ℕ) (c : Canvas N) → IsSaved c → IsSaved (tell_left_out max left_out c).0
  unfolding tell_left_out
  tell-IsSaved max left_out c h = elim (Bool-cases (ltb 0 left_out)) [
    | inl e ↦ rw e h
    | inr e ↦ rw e h
  ]

module _ (n : Numbers) where
  open n use {Num}

  -- A message has each vertex id once: the ids are the keys of an object.
  abbrev pub IsKeyed : Incoming Num → Type 0
  IsKeyed (configuration e) = Unit {0}
  IsKeyed (graph m) =
      (vs : List (String × VertexData Num)) → m.vertices ≡ some vs → Distinct (keys vs)

  fill-IsFilled :
      (max : ℕ) (m : GraphMessage Num) (vs : List (String × VertexData Num)) (c : Canvas Num)
      → IsWellFormed c
      → Distinct (keys vs)
      → IsFilled (fill n max m vs c) (overflowing_vertices max (take_vertices max vs c))
  unfolding fill save
  fill-IsFilled max m vs c h d =
      IsFilled-edges m.edges
        (record (save (take_vertices max vs c)) {
          gradient_domain =
              some (gradient n m.lowest_state m.highest_state (take_vertices max vs c).vertices);
        })
        (record { removable = removable; index = taken.index })
    where
      taken : TakenOk c.vertex_sequence max (take_vertices max vs c)
      taken = take_vertices-TakenOk c h max vs d

      removable : IsRemovable (record (save (take_vertices max vs c)) {
        gradient_domain =
            some (gradient n m.lowest_state m.highest_state (take_vertices max vs c).vertices);
      })
      removable = record {
        distinct = taken.taken.distinct;
        absent = taken.absent;
        bounded = taken.taken.bounded;
        distinct_seqs = taken.taken.distinct_seqs;
        edges_ok = edges-take_vertices max vs c h.edges_ok;
      }

  fill-IsSaved :
      (max : ℕ) (m : GraphMessage Num) (vs : List (String × VertexData Num)) (c : Canvas Num)
      → IsSaved (fill n max m vs c)
  unfolding fill save
  fill-IsSaved max m vs c = take_edges-IsSaved m.edges _ refl

  vertices-fill :
      (max : ℕ) (m : GraphMessage Num) (vs : List (String × VertexData Num)) (c : Canvas Num)
      → (fill n max m vs c).vertices ≡ (take_vertices max vs c).vertices
  unfolding fill save
  vertices-fill max m vs c = (take_edges-SameButEdges m.edges _).vertices

  -- The canvas after a message with vertices.
  abbrev handled : ℕ → GraphMessage Num → List (String × VertexData Num) → Canvas Num → Canvas Num
  handled max m vs c =
      make_room (overflowing_vertices max (take_vertices max vs c)) (fill n max m vs c)

  handled-IsWellFormed :
      (max : ℕ) (m : GraphMessage Num) (vs : List (String × VertexData Num)) (c : Canvas Num)
      → IsWellFormed c
      → Distinct (keys vs)
      → IsWellFormed (handled max m vs c)
  handled-IsWellFormed max m vs c h d =
      make_room-IsWellFormed (overflowing_vertices max (take_vertices max vs c)) (fill n max m vs c)
        (fill-IsFilled max m vs c h d)

  pub length-handled :
      (max : ℕ) (m : GraphMessage Num) (vs : List (String × VertexData Num)) (c : Canvas Num)
      → IsWellFormed c
      → Distinct (keys vs)
      → length (handled max m vs c).vertices ≤ max
  length-handled max m vs c h d =
      rw
        (
          vertices-make_room (overflowing_vertices max (take_vertices max vs c))
              (fill n max m vs c),
          vertices-fill max m vs c,
        )
        (overflow_bound c.vertex_sequence max (take_vertices max vs c)
          (take_vertices-TakenOk c h max vs d).taken)

  -- Whatever the server sends, with each vertex id once in it, a well-formed canvas stays so.
  pub on_message-IsWellFormed :
      (o : Options) (i : Incoming Num) (c : Canvas Num)
      → IsWellFormed c
      → IsKeyed i
      → IsWellFormed (on_message n o i c).0
  unfolding on_message on_configuration
  on_message-IsWellFormed o (configuration none) c h keyed = h
  on_message-IsWellFormed o (configuration (some e)) c h keyed = record {
    distinct = h.distinct;
    index = h.index;
    bounded = h.bounded;
    distinct_seqs = h.distinct_seqs;
    edges_ok = h.edges_ok;
    drawn = h.drawn;
  }
  on_message-IsWellFormed o (graph m) c h keyed = elim (Option-cases m.vertices) [
    | inl e ↦
        rw (e, on_graph)
          (record {
            distinct = h.distinct;
            index = h.index;
            bounded = h.bounded;
            distinct_seqs = h.distinct_seqs;
            edges_ok = h.edges_ok;
            drawn = h.drawn;
          })
    | inr (vs, e) ↦
        rw (e, on_graph)
          (tell-IsWellFormed o.max_vertex_count _ (handled o.max_vertex_count m vs c)
            (handled-IsWellFormed o.max_vertex_count m vs c h (keyed vs e)))
  ]

  -- After a graph message the canvas holds no more vertices than the limit.
  pub length-on_message :
      (o : Options) (m : GraphMessage Num) (vs : List (String × VertexData Num)) (c : Canvas Num)
      → IsWellFormed c
      → IsKeyed (graph m)
      → m.vertices ≡ some vs
      → length (on_message n o (graph m) c).0.vertices ≤ o.max_vertex_count
  unfolding on_message
  length-on_message o m vs c h keyed e =
      rw (e, on_graph)
        (rw (vertices-tell o.max_vertex_count _ (handled o.max_vertex_count m vs c))
          (length-handled o.max_vertex_count m vs c h (keyed vs e)))

  -- After it the storage holds the ids of the vertices on the canvas, in their order.
  stored-on_message :
      (o : Options) (m : GraphMessage Num) (vs : List (String × VertexData Num)) (c : Canvas Num)
      → m.vertices ≡ some vs
      → (on_message n o (graph m) c).0.stored ≡ ids (on_message n o (graph m) c).0.vertices
  unfolding on_message
  stored-on_message o m vs c e =
      rw (e, on_graph)
        (tell-IsSaved o.max_vertex_count _ (handled o.max_vertex_count m vs c) (
          make_room-IsSaved (overflowing_vertices o.max_vertex_count _) _
            (fill-IsSaved o.max_vertex_count m vs c)))
