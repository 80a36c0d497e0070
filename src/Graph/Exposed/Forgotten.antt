-- ===== src/Graph/Exposed/Forgotten.antt =====
-- Which vertex a message shows in the exposition panel
-- (src/main/resources/web-data/js/graph-drawing.js).
use dyn_dco.Base.{
  arith, Bool, true, ltb, Bool-cases, ℕ, String, ◌≡◌, refl, ◌∙◌, Option, none, some, List, [], ◌∷◌,
  ◌++◌, length, ◌+◌, Option-cases, inl, inr,
}
use dyn_dco.Graph.Types.{
  Vertex, VertexData, GraphMessage, Canvas, Options, Numbers, too_many, expose,
}
use dyn_dco.Graph.Canvas.{
  find_vertex, restart, save, remove_vertices_from_canvas, overflowing_vertices,
}
use dyn_dco.Graph.VertexLoops.{visit_all}
use dyn_dco.Graph.Message.{
  Incoming, configuration, graph, take_vertices, take_edges, make_room, tell_left_out, loop_of,
  fill, exposed, refreshed, on_graph, on_message, on_configuration,
}
use dyn_dco.Graph.Exposed.{Sidebar, shown_by, click_expose, open_sidebar, receive}

module _ {N : Type 0} (exposes : Vertex N → Bool) where
  shown_by-refreshed :
      (o : Options) (old : Option (Vertex N)) → shown_by exposes (refreshed o) old ≡ old
  shown_by-refreshed o old = ground arith

  shown_by-once :
      (o : Options) (v : Vertex N) (old : Option (Vertex N))
      → exposes v ≡ true
      → shown_by exposes (expose v ∷ refreshed o) old ≡ some v
  shown_by-once o v old x = rw x (shown_by-refreshed o (some v))

module _ {N : Type 0} where
  exposed-once :
      (c : Canvas N) (id : String) (v : Vertex N)
      → c.exposed_vertex_id ≡ some id
      → find_vertex id c.vertices ≡ some v
      → exposed c ≡ expose v ∷ []
  exposed-once c id v e f = ground (arith, e, f)

  make_room-exposed_id :
      (removed : List String) (c : Canvas N)
      → (make_room removed c).exposed_vertex_id ≡ c.exposed_vertex_id
  unfolding make_room remove_vertices_from_canvas restart save
  make_room-exposed_id [] c = refl
  make_room-exposed_id (id ∷ removed) c = refl

  tell-exposed_id :
      (max left_out : ℕ) (c : Canvas N)
      → (tell_left_out max left_out c).0.exposed_vertex_id ≡ c.exposed_vertex_id
  unfolding tell_left_out
  tell-exposed_id max left_out c = ground arith

  take_edges-exposed_id :
      (es : Option (List (String × List String))) (c : Canvas N)
      → (take_edges es c).exposed_vertex_id ≡ c.exposed_vertex_id
  unfolding take_edges
  take_edges-exposed_id none c = refl
  take_edges-exposed_id (some es) c = refl

module _ (n : Numbers) where
  open n use {Num}

  fill-exposed_id :
      (max : ℕ) (m : GraphMessage Num) (vs : List (String × VertexData Num)) (c : Canvas Num)
      → (fill n max m vs c).exposed_vertex_id ≡ c.exposed_vertex_id
  unfolding fill take_vertices save
  fill-exposed_id max m vs c = take_edges-exposed_id m.edges _

  on_message-exposed_id :
      (o : Options) (j : Incoming Num) (c : Canvas Num)
      → (on_message n o j c).0.exposed_vertex_id ≡ c.exposed_vertex_id
  unfolding on_message on_configuration on_graph
  on_message-exposed_id o (configuration none) c = refl
  on_message-exposed_id o (configuration (some t)) c = refl
  on_message-exposed_id o (graph m) c = elim (Option-cases m.vertices) [
    | inl e ↦ rw (e, on_graph) refl
    | inr (vs, e) ↦
        rw (e, on_graph)
          (tell-exposed_id o.max_vertex_count _ _
            ∙ make_room-exposed_id (overflowing_vertices o.max_vertex_count _) _
            ∙ fill-exposed_id o.max_vertex_count m vs c)
  ]

module _ (n : Numbers) (exposes : Vertex (n.Num) → Bool) where
  open n use {Num}

  -- The canvas after the message, and what it shows.
  told-shows :
      (o : Options) (id : String) (v : Vertex Num) (max left_out : ℕ) (c : Canvas Num)
      (old : Option (Vertex Num))
      → c.exposed_vertex_id ≡ some id
      → find_vertex id (tell_left_out max left_out c).0.vertices ≡ some v
      → exposes v ≡ true
      → (let (told, actions) = tell_left_out max left_out c in
          shown_by exposes (actions ++ exposed told ++ refreshed o) old ≡ some v)
  unfolding tell_left_out
  told-shows o id v max left_out c old e f x = elim (Bool-cases (ltb 0 left_out)) [
    | inl q ↦ rw q (
        rw
          (exposed-once (record c { background = too_many (left_out + length c.vertices) max }) id v
            e (rw q at f))
          (shown_by-once exposes o v old x))
    | inr q ↦ rw q (rw (exposed-once c id v e (rw q at f)) (shown_by-once exposes o v old x))
  ]

  -- Clicks on the canvas, and messages.
  pub data Step : Sidebar Num → Sidebar Num → Type 0 where
    clicking :
        (target : Option (Vertex Num)) (s : Sidebar Num) → Step s (click_expose exposes target s)
    receiving :
        (o : Options) (j : Incoming Num) (s : Sidebar Num) → Step s (receive n exposes o j s)

  pub data Reach (s : Sidebar Num) : Sidebar Num → Type 0 where
    here : Reach s s
    next : {t u : Sidebar Num} → Reach s t → Step t u → Reach s u

  click-exposed_id :
      (target : Option (Vertex Num)) (s : Sidebar Num)
      → (click_expose exposes target s).canvas.exposed_vertex_id ≡ s.canvas.exposed_vertex_id
  unfolding click_expose
  click-exposed_id none s = refl
  click-exposed_id (some v) s = ground arith

  Step-exposed_id :
      {s t : Sidebar Num} → Step s t → t.canvas.exposed_vertex_id ≡ s.canvas.exposed_vertex_id
  unfolding receive
  Step-exposed_id (clicking target s) = click-exposed_id target s
  Step-exposed_id (receiving o j s) = on_message-exposed_id n o j s.canvas

  Reach-exposed_id :
      {s t : Sidebar Num} → Reach s t → t.canvas.exposed_vertex_id ≡ s.canvas.exposed_vertex_id
  Reach-exposed_id here = refl
  Reach-exposed_id (next r q) = Step-exposed_id q ∙ Reach-exposed_id r

  -- However the user has clicked since the panel was opened, and whatever messages came, a message with
  -- vertices puts back into it the vertex whose id was in the storage when it was opened, if that is on
  -- the canvas after the message and its exposition does not throw.
  pub receive-forgets_clicks :
      (o : Options) (m : GraphMessage Num) (vs : List (String × VertexData Num)) (id : String)
      (v : Vertex Num) (s : Sidebar Num) {t : Sidebar Num}
      → s.stored_id ≡ some id
      → Reach (open_sidebar s) t
      → m.vertices ≡ some vs
      → find_vertex id (receive n exposes o (graph m) t).canvas.vertices ≡ some v
      → exposes v ≡ true
      → (receive n exposes o (graph m) t).shown ≡ some v
  unfolding receive on_message open_sidebar
  receive-forgets_clicks o m vs id v s {t} e r q f x =
      let max = o.max_vertex_count in
      let removed = overflowing_vertices max (take_vertices max vs t.canvas) in
      let filled = fill n max m vs t.canvas in
      rw (q, on_graph)
        (told-shows o id v max (visit_all max (loop_of t.canvas) vs).too_many_vertices
          (make_room removed filled) t.shown
          (make_room-exposed_id removed filled
            ∙ fill-exposed_id n max m vs t.canvas
            ∙ Reach-exposed_id r
            ∙ e)
          (rw (q, on_graph) at f) x)
