-- ===== src/Graph/Design.antt =====
-- How the vertices are drawn: the metrics behind their color, border and size
-- (src/main/resources/web-data/js/graph-drawing.js).
pub mod Chosen
use dyn_dco.Base.{
  ℕ, String, Option, none, some, List, [], ◌∷◌, Bool, ltb, if◌then◌else◌, ite, string_discrete,
  lookup, Table,
}
use dyn_dco.Graph.Types.{Vertex, Radius, Canvas}
use dyn_dco.Graph.Canvas.{find_vertex}

-- What a scale of d3 is asked about: `d.r`, or a number.
pub data Reading (N : Type 0) : Type 0 where
  of_radius : Radius → Reading N
  of_number : N → Reading N

-- The scales of d3, the texts that name colors, and numbers.
pub record Palette (N : Type 0) : Type 1 where
  pub Color : Type 0
  pub Size : Type 0
  pub color : String → Color
  pub color_gradient : Option (N × N × N) → Reading N → Color
  pub size_gradient : Option (N × N × N) → Reading N → Size
  pub hex : String → Color
  pub pixels : ℕ → Size
  pub number : ℕ → N
  pub gtb : N → N → Bool

module _ {N : Type 0} (palette : Palette N) where
  -- A function of `vertexDesign`, which reads the variables of the canvas when it runs.
  abbrev pub Painter : Type 0 → Type 0
  Painter A = Canvas N → Vertex N → A

  -- `a ? "#00ff00" : "#ff0000"`
  abbrev pub green_or_red : Bool → palette.Color
  green_or_red a = palette.hex (if a then "#00ff00" else "#ff0000")

  -- What all vertices of one color have, and what they have at their border.
  abbrev metrics : palette.Color → List (String × Painter palette.Color)
  metrics equal =
      ("Vertex type", λ c d. palette.color d.t)
      ∷ ("Vertex state", λ c d. palette.color_gradient c.gradient_domain (of_radius d.r))
      ∷ ("Vertex id", λ c d. palette.color d.id)
      ∷ ("Latest query", λ c d. green_or_red (ltb c.vertex_sequence_end d.seq))
      ∷ ("All equal", λ c d. equal)
      ∷ (
        "Outgoing degree",
        λ c d.
            palette.color_gradient (some (palette.number 1, palette.number 5, palette.number 50))
              (of_number d.es),
      )
      ∷ ("Signal threshold", λ c d. green_or_red (palette.gtb d.ss c.signal_threshold))
      ∷ ("Collect threshold", λ c d. green_or_red (palette.gtb d.cs c.collect_threshold))
      ∷ []

  -- `vertexDesign["gd_vertexColor"]`
  unfoldable pub color_metrics : List (String × Painter palette.Color)
  color_metrics = metrics (palette.hex "#17becf")

  -- `vertexDesign["gd_vertexBorder"]`
  unfoldable pub border_metrics : List (String × Painter palette.Color)
  border_metrics = metrics (palette.hex "#9edae5")

  -- `vertexDesign["gd_vertexSize"]`
  unfoldable pub size_metrics : List (String × Painter palette.Size)
  size_metrics =
      ("Vertex state", λ c d. palette.size_gradient c.gradient_domain (of_radius d.r))
      ∷ ("All equal", λ c d. palette.pixels 5)
      ∷ []

  -- `vertexColor`, `vertexBorder` and `vertexSize`, `none` for undefined, and what the circles have, by
  -- the id of their vertex.
  pub record Design : Type 0 where
    pub vertex_color : Option (Painter palette.Color)
    pub vertex_border : Option (Painter palette.Color)
    pub vertex_size : Option (Painter palette.Size)
    pub fill : Table palette.Color
    pub stroke : Table palette.Color
    pub r : Table palette.Size

  -- `svgVertices.style(…, s)`: an undefined `s` takes the property away.
  abbrev pub painted : {A : Type 0} → Option (Painter A) → Canvas N → Table A
  painted none c id = none
  painted (some f) c id = elim (find_vertex id c.vertices) [ none ↦ none | some v ↦ some (f c v) ]

  -- `setVertexColor`
  unfoldable pub set_vertex_color : Option (Painter palette.Color) → Canvas N → Design → Design
  set_vertex_color s c d = record d { vertex_color = s; fill = painted s c }

  -- `setVertexBorder`
  unfoldable pub set_vertex_border : Option (Painter palette.Color) → Canvas N → Design → Design
  set_vertex_border s c d = record d { vertex_border = s; stroke = painted s c }

  -- `setVertexSize`
  unfoldable pub set_vertex_size : Option (Painter palette.Size) → Canvas N → Design → Design
  set_vertex_size s c d = record d { vertex_size = s; r = painted s c }

  -- `resetVertexStyle`, and what `restart` does to the circles.
  unfoldable pub reset_vertex_style : Canvas N → Design → Design
  reset_vertex_style c d = record d {
    fill = painted d.vertex_color c;
    stroke = painted d.vertex_border c;
    r = painted d.vertex_size c;
  }

  -- `setGraphDesign`
  unfoldable pub set_graph_design : String → String → Canvas N → Design → Design
  set_graph_design property metric c d =
      ite (string_discrete property "gd_vertexSize")
        (set_vertex_size (lookup metric size_metrics) c d)
        (ite (string_discrete property "gd_vertexColor")
          (set_vertex_color (lookup metric color_metrics) c d)
          (ite (string_discrete property "gd_vertexBorder")
            (set_vertex_border (lookup metric border_metrics) c d) d))

  -- `onopen` goes through the options in the settings.
  unfoldable pub apply_design : List (String × String) → Canvas N → Design → Design
  apply_design [] c d = d
  apply_design ((key, value) ∷ rest) c d = apply_design rest c (set_graph_design key value c d)
