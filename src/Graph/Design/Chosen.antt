-- ===== src/Graph/Design/Chosen.antt =====
-- That the vertices look as the user has chosen
-- (src/main/resources/web-data/js/graph-drawing.js).
use dyn_dco.Base.{
  arith, String, ◌≡◌, ◌≢◌, refl, sym, ◌∙◌, Option, none, some, List, [], ◌∷◌, false, ite,
  string_discrete, strings_differ, lookup, All, All-mono, All-zip, Table, map, contains, ltb, ap,
  subst,
}
use dyn_dco.Graph.Types.{Vertex, Canvas}
use dyn_dco.Graph.Index.{Distinct}
use dyn_dco.Graph.VertexLoops.{ids}
use dyn_dco.Graph.Canvas.Circles.{contains-selected}
use dyn_dco.Graph.Canvas.{find_vertex, remove_non_latest_vertices}
use dyn_dco.Graph.Canvas.Invariant.{IsWellFormed}
use dyn_dco.Graph.Canvas.Selection.{find_vertex_self, remove_non_latest_lem}
use dyn_dco.Graph.Design.{
  Palette, Painter, Design, color_metrics, border_metrics, size_metrics, painted, set_vertex_color,
  set_vertex_border, set_vertex_size, set_graph_design, apply_design, green_or_red,
}

abbrev pub size_key : String
size_key = "gd_vertexSize"

abbrev pub color_key : String
color_key = "gd_vertexColor"

abbrev pub border_key : String
border_key = "gd_vertexBorder"

size_color : size_key ≢ color_key
size_color = strings_differ _ _ refl

size_border : size_key ≢ border_key
size_border = strings_differ _ _ refl

color_border : color_key ≢ border_key
color_border = strings_differ _ _ refl

ite-holds : {Q A : Type 0} (P : A → Type 0) (t : Dec Q) {a b : A} → P a → P b → P (ite t a b)
ite-holds P (yes q) h k = h
ite-holds P (no q) h k = k

abbrev keys : List (String × String) → List String
keys options = map (λ o. o.0) options

lookup-absent :
    (k : String) (options : List (String × String))
    → contains (keys options) k ≡ false
    → lookup k options ≡ none
lookup-absent k [] h = refl
lookup-absent k ((x, v) ∷ rest) h = ground (arith, lookup-absent k rest)

-- What an option chooses from a table of metrics, or what there was.
abbrev pub chosen : {A : Type 0} → Option String → List (String × A) → Option A → Option A
chosen none table old = old
chosen (some metric) table old = lookup metric table

-- Going through one more option.
chosen-next :
    {A : Type 0} (table : List (String × A)) (x : Option A) {y z : Option A} (k key value : String)
    (rest : List (String × String)) (t : Dec (key ≡ k))
    → contains (keys rest) key ≡ false
    → z ≡ chosen (lookup k rest) table y
    → y ≡ chosen (ite t (some value) none) table x
    → z ≡ chosen (ite t (some value) (lookup k rest)) table x
chosen-next table x {y = y} k key value rest (yes e) a p q =
    p
    ∙ ap (λ o. chosen o table y)
        (lookup-absent k rest (subst (λ s. contains (keys rest) s ≡ false) e a))
    ∙ q
chosen-next table x k key value rest (no e) a p q = p ∙ ap (chosen (lookup k rest) table) q

module _ {N : Type 0} (palette : Palette N) where
  -- The circles look as the three variables say.
  pub record IsPainted (c : Canvas N) (d : Design palette) : Type 0 where
    pub fill : d.fill ≡ painted palette d.vertex_color c
    pub stroke : d.stroke ≡ painted palette d.vertex_border c
    pub r : d.r ≡ painted palette d.vertex_size c

  -- The variables are what is chosen by the option of each, if there is one.
  pub record Follows (by_size by_color by_border : Option String) (d e : Design palette)
      : Type 0 where
    pub size : e.vertex_size ≡ chosen by_size (size_metrics palette) d.vertex_size
    pub color : e.vertex_color ≡ chosen by_color (color_metrics palette) d.vertex_color
    pub border : e.vertex_border ≡ chosen by_border (border_metrics palette) d.vertex_border

  set_graph_design-IsPainted :
      (key value : String) (c : Canvas N) (d : Design palette)
      → IsPainted c d
      → IsPainted c (set_graph_design palette key value c d)
  unfolding set_graph_design set_vertex_color set_vertex_border set_vertex_size
  set_graph_design-IsPainted key value c d h =
      ite-holds (IsPainted c) (string_discrete key size_key)
        (record { fill = h.fill; stroke = h.stroke; r = refl })
        (ite-holds (IsPainted c) (string_discrete key color_key)
          (record { fill = refl; stroke = h.stroke; r = h.r })
          (ite-holds (IsPainted c) (string_discrete key border_key)
            (record { fill = h.fill; stroke = refl; r = h.r }) h))

  apply_design-IsPainted :
      (options : List (String × String)) (c : Canvas N) (d : Design palette)
      → IsPainted c d
      → IsPainted c (apply_design palette options c d)
  unfolding apply_design
  apply_design-IsPainted [] c d h = h
  apply_design-IsPainted ((key, value) ∷ rest) c d h =
      apply_design-IsPainted rest c _ (set_graph_design-IsPainted key value c d h)

  set_graph_design-Follows :
      (key value : String) (c : Canvas N) (d : Design palette)
      → Follows
          (ite (string_discrete key size_key) (some value) none)
          (ite (string_discrete key color_key) (some value) none)
          (ite (string_discrete key border_key) (some value) none)
          d
          (set_graph_design palette key value c d)
  unfolding set_graph_design set_vertex_color set_vertex_border set_vertex_size
  set_graph_design-Follows key value c d = record {
    size = ground (arith, size_color, size_border, color_border);
    color = ground (arith, size_color, size_border, color_border);
    border = ground (arith, size_color, size_border, color_border);
  }

  -- After the options have been gone through
  apply_design-Follows :
      (options : List (String × String)) (c : Canvas N) (d : Design palette)
      → Distinct (keys options)
      → Follows
          (lookup size_key options)
          (lookup color_key options)
          (lookup border_key options)
          d
          (apply_design palette options c d)
  unfolding apply_design
  apply_design-Follows [] c d h = record { size = refl; color = refl; border = refl }
  apply_design-Follows ((key, value) ∷ rest) c d h =
      let ih = apply_design-Follows rest c (set_graph_design palette key value c d) h.1 in
      let first = set_graph_design-Follows key value c d in
      record {
        size =
            chosen-next (size_metrics palette) d.vertex_size size_key key value rest
              (string_discrete key size_key) h.0 ih.size first.size;
        color =
            chosen-next (color_metrics palette) d.vertex_color color_key key value rest
              (string_discrete key color_key) h.0 ih.color first.color;
        border =
            chosen-next (border_metrics palette) d.vertex_border border_key key value rest
              (string_discrete key border_key) h.0 ih.border first.border;
      }

  painted_found :
      {A : Type 0} (f : Painter palette A) (c : Canvas N) (id : String) (v : Vertex N)
      → find_vertex id c.vertices ≡ some v
      → painted palette (some f) c id ≡ some (f c v)
  painted_found f c id v e = ground (arith, e)

  painted_lem :
      {A : Type 0} (f : Painter palette A) (c : Canvas N)
      → IsWellFormed c
      → All (λ v. painted palette (some f) c v.id ≡ some (f c v)) c.vertices
  painted_lem f c w =
      All-mono _ _ (λ v. painted_found f c v.id v) c.vertices
        (find_vertex_self c.vertices w.distinct)

  latest :
      lookup "Latest query" (border_metrics palette)
      ≡ some (λ c d. green_or_red palette (ltb c.vertex_sequence_end d.seq))
  unfolding border_metrics string_discrete
  latest = refl

  -- With the option "Latest query" for the borders, after the options have been gone through, the border
  -- of a vertex is green if removeNonLatestVertices would leave it on the canvas, and red if not.
  pub apply_design-latest_query :
      (options : List (String × String)) (c : Canvas N) (d : Design palette)
      → Distinct (keys options)
      → lookup border_key options ≡ some "Latest query"
      → IsWellFormed c
      → IsPainted c d
      → All
          (λ v.
            (apply_design palette options c d).stroke v.id
            ≡ some (
                green_or_red palette (contains (ids (remove_non_latest_vertices c).vertices) v.id)))
          c.vertices
  apply_design-latest_query options c d u e w h =
      All-mono _ _
        (λ v h.
          ap (λ (t : Table palette.Color). t v.id) looks
          ∙ h.0
          ∙ ap (λ b. some (green_or_red palette b))
              (sym h.1 ∙ ap (λ vs. contains (ids vs) v.id) (sym (remove_non_latest_lem c w))))
        c.vertices
        (All-zip _ _ c.vertices
          (painted_lem (λ c d. green_or_red palette (ltb c.vertex_sequence_end d.seq)) c w)
          (contains-selected (λ v. ltb c.vertex_sequence_end v.seq) c w))
    where
      looks :
          (apply_design palette options c d).stroke
          ≡ painted palette (some (λ c d. green_or_red palette (ltb c.vertex_sequence_end d.seq))) c
      looks =
          (apply_design-IsPainted options c d h).stroke
          ∙ ap (λ o. painted palette o c)
              ((apply_design-Follows options c d u).border
                ∙ ap (λ o. chosen o (border_metrics palette) d.vertex_border) e
                ∙ latest)
