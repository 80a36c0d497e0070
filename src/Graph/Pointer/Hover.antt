-- ===== src/Graph/Pointer/Hover.antt =====
-- What holds while the mouse is over a vertex (src/main/resources/web-data/js/graph-drawing.js).
use dyn_dco.Base.{
  arith, String, ◌≡◌, ◌≢◌, refl, Option, none, some, Bool, true, false, if◌then◌else◌,
}
use dyn_dco.Graph.Types.{Vertex, Edge}
use dyn_dco.Graph.Pointer.{
  DrawEdges, Pointer, Tooltip, dashes, about, hover_class, tick_class, mouse_move, fade_tooltip,
  ordered, load_vicinity, tick,
}

abbrev pub tooltip_id : {N : Type 0} → Tooltip N → Option String
tooltip_id dashes = none
tooltip_id (about v) = some v.id

asked_none :
    (asked : Bool) (id : String) (o : Option String)
    → (asked ≡ false → o ≡ none)
    → asked ≡ false
    → (if asked then some id else o) ≡ none
asked_none true id o h e = absurd (cc e)
asked_none false id o h e = h e

asked_some :
    (asked : Bool) (id : String) (o : Option String) (other : String)
    → (asked ≡ false → o ≡ none)
    → (if asked then some id else o) ≡ some other
    → some id ≡ some other
asked_some true id o other h e = e
asked_some false id o other h e = absurd (cc (h refl, e))

tick_class_lem :
    (draw : DrawEdges) (is_still : Bool) (o : Option String) (id : String) (e : Edge)
    → o ≡ some id
    → id ≢ ""
    → tick_class draw is_still o e ≡ hover_class id e
tick_class_lem draw is_still none id e q n = absurd (cc q)
tick_class_lem draw is_still (some other) id e q n = ground (arith)

module _ {N : Type 0} (draw : DrawEdges) (auto_add : Bool) where
  pub data Step : Pointer N → Pointer N → Type 0 where
    moving :
        (target : Option (Vertex N)) (p : Pointer N) → Step p (mouse_move draw auto_add target p)
    fading : (p : Pointer N) → Step p (fade_tooltip p)
    loading : (p : Pointer N) → Step p (load_vicinity p).0
    ticking : (is_still : Bool) (p : Pointer N) → Step p (tick draw is_still p)

  pub data Reach (p : Pointer N) : Pointer N → Type 0 where
    here : Reach p p
    next : {q r : Pointer N} → Reach p q → Step q r → Reach p r

  -- Without the option nothing is about to be loaded, and with it a vicinity is only about to be loaded for the vertex under the mouse; the tooltip is about to be
  -- hidden only if there is none, and is shown if there is one; and while one with an id is there, its
  -- edges, and no others, are drawn.
  pub record IsHover (p : Pointer N) : Type 0 where
    pub unasked : auto_add ≡ false → p.vicinity_pending ≡ none
    pub shown : tooltip_id p.tooltip ≡ p.hovering
    pub vicinity : (id : String) → p.vicinity_pending ≡ some id → p.hovering ≡ some id
    pub tooltip :
        (id : String) → p.hovering ≡ some id → (p.tooltip_shown ≡ true) × (p.fade_pending ≡ false)
    pub edges :
        (id : String) (e : Edge) → p.hovering ≡ some id → id ≢ "" → p.class_of e ≡ hover_class id e

  mouse_move-IsHover :
      (target : Option (Vertex N)) (p : Pointer N)
      → IsHover p
      → IsHover (mouse_move draw auto_add target p)
  unfolding mouse_move
  mouse_move-IsHover none p h = record {
    unasked = λ e. refl;
    shown = refl;
    vicinity = λ id e. absurd (cc e);
    tooltip = λ id e. absurd (cc e);
    edges = λ id e q n. absurd (cc q);
  }
  mouse_move-IsHover (some v) p h = record {
    unasked = λ e. asked_none auto_add v.id p.vicinity_pending h.unasked e;
    vicinity = λ id e. asked_some auto_add v.id p.vicinity_pending id h.unasked e;
    shown = refl;
    tooltip = λ id e. (refl, refl);
    edges = λ id e q n. cc q;
  }

  fade_tooltip-IsHover : (p : Pointer N) → IsHover p → IsHover (fade_tooltip p)
  unfolding fade_tooltip
  fade_tooltip-IsHover p h = faded p.fade_pending refl
    where
      faded :
          (b : Bool)
          → p.fade_pending ≡ b
          → IsHover (if b then record p { fade_pending = false; tooltip_shown = false } else p)
      faded true e = record {
        unasked = h.unasked;
        shown = h.shown;
        vicinity = h.vicinity;
        tooltip = λ id q. absurd (cc (e, (h.tooltip id q).1));
        edges = h.edges;
      }
      faded false e = h

  load_vicinity-IsHover : (p : Pointer N) → IsHover p → IsHover (load_vicinity p).0
  unfolding load_vicinity
  load_vicinity-IsHover p h = elim p.vicinity_pending as (λ o. IsHover (ordered o p).0) [
    | none ↦ h
    | some id ↦ record {
      unasked = λ q. refl;
      shown = h.shown;
      vicinity = λ other q. absurd (cc q);
      tooltip = h.tooltip;
      edges = h.edges;
    }
  ]

  tick-IsHover : (is_still : Bool) (p : Pointer N) → IsHover p → IsHover (tick draw is_still p)
  unfolding tick
  tick-IsHover is_still p h = record {
    unasked = h.unasked;
    shown = h.shown;
    vicinity = h.vicinity;
    tooltip = h.tooltip;
    edges = λ id e q n. tick_class_lem draw is_still p.hovering id e q n;
  }

  Step-IsHover : {p q : Pointer N} → Step p q → IsHover p → IsHover q
  Step-IsHover (moving target p) h = mouse_move-IsHover target p h
  Step-IsHover (fading p) h = fade_tooltip-IsHover p h
  Step-IsHover (loading p) h = load_vicinity-IsHover p h
  Step-IsHover (ticking is_still p) h = tick-IsHover is_still p h

  -- Moves of the mouse, timers and ticks keep what holds while the mouse is over a vertex: see `IsHover`.
  pub Reach-IsHover : {p q : Pointer N} → Reach p q → IsHover p → IsHover q
  Reach-IsHover here h = h
  Reach-IsHover (next r s) h = Step-IsHover s (Reach-IsHover r h)
