-- ===== src/GraphPanel/Modes.antt =====
-- The selection as a small state machine, and that the panel follows it
-- (src/main/resources/web-data/js/graph.js).
use dyn_dco.Base.{
  ℕ, String, ◌≡◌, refl, sym, subst, Option, none, some, List, [], ◌∷◌, ◌++◌, Bool, true, false,
  ◌==◌, if◌then◌else◌, Bool-cases, inl, inr,
}
use dyn_dco.GraphPanel.Selection.{
  Choice, remove, add_vicinities, Button, Panel, set_button, process_selection, Executed,
  execute_action, mouse_up, key_confirm, key_cancel, key_down, Event, click, confirm, draw, press,
  handle,
}

-- Nothing is going on, the user is about to draw a rectangle, or has drawn one.
pub data Mode : Type 0 where
  idle : Mode
  choosing : Choice → Mode
  chosen : Choice → List String → Mode

abbrev pub other : Choice → Choice
other remove = add_vicinities
other add_vicinities = remove

-- The key that confirms a choice: DEL or ENTER.
abbrev pub confirm_key : Choice → ℕ
confirm_key remove = 46
confirm_key add_vicinities = 13

abbrev pub same_choice : Choice → Choice → Bool
same_choice remove remove = true
same_choice remove add_vicinities = false
same_choice add_vicinities remove = false
same_choice add_vicinities add_vicinities = true

-- What an event means.
abbrev pub next : Event → Mode → Mode × List Executed
next (click w) idle = (choosing w, [])
next (click w) (choosing v) = (if same_choice v w then idle else choosing v, [])
next (click w) (chosen v ids) = (if same_choice v w then idle else chosen v ids, [])
next (confirm w) idle = (idle, [])
next (confirm w) (choosing v) = (choosing v, [])
next (confirm w) (chosen v ids) =
    if same_choice v w then (idle, (v, some ids) ∷ []) else (chosen v ids, [])
next (draw ids) idle = (idle, [])
next (draw ids) (choosing v) = (chosen v ids, [])
next (draw ids) (chosen v is) = (chosen v is, [])
next (press key) idle = (idle, [])
next (press key) (choosing v) = (if key == 27 then idle else choosing v, [])
next (press key) (chosen v ids) =
    if key == confirm_key v
    then (idle, (v, some ids) ∷ [])
    else (if key == 27 then (idle, []) else (chosen v ids, []))

abbrev off : Button
off = record { cancels = false; snd = false; active = false; confirm_shown = false }

-- The panel in a mode; what is left of an earlier selection does not matter when it is idle.
abbrev pub panel : Option Choice → Option (List String) → Mode → Panel
panel a s idle = record {
  remove_button = off;
  add_button = off;
  pick_action = a;
  selected = s;
  others_disabled = false;
  overlay = false;
}
panel a s (choosing w) =
    set_button w (record { cancels = true; snd = false; active = true; confirm_shown = false })
      (record {
        remove_button = off;
        add_button = off;
        pick_action = some w;
        selected = none;
        others_disabled = true;
        overlay = true;
      })
panel a s (chosen w ids) =
    set_button w (record { cancels = true; snd = true; active = true; confirm_shown = true })
      (record {
        remove_button = off;
        add_button = off;
        pick_action = some w;
        selected = some ids;
        others_disabled = true;
        overlay = false;
      })

-- The panel shows the mode.
abbrev pub Shows : Mode → Panel → Type 0
Shows m p = (a : Option Choice) × (s : Option (List String)) × (p ≡ panel a s m)

-- One step of the panel is one step of the machine, with the same effect.
abbrev pub Follows : Event → Mode → Panel × List Executed → Type 0
Follows e m r = Shows (next e m).0 r.0 × (r.1 ≡ (next e m).1)

panel-Follows :
    (e : Event) (a : Option Choice) (s : Option (List String)) (m : Mode)
    → Follows e m (handle e (panel a s m))
unfolding handle process_selection execute_action mouse_up key_down key_confirm key_cancel
panel-Follows (click remove) a s idle = ((a, s, refl), refl)
panel-Follows (click add_vicinities) a s idle = ((a, s, refl), refl)
panel-Follows (click remove) a s (choosing remove) = ((some remove, none, refl), refl)
panel-Follows (click remove) a s (chosen remove ids) = ((some remove, none, refl), refl)
panel-Follows (click remove) a s (choosing add_vicinities) = ((a, s, refl), refl)
panel-Follows (click remove) a s (chosen add_vicinities ids) = ((a, s, refl), refl)
panel-Follows (click add_vicinities) a s (choosing remove) = ((a, s, refl), refl)
panel-Follows (click add_vicinities) a s (chosen remove ids) = ((a, s, refl), refl)
panel-Follows (click add_vicinities) a s (choosing add_vicinities) =
    ((some add_vicinities, none, refl), refl)
panel-Follows (click add_vicinities) a s (chosen add_vicinities ids) =
    ((some add_vicinities, none, refl), refl)
panel-Follows (confirm remove) a s idle = ((a, s, refl), refl)
panel-Follows (confirm remove) a s (choosing remove) = ((a, s, refl), refl)
panel-Follows (confirm remove) a s (chosen remove ids) = ((some remove, some ids, refl), refl)
panel-Follows (confirm remove) a s (choosing add_vicinities) = ((a, s, refl), refl)
panel-Follows (confirm remove) a s (chosen add_vicinities ids) = ((a, s, refl), refl)
panel-Follows (confirm add_vicinities) a s idle = ((a, s, refl), refl)
panel-Follows (confirm add_vicinities) a s (choosing remove) = ((a, s, refl), refl)
panel-Follows (confirm add_vicinities) a s (chosen remove ids) = ((a, s, refl), refl)
panel-Follows (confirm add_vicinities) a s (choosing add_vicinities) = ((a, s, refl), refl)
panel-Follows (confirm add_vicinities) a s (chosen add_vicinities ids) =
    ((some add_vicinities, some ids, refl), refl)
panel-Follows (draw is) a s idle = ((a, s, refl), refl)
panel-Follows (draw is) a s (choosing remove) = ((a, s, refl), refl)
panel-Follows (draw is) a s (chosen remove ids) = ((a, s, refl), refl)
panel-Follows (draw is) a s (choosing add_vicinities) = ((a, s, refl), refl)
panel-Follows (draw is) a s (chosen add_vicinities ids) = ((a, s, refl), refl)
panel-Follows (press k) a s idle = ((a, s, refl), refl)
panel-Follows (press k) a s (choosing remove) = elim (Bool-cases (k == 27)) [
  | inl e ↦ rw e ((some remove, none, refl), refl)
  | inr e ↦ rw e ((a, s, refl), refl)
]
panel-Follows (press k) a s (chosen remove ids) = elim (Bool-cases (k == 46)) [
  | inl e ↦ rw e ((some remove, some ids, refl), refl)
  | inr e ↦ elim (Bool-cases (k == 27)) [
    | inl f ↦ rw (e, f) ((some remove, none, refl), refl)
    | inr f ↦ rw (e, f) ((a, s, refl), refl)
  ]
]
panel-Follows (press k) a s (choosing add_vicinities) = elim (Bool-cases (k == 27)) [
  | inl e ↦ rw e ((some add_vicinities, none, refl), refl)
  | inr e ↦ rw e ((a, s, refl), refl)
]
panel-Follows (press k) a s (chosen add_vicinities ids) = elim (Bool-cases (k == 13)) [
  | inl e ↦ rw e ((some add_vicinities, some ids, refl), refl)
  | inr e ↦ elim (Bool-cases (k == 27)) [
    | inl f ↦ rw (e, f) ((some add_vicinities, none, refl), refl)
    | inr f ↦ rw (e, f) ((a, s, refl), refl)
  ]
]

-- The machine and the panel after a list of events, with all that was executed.
abbrev pub next_all : List Event → Mode → Mode × List Executed
next_all [] m = (m, [])
next_all (e ∷ es) m =
    let (n, first) = next e m in let (l, second) = next_all es n in (l, first ++ second)

unfoldable pub handle_all : List Event → Panel → Panel × List Executed
handle_all [] p = (p, [])
handle_all (e ∷ es) p =
    let (q, first) = handle e p in let (r, second) = handle_all es q in (r, first ++ second)

-- The panel refines the machine of three modes: from a panel that shows a mode, any sequence of clicks,
-- rectangles and keys leads to the panel of the mode that the machine comes to, and executes the same
-- choices on the same vertices, in the same order.
pub handle_all-Shows :
    (es : List Event) (m : Mode) (p : Panel)
    → Shows m p
    → Shows (next_all es m).0 (handle_all es p).0 × ((handle_all es p).1 ≡ (next_all es m).1)
unfolding handle_all
handle_all-Shows [] m p h = (h, refl)
handle_all-Shows (e ∷ es) m p (a, s, q) =
    let (shows, effect) = subst (λ x. Follows e m (handle e x)) (sym q) (panel-Follows e a s m) in
    let (after, effects) = handle_all-Shows es (next e m).0 (handle e p).0 shows in
    (after, cc (effect, effects))
