-- ===== src/GraphPanel/Selection.antt =====
-- The buttons for selected vertices, the selection rectangle and the keys
-- (src/main/resources/web-data/js/graph.js).
use dyn_dco.Base.{
  ℕ, ◌-◌, String, Option, none, some, List, [], ◌∷◌, ◌++◌, Bool, true, false, ltb, ◌==◌,
  if◌then◌else◌,
}

-- `pickAction`
pub data Choice : Type 0 where
  remove add_vicinities : Choice

-- A button for selected vertices, "Cancel" or not, with its classes, and whether the button that
-- confirms the choice is shown.
pub record Button : Type 0 where
  pub cancels : Bool
  pub snd : Bool
  pub active : Bool
  pub confirm_shown : Bool

-- The variables of the selection. If `others_disabled`, all buttons but the active ones are disabled;
-- those that confirm are always active. `overlay` is whether the mouse draws a rectangle.
pub record Panel : Type 0 where
  pub remove_button : Button
  pub add_button : Button
  pub pick_action : Option Choice
  pub selected : Option (List String)
  pub others_disabled : Bool
  pub overlay : Bool

abbrev pub button : Choice → Panel → Button
button remove p = p.remove_button
button add_vicinities p = p.add_button

abbrev pub set_button : Choice → Button → Panel → Panel
set_button remove b p = record p { remove_button = b }
set_button add_vicinities b p = record p { add_button = b }

-- `$("button").removeClass("snd")`
abbrev pub no_snd : Panel → Panel
no_snd p = record p {
  remove_button = record p.remove_button { snd = false };
  add_button = record p.add_button { snd = false };
}

-- `processSelection`
unfoldable pub process_selection : Choice → Panel → Panel
process_selection w p =
    let b = button w p in
    let q = record p { selected = none; others_disabled = false; pick_action = some w } in
    if b.cancels
    then record (set_button w
        (record { cancels = false; snd = false; active = false; confirm_shown = false }) q) {
          overlay = false;
        }
    else record (set_button w
        (record { cancels = true; snd = false; active = true; confirm_shown = false }) (no_snd q)) {
          overlay = true;
          others_disabled = true;
        }

-- What a confirmed choice does with the selected vertices: they are removed, or their vicinities
-- ordered.
abbrev pub Executed : Type 0
Executed = Choice × Option (List String)

-- `executeAction`
unfoldable pub execute_action : Choice → Panel → Panel × List Executed
execute_action w p = (
  record (set_button w
      (record { cancels = false; snd = false; active = false; confirm_shown = false }) p) {
        others_disabled = false;
      },
  (w, p.selected) ∷ [],
)

-- `mouseup.selectVertices`: the vertices in the rectangle are selected.
unfoldable pub mouse_up : List String → Panel → Panel
mouse_up ids p =
    let q = record p { selected = some ids; overlay = false } in
    elim p.pick_action [
      | none ↦ q
      | some w ↦ set_button w (record (button w q) { snd = true; confirm_shown = true }) q
    ]

-- `keydown`: DEL and ENTER confirm, ESC cancels.
unfoldable pub key_confirm : Choice → ℕ → ℕ → Panel → Panel × List Executed
key_confirm w code key p =
    if (button w p).snd then (if key == code then execute_action w p else (p, [])) else (p, [])

unfoldable pub key_cancel : Choice → ℕ → Panel → Panel
key_cancel w key p =
    if (button w p).cancels then (if key == 27 then process_selection w p else p) else p

unfoldable pub key_down : ℕ → Panel → Panel × List Executed
key_down key p =
    let (q, first) = key_confirm remove 46 key p in
    let r = key_cancel remove key q in
    let (s, second) = key_confirm add_vicinities 13 key r in
    (key_cancel add_vicinities key s, first ++ second)

-- What the user does. A disabled or hidden button cannot be clicked, and the mouse draws only on the
-- overlay.
pub data Event : Type 0 where
  click : Choice → Event
  confirm : Choice → Event
  draw : List String → Event
  press : ℕ → Event

abbrev pub can_click : Choice → Panel → Bool
can_click w p = if p.others_disabled then (button w p).active else true

unfoldable pub handle : Event → Panel → Panel × List Executed
handle (click w) p = if can_click w p then (process_selection w p, []) else (p, [])
handle (confirm w) p = if (button w p).confirm_shown then execute_action w p else (p, [])
handle (draw ids) p = if p.overlay then (mouse_up ids p, []) else (p, [])
handle (press key) p = key_down key p

-- `cornersToDimensions`
pub record Point : Type 0 where
  pub x : ℕ
  pub y : ℕ

pub record Dimensions : Type 0 where
  pub left : ℕ
  pub top : ℕ
  pub width : ℕ
  pub height : ℕ

abbrev pub min : ℕ → ℕ → ℕ
min a b = if ltb a b then a else b

abbrev pub max : ℕ → ℕ → ℕ
max a b = if ltb a b then b else a

unfoldable pub corners_to_dimensions : Point → Point → Dimensions
corners_to_dimensions a b =
    let left = min a.x b.x in
    let top = min a.y b.y in
    record { left = left; top = top; width = max a.x b.x - left; height = max a.y b.y - top }
