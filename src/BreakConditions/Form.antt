-- ===== src/BreakConditions/Form.antt =====
-- The form for a new condition (src/main/resources/web-data/js/breakconditions.js).
pub mod Checked
use Prim.Native.Char.{code}
use dyn_dco.Base.{
  arith, ℕ, String, ◌≡◌, ◌≢◌, refl, sym, subst, ap, ◌∙◌, Option, none, some, List, [], ◌∷◌, Bool,
  true, false, not, ◌||◌, ◌==◌, if◌then◌else◌, ite, string_discrete, contains, Bool-cases, inl, inr,
}
use dyn_dco.BreakConditions.Names.{
  pick_vertex, enter_state, state_changes, state_names, signal_names, collect_names,
}

-- The fields, whether "add" is enabled and the field for the state is shown, and whether the user is
-- picking a vertex with the mouse.
pub record Form : Type 0 where
  pub vertex_id : String
  pub condition : String
  pub state : String
  pub add_enabled : Bool
  pub state_shown : Bool
  pub picking : Bool

-- An order for a new condition: `props` has only the members that are not `none`.
pub record Order : Type 0 where
  pub name : String
  pub vertex_id : Option String
  pub expected_state : Option String

abbrev pub is_text : String → String → Bool
is_text x y = ite (string_discrete x y) true false

-- `.replace(/:/g, "")`
abbrev pub without_colons : String → String
without_colons String.[] = String.[]
without_colons (String.◌∷◌ c s) =
    let rest = without_colons s in if code c == b':' then rest else String.◌∷◌ c rest

-- `formCompleted`
unfoldable pub form_completed : Form → Bool
form_completed f =
    if is_text f.vertex_id pick_vertex || is_text f.vertex_id ""
    then false
    else (if not (contains state_names (without_colons f.condition))
        then true
        else (if is_text f.state enter_state || is_text f.state "" then false else true))

-- `checkFormCompleted`, on each keyup
unfoldable pub check_form_completed : Form → Form
check_form_completed f = record f { add_enabled = form_completed f }

-- `onopen`; the button is left as it is.
unfoldable pub on_open : Form → Form
on_open f = record f { vertex_id = pick_vertex }

-- When vertices are selected with the mouse, the panel of the graph disables every other button of the
-- page, and enables every button of it before and after that.
unfoldable pub disable_buttons : Form → Form
disable_buttons f = record f { add_enabled = false }

unfoldable pub enable_buttons : Form → Form
enable_buttons f = record f { add_enabled = true }

-- The user types into a field.
unfoldable pub type_vertex_id : String → Form → Form
type_vertex_id s f = check_form_completed (record f { vertex_id = s })

unfoldable pub type_state : String → Form → Form
type_state s f = check_form_completed (record f { state = s })

-- `checkEmptyField`
unfoldable pub check_empty_field : Form → Form
check_empty_field f = check_form_completed (record f {
  vertex_id = if is_text f.vertex_id "" then pick_vertex else f.vertex_id;
  state = if is_text f.state "" then enter_state else f.state;
})

-- A click on "Select" or "Cancel".
unfoldable pub use_mouse : Form → Form
use_mouse f = record f { picking = not f.picking }

-- A click on the canvas: on a vertex, or next to one.
unfoldable pub click_canvas : Option String → Form → Form
click_canvas target f =
    if f.picking
    then elim target [
      | none ↦ record f { picking = false; vertex_id = pick_vertex; add_enabled = false }
      | some id ↦ check_form_completed (record f { picking = false; vertex_id = id })
    ]
    else f

-- Another type of condition is chosen.
unfoldable pub choose_condition : String → Form → Form
choose_condition c f =
    let name = without_colons c in
    check_form_completed (record f {
      condition = c;
      state_shown =
          if contains state_names name
          then true
          else (if contains (state_changes ∷ []) name
                || contains signal_names name
                || contains collect_names name
              then false
              else f.state_shown);
    })

-- The order that "add" sends.
unfoldable pub new_order : Form → Order
new_order f =
    let name = without_colons f.condition in
    if contains state_names name
    then record { name = name; vertex_id = some f.vertex_id; expected_state = some f.state }
    else (if contains (state_changes ∷ []) name
          || contains signal_names name
          || contains collect_names name
        then record { name = name; vertex_id = some f.vertex_id; expected_state = none }
        else record { name = name; vertex_id = none; expected_state = none })

-- A click on "add".
unfoldable pub add_condition : Form → Form × Option Order
add_condition f = if f.add_enabled then (check_form_completed f, some (new_order f)) else (f, none)
