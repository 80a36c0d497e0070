-- ===== src/BreakConditions/Examples.antt =====
-- A form that is filled in (src/main/resources/web-data/js/breakconditions.js).
use dyn_dco.Base.{◌≡◌, refl, some, true, false, string_discrete}
use dyn_dco.BreakConditions.Names.{pick_vertex, enter_state}
use dyn_dco.BreakConditions.Form.{
  Form, Order, form_completed, type_vertex_id, type_state, check_form_completed, add_condition,
  new_order, enable_buttons, on_open,
}
use dyn_dco.BreakConditions.Form.Checked.{
  Entered, Step, Checks, Life, Reach, add_condition-Complete,
}

abbrev fresh : Form
fresh = record {
  vertex_id = pick_vertex;
  condition = "state above:";
  state = enter_state;
  add_enabled = false;
  state_shown = true;
  picking = false;
}

abbrev filled : Form
filled = type_state "5" (type_vertex_id "v1" (enable_buttons (on_open fresh)))

abbrev filled_order : Order
filled_order = record { name = "state above"; vertex_id = some "v1"; expected_state = some "5" }

add_condition-Complete_example :
    (filled_order.vertex_id ≡ some "v1")
    × (filled_order.expected_state ≡ some "5")
    × Entered pick_vertex "v1"
    × Entered enter_state "5"
unfolding string_discrete type_state type_vertex_id check_form_completed form_completed
    add_condition new_order enable_buttons on_open
add_condition-Complete_example =
    add_condition-Complete {d = fresh} {e = enable_buttons (on_open fresh)}
      {f = type_vertex_id "v1" (enable_buttons (on_open fresh))} {g = filled} filled_order
      (Life.enabling (Life.opening Life.new))
      (Checks.after_vertex_id (enable_buttons (on_open fresh)) "v1")
      (Reach.next Reach.here
        (Step.typing_state (type_vertex_id "v1" (enable_buttons (on_open fresh))) "5"))
      refl refl
