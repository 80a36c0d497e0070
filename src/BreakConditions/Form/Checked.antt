-- ===== src/BreakConditions/Form/Checked.antt =====
-- What the form makes sure of (src/main/resources/web-data/js/breakconditions.js).
use dyn_dco.Base.{
  arith, String, ◌≡◌, ◌≢◌, refl, sym, subst, ap, ◌∙◌, Option, none, some, Bool, true, if◌then◌else◌,
  contains, Bool-cases, inl, inr,
}
use dyn_dco.BreakConditions.Names.{pick_vertex, enter_state, state_names}
use dyn_dco.BreakConditions.Form.{
  Form, Order, without_colons, form_completed, check_form_completed, type_vertex_id, type_state,
  check_empty_field, use_mouse, click_canvas, choose_condition, new_order, add_condition,
  disable_buttons, enable_buttons, on_open,
}

-- What the user does to the form, and the buttons that the panel of the graph disables. What enables "add"
-- without a look at the form, `enable_buttons` of that panel, and what changes the form without a check,
-- `on_open`, are not among these steps.
pub data Step : Form → Form → Type 0 where
  typing_vertex_id : (f : Form) (s : String) → Step f (type_vertex_id s f)
  typing_state : (f : Form) (s : String) → Step f (type_state s f)
  leaving_field : (f : Form) → Step f (check_empty_field f)
  using_mouse : (f : Form) → Step f (use_mouse f)
  clicking_canvas : (f : Form) (target : Option String) → Step f (click_canvas target f)
  choosing : (f : Form) (c : String) → Step f (choose_condition c f)
  adding : (f : Form) → Step f (add_condition f).0
  disabling : (f : Form) → Step f (disable_buttons f)

pub data Reach (s : Form) : Form → Type 0 where
  here : Reach s s
  next : {f g : Form} → Reach s f → Step f g → Reach s g

-- "add" is only enabled for a completed form.
abbrev pub IsChecked : Form → Type 0
IsChecked f = f.add_enabled ≡ true → form_completed f ≡ true

-- What checks the form, in whatever state its button was.
pub data Checks : Form → Form → Type 0 where
  after_vertex_id : (f : Form) (s : String) → Checks f (type_vertex_id s f)
  after_state : (f : Form) (s : String) → Checks f (type_state s f)
  after_leaving : (f : Form) → Checks f (check_empty_field f)
  after_choosing : (f : Form) (c : String) → Checks f (choose_condition c f)

-- Everything that happens to the form: also a connection that opens, and the panel of the graph.
pub data Life (s : Form) : Form → Type 0 where
  new : Life s s
  step : {f g : Form} → Life s f → Step f g → Life s g
  opening : {f : Form} → Life s f → Life s (on_open f)
  enabling : {f : Form} → Life s f → Life s (enable_buttons f)

check-IsChecked : (f : Form) → IsChecked (check_form_completed f)
unfolding check_form_completed form_completed
check-IsChecked f = λ e. e

click-IsChecked :
    (target : Option String) (f : Form) → IsChecked f → IsChecked (click_canvas target f)
unfolding click_canvas check_form_completed form_completed
click-IsChecked none f h = elim (Bool-cases f.picking) [ inl e ↦ rw e (λ q. cc q) | inr e ↦ rw e h ]
click-IsChecked (some id) f h = elim (Bool-cases f.picking) [
  | inl e ↦ rw e (λ q. q)
  | inr e ↦ rw e h
]

add-IsChecked : (f : Form) → IsChecked f → IsChecked (add_condition f).0
unfolding add_condition
add-IsChecked f h = elim (Bool-cases f.add_enabled) [
  | inl e ↦ subst (λ b. IsChecked (outcome b).0) (sym e) (check-IsChecked f)
  | inr e ↦ subst (λ b. IsChecked (outcome b).0) (sym e) h
]
  where
    outcome : Bool → Form × Option Order
    outcome b = if b then (check_form_completed f, some (new_order f)) else (f, none)

Step-IsChecked : {f g : Form} → Step f g → IsChecked f → IsChecked g
unfolding type_vertex_id type_state check_empty_field use_mouse choose_condition form_completed
    disable_buttons
Step-IsChecked (typing_vertex_id f s) h = check-IsChecked (record f { vertex_id = s })
Step-IsChecked (typing_state f s) h = check-IsChecked (record f { state = s })
Step-IsChecked (leaving_field f) h = check-IsChecked _
Step-IsChecked (using_mouse f) h = h
Step-IsChecked (clicking_canvas f target) h = click-IsChecked target f h
Step-IsChecked (choosing f c) h = check-IsChecked _
Step-IsChecked (disabling f) h = λ e. absurd (cc e)
Step-IsChecked (adding f) h = add-IsChecked f h

Reach-IsChecked : {f g : Form} → IsChecked f → Reach f g → IsChecked g
Reach-IsChecked h here = h
Reach-IsChecked h (next r st) = Step-IsChecked st (Reach-IsChecked h r)

Checks-IsChecked : {f g : Form} → Checks f g → IsChecked g
unfolding type_vertex_id type_state check_empty_field choose_condition
Checks-IsChecked (after_vertex_id f s) = check-IsChecked (record f { vertex_id = s })
Checks-IsChecked (after_state f s) = check-IsChecked (record f { state = s })
Checks-IsChecked (after_leaving f) = check-IsChecked _
Checks-IsChecked (after_choosing f c) = check-IsChecked _

-- A text that the user entered.
abbrev pub Entered : String → String → Type 0
Entered default s = (s ≢ default) × (s ≢ "")

form_completed-vertex : (f : Form) → form_completed f ≡ true → Entered pick_vertex f.vertex_id
unfolding form_completed
form_completed-vertex f h = ground (arith, h)

form_completed-state :
    (f : Form)
    → form_completed f ≡ true
    → contains state_names (without_colons f.condition) ≡ true
    → Entered enter_state f.state
unfolding form_completed
form_completed-state f h c = ground (arith, h, c)

new_order-state :
    (f : Form)
    → contains state_names (without_colons f.condition) ≡ true
    → new_order f ≡ record {
      name = without_colons f.condition;
      vertex_id = some f.vertex_id;
      expected_state = some f.state;
    }
unfolding new_order
new_order-state f c = rw c refl

add_condition-cases :
    (f : Form) (o : Order)
    → (add_condition f).1 ≡ some o
    → (f.add_enabled ≡ true) × (o ≡ new_order f)
unfolding add_condition
add_condition-cases f o e = elim (Bool-cases f.add_enabled) [
  | inl t ↦ (t, cc (e, t))
  | inr t ↦ absurd (cc (e, t))
]

-- Whatever has happened to the form, also connections that opened and the panel of the graph: once the user
-- has changed a field or left one, and however the user goes on filling in the form, until a connection
-- opens again or the panel of the graph enables all buttons, an order that "add" sends for a condition on
-- a state has the id and the state that were entered, neither of them empty nor the text that the fields
-- begin with.
pub add_condition-Complete :
    {d e f g : Form} (o : Order)
    → Life d e
    → Checks e f
    → Reach f g
    → contains state_names (without_colons g.condition) ≡ true
    → (add_condition g).1 ≡ some o
    → (o.vertex_id ≡ some g.vertex_id)
      × (o.expected_state ≡ some g.state)
      × Entered pick_vertex g.vertex_id
      × Entered enter_state g.state
add_condition-Complete {g = g} o l k r c e =
    let (enabled, is_new) = add_condition-cases g o e in
    let completed = Reach-IsChecked (Checks-IsChecked k) r enabled in
    let q = is_new ∙ new_order-state g c in
    (
      ap (λ x. x.vertex_id) q,
      ap (λ x. x.expected_state) q,
      form_completed-vertex g completed,
      form_completed-state g completed c,
    )

-- Without such a check the text that the fields begin with is sent.
enable_buttons-sends :
    (f : Form)
    → contains state_names (without_colons f.condition) ≡ true
    → (add_condition (on_open (enable_buttons f))).1
      ≡ some (record {
        name = without_colons f.condition;
        vertex_id = some pick_vertex;
        expected_state = some f.state;
      })
unfolding on_open enable_buttons add_condition
enable_buttons-sends f c = ap some (new_order-state _ c)
