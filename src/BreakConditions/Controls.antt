-- ===== src/BreakConditions/Controls.antt =====
-- What the list of conditions and the form order (src/main/resources/web-data/js/breakconditions.js).
use dyn_dco.Base.{
  ℕ, String, ◌≡◌, none, some, List, [], ◌∷◌, ◌++◌, Bool, true, false, not, ◌||◌, if◌then◌else◌,
  keep_if, arith,
}
use dyn_dco.Console.Orders.{Request, Console, order, pending_for}
use dyn_dco.Console.Orders.Coherent.{IsCoherent}
use dyn_dco.Console.Orders.Pending.{order-supersedes}
use dyn_dco.Graph.Queries.{Query, Inputs, add_by_substring}
use dyn_dco.BreakConditions.Names.{pick_vertex, enter_state}
use dyn_dco.BreakConditions.Form.{Form, Order, is_text, add_condition, new_order}
use dyn_dco.BreakConditions.Conditions.{Incoming, Row, Line, on_message}

-- The list on the page, and whether the handlers of its rows have been attached.
pub record Shown : Type 0 where
  pub lines : List Line
  pub attached : Bool

-- The objects that are given to `order`: none, "add" and "remove".
pub data Ask : Type 0 where
  again : Ask
  add : Order → Ask
  remove : String → Ask

-- The class "fade"
abbrev is_fading : Line → Bool
is_fading Line.no_conditions = false
is_fading Line.no_execution = false
is_fading Line.invalid_id = true
is_fading Line.invalid_state = true
is_fading Line.new_condition = false
is_fading (Line.unknown_error e) = true
is_fading (Line.condition r) = false

-- The class "none"
abbrev is_none : Line → Bool
is_none Line.no_conditions = true
is_none Line.no_execution = true
is_none l = is_fading l

-- The error goes away after four seconds.
unfoldable pub fade : Shown → Shown
fade s = record s { lines = keep_if (λ l. not (is_fading l)) s.lines }

-- `autoselect`: whether a click into the field selects its text.
unfoldable pub autoselect : String → Bool
autoselect value = is_text value pick_vertex || is_text value enter_state

abbrev ask : (Ask → String) → Ask → Request
ask text o = record { provider = "breakconditions"; requestor = "BreakConditions"; body = text o }

-- `text` is JSON.stringify of an object that is ordered.
module _ {C : Type 0} (text : Ask → String) where
  -- `order`
  unfoldable pub order_conditions : Ask → ℕ → Console C → Console C
  order_conditions o delay console = order (ask text o) delay none console

  -- `onmessage`
  unfoldable pub receive : Incoming → Console C → Shown × Console C
  receive j console =
      let (lines, retry) = on_message j in
      (
        record { lines = lines; attached = not retry },
        if retry then order_conditions Ask.again 1000 console else console,
      )

  -- A click on the button of a row that deletes the condition.
  unfoldable pub delete : Shown → Row → Console C → Console C
  delete s r console = if s.attached then order_conditions (Ask.remove r.id) 0 console else console

  -- A click on "add".
  unfoldable pub click_add_condition : Form → Shown → Console C → Form × Shown × Console C
  click_add_condition f s console =
      let (g, o) = add_condition f in
      elim o [
        | none ↦ (g, s, console)
        | some made ↦ (
          g,
          record s { lines = keep_if (λ l. not (is_none l)) s.lines ++ Line.new_condition ∷ [] },
          order_conditions (Ask.add made) 0 console,
        )
      ]

-- A click on the id of the vertex in a row; `text` is JSON.stringify of a query.
unfoldable pub follow_link :
    {N C : Type 0} → (Bool → Query N → String) → Inputs → Shown → Row → Console C → Console C
follow_link text inputs s r console =
    if s.attached then add_by_substring text inputs r.title console else console

on_message-again : (j : Incoming) → j.status ≡ "noExecution" → (on_message j).1 ≡ true
unfolding on_message
on_message-again j e = ground arith

module _ {C : Type 0} (text : Ask → String) where
  -- Without an execution, nothing of the module waits but the order of the list in a second.
  receive-again :
      (j : Incoming) (c : Console C)
      → IsCoherent c
      → j.status ≡ "noExecution"
      → pending_for "breakconditions" (receive text j c).1
        ≡ record { id = c.next_timer; delay = 1000; request = ask text Ask.again } ∷ []
  unfolding receive order_conditions
  receive-again j c h e =
      rw (on_message-again j e) (order-supersedes (ask text Ask.again) 1000 none c h)

  -- A click that deletes a condition takes the place of any order of the module that waits still,
  -- whether it would ask again or add or delete another condition.
  delete-supersedes :
      (s : Shown) (r : Row) (c : Console C)
      → IsCoherent c
      → s.attached ≡ true
      → pending_for "breakconditions" (delete text s r c)
        ≡ record { id = c.next_timer; delay = 0; request = ask text (Ask.remove r.id) } ∷ []
  unfolding delete order_conditions
  delete-supersedes s r c h e = rw e (order-supersedes (ask text (Ask.remove r.id)) 0 none c h)

  -- So does a click on "add", when it is enabled.
  click_add_condition-supersedes :
      (f : Form) (s : Shown) (c : Console C)
      → IsCoherent c
      → f.add_enabled ≡ true
      → pending_for "breakconditions" (click_add_condition text f s c).2
        ≡ record { id = c.next_timer; delay = 0; request = ask text (Ask.add (new_order f)) } ∷ []
  unfolding click_add_condition order_conditions add_condition new_order
  click_add_condition-supersedes f s c h e =
      rw e (order-supersedes (ask text (Ask.add (new_order f))) 0 none c h)
