-- ===== src/GraphPanel/Examples.antt =====
-- A selection that is drawn and removed, a choice of the number of vertices and an exposition
-- (src/main/resources/web-data/js/graph.js).
use dyn_dco.Base.{List, true, ◌↔◌, ◌≡◌, refl, string_discrete, none, some, [], ◌∷◌, ◌++◌}
use dyn_dco.GraphPanel.Selection.{remove, click, draw, press, Panel}
use dyn_dco.GraphPanel.Counts.{Selector, vertex_count_intervals, populate_target_count_selector}
use dyn_dco.GraphPanel.Exposition.{
  Json, null, array, object, item, no_items, Members, member, no_members, number, text, Row, hidden,
  tvalue_container, tobject_key, root, key, index, Forest, branch, children, no_nodes, Converted,
  json_into_tree, expose,
}
use dyn_dco.GraphPanel.Exposition.Rows.{read, read-expose, texts, styles, expose-again}
use dyn_dco.GraphPanel.Exposition.Nulls.{members_have_null, expose-none}
use dyn_dco.GraphPanel.Modes.{idle, Shows, panel, handle_all, handle_all-Shows}

abbrev at_rest : Panel
at_rest = panel none none idle

handle_all-Shows_example :
    Shows idle (handle_all (click remove ∷ draw ("a" ∷ []) ∷ press 46 ∷ []) at_rest).0
    × ((handle_all (click remove ∷ draw ("a" ∷ []) ∷ press 46 ∷ []) at_rest).1
        ≡ (remove, some ("a" ∷ [])) ∷ [])
handle_all-Shows_example =
    handle_all-Shows (click remove ∷ draw ("a" ∷ []) ∷ press 46 ∷ []) idle at_rest
      (none, none, refl)

abbrev hundred : Selector
hundred = record { options = 50 ∷ 100 ∷ []; choice = some 100 }

populate_test : (populate_target_count_selector 25 hundred).choice ≡ some 25
unfolding populate_target_count_selector vertex_count_intervals
populate_test = refl

-- { "n": 1, "list": ["x"], "empty": {} }
abbrev info : Members
info = member "n" (Json.value (number "1")) (
    member "list" (array (item (Json.value (text "x")) no_items))
      (member "empty" (object no_members) no_members))

abbrev info_rows : List Row
info_rows =
    record { depth = 0; class = hidden; name = root; value = none }
    ∷ record { depth = 1; class = tvalue_container; name = key "n"; value = some (number "1") }
    ∷ record { depth = 1; class = tobject_key; name = key "list"; value = none }
    ∷ record { depth = 2; class = tvalue_container; name = index 0; value = some (text "x") }
    ∷ record { depth = 1; class = tobject_key; name = key "empty"; value = none }
    ∷ []

-- As if $.each found an empty array.
abbrev no_turns : Members → Converted
no_turns ms = children no_nodes

read-expose_example :
    (f : Forest) × (json_into_tree no_turns (object info) ≡ children f)
    × (read info_rows ≡ (0, branch root f) ∷ [])
unfolding expose string_discrete
read-expose_example = read-expose no_turns info info_rows refl

abbrev broken : Members
broken = member "list" (array (item null no_items)) no_members

expose-none_example : (expose no_turns info_rows broken ≡ none) ↔ (members_have_null broken ≡ true)
unfolding string_discrete
expose-none_example = expose-none no_turns info_rows broken refl

-- Two rows of an earlier exposition, and another vertex.
abbrev earlier : List Row
earlier =
    record { depth = 0; class = hidden; name = root; value = none }
    ∷ record { depth = 1; class = tobject_key; name = key "list"; value = none }
    ∷ []

abbrev other_rows : List Row
other_rows =
    record { depth = 0; class = hidden; name = root; value = none }
    ∷ record { depth = 1; class = tvalue_container; name = key "n"; value = some (number "1") }
    ∷ []

expose-again_example :
    (ts : List Row) × (expose no_turns
        (earlier ++ info_rows)
        (member "n" (Json.value (number "1")) no_members)
      ≡ some ts)
    × (texts ts ≡ texts other_rows)
    × (styles ts ≡ styles earlier)
unfolding expose string_discrete
expose-again_example =
    expose-again no_turns earlier info_rows (member "n" (Json.value (number "1")) no_members)
      other_rows refl refl
