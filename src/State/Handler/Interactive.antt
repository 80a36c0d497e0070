-- ===== src/State/Handler/Interactive.antt =====
-- A state message in the interactive mode (src/main/resources/web-data/js/state.js).
use dyn_dco.Base.{
  arith, String, ◌≡◌, ◌≢◌, refl, ◌∙◌, some, List, [], ◌∷◌, Bool, true, false, ◌⊎◌, inl, inr,
  string_discrete, Bool-cases, Option-cases,
}
use dyn_dco.State.Types.{Incoming, View}
use dyn_dco.State.Handler.{
  enabled_buttons, greet, is_state, is_known, is_paused, is_final, on_open, destroy, terminate,
  many_steps, pause, run, settle, rest, proceed, interactive, on_message,
}
use dyn_dco.State.Handler.Modes.{
  on_message_state, on_state-interactive, greet-keeps, prepared-keeps, prepared,
}

enabled_lem :
    (bs : List String) (v : View) → v.pending_command ≡ false → (enabled_buttons bs v).enabled ≡ bs
unfolding enabled_buttons
enabled_lem bs v e = rw e refl

enabled-keeps :
    (bs : List String) (v : View)
    → ((enabled_buttons bs v).auto_refresh ≡ v.auto_refresh)
      × ((enabled_buttons bs v).pending_command ≡ v.pending_command)
      × ((enabled_buttons bs v).controls_shown ≡ v.controls_shown)
unfolding enabled_buttons
enabled-keeps bs v = ground arith

pause-keeps :
    (j : Incoming) (v : View)
    → ((pause j v).0.pending_command ≡ v.pending_command)
      × ((pause j v).0.controls_shown ≡ v.controls_shown)
unfolding pause enabled_buttons
pause-keeps j v = ground arith

pause-auto :
    (j : Incoming) (v : View) → is_paused j ≡ false → (pause j v).0.auto_refresh ≡ v.auto_refresh
unfolding pause
pause-auto j v e = rw e refl

settle-shown : (j : Incoming) (v : View) → (settle j v).0.controls_shown ≡ v.controls_shown
unfolding settle enabled_buttons on_open destroy terminate
settle-shown j v = ground arith

proceed-shown : (j : Incoming) (v : View) → (proceed j v).0.controls_shown ≡ v.controls_shown
unfolding proceed rest run enabled_buttons
proceed-shown j v =
    ground (arith, settle-shown j v, settle-shown j (record v { auto_refresh = some false }))

interactive-shown : (j : Incoming) (v : View) → (interactive j v).0.controls_shown ≡ true
unfolding interactive
interactive-shown j v =
    let w = record v { controls_shown = true; iteration = j.iteration } in
    proceed-shown j (pause j w).0 ∙ (pause-keeps j w).1

-- The panel of controls is shown after a message with the state "undetermined", although the handler
-- has just hidden it.
on_message-UndeterminedShown :
    (j : Incoming) (v : View)
    → j.provider ≢ "controls"
    → j.state ≡ some "undetermined"
    → (on_message j v).0.controls_shown ≡ true
unfolding string_discrete
on_message-UndeterminedShown j v ne e =
    rw (on_message_state j v ne, on_state-interactive j (greet v).0 (rw e refl) (rw e refl))
      (interactive-shown j (prepared j (greet v).0))

is_final-cases :
    (j : Incoming)
    → is_final j ≡ true
    → (j.state ≡ some "converged") ⊎ (j.state ≡ some "globalConditionReached")
is_final-cases j h = elim (Option-cases j.state) [
  | inl e ↦ absurd (ground (arith, e))
  | inr (x, e) ↦ ground (arith, e)
]

is_final-known :
    (j : Incoming) → is_final j ≡ true → (is_known j ≡ true) × (is_state "initExecution" j ≡ false)
unfolding string_discrete
is_final-known j h = elim (is_final-cases j h) [
  | inl e ↦ rw e (refl, refl)
  | inr e ↦ rw e (refl, refl)
]

settle_final :
    (j : Incoming) (v : View)
    → is_final j ≡ true
    → settle j v ≡ (enabled_buttons ("reset" ∷ "terminate" ∷ []) v, [])
unfolding settle string_discrete
settle_final j v h = elim (is_final-cases j h) [
  | inl e ↦ rw (e, settle) refl
  | inr e ↦ rw (e, settle) refl
]

pause-some :
    (j : Incoming) (a : Bool) (v : View)
    → v.auto_refresh ≡ some a
    → (b : Bool) × ((pause j v).0.auto_refresh ≡ some b)
unfolding pause
pause-some j a v e = elim (Bool-cases (is_paused j)) [
  | inl p ↦ (false, rw (p, e, pause) refl)
  | inr p ↦ (a, rw p e)
]

-- What the page shows while the graph is refreshed or not.
abbrev pub Shows : Bool → List String → View → Type 0
Shows auto buttons v = (v.auto_refresh ≡ some auto) × (v.enabled ≡ buttons)

rest-Shows :
    (j : Incoming) (a : Bool) (v : View)
    → is_final j ≡ true
    → v.auto_refresh ≡ some a
    → v.pending_command ≡ false
    → Shows false ("reset" ∷ "terminate" ∷ []) (rest j v).0
unfolding rest
rest-Shows j a v f e p =
    rw (e, settle_final j (record v { auto_refresh = some false }) f)
      (
        (enabled-keeps _ (record v { auto_refresh = some false })).0,
        enabled_lem _ (record v { auto_refresh = some false }) p,
      )

run-Shows :
    (a : Bool) (v : View)
    → v.auto_refresh ≡ some a
    → v.pending_command ≡ false
    → Shows true ("pause" ∷ "terminate" ∷ []) (run v).0
unfolding run enabled_buttons
run-Shows a v e p = ground (arith, e, p)

proceed-final : (j : Incoming) (v : View) → is_final j ≡ true → proceed j v ≡ rest j v
unfolding proceed
proceed-final j v f = ground (arith, f)

proceed-runs :
    (j : Incoming) (v : View) → is_final j ≡ false → many_steps j.steps ≡ true → proceed j v ≡ run v
unfolding proceed
proceed-runs j v f m = rw (f, m) refl

-- When the computation has converged, or its global condition is reached, and no command is pending,
-- the graph is not refreshed any more and only "reset" and "terminate" can be clicked.
on_message-Final :
    (j : Incoming) (a : Bool) (v : View)
    → j.provider ≢ "controls"
    → is_final j ≡ true
    → v.auto_refresh ≡ some a
    → v.pending_command ≡ false
    → Shows false ("reset" ∷ "terminate" ∷ []) (on_message j v).0
unfolding interactive
on_message-Final j a v ne f e p =
    let x = prepared j (greet v).0 in
    let w = record x { controls_shown = true; iteration = j.iteration } in
    let (known, started) = is_final-known j f in
    let q = prepared-keeps j (greet v).0 in
    let g = greet-keeps v in
    let (b, auto) = pause-some j a w (q.0 ∙ g.0 ∙ e) in
    rw
      (
        on_message_state j v ne,
        on_state-interactive j (greet v).0 known started,
        proceed-final j (pause j w).0 f,
      )
      (rest-Shows j b (pause j w).0 f auto ((pause-keeps j w).0 ∙ q.1 ∙ g.1 ∙ p))

-- When the computation goes on in the interactive mode, with more than five steps left or without end,
-- and no command is pending, the graph is refreshed and only "pause" and "terminate" can be clicked.
on_message-Runs :
    (j : Incoming) (a : Bool) (v : View)
    → j.provider ≢ "controls"
    → is_known j ≡ true
    → is_state "initExecution" j ≡ false
    → is_final j ≡ false
    → many_steps j.steps ≡ true
    → v.auto_refresh ≡ some a
    → v.pending_command ≡ false
    → Shows true ("pause" ∷ "terminate" ∷ []) (on_message j v).0
unfolding interactive
on_message-Runs j a v ne known started f m e p =
    let x = prepared j (greet v).0 in
    let w = record x { controls_shown = true; iteration = j.iteration } in
    let q = prepared-keeps j (greet v).0 in
    let g = greet-keeps v in
    let (b, auto) = pause-some j a w (q.0 ∙ g.0 ∙ e) in
    rw
      (
        on_message_state j v ne,
        on_state-interactive j (greet v).0 known started,
        proceed-runs j (pause j w).0 f m,
      )
      (run-Shows b (pause j w).0 auto ((pause-keeps j w).0 ∙ q.1 ∙ g.1 ∙ p))
