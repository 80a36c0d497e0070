-- ===== src/State/Handler.antt =====
-- The handlers of the State module (src/main/resources/web-data/js/state.js).
pub mod Guarded
pub mod Modes
pub mod Interactive
pub mod Backoff
use Prim.Native.String.{◌++◌ as concat}
use dyn_dco.Base.{
  ℕ, ◌*◌, String, Option, none, some, List, [], ◌∷◌, ◌++◌, Bool, true, false, not, ◌||◌, ltb, ◌==◌,
  if◌then◌else◌, ite, string_discrete, contains, lookup,
}
use dyn_dco.State.Types.{
  Millis, Steps, missing, endless, remaining, Incoming, View, Action, update_graph, order_state,
  order_break_conditions, close_socket, order_control, order_state_after, show_success,
  create_socket_after, Outcome, state_strings, says_converged,
}

abbrev pub times_1_2 : Millis → Millis
times_1_2 m = record { num = m.num * 6; den = m.den * 5 }

abbrev pub whole : ℕ → Millis
whole n = record { num = n; den = 1 }

-- A click on a control.
unfoldable pub click : String → View → View × List Action
click control v =
    if contains v.enabled control
    then (
      record v { pending_command = true; pending_shown = true; enabled = [] },
      order_control control ∷ [],
    )
    else (v, [])

unfoldable pub on_open : View → View × List Action
on_open v = (record v { first_try = true }, order_state ∷ [])

-- `enabledButtons`
unfoldable pub enabled_buttons : List String → View → View
enabled_buttons buttons v = if v.pending_command then v else record v { enabled = buttons }

-- `destroy`
unfoldable pub destroy : View → View
destroy v = record v { enabled = []; status = "ended" }

-- `terminate`
unfoldable pub terminate : String → View → View × List Action
terminate msg v = (v, close_socket ∷ show_success msg ∷ create_socket_after 10000 ∷ [])

-- The first message brings the graph up to date, on a page with a graph.
unfoldable pub greet : View → View × List Action
greet v =
    if v.first_try
    then elim v.auto_refresh [
      | none ↦ (v, [])
      | some auto ↦ (record v { first_try = false }, update_graph ∷ [])
    ]
    else (v, [])

abbrev pub is_state : String → Incoming → Bool
is_state s j = elim j.state [ none ↦ false | some x ↦ ite (string_discrete x s) true false ]

-- `scc.STR.State.hasOwnProperty(j.state)`
abbrev pub is_known : Incoming → Bool
is_known j = elim j.state [
  | none ↦ false
  | some x ↦ elim (lookup x state_strings) [ none ↦ false | some s ↦ true ]
]

abbrev state_text : Incoming → String
state_text j = elim j.state [ none ↦ "undefined" | some x ↦ x ]

abbrev status_text : Incoming → String
status_text j = elim j.mode [
  | some m ↦ concat m (concat ": " (state_text j))
  | none ↦ elim (lookup (state_text j) state_strings) [
    | some s ↦ s
    | none ↦ concat "Mode: undefined, state: " (state_text j)
  ]
]

unfoldable pub show_state : Incoming → View → View
show_state j v = record v {
  pending_shown = if v.pending_command then v.pending_shown else false;
  status = status_text j;
}

unfoldable pub retry_state : Incoming → View → View × List Action
retry_state j v =
    if is_state "undetermined" j
    then (record v { retry = times_1_2 v.retry }, order_state_after v.retry ∷ [])
    else (record v { retry = whole 200 }, [])

unfoldable pub hide_controls : Incoming → View → View
hide_controls j v =
    if is_state "undetermined" j || not (is_known j) then record v { controls_shown = false } else v

-- A state that is not of the interactive mode.
unfoldable pub other_mode : Incoming → View → Outcome
other_mode j v = elim v.auto_refresh [
  | none ↦ (v, ([], false))
  | some auto ↦
      if elim j.state [ none ↦ false | some s ↦ says_converged s ]
      then (record v { auto_refresh = some false }, (if auto then [] else update_graph ∷ [], true))
      else (
        record v { auto_refresh = some true },
        ((if auto then [] else update_graph ∷ []) ++ order_state_after (whole 1000) ∷ [], true),
      )
]

abbrev paused_states : List String
paused_states =
    "pausedBeforeChecksAfterCollect" ∷ "pausedBeforeSignal" ∷ "pausedBeforeChecksAfterSignal"
    ∷ "pausedBeforeCollect" ∷ "pausedBeforeGlobalChecks" ∷ []

abbrev pub is_paused : Incoming → Bool
is_paused j = elim j.state [ none ↦ false | some x ↦ contains paused_states x ]

abbrev pub is_final : Incoming → Bool
is_final j = elim j.state [
  | none ↦ false
  | some x ↦ contains ("converged" ∷ "globalConditionReached" ∷ []) x
]

-- `j.steps > 5 || j.steps == -1`
abbrev pub many_steps : Steps → Bool
many_steps missing = false
many_steps endless = true
many_steps (remaining n) = ltb 5 n

abbrev pub no_steps : Steps → Bool
no_steps missing = false
no_steps endless = false
no_steps (remaining n) = n == 0

unfoldable pub pause : Incoming → View → View × List Action
pause j v =
    if is_paused j
    then (let w =
          enabled_buttons ("reset" ∷ "step" ∷ "collect" ∷ "continue" ∷ "terminate" ∷ []) v in
        elim v.auto_refresh [
          | none ↦ (w, [])
          | some auto ↦ (record w { auto_refresh = some false }, order_break_conditions ∷ [])
        ])
    else (v, [])

-- The computation goes on.
unfoldable pub run : View → View × List Action
run v = elim v.auto_refresh [
  | none ↦ (enabled_buttons ("pause" ∷ "terminate" ∷ []) v, [])
  | some auto ↦ if auto then (enabled_buttons ("pause" ∷ "terminate" ∷ []) v, []) else (
    enabled_buttons ("pause" ∷ "terminate" ∷ []) (record v { auto_refresh = some true }),
    update_graph ∷ order_break_conditions ∷ [],
  )
]

-- The switch over the states in which no steps remain.
unfoldable pub settle : Incoming → View → View × List Action
settle j v =
    if is_state "signalling" j || is_state "collecting" j
    then (enabled_buttons ("terminate" ∷ []) v, [])
    else (if is_state "resetting" j
        then on_open (destroy v)
        else (if is_final j
            then (enabled_buttons ("reset" ∷ "terminate" ∷ []) v, [])
            else (if is_state "terminating" j then terminate "Terminating..." v else (v, []))))

-- No steps remain, or the computation came to its end.
unfoldable pub rest : Incoming → View → View × List Action
rest j v = elim v.auto_refresh [
  | none ↦ settle j v
  | some auto ↦
      let (w, actions) = settle j (record v { auto_refresh = some false }) in
      (w, update_graph ∷ actions)
]

unfoldable pub proceed : Incoming → View → View × List Action
proceed j v =
    if many_steps j.steps
    then (if is_final j then rest j v else run v)
    else (if no_steps j.steps then rest j v else (if is_final j then rest j v else (v, [])))

-- What is only available in interactive mode.
unfoldable pub interactive : Incoming → View → View × List Action
interactive j v =
    let (w, first) = pause j (record v { controls_shown = true; iteration = j.iteration }) in
    let (x, second) = proceed j w in (x, first ++ second)

-- A message of provider "state", after the first one has been greeted.
unfoldable pub on_state : Incoming → View → Outcome
on_state j v =
    let (w, retries) = retry_state j (show_state j v) in
    let x = hide_controls j w in
    if is_known j
    then (if is_state "initExecution" j
        then (x, (retries, true))
        else (let (y, actions) = interactive j x in (y, (retries ++ actions, true))))
    else (let (y, (actions, completed)) = other_mode j x in (y, (retries ++ actions, completed)))

unfoldable pub on_message : Incoming → View → Outcome
on_message j v =
    let (w, first) = greet v in
    ite (string_discrete j.provider "controls")
      (record w { pending_command = false }, (first, true))
      (let (x, (actions, completed)) = on_state j w in (x, (first ++ actions, completed)))

-- `onclose`
unfoldable pub on_close : View → View
on_close v = destroy v
