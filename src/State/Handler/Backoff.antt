-- ===== src/State/Handler/Backoff.antt =====
-- How long the module waits before it asks again for an undetermined state
-- (src/main/resources/web-data/js/state.js).
use native.Mathlib.Nat.{mul_comm}
use dyn_dco.Base.{
  ℕ, zero, suc, true, false, ◌*◌, arith, ◌≡◌, ◌≢◌, refl, ap, ◌∙◌, some, List, [], ◌∷◌, ◌++◌, All,
  string_discrete, length,
}
use dyn_dco.State.Types.{
  Millis, Incoming, View, Action, update_graph, order_state, order_break_conditions, close_socket,
  order_control, order_state_after, show_success, create_socket_after,
}
use dyn_dco.State.Handler.{
  whole, times_1_2, enabled_buttons, greet, show_state, retry_state, hide_controls, pause, run,
  settle, rest, proceed, interactive, on_message,
}
use dyn_dco.State.Handler.Modes.{on_message_state, on_state-interactive, prepared}

-- The orders of the state among the actions, by their delays.
abbrev pub asks : List Action → List Millis
asks [] = []
asks (a ∷ s) =
    let rest = asks s in
    elim a [ order_state ↦ whole 0 ∷ rest | order_state_after m ↦ m ∷ rest | _ ↦ rest ]

-- What a list of messages, one after the other, makes of the view, and all their actions.
abbrev pub receive_all : List Incoming → View → View × List Action
receive_all [] v = (v, [])
receive_all (j ∷ js) v =
    let (w, (actions, completed)) = on_message j v in
    let (x, later) = receive_all js w in (x, actions ++ later)

-- `n` waiting times, each 1.2 times the one before.
abbrev pub growing : ℕ → Millis → List Millis
growing zero m = []
growing (suc n) m = m ∷ growing n (record { num = 6 * m.num; den = 5 * m.den })

-- A message of the state "undetermined"
pub record IsUndetermined (j : Incoming) : Type 0 where
  pub not_controls : j.provider ≢ "controls"
  pub undetermined : j.state ≡ some "undetermined"

asks-append : (s t : List Action) → asks (s ++ t) ≡ asks s ++ asks t
asks-append [] t = refl
asks-append (update_graph ∷ s) t = asks-append s t
asks-append (order_state ∷ s) t = ap (whole 0 ∷◌) (asks-append s t)
asks-append (order_break_conditions ∷ s) t = asks-append s t
asks-append (close_socket ∷ s) t = asks-append s t
asks-append (order_control c ∷ s) t = asks-append s t
asks-append (order_state_after m ∷ s) t = ap (m ∷◌) (asks-append s t)
asks-append (show_success m ∷ s) t = asks-append s t
asks-append (create_socket_after n ∷ s) t = asks-append s t

settle-undetermined :
    (j : Incoming) (v : View) → j.state ≡ some "undetermined" → settle j v ≡ (v, [])
unfolding settle string_discrete
settle-undetermined j v e = rw e refl

-- In this state the module asks nothing else, and lets the waiting time be.
proceed-quiet :
    (j : Incoming) (v : View)
    → j.state ≡ some "undetermined"
    → (asks (proceed j v).1 ≡ []) × ((proceed j v).0.retry ≡ v.retry)
unfolding proceed rest run enabled_buttons
proceed-quiet j v e = (
  ground (
    arith,
    settle-undetermined j v e,
    settle-undetermined j (record v { auto_refresh = some false }) e,
  ),
  ground (
    arith,
    settle-undetermined j v e,
    settle-undetermined j (record v { auto_refresh = some false }) e,
  ),
)

pause-quiet :
    (j : Incoming) (v : View) → (asks (pause j v).1 ≡ []) × ((pause j v).0.retry ≡ v.retry)
unfolding pause enabled_buttons
pause-quiet j v = (ground arith, ground arith)

greet-quiet : (v : View) → (asks (greet v).1 ≡ []) × ((greet v).0.retry ≡ v.retry)
unfolding greet
greet-quiet v = (ground arith, ground arith)

interactive-quiet :
    (j : Incoming) (v : View)
    → j.state ≡ some "undetermined"
    → (asks (interactive j v).1 ≡ []) × ((interactive j v).0.retry ≡ v.retry)
unfolding interactive
interactive-quiet j v e =
    let w = record v { controls_shown = true; iteration = j.iteration } in
    let (a, b) = pause-quiet j w in
    let (c, d) = proceed-quiet j (pause j w).0 e in
    (asks-append (pause j w).1 (proceed j (pause j w).0).1 ∙ cc (a, c), d ∙ b)

prepared-asks :
    (j : Incoming) (v : View)
    → j.state ≡ some "undetermined"
    → (asks (retry_state j (show_state j v)).1 ≡ v.retry ∷ [])
      × ((prepared j v).retry ≡ times_1_2 v.retry)
unfolding hide_controls retry_state show_state string_discrete
prepared-asks j v e = (rw e refl, rw e refl)

on_message-asks :
    (j : Incoming) (v : View)
    → IsUndetermined j
    → (asks (on_message j v).1.0 ≡ v.retry ∷ []) × ((on_message j v).0.retry ≡ times_1_2 v.retry)
unfolding string_discrete
on_message-asks j v u =
    let e = u.undetermined in
    let w = (greet v).0 in
    let (greeted, kept) = greet-quiet v in
    let (asked, grown) = prepared-asks j w e in
    let (quiet, same) = interactive-quiet j (prepared j w) e in
    rw (on_message_state j v u.not_controls, on_state-interactive j w (rw e refl) (rw e refl))
      (
        asks-append (greet v).1 _
            ∙ cc (
              greeted,
              asks-append (retry_state j (show_state j w)).1 (interactive j (prepared j w)).1,
              asked,
              quiet,
              kept,
            ),
        same ∙ grown ∙ ap times_1_2 kept,
      )

times-commute : (m : Millis) → times_1_2 m ≡ record { num = 6 * m.num; den = 5 * m.den }
times-commute m = cc (mul_comm m.num 6, mul_comm m.den 5)

-- When messages with the state "undetermined" come in a row, whatever else is in them, the module asks
-- for the state once after each, first after the waiting time that it has, and each time after 1.2
-- times the wait before.
pub asks-receive_all :
    (js : List Incoming) (v : View)
    → All IsUndetermined js
    → asks (receive_all js v).1 ≡ growing (length js) v.retry
asks-receive_all [] v h = refl
asks-receive_all (j ∷ js) v h =
    let (a, r) = on_message-asks j v h.0 in
    let later = asks-receive_all js (on_message j v).0 h.1 in
    asks-append (on_message j v).1.0 (receive_all js (on_message j v).0).1
    ∙ cc (a, later, ap (growing (length js)) (r ∙ times-commute v.retry))
