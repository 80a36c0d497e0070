-- ===== src/State/Handler/Guarded.antt =====
-- While a command is pending no button can be clicked
-- (src/main/resources/web-data/js/state.js).
use dyn_dco.Base.{
  arith, String, ◌≡◌, refl, some, List, [], ◌∷◌, true, false, not, ◌||◌, inl, inr, Bool-cases,
}
use dyn_dco.State.Types.{Incoming, View}
use dyn_dco.State.Handler.{
  click, on_open, enabled_buttons, destroy, terminate, greet, is_state, is_known, show_state,
  retry_state, hide_controls, other_mode, is_final, pause, run, settle, rest, proceed, interactive,
  on_state, on_message, on_close,
}

-- While a command is pending, all buttons are blocked.
abbrev pub IsGuarded : View → Type 0
IsGuarded v = v.pending_command ≡ true → v.enabled ≡ []

click-IsGuarded : (c : String) (v : View) → IsGuarded v → IsGuarded (click c v).0
unfolding click
click-IsGuarded c v h = ground (arith, h)

enabled-IsGuarded : (bs : List String) (v : View) → IsGuarded v → IsGuarded (enabled_buttons bs v)
unfolding enabled_buttons
enabled-IsGuarded bs v h = ground (arith, h)

greet-IsGuarded : (v : View) → IsGuarded v → IsGuarded (greet v).0
unfolding greet
greet-IsGuarded v h = ground (arith, h)

retry-IsGuarded : (j : Incoming) (v : View) → IsGuarded v → IsGuarded (retry_state j v).0
unfolding retry_state
retry-IsGuarded j v h = elim (Bool-cases (is_state "undetermined" j)) [
  | inl e ↦ rw (e, retry_state) h
  | inr e ↦ rw (e, retry_state) h
]

hide-IsGuarded : (j : Incoming) (v : View) → IsGuarded v → IsGuarded (hide_controls j v)
unfolding hide_controls
hide-IsGuarded j v h = elim (Bool-cases (is_state "undetermined" j || not (is_known j))) [
  | inl e ↦ rw (e, hide_controls) h
  | inr e ↦ rw (e, hide_controls) h
]

other-IsGuarded : (j : Incoming) (v : View) → IsGuarded v → IsGuarded (other_mode j v).0
unfolding other_mode
other-IsGuarded j v h = ground (arith, h)

pause-IsGuarded : (j : Incoming) (v : View) → IsGuarded v → IsGuarded (pause j v).0
unfolding pause
pause-IsGuarded j v h =
    ground (
      arith,
      h,
      enabled-IsGuarded ("reset" ∷ "step" ∷ "collect" ∷ "continue" ∷ "terminate" ∷ []) v h,
    )

run-IsGuarded : (v : View) → IsGuarded v → IsGuarded (run v).0
unfolding run
run-IsGuarded v h = ground (
  arith,
  h,
  enabled-IsGuarded ("pause" ∷ "terminate" ∷ []) v h,
  enabled-IsGuarded ("pause" ∷ "terminate" ∷ []) (record v { auto_refresh = some true }) h,
)

settle-IsGuarded : (j : Incoming) (v : View) → IsGuarded v → IsGuarded (settle j v).0
unfolding settle on_open destroy terminate
settle-IsGuarded j v h = elim (Bool-cases (is_state "signalling" j || is_state "collecting" j)) [
  | inl e ↦ rw (e, settle) (enabled-IsGuarded ("terminate" ∷ []) v h)
  | inr e ↦ elim (Bool-cases (is_state "resetting" j)) [
    | inl f ↦ rw (e, f, settle) (λ p. refl)
    | inr f ↦ elim (Bool-cases (is_final j)) [
      | inl g ↦ rw (e, f, g, settle) (enabled-IsGuarded ("reset" ∷ "terminate" ∷ []) v h)
      | inr g ↦ elim (Bool-cases (is_state "terminating" j)) [
        | inl i ↦ rw (e, f, g, i, settle) h
        | inr i ↦ rw (e, f, g, i, settle) h
      ]
    ]
  ]
]

rest-IsGuarded : (j : Incoming) (v : View) → IsGuarded v → IsGuarded (rest j v).0
unfolding rest
rest-IsGuarded j v h = ground (
  arith,
  h,
  settle-IsGuarded j v h,
  settle-IsGuarded j (record v { auto_refresh = some false }) h,
)

proceed-IsGuarded : (j : Incoming) (v : View) → IsGuarded v → IsGuarded (proceed j v).0
unfolding proceed
proceed-IsGuarded j v h = ground (arith, h, rest-IsGuarded j v h, run-IsGuarded v h)

interactive-IsGuarded : (j : Incoming) (v : View) → IsGuarded v → IsGuarded (interactive j v).0
unfolding interactive
interactive-IsGuarded j v h =
    proceed-IsGuarded j _
      (pause-IsGuarded j (record v { controls_shown = true; iteration = j.iteration }) h)

on_state-IsGuarded : (j : Incoming) (v : View) → IsGuarded v → IsGuarded (on_state j v).0
unfolding on_state show_state
on_state-IsGuarded j v h =
    let w = (retry_state j (show_state j v)).0 in
    let x = hide_controls j w in
    let g : IsGuarded x = hide-IsGuarded j w (retry-IsGuarded j (show_state j v) h) in
    elim (Bool-cases (is_known j)) [
      | inl e ↦ elim (Bool-cases (is_state "initExecution" j)) [
        | inl f ↦ rw (e, f, on_state) g
        | inr f ↦ rw (e, f, on_state) (interactive-IsGuarded j x g)
      ]
      | inr e ↦ rw (e, on_state) (other-IsGuarded j x g)
    ]

on_message-IsGuarded : (j : Incoming) (v : View) → IsGuarded v → IsGuarded (on_message j v).0
unfolding on_message
on_message-IsGuarded j v h =
    ground (arith, greet-IsGuarded v h, on_state-IsGuarded j (greet v).0 (greet-IsGuarded v h))

-- What the server and the user do to the module.
pub data Step : View → View → Type 0 where
  clicking : (v : View) (control : String) → Step v (click control v).0
  receiving : (v : View) (j : Incoming) → Step v (on_message j v).0
  opening : (v : View) → Step v (on_open v).0
  closing : (v : View) → Step v (on_close v)

pub data Reach (s : View) : View → Type 0 where
  here : Reach s s
  next : {v w : View} → Reach s v → Step v w → Reach s w

Step-IsGuarded : {v w : View} → Step v w → IsGuarded v → IsGuarded w
unfolding on_open on_close destroy
Step-IsGuarded (clicking v c) h = click-IsGuarded c v h
Step-IsGuarded (receiving v j) h = on_message-IsGuarded j v h
Step-IsGuarded (opening v) h = h
Step-IsGuarded (closing v) h = λ p. refl

Reach-IsGuarded : {v w : View} → IsGuarded v → Reach v w → IsGuarded w
Reach-IsGuarded h here = h
Reach-IsGuarded h (next r st) = Step-IsGuarded st (Reach-IsGuarded h r)

-- From a view whose buttons are blocked if a command is pending, whatever happens: while a command is
-- pending a click on any control changes nothing and sends nothing.
pub Reach-ClickIgnored :
    (control : String) {v w : View}
    → IsGuarded v
    → Reach v w
    → w.pending_command ≡ true
    → click control w ≡ (w, [])
unfolding click
Reach-ClickIgnored control {v} {w} h r p = rw (Reach-IsGuarded h r p) refl
