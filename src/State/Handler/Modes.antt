-- ===== src/State/Handler/Modes.antt =====
-- What a state message does in the interactive mode and in the others
-- (src/main/resources/web-data/js/state.js).
use dyn_dco.Base.{
  arith, String, ◌≡◌, ◌≢◌, refl, ◌∙◌, none, some, List, [], ◌∷◌, ◌++◌, Bool, true, false,
  if◌then◌else◌, ◌⊎◌, inl, inr, Bool-cases,
}
use dyn_dco.State.Types.{
  update_graph, Incoming, View, Action, Outcome, order_state_after, says_converged,
}
use dyn_dco.State.Handler.{
  whole, greet, is_state, is_known, show_state, retry_state, hide_controls, other_mode, interactive,
  on_state, on_message,
}

abbrev pub HasAction : Action → List Action → Type 0
HasAction a [] = ⊥
HasAction a (b ∷ bs) = (a ≡ b) ⊎ HasAction a bs

pub on_message_state :
    (j : Incoming) (v : View)
    → j.provider ≢ "controls"
    → on_message j v ≡ (
      (on_state j (greet v).0).0,
      ((greet v).1 ++ (on_state j (greet v).0).1.0, (on_state j (greet v).0).1.1),
    )
unfolding on_message
on_message_state j v ne = ground (arith, ne)

-- The view that the parts of the handler after the greeting go by.
abbrev pub prepared : Incoming → View → View
prepared j v = hide_controls j (retry_state j (show_state j v)).0

on_state_unknown :
    (j : Incoming) (v : View)
    → is_known j ≡ false
    → on_state j v ≡ (
      (other_mode j (prepared j v)).0,
      (
        (retry_state j (show_state j v)).1 ++ (other_mode j (prepared j v)).1.0,
        (other_mode j (prepared j v)).1.1,
      ),
    )
unfolding on_state
on_state_unknown j v k = rw k refl

pub on_state-interactive :
    (j : Incoming) (v : View)
    → is_known j ≡ true
    → is_state "initExecution" j ≡ false
    → on_state j v ≡ (
      (interactive j (prepared j v)).0,
      ((retry_state j (show_state j v)).1 ++ (interactive j (prepared j v)).1, true),
    )
unfolding on_state
on_state-interactive j v k i = rw (k, i) refl

greet-none : (v : View) → v.auto_refresh ≡ none → greet v ≡ (v, [])
unfolding greet
greet-none v e = ground (arith, e)

-- The greeting and the preparation leave `autoRefresh` and the pending command alone.
pub greet-keeps :
    (v : View)
    → ((greet v).0.auto_refresh ≡ v.auto_refresh)
      × ((greet v).0.pending_command ≡ v.pending_command)
unfolding greet
greet-keeps v = ground arith

pub prepared-keeps :
    (j : Incoming) (v : View)
    → ((prepared j v).auto_refresh ≡ v.auto_refresh)
      × ((prepared j v).pending_command ≡ v.pending_command)
unfolding hide_controls retry_state show_state
prepared-keeps j v = elim (Bool-cases (is_state "undetermined" j)) [
  | inl e ↦ rw e (refl, refl)
  | inr e ↦ elim (Bool-cases (is_known j)) [
    | inl k ↦ rw (e, k) (refl, refl)
    | inr k ↦ rw (e, k) (refl, refl)
  ]
]

retry_state_none :
    (j : Incoming) (v : View) → is_state "undetermined" j ≡ false → (retry_state j v).1 ≡ []
unfolding retry_state
retry_state_none j v e = rw e refl

other_mode-none :
    (j : Incoming) (v : View) → v.auto_refresh ≡ none → (other_mode j v).1 ≡ ([], false)
unfolding other_mode
other_mode-none j v e = rw e refl

HasAction-append : (a : Action) (xs ys : List Action) → HasAction a ys → HasAction a (xs ++ ys)
HasAction-append a [] ys h = h
HasAction-append a (x ∷ xs) ys h = inr (HasAction-append a xs ys h)

abbrev Polls : Outcome → Type 0
Polls o =
    (o.0.auto_refresh ≡ some true)
    × HasAction (order_state_after (whole 1000)) o.1.0
    × (o.1.1 ≡ true)

other_mode-Polls :
    (j : Incoming) (s : String) (auto : Bool) (v : View)
    → v.auto_refresh ≡ some auto
    → j.state ≡ some s
    → says_converged s ≡ false
    → Polls (other_mode j v)
unfolding other_mode
other_mode-Polls j s auto v g e u =
    rw (g, e, u, other_mode)
      (refl, HasAction-append _ (if auto then [] else update_graph ∷ []) _ (inl refl), refl)

-- On a page without a graph a state that is not of the interactive mode makes the handler throw; the
-- view is not asked to poll again.
on_message-Throws :
    (j : Incoming) (v : View)
    → j.provider ≢ "controls"
    → v.auto_refresh ≡ none
    → is_known j ≡ false
    → is_state "undetermined" j ≡ false
    → (on_message j v).1 ≡ ([], false)
on_message-Throws j v ne g k u =
    let q = prepared-keeps j v in
    rw
      (
        on_message_state j v ne,
        greet-none v g,
        on_state_unknown j v k,
        retry_state_none j (show_state j v) u,
      )
      (other_mode-none j (prepared j v) (q.0 ∙ g))

-- The computation runs in a mode that is not interactive: the graph is refreshed from now on, and the
-- state is ordered again after a second.
on_message-Polls :
    (j : Incoming) (s : String) (auto : Bool) (v : View)
    → j.provider ≢ "controls"
    → v.auto_refresh ≡ some auto
    → j.state ≡ some s
    → is_known j ≡ false
    → says_converged s ≡ false
    → ((on_message j v).0.auto_refresh ≡ some true)
      × HasAction (order_state_after (whole 1000)) (on_message j v).1.0
      × ((on_message j v).1.1 ≡ true)
on_message-Polls j s auto v ne g e k u =
    let w = (greet v).0 in
    let (a, h, c) =
      other_mode-Polls j s auto (prepared j w) ((prepared-keeps j w).0 ∙ (greet-keeps v).0 ∙ g) e
        u in
    rw (on_message_state j v ne, on_state_unknown j w k)
      (
        a,
        HasAction-append _ (greet v).1 _
            (HasAction-append _ (retry_state j (show_state j w)).1 _ h),
        c,
      )
