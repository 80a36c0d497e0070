-- ===== src/State/Examples.antt =====
-- Messages of the server and what the theorems say of them
-- (src/main/resources/web-data/js/state.js).
use dyn_dco.Base.{
  ◌≡◌, refl, Option, none, some, String, List, [], ◌∷◌, Bool, true, false, string_discrete,
  strings_differ,
}
use dyn_dco.State.Types.{Incoming, View, Steps}
use dyn_dco.State.Handler.{whole, click}
use dyn_dco.State.Handler.Guarded.{Step, Reach, Reach-ClickIgnored}
use dyn_dco.State.Handler.Backoff.{asks, receive_all, growing, asks-receive_all}

abbrev view : Option Bool → View
view auto = record {
  pending_command = false;
  pending_shown = false;
  first_try = true;
  retry = whole 500;
  enabled = "pause" ∷ [];
  auto_refresh = auto;
  controls_shown = false;
  status = "";
  iteration = 0;
}

abbrev message : String → Incoming
message state = record {
  provider = "state";
  state = some state;
  mode = none;
  steps = Steps.endless;
  iteration = 3;
}

Reach-ClickIgnored_example :
    click "pause" (click "pause" (view none)).0 ≡ ((click "pause" (view none)).0, [])
unfolding click string_discrete
Reach-ClickIgnored_example =
    Reach-ClickIgnored "pause" (λ p. cc p)
      (Reach.next Reach.here (Step.clicking (view none) "pause")) refl

-- Two messages in a row, of which the second has other steps.
abbrev undetermined : List Incoming
undetermined =
    message "undetermined" ∷ record (message "undetermined") { steps = Steps.remaining 9 } ∷ []

asks-receive_all_example : asks (receive_all undetermined (view none)).1 ≡ growing 2 (whole 500)
asks-receive_all_example = asks-receive_all undetermined (view none) (
  record { not_controls = strings_differ "state" "controls" refl; undetermined = refl },
  (record { not_controls = strings_differ "state" "controls" refl; undetermined = refl }, tt),
)
