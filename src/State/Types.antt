-- ===== src/State/Types.antt =====
-- The data of the State module, and the texts of its states
-- (src/main/resources/web-data/js/state.js, strings.js).
use Prim.Native.Char.{code}
use dyn_dco.Base.{
  ℕ, ◌+◌, String, Option, List, [], ◌∷◌, Bool, true, false, ◌&&◌, leb, ◌==◌, if◌then◌else◌,
}

-- `retryMillis`, which grows by the factor 1.2: `num / den` milliseconds.
pub record Millis : Type 0 where
  pub num : ℕ
  pub den : ℕ

-- `j.steps`: it may be missing, and -1 stands for a computation without end.
pub data Steps : Type 0 where
  missing endless : Steps
  remaining : ℕ → Steps

-- A message of provider "state" or "controls". `none` for a missing property.
pub record Incoming : Type 0 where
  pub provider : String
  pub state : Option String
  pub mode : Option String
  pub steps : Steps
  pub iteration : ℕ

-- The variables of the module, what the page shows of them, and `autoRefresh` of the Graph module,
-- `none` on a page without it. `enabled` lists the buttons that are not blocked.
pub record View : Type 0 where
  pub pending_command : Bool
  pub pending_shown : Bool
  pub first_try : Bool
  pub retry : Millis
  pub enabled : List String
  pub auto_refresh : Option Bool
  pub controls_shown : Bool
  pub status : String
  pub iteration : ℕ

-- The calls of other parts that the handlers make.
pub data Action : Type 0 where
  update_graph order_state order_break_conditions close_socket : Action
  order_control : String → Action
  order_state_after : Millis → Action
  show_success : String → Action
  create_socket_after : ℕ → Action

-- The view, the calls, and whether the handler came to its end.
abbrev pub Outcome : Type 0
Outcome = View × (List Action × Bool)

-- `scc.STR.State`, without the titles.
abbrev pub state_strings : List (String × String)
state_strings =
    ("undetermined", "State undetermined...")
    ∷ ("initExecution", "Loading interactive execution...")
    ∷ ("pausedBeforeChecksAfterCollect", "Paused bef. checks after collect")
    ∷ ("checksAfterCollect", "Check conditions after collect...")
    ∷ ("pausedBeforeSignal", "Paused before signal")
    ∷ ("signalling", "Signalling...")
    ∷ ("pausedBeforeChecksAfterSignal", "Paused before checks after signal")
    ∷ ("checksAfterSignal", "Check conditions after signal...")
    ∷ ("pausedBeforeCollect", "Paused before collect")
    ∷ ("collecting", "Collecting...")
    ∷ ("pausedBeforeGlobalChecks", "Paused before global checks")
    ∷ ("globalChecks", "Checking global conditions...")
    ∷ ("globalConditionReached", "Global term. condition reached!")
    ∷ ("resetting", "Resetting graph...")
    ∷ ("terminating", "Terminating Signal/Collect...")
    ∷ ("pausing", "Pausing...")
    ∷ ("converged", "Computation converged!")
    ∷ []

abbrev lower : ℕ → ℕ
lower c = if leb b'A' c && leb c b'Z' then c + 32 else c

-- The text starts with the codes, in small letters.
abbrev starts_lower : List ℕ → String → Bool
starts_lower [] s = true
starts_lower (c ∷ cs) String.[] = false
starts_lower (c ∷ cs) (String.◌∷◌ x s) =
    let rest = starts_lower cs s in if lower (code x) == c then rest else false

abbrev contains_lower : List ℕ → String → Bool
contains_lower cs String.[] = starts_lower cs ""
contains_lower cs (String.◌∷◌ x s) =
    let rest = contains_lower cs s in if starts_lower cs (String.◌∷◌ x s) then true else rest

-- `j.state.toLowerCase().indexOf("converged") != -1`
abbrev pub says_converged : String → Bool
says_converged = contains_lower (b'c' ∷ b'o' ∷ b'n' ∷ b'v' ∷ b'e' ∷ b'r' ∷ b'g' ∷ b'e' ∷ b'd' ∷ [])
