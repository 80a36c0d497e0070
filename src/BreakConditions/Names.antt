-- ===== src/BreakConditions/Names.antt =====
-- The texts of the module (src/main/resources/web-data/js/strings.js).
use dyn_dco.Base.{String, List, [], ◌∷◌}

abbrev pub pick_vertex : String
pick_vertex = "Enter full ID or select using mouse"

abbrev pub enter_state : String
enter_state = "Enter state"

abbrev pub state_changes : String
state_changes = "state changes"

abbrev pub state_names : List String
state_names = "state above" ∷ "state below" ∷ []

abbrev pub signal_names : List String
signal_names = "signal score above threshold" ∷ "signal score below threshold" ∷ []

abbrev pub collect_names : List String
collect_names = "collect score above threshold" ∷ "collect score below threshold" ∷ []
