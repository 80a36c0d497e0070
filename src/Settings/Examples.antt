-- ===== src/Settings/Examples.antt =====
-- Settings of the graph and what the theorems say of them
-- (src/main/resources/web-data/js/main.js).
use Prim.Native.String.{◌++◌ as concat}
use dyn_dco.Base.{String, ◌≡◌, refl, none, some, [], ◌∷◌, string_discrete}
use dyn_dco.Settings.Store.{
  Settings, leaf, object, nothing, entry, extend, hide_settings, value_at, get, set,
}
use dyn_dco.Settings.Hiding.{value-hide}
use dyn_dco.Settings.Hash.{Address, Browser, change_option, set_address, reload}
use dyn_dco.Settings.Hash.Reloaded.{IsStandard, reload-loses}

abbrev defaults : Settings
defaults = entry "main" (object (entry "view" (leaf "graph") nothing)) (
    entry "graph"
      (object (
        entry "options"
          (object (entry "drawEdges" (leaf "Always") (entry "refreshRate" (leaf "1") nothing)))
          nothing))
      nothing)

abbrev one_option : String → String → Settings
one_option k x =
    entry "graph" (object (entry "options" (object (entry k (leaf x) nothing)) nothing)) nothing

-- a default is not kept
set_test :
    set defaults (one_option "drawEdges" "Always") (one_option "refreshRate" "5")
    ≡ some (one_option "refreshRate" "5")
unfolding string_discrete set extend hide_settings
set_test = refl

-- a key that no module knows throws
set_unknown_test :
    set defaults
      (entry "log"
        (object (entry "layout" (object (entry "box" (leaf "show") nothing)) nothing))
        nothing)
      nothing
    ≡ none
unfolding string_discrete set extend hide_settings
set_unknown_test = refl

value-hide_example :
    value_at ("graph" ∷ "options" ∷ "drawEdges" ∷ []) (extend defaults nothing)
    ≡ value_at
        ("graph" ∷ "options" ∷ "drawEdges" ∷ [])
        (extend defaults (one_option "drawEdges" "Always"))
unfolding string_discrete hide_settings
value-hide_example =
    value-hide ("graph" ∷ "options" ∷ "drawEdges" ∷ []) (some (object defaults))
      (one_option "drawEdges" "Always") nothing tt
      (refl, (tt, (refl, (tt, (refl, tt, tt)), tt)), tt) refl

-- It writes all settings alike, and reads no text that begins with an encoded quote.
abbrev browser : Browser
browser = record {
  stringify = λ s. concat "{\"" "}";
  parse = λ t. none;
  read_back = λ t. concat "{%22" "}";
}

browser-IsStandard : IsStandard browser
browser-IsStandard = record {
  written = λ k v rest. ("}", refl);
  encoded = λ t. ("}", refl);
  rejected = λ u. refl;
}

abbrev untouched : Address
untouched = record { settings = nothing; hash = "" }

abbrev touched : Address
touched = record { settings = one_option "refreshRate" "5"; hash = concat "{%22" "}" }

reload-loses_example : get defaults (reload browser touched).settings ≡ defaults
unfolding string_discrete set extend hide_settings change_option set_address
reload-loses_example =
    reload-loses browser defaults "graph" "refreshRate" "5" untouched touched browser-IsStandard
      (refl, (tt, (refl, tt, tt)), (refl, (tt, (refl, (tt, (refl, tt, (refl, tt, tt))), tt)), tt))
      refl
