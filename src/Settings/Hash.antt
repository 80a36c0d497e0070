-- ===== src/Settings/Hash.antt =====
-- The settings in the address (src/main/resources/web-data/js/main.js).
pub mod Reloaded
use dyn_dco.Base.{String, Option, none, some, Bool, true, false, ite, string_discrete}
use dyn_dco.Settings.Store.{Settings, leaf, object, nothing, entry, extend, set}

-- `settings`, and what follows the "#" of `top.location.hash`, as the browser gives it back.
pub record Address : Type 0 where
  pub settings : Settings
  pub hash : String

-- JSON.stringify, JSON.parse (`none` if it throws), and the text that the browser gives back for a hash
-- that was set.
pub record Browser : Type 0 where
  pub stringify : Settings → String
  pub parse : String → Option Settings
  pub read_back : String → String

-- The change that is made of a panel, the id of an option, and its value.
abbrev pub new_setting : String → String → String → Settings
new_setting panel id value =
    entry panel (object (entry "options" (object (entry id (leaf value) nothing)) nothing)) nothing

module _ (browser : Browser) where
  -- `loadSettings`
  unfoldable pub load_settings : String → Settings
  load_settings hash =
      ite (string_discrete hash "") nothing
        (elim (browser.parse hash) [ none ↦ nothing | some s ↦ extend nothing s ])

  -- The text for the settings.
  abbrev pub hash_of : Settings → String
  hash_of nothing = ""
  hash_of (entry k v rest) = browser.read_back (browser.stringify (entry k v rest))

  abbrev pub assigned : Address → Option Settings → Address × Bool
  assigned a none = (a, false)
  assigned a (some s) = (record { settings = s; hash = hash_of s }, true)

  -- `set` with an object, and whether it came to its end.
  unfoldable pub set_address : Settings → Settings → Address → Address × Bool
  set_address defaults modification a = assigned a (set defaults modification a.settings)

  -- `reload`
  unfoldable pub reload : Address → Address
  reload a = record a { settings = load_settings a.hash }

  -- The handler of "change" on an option, in the panel of its name.
  unfoldable pub change_option : Settings → String → String → String → Address → Address × Bool
  change_option defaults panel id value = set_address defaults (new_setting panel id value)
