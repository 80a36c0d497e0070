-- ===== src/Settings/Store.antt =====
-- `$.extend(true, …)` on settings, and the class Settings
-- (src/main/resources/web-data/js/main.js).
use dyn_dco.Base.{
  String, Option, none, some, List, [], ◌∷◌, Bool, true, false, if◌then◌else◌, ite, string_discrete,
}

-- A settings object. The text of a leaf stands for a string or a number: the script compares them
-- with `==`.
mutual
  pub data Setting : Type 0 where
    leaf : String → Setting
    object : Settings → Setting

  pub data Settings : Type 0 where
    nothing : Settings
    entry : String → Setting → Settings → Settings

abbrev pub find : String → Settings → Option Setting
find k nothing = none
find k (entry x v rest) = ite (string_discrete x k) (some v) (find k rest)

abbrev pub put : String → Setting → Settings → Settings
put k v nothing = entry k v nothing
put k v (entry x w rest) = ite (string_discrete x k) (entry x v rest) (entry x w (put k v rest))

-- What an object is merged into: the members that are there, if that is an object too.
abbrev pub members : Option Setting → Settings
members none = nothing
members (some (leaf x)) = nothing
members (some (object f)) = f

-- `$.extend(true, target, s)`
unfoldable mutual
  pub extend : Settings → Settings → Settings
  extend target nothing = target
  extend target (entry k v rest) = extend (put k (merged (find k target) v) target) rest

  pub merged : Option Setting → Setting → Setting
  merged o (leaf x) = leaf x
  merged o (object f) = object (extend (members o) f)

-- `defaults[k]`: it throws on undefined, and a text has no members.
abbrev pub member : Option Setting → String → Option (Option Setting)
member none k = none
member (some (leaf x)) k = some none
member (some (object f)) k = some (find k f)

-- `defaults == added`
abbrev pub is_leaf : String → Option Setting → Bool
is_leaf x none = false
is_leaf x (some (leaf y)) = ite (string_discrete y x) true false
is_leaf x (some (object f)) = false

-- `added[k] = …` and `delete added[k]`
abbrev pub keep_entry : String → Option Setting → Settings → Settings
keep_entry k none rest = rest
keep_entry k (some (leaf x)) rest = entry k (leaf x) rest
keep_entry k (some (object nothing)) rest = rest
keep_entry k (some (object (entry x v f))) rest = entry k (object (entry x v f)) rest

abbrev pub and_then {ℓ κ} : {A : Type ℓ} {B : Type κ} → Option A → (A → Option B) → Option B
and_then none f = none
and_then (some a) f = f a

abbrev pub combine : String → Option (Option Setting) → Option Settings → Option Settings
combine k none others = none
combine k (some h) none = none
combine k (some h) (some r) = some (keep_entry k h r)

-- `hideDefaults`: `none` if it throws; inside, `none` for null.
unfoldable mutual
  pub hide : Option Setting → Setting → Option (Option Setting)
  hide defaults (leaf x) = some (if is_leaf x defaults then none else some (leaf x))
  hide defaults (object f) = elim (hide_settings defaults f) [
    | none ↦ none
    | some g ↦ some (some (object g))
  ]

  pub hide_settings : Option Setting → Settings → Option Settings
  hide_settings defaults nothing = some nothing
  hide_settings defaults (entry k v rest) =
      combine k (and_then (member defaults k) (λ d. hide d v)) (hide_settings defaults rest)

-- `get`
unfoldable pub get : Settings → Settings → Settings
get defaults settings = extend (extend nothing defaults) settings

-- `set` with an object: the new settings, or `none` if it throws.
unfoldable pub set : Settings → Settings → Settings → Option Settings
set defaults modification settings =
    hide_settings (some (object defaults)) (extend (extend nothing settings) modification)

-- The text at a path of keys.
abbrev pub value_at : List String → Settings → Option String
value_at [] s = none
value_at (k ∷ path) s = elim (find k s) [
  | none ↦ none
  | some v ↦ elim v [
    | leaf x ↦ elim path [ [] ↦ some x | _ ∷ _ ↦ none ]
    | object f ↦ value_at path f
  ]
]
