-- ===== src/Settings/Lookup.antt =====
-- What is found in merged settings (src/main/resources/web-data/js/main.js).
use dyn_dco.Base.{arith, String, ◌≡◌, ◌≢◌, refl, Option, none, some, string_discrete}
use dyn_dco.Settings.Store.{Setting, Settings, nothing, entry, find, put, extend, merged}

find-put_same : (k : String) (v : Setting) (s : Settings) → find k (put k v s) ≡ some v
find-put_same k v nothing = ground arith
find-put_same k v (entry x w rest) = ground (arith, find-put_same k v rest)

find-put_other : (k j : String) (v : Setting) (s : Settings) → k ≢ j → find j (put k v s) ≡ find j s
find-put_other k j v nothing ne = ground arith
find-put_other k j v (entry x w rest) ne = ground (arith, find-put_other k j v rest)

-- No key stands twice in an object.
abbrev pub KeysDiffer : Settings → Type 0
KeysDiffer nothing = Unit {0}
KeysDiffer (entry k v rest) = (find k rest ≡ none) × KeysDiffer rest

abbrev pub over : Option Setting → Option Setting → Option Setting
over below none = below
over below (some v) = some (merged below v)

-- Under a key of merged settings stands what was added, merged into what was there.
pub find-extend :
    (k : String) (t s : Settings) → KeysDiffer s → find k (extend t s) ≡ over (find k t) (find k s)
unfolding extend
find-extend k t nothing d = refl
find-extend k t (entry x v rest) d = ground (
  arith,
  string_discrete x k,
  find-extend k (put x (merged (find x t) v) t) rest d.1,
  find-put_same x (merged (find x t) v) t,
  find-put_other x k (merged (find x t) v) t,
  d.0,
)
