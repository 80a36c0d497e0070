-- ===== src/Settings/RoundTrip.antt =====
-- What is set is what is got (src/main/resources/web-data/js/main.js).
use dyn_dco.Base.{
  arith, String, ◌≡◌, refl, sym, ap, ◌∙◌, Option, none, some, List, [], ◌∷◌, ite, string_discrete,
}
use dyn_dco.Settings.Store.{
  Setting, Settings, leaf, object, nothing, entry, find, put, members, extend, merged, value_at,
  get, set,
}
use dyn_dco.Settings.Lookup.{over, find-extend}
use dyn_dco.Settings.Hiding.{FitsSetting, Fits, Fits-KeysDiffer, Fits-find, value-hide}

abbrev attach : Settings → Settings → Settings
attach nothing s = s
attach (entry k v rest) s = entry k v (attach rest s)

abbrev Apart : Settings → Settings → Type 0
Apart t nothing = Unit {0}
Apart t (entry k v rest) = (find k t ≡ none) × Apart t rest

attach-nothing : (t : Settings) → attach t nothing ≡ t
attach-nothing nothing = refl
attach-nothing (entry k v rest) = ap (entry k v) (attach-nothing rest)

attach-attach : (r s t : Settings) → attach (attach r s) t ≡ attach r (attach s t)
attach-attach nothing s t = refl
attach-attach (entry k v rest) s t = ap (entry k v) (attach-attach rest s t)

put-attach :
    (k : String) (v : Setting) (t : Settings)
    → find k t ≡ none
    → put k v t ≡ attach t (entry k v nothing)
put-attach k v nothing e = refl
put-attach k v (entry x w rest) e = ground (arith, e, put-attach k v rest)

find-attach :
    (k j : String) (v : Setting) (t : Settings)
    → find j t ≡ none
    → find j (attach t (entry k v nothing)) ≡ ite (string_discrete k j) (some v) none
find-attach k j v nothing e = refl
find-attach k j v (entry x w rest) e = ground (arith, e, find-attach k j v rest)

Apart-nothing : (s : Settings) → Apart nothing s
Apart-nothing nothing = tt
Apart-nothing (entry k v rest) = (refl, Apart-nothing rest)

Apart-attach :
    (k : String) (v : Setting) (t s : Settings)
    → find k s ≡ none
    → Apart t s
    → Apart (attach t (entry k v nothing)) s
Apart-attach k v t nothing e a = tt
Apart-attach k v t (entry x w rest) e a =
    (ground (arith, find-attach k x v t a.0, e), Apart-attach k v t rest (ground (arith, e)) a.1)

-- Merging settings whose keys are not there yet appends them.
mutual
  unfolding extend

  merged-none : (v : Setting) → FitsSetting none v → merged none v ≡ v
  merged-none (leaf x) f = refl
  merged-none (object g) f = ap object (extend-attach nothing g (Apart-nothing g) f.1)

  extend-attach : (t s : Settings) → Apart t s → Fits none s → extend t s ≡ attach t s
  extend-attach t nothing a f = sym (attach-nothing t)
  extend-attach t (entry k v rest) a f =
      ap (λ o. extend (put k (merged o v) t) rest) a.0
      ∙ ap (λ w. extend (put k w t) rest) (merged-none v f.1)
      ∙ ap (λ z. extend z rest) (put-attach k v t a.0)
      ∙ extend-attach (attach t (entry k v nothing)) rest (Apart-attach k v t rest f.0 a.1) f.2
      ∙ attach-attach t (entry k v nothing) rest

-- A copy of an object is the object.
pub extend-nothing : (s : Settings) → Fits none s → extend nothing s ≡ s
extend-nothing s f = extend-attach nothing s (Apart-nothing s) f

-- The text at a path below what is found under a key.
abbrev value_below : List String → Option Setting → Option String
value_below path o = elim o [
  | none ↦ none
  | some v ↦ elim v [
    | leaf x ↦ elim path [ [] ↦ some x | _ ∷ _ ↦ none ]
    | object f ↦ value_at path f
  ]
]

-- What is merged into settings is found in them.
value-extend :
    (path : List String) (x : String) (d : Option Setting) (t s : Settings)
    → Fits d s
    → value_at path s ≡ some x
    → value_at path (extend t s) ≡ some x
unfolding extend
value-extend [] x d t s f e = absurd (cc e)
value-extend (k ∷ path) x d t s f e =
    ap (value_below path) (find-extend k t s (Fits-KeysDiffer d s f))
    ∙ below (λ c u g h q. value-extend path x c u g h q) (find k s) refl e
  where
    below :
        ((c : Option Setting) (u g : Settings)
          → Fits c g
          → value_at path g ≡ some x
          → value_at path (extend u g) ≡ some x)
        → (o : Option Setting) → find k s ≡ o
        → value_below path (find k s) ≡ some x
        → value_below path (over (find k t) o) ≡ some x
    below again none q e = absurd (cc (sym (ap (value_below path) q) ∙ e))
    below again (some (leaf y)) q e = sym (ap (value_below path) q) ∙ e
    below again (some (object g)) q e =
        again (find k (members d)) (members (find k t)) g (Fits-find d k (object g) s f q).1
          (sym (ap (value_below path) q) ∙ e)

-- Every text of a change is got back under its path after the change was set without a throw, also
-- if it is the default and so is not kept; in the defaults, the change and the changed settings no key
-- stands twice in an object, and the changed settings have no object where the default is a text.
pub value-get-set :
    (path : List String) (x : String) (defaults modification settings changed : Settings)
    → Fits none defaults
    → Fits none modification
    → Fits (some (object defaults)) (extend (extend nothing settings) modification)
    → set defaults modification settings ≡ some changed
    → value_at path modification ≡ some x
    → value_at path (get defaults changed) ≡ some x
unfolding get set
value-get-set path x defaults modification settings changed fd fm fits e found =
    ap (λ z. value_at path (extend z changed)) (extend-nothing defaults fd)
    ∙ value-hide path (some (object defaults)) (extend (extend nothing settings) modification)
        changed tt fits e
    ∙ value-extend path x (some (object defaults)) defaults
        (extend (extend nothing settings) modification) fits
        (value-extend path x none (extend nothing settings) modification fm found)
