-- ===== src/Settings/Hiding.antt =====
-- Hiding the defaults loses nothing (src/main/resources/web-data/js/main.js).
use dyn_dco.Base.{
  arith, String, ◌≡◌, refl, sym, subst, ap, ◌∙◌, Option, none, some, List, [], ◌∷◌, true, inl, inr,
  Bool-cases, Option-cases, string_discrete,
}
use dyn_dco.Settings.Store.{
  Setting, Settings, leaf, object, nothing, entry, find, members, extend, member, is_leaf, hide,
  hide_settings, value_at,
}
use dyn_dco.Settings.Lookup.{KeysDiffer, over, find-extend}
use dyn_dco.Settings.Hidden.{kept, find-hide_none, hide-KeysDiffer, hide-Found}

abbrev pub NotLeaf : Option Setting → Type 0
NotLeaf none = Unit {0}
NotLeaf (some (leaf x)) = ⊥
NotLeaf (some (object f)) = Unit {0}

-- No key stands twice in an object of the settings, and no object stands where the default is a text.
abbrev mutual
  pub FitsSetting : Option Setting → Setting → Type 0
  FitsSetting d (leaf x) = Unit {0}
  FitsSetting d (object f) = NotLeaf d × Fits d f

  pub Fits : Option Setting → Settings → Type 0
  Fits d nothing = Unit {0}
  Fits d (entry k v rest) = (find k rest ≡ none) × FitsSetting (find k (members d)) v × Fits d rest

pub Fits-KeysDiffer : (d : Option Setting) (s : Settings) → Fits d s → KeysDiffer s
Fits-KeysDiffer d nothing f = tt
Fits-KeysDiffer d (entry k v rest) f = (f.0, Fits-KeysDiffer d rest f.2)

pub Fits-find :
    (d : Option Setting) (k : String) (v : Setting) (s : Settings)
    → Fits d s
    → find k s ≡ some v
    → FitsSetting (find k (members d)) v
Fits-find d k v nothing f e = absurd (cc e)
Fits-find d k v (entry x w rest) f e = elim (string_discrete x k) [
  | yes same ↦
      let same_value : w ≡ v = ground (arith, e, same) in
      subst (λ y. FitsSetting (find k (members d)) y) same_value
        (subst (λ y. FitsSetting (find y (members d)) w) same f.1)
  | no other ↦ Fits-find d k v rest f.2 (ground (arith, e, other))
]

member-members :
    (d o : Option Setting) (k : String) → NotLeaf d → member d k ≡ some o → o ≡ find k (members d)
member-members none o k n e = cc e
member-members (some (leaf x)) o k n e = absurd n
member-members (some (object f)) o k n e = cc e

is_leaf-true : (x : String) (o : Option Setting) → is_leaf x o ≡ true → o ≡ some (leaf x)
is_leaf-true x none e = cc e
is_leaf-true x (some (leaf y)) e = ground (arith, e)
is_leaf-true x (some (object f)) e = cc e

-- The text at a path below what is found under a key.
abbrev value_of : List String → Option Setting → Option String
value_of path o = elim o [
  | none ↦ none
  | some v ↦ elim v [
    | leaf x ↦ elim path [ [] ↦ some x | _ ∷ _ ↦ none ]
    | object f ↦ value_at path f
  ]
]

value_of-members :
    (path : List String) (o : Option Setting)
    → NotLeaf o
    → value_of path o ≡ value_at path (members o)
value_of-members [] none n = refl
value_of-members (k ∷ path) none n = refl
value_of-members path (some (leaf x)) n = absurd n
value_of-members path (some (object f)) n = refl

hide_object-cases :
    (d h : Option Setting) (f : Settings)
    → hide d (object f) ≡ some h
    → (g : Settings) × (hide_settings d f ≡ some g) × (h ≡ some (object g))
unfolding hide
hide_object-cases d h f e = elim (Option-cases (hide_settings d f)) [
  | inl n ↦ absurd (cc (e, n))
  | inr (g, n) ↦ (g, n, cc (e, n))
]

value_of-kept :
    (path : List String) (b : Option Setting) (g : Settings)
    → NotLeaf b
    → value_of path (over b (kept (some (object g)))) ≡ value_at path (extend (members b) g)
unfolding extend
value_of-kept path b nothing n = value_of-members path b n
value_of-kept path b (entry x v g) n = refl

value_of-leaf :
    (path : List String) (x : String) (b h : Option Setting)
    → hide b (leaf x) ≡ some h
    → value_of path (over b (kept h)) ≡ value_of path (some (leaf x))
unfolding hide extend
value_of-leaf path x b h e = elim (Bool-cases (is_leaf x b)) [
  | inl t ↦
      let gone : h ≡ none = cc (e, t) in
      ap (λ z. value_of path (over b (kept z))) gone ∙ ap (value_of path) (is_leaf-true x b t)
  | inr t ↦
      let stays : h ≡ some (leaf x) = cc (e, t) in ap (λ z. value_of path (over b (kept z))) stays
]

-- If hiding the defaults does not throw, merging what is left into the defaults gives under every path
-- the text that merging all of the settings gives; no key stands twice in an object of the settings,
-- and no object stands where the default is a text.
pub value-hide :
    (path : List String) (d : Option Setting) (s t : Settings)
    → NotLeaf d
    → Fits d s
    → hide_settings d s ≡ some t
    → value_at path (extend (members d) t) ≡ value_at path (extend (members d) s)
unfolding extend
value-hide [] d s t n f e = refl
value-hide (k ∷ path) d s t n f e =
    ap (value_of path) (find-extend k (members d) t (hide-KeysDiffer d s t e differ))
    ∙ below (λ c g r m i q. value-hide path c g r m i q) (find k s) refl
    ∙ sym (ap (value_of path) (find-extend k (members d) s differ))
  where
    differ : KeysDiffer s
    differ = Fits-KeysDiffer d s f

    b : Option Setting
    b = find k (members d)

    Again : Type 0
    Again =
        (c : Option Setting) (g r : Settings)
        → NotLeaf c
        → Fits c g
        → hide_settings c g ≡ some r
        → value_at path (extend (members c) r) ≡ value_at path (extend (members c) g)

    under :
        Again
        → (v : Setting) (h : Option Setting) → FitsSetting b v
        → hide b v ≡ some h
        → value_of path (over b (kept h)) ≡ value_of path (over b (some v))
    under again (leaf x) h fits q = value_of-leaf path x b h q
    under again (object g) h fits q =
        let (r, hr, er) = hide_object-cases b h g q in
        ap (λ z. value_of path (over b (kept z))) er
        ∙ value_of-kept path b r fits.0
        ∙ again b g r fits.0 fits.1 hr

    below :
        Again
        → (o : Option Setting) → find k s ≡ o
        → value_of path (over b (find k t)) ≡ value_of path (over b o)
    below again none q = ap (λ z. value_of path (over b z)) (find-hide_none d k s t e q)
    below again (some v) q =
        let found = hide-Found d k v s t e differ q in
        ap (λ z. value_of path (over b z)) found.result
        ∙ under again v found.hidden (Fits-find d k v s f q) (
            ap (λ z. hide z v) (sym (member-members d found.default k n found.known)) ∙ found.hides)
