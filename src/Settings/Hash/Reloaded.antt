-- ===== src/Settings/Hash/Reloaded.antt =====
-- What becomes of a changed option when the page is loaded anew
-- (src/main/resources/web-data/js/main.js).
use Prim.Native.String.{◌++◌ as concat}
use dyn_dco.Base.{
  arith, String, ◌≡◌, ◌≢◌, refl, sym, ap, ◌∙◌, subst, Option-cases, inl, inr, Option, none, some,
  List, [], ◌∷◌, Bool, true, false, if◌then◌else◌, string_discrete,
}
use dyn_dco.Settings.Store.{
  Setting, Settings, leaf, object, nothing, entry, find, extend, keep_entry, is_leaf, hide,
  hide_settings, value_at, get, set,
}
use dyn_dco.Settings.Hidden.{hide_settings-Split, find-hide_none, some_inj}
use dyn_dco.Settings.Hiding.{Fits, FitsSetting}
use dyn_dco.Settings.RoundTrip.{extend-nothing, value-get-set}
use dyn_dco.Settings.Hash.{
  Address, Browser, load_settings, hash_of, assigned, set_address, reload, change_option,
  new_setting,
}

abbrev FitsHidden : Option Setting → Type 0
FitsHidden none = Unit {0}
FitsHidden (some v) = FitsSetting none v

keep-Fits :
    (k : String) (h : Option Setting) (r : Settings)
    → find k r ≡ none
    → FitsHidden h
    → Fits none r
    → Fits none (keep_entry k h r)
keep-Fits k none r e f g = g
keep-Fits k (some (leaf x)) r e f g = (e, f, g)
keep-Fits k (some (object nothing)) r e f g = g
keep-Fits k (some (object (entry x v o))) r e f g = (e, f, g)

leaf-Fits : (b : Bool) (x : String) → FitsHidden (if b then none else some (leaf x))
leaf-Fits true x = tt
leaf-Fits false x = tt

object-Fits :
    (o : Option Settings) (h : Option Setting)
    → (elim o [ none ↦ none | some g ↦ some (some (object g)) ]) ≡ some h
    → ((g : Settings) → o ≡ some g → Fits none g)
    → FitsHidden h
object-Fits none h e f = absurd (cc e)
object-Fits (some g) h e f = subst FitsHidden (some_inj e) (tt, f g refl)

mutual
  unfolding hide hide_settings

  hide-Fits :
      (c d : Option Setting) (v : Setting) (h : Option Setting)
      → hide d v ≡ some h
      → FitsSetting c v
      → FitsHidden h
  hide-Fits c d (leaf x) h e f = subst FitsHidden (some_inj e) (leaf-Fits (is_leaf x d) x)
  hide-Fits c d (object o) h e f =
      object-Fits (hide_settings d o) h e (λ g q. hide_settings-Fits c d o g q f.1)

  hide_settings-Fits :
      (c d : Option Setting) (s t : Settings) → hide_settings d s ≡ some t → Fits c s → Fits none t
  hide_settings-Fits c d nothing t e f = subst (Fits none) (some_inj e) tt
  hide_settings-Fits c d (entry k v rest) t e f =
      let sp = hide_settings-Split d k v rest t e in
      subst (Fits none) (sym sp.result) (
        keep-Fits k sp.hidden sp.others (find-hide_none d k rest sp.others sp.hides_others f.0)
          (hide-Fits _ sp.default v sp.hidden sp.hides f.1)
          (hide_settings-Fits c d rest sp.others sp.hides_others f.2))

entry≢nothing : (k : String) (v : Setting) (rest : Settings) → entry k v rest ≢ nothing
entry≢nothing k v rest e = absurd (cc e)

-- Where an option stands.
abbrev pub path : String → String → List String
path panel id = panel ∷ "options" ∷ id ∷ []

new_setting-Fits : (panel id value : String) → Fits none (new_setting panel id value)
new_setting-Fits panel id value = (refl, (tt, (refl, (tt, (refl, tt, tt)), tt)), tt)

new_setting-value :
    (panel id value : String) → value_at (path panel id) (new_setting panel id value) ≡ some value
new_setting-value panel id value = ground arith

set-cases :
    (browser : Browser) (defaults modification : Settings) (a b : Address)
    → set_address browser defaults modification a ≡ (b, true)
    → (changed : Settings) × ((set defaults modification a.settings ≡ some changed)
        × (b ≡ record { settings = changed; hash = hash_of browser changed }))
unfolding set_address
set-cases browser defaults modification a b e =
    elim (Option-cases (set defaults modification a.settings)) [
      | inl q ↦ absurd (cc (ap (λ r. r.1) (subst (λ o. assigned browser a o ≡ (b, true)) q e)))
      | inr (s, q) ↦
          (s, (q, sym (ap (λ r. r.0) (subst (λ o. assigned browser a o ≡ (b, true)) q e))))
    ]

-- What is documented of the language and of browsers: the text of an object with members begins with a
-- brace and a quote; a quote in the part of an address after the "#" is percent-encoded, and is given back
-- so (the fragment state of the URL standard); and no JSON text begins with a brace and a percent sign.
pub record IsStandard (browser : Browser) : Type 0 where
  pub written :
      (k : String) (v : Setting) (rest : Settings)
      → (t : String) × (browser.stringify (entry k v rest) ≡ concat "{\"" t)
  pub encoded : (t : String) → (u : String) × (browser.read_back (concat "{\"" t) ≡ concat "{%22" u)
  pub rejected : (u : String) → browser.parse (concat "{%22" u) ≡ none

module _ (browser : Browser) (defaults : Settings) where
  -- Settings that were set are loaded again.
  load_settings-hash_of :
      (s : Settings)
      → Fits none s
      → (s ≢ nothing → hash_of browser s ≢ "")
      → (s ≢ nothing → browser.parse (hash_of browser s) ≡ some s)
      → load_settings browser (hash_of browser s) ≡ s
  unfolding load_settings string_discrete
  load_settings-hash_of nothing f n k = refl
  load_settings-hash_of (entry k v rest) f n p =
      ground (arith, n (entry≢nothing k v rest), p (entry≢nothing k v rest))
      ∙ extend-nothing (entry k v rest) f

  -- When an option has been changed without a throw and the page is loaded anew, the settings have the
  -- value that was chosen. The browser gives back a text for settings that are not empty, and it is read
  -- as the settings that were written; in the defaults no key stands twice in an object, nor in the
  -- changed settings, which have no object where the default is a text.
  reload-change_option :
      (panel id value : String) (a b : Address)
      → Fits none defaults
      → Fits
          (some (object defaults))
          (extend (extend nothing a.settings) (new_setting panel id value))
      → change_option browser defaults panel id value a ≡ (b, true)
      → (b.settings ≢ nothing → b.hash ≢ "")
      → (b.settings ≢ nothing → browser.parse b.hash ≡ some b.settings)
      → value_at (path panel id) (get defaults (reload browser b).settings) ≡ some value
  unfolding change_option reload set hide_settings
  reload-change_option panel id value a b fd fits e n p =
      let (changed, (q, r)) = set-cases browser defaults (new_setting panel id value) a b e in
      let kept : Fits none changed =
        hide_settings-Fits (some (object defaults)) (some (object defaults))
          (extend (extend nothing a.settings) (new_setting panel id value)) changed q fits in
      subst
        (λ (x : Address).
          value_at (path panel id) (get defaults (load_settings browser x.hash)) ≡ some value)
        (sym r)
        (ap (λ z. value_at (path panel id) (get defaults z))
            (load_settings-hash_of changed kept
              (subst (λ (x : Address). x.settings ≢ nothing → x.hash ≢ "") r n)
              (subst
                (λ (x : Address). x.settings ≢ nothing → browser.parse x.hash ≡ some x.settings) r
                p))
          ∙ value-get-set (path panel id) value defaults (new_setting panel id value) a.settings
              changed fd (new_setting-Fits panel id value) fits q
              (new_setting-value panel id value))

  -- An address that cannot be read, such as one that the browser gives back with its quotes encoded,
  -- leaves only the defaults.
  reload-unreadable :
      (a : Address)
      → Fits none defaults
      → browser.parse a.hash ≡ none
      → get defaults (reload browser a).settings ≡ defaults
  unfolding reload load_settings get extend
  reload-unreadable a f e = ap (get defaults) (unread e) ∙ extend-nothing defaults f
    where
      unread : browser.parse a.hash ≡ none → load_settings browser a.hash ≡ nothing
      unread q = ground (arith, q)

  load_settings-standard :
      (s : Settings) → IsStandard browser → load_settings browser (hash_of browser s) ≡ nothing
  unfolding load_settings string_discrete
  load_settings-standard nothing b = refl
  load_settings-standard (entry k v rest) b =
      let (t, w) = b.written k v rest in
      let (u, e) = b.encoded t in
      let hash : hash_of browser (entry k v rest) ≡ concat "{%22" u = ap browser.read_back w ∙ e in
      rw hash (ground (arith, b.rejected u))

  -- In a browser that follows the URL standard a changed option does not survive: when it has been changed
  -- without a throw and the page is loaded anew, the settings are the defaults, whatever else was set.
  -- In the defaults no key stands twice in an object.
  pub reload-loses :
      (panel id value : String) (a b : Address)
      → IsStandard browser
      → Fits none defaults
      → change_option browser defaults panel id value a ≡ (b, true)
      → get defaults (reload browser b).settings ≡ defaults
  unfolding change_option reload get extend
  reload-loses panel id value a b standard f e =
      let (changed, (q, r)) = set-cases browser defaults (new_setting panel id value) a b e in
      rw r (ap (get defaults) (load_settings-standard changed standard) ∙ extend-nothing defaults f)
