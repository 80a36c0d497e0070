-- ===== src/Settings/Hidden.antt =====
-- Which entries `hideDefaults` leaves (src/main/resources/web-data/js/main.js).
use dyn_dco.Base.{
  arith, String, ◌≡◌, ◌≢◌, refl, sym, ap, ◌∙◌, Option, none, some, inl, inr, Option-cases,
  string_discrete,
}
use dyn_dco.Settings.Store.{
  Setting, Settings, leaf, object, nothing, entry, find, member, and_then, combine, keep_entry,
  hide, hide_settings,
}
use dyn_dco.Settings.Lookup.{KeysDiffer}

-- What is found of an entry that was kept or deleted.
abbrev pub kept : Option Setting → Option Setting
kept none = none
kept (some (leaf x)) = some (leaf x)
kept (some (object nothing)) = none
kept (some (object (entry x v f))) = some (object (entry x v f))

find-keep_same :
    (k : String) (h : Option Setting) (r : Settings)
    → find k r ≡ none
    → find k (keep_entry k h r) ≡ kept h
find-keep_same k none r e = e
find-keep_same k (some (leaf x)) r e = ground arith
find-keep_same k (some (object nothing)) r e = e
find-keep_same k (some (object (entry x v f))) r e = ground arith

find-keep_other :
    (k j : String) (h : Option Setting) (r : Settings)
    → k ≢ j
    → find j (keep_entry k h r) ≡ find j r
find-keep_other k j none r ne = refl
find-keep_other k j (some (leaf x)) r ne = ground (arith, ne)
find-keep_other k j (some (object nothing)) r ne = refl
find-keep_other k j (some (object (entry x v f))) r ne = ground (arith, ne)

keep-KeysDiffer :
    (k : String) (h : Option Setting) (r : Settings)
    → find k r ≡ none
    → KeysDiffer r
    → KeysDiffer (keep_entry k h r)
keep-KeysDiffer k none r e d = d
keep-KeysDiffer k (some (leaf x)) r e d = (e, d)
keep-KeysDiffer k (some (object nothing)) r e d = d
keep-KeysDiffer k (some (object (entry x v f))) r e d = (e, d)

-- What it means that an entry was hidden without a throw.
pub record Split (d : Option Setting) (k : String) (v : Setting) (rest s : Settings) : Type 0 where
  pub default : Option Setting
  pub hidden : Option Setting
  pub others : Settings
  pub found : member d k ≡ some default
  pub hides : hide default v ≡ some hidden
  pub hides_others : hide_settings d rest ≡ some others
  pub result : s ≡ keep_entry k hidden others

pub some_inj : {A : Type 0} {a b : A} → some a ≡ some b → a ≡ b
some_inj e = cc e

combine-Split :
    (d : Option Setting) (k : String) (v : Setting) (rest s : Settings)
    (m : Option (Option Setting)) (o : Option Settings)
    → m ≡ member d k
    → o ≡ hide_settings d rest
    → combine k (and_then m (λ d. hide d v)) o ≡ some s
    → Split d k v rest s
combine-Split d k v rest s none o em eo e = absurd (cc e)
combine-Split d k v rest s (some m) o em eo e = elim (Option-cases (hide m v)) [
  | inl b ↦ absurd (cc (e, b))
  | inr (h, b) ↦ elim (Option-cases o) [
    | inl c ↦ absurd (cc (e, b, c))
    | inr (r, c) ↦ record {
      default = m;
      hidden = h;
      others = r;
      found = sym em;
      hides = b;
      hides_others = sym eo ∙ c;
      result = cc (e, b, c);
    }
  ]
]

pub hide_settings-Split :
    (d : Option Setting) (k : String) (v : Setting) (rest s : Settings)
    → hide_settings d (entry k v rest) ≡ some s
    → Split d k v rest s
unfolding hide_settings
hide_settings-Split d k v rest s e =
    combine-Split d k v rest s (member d k) (hide_settings d rest) refl refl e

pub find-hide_none :
    (d : Option Setting) (k : String) (s t : Settings)
    → hide_settings d s ≡ some t
    → find k s ≡ none
    → find k t ≡ none
unfolding hide_settings
find-hide_none d k nothing t e n = rw (sym (some_inj e)) refl
find-hide_none d k (entry x v rest) t e n =
    let sp = hide_settings-Split d x v rest t e in
    rw sp.result (
      ground (
        arith,
        string_discrete x k,
        n,
        find-keep_other x k sp.hidden sp.others,
        find-hide_none d k rest sp.others sp.hides_others,
      ))

pub hide-KeysDiffer :
    (d : Option Setting) (s t : Settings) → hide_settings d s ≡ some t → KeysDiffer s → KeysDiffer t
unfolding hide_settings
hide-KeysDiffer d nothing t e k = rw (sym (some_inj e)) tt
hide-KeysDiffer d (entry x v rest) t e k =
    let sp = hide_settings-Split d x v rest t e in
    rw sp.result (
      keep-KeysDiffer x sp.hidden sp.others (find-hide_none d x rest sp.others sp.hides_others k.0)
        (hide-KeysDiffer d rest sp.others sp.hides_others k.1))

-- What is found of an entry after the defaults were hidden.
pub record Found (d : Option Setting) (k : String) (v : Setting) (t : Settings) : Type 0 where
  pub default : Option Setting
  pub hidden : Option Setting
  pub known : member d k ≡ some default
  pub hides : hide default v ≡ some hidden
  pub result : find k t ≡ kept hidden

pub hide-Found :
    (d : Option Setting) (k : String) (v : Setting) (s t : Settings)
    → hide_settings d s ≡ some t
    → KeysDiffer s
    → find k s ≡ some v
    → Found d k v t
unfolding hide_settings
hide-Found d k v nothing t e kd f = absurd (cc f)
hide-Found d k v (entry x w rest) t e kd f = elim (string_discrete x k) [
  | yes same ↦
      let same_value : w ≡ v = ground (arith, f, same) in
      let sp = hide_settings-Split d x w rest t e in
      record {
        default = sp.default;
        hidden = sp.hidden;
        known = ap (member d) (sym same) ∙ sp.found;
        hides = ap (hide sp.default) (sym same_value) ∙ sp.hides;
        result =
            rw (sp.result, sym same)
              (find-keep_same x sp.hidden sp.others
                (find-hide_none d x rest sp.others sp.hides_others kd.0));
      }
  | no other ↦
      let sp = hide_settings-Split d x w rest t e in
      let later = hide-Found d k v rest sp.others sp.hides_others kd.1 (ground (arith, f, other)) in
      record {
        default = later.default;
        hidden = later.hidden;
        known = later.known;
        hides = later.hides;
        result = rw sp.result (find-keep_other x k sp.hidden sp.others other ∙ later.result);
      }
]
