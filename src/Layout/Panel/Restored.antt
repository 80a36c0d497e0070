-- ===== src/Layout/Panel/Restored.antt =====
-- That the settings keep the layout (src/main/resources/web-data/js/layout.js).
use dyn_dco.Base.{
  arith, String, ◌≡◌, refl, sym, ap, ◌∙◌, Option, some, List, false, if◌then◌else◌, ite,
  string_discrete, Bool-cases, inl, inr,
}
use dyn_dco.Layout.Panel.{
  View, graph, resources, name, same_view, Section, Page, save_section, set_section, toggle_section,
  clear_views, is_named, is_visible, show_view, saved_section, layout, click_tab, click_title,
}

pub data Step : Page → Page → Type 0 where
  tab : (v : View) (p : Page) → Step p (click_tab v p)
  title : (v : View) (id : String) (p : Page) → Step p (click_title v id p)

pub data Reach (s : Page) : Page → Type 0 where
  here : Reach s s
  next : {p q : Page} → Reach s p → Step p q → Reach s q

-- The page as it is loaded has no view on it yet.
abbrev pub IsLoaded : Page → Type 0
IsLoaded html = (v : View) → (html.shown v ≡ false)

-- The same tabs, views, panels and sections.
abbrev pub SameLayout : Page → Page → Type 0
SameLayout p q =
    ((v : View)
      → (p.selected v ≡ q.selected v)
        × (p.shown v ≡ q.shown v)
        × (p.panel_shown v ≡ q.panel_shown v))
    × ((v : View) (id : String) → p.sections v id ≡ q.sections v id)

-- What a page with these settings shows, when its sections stood on the page at first as in `html`.
abbrev pub Shows : Page → Page → Type 0
Shows html p =
    ((v : View)
      → (p.selected v ≡ is_named p.saved.view v)
        × (p.shown v ≡ is_named p.saved.view v)
        × (p.panel_shown v ≡ is_named p.saved.view v))
    × ((v : View) (id : String)
        → p.sections v id ≡ saved_section (html.sections v id) (p.saved.layout v id))

show_view-Shows : (html : Page) (s : String) (p : Page) → Shows html p → Shows html (show_view s p)
unfolding show_view clear_views
show_view-Shows html s p h = elim (Bool-cases (is_visible s p)) [
  | inl e ↦ rw e h
  | inr e ↦ rw e (λ v. (refl, refl, refl), h.1)
]

set_section-saved :
    (html p : Page) (v : View) (id x : String) (s : Section)
    → Shows html p
    → ((old : Section) → saved_section old (some x) ≡ s)
    → Shows html (record (set_section v id s p) { saved = save_section v id x p.saved })
set_section-saved html p v id x s h e = (h.0, λ w j. at w j)
  where
    put :
        {Q : Type 0} (d : Dec Q) {new : Section} (old : Section) (entry : Option String)
        → new ≡ saved_section old entry
        → ite d s new ≡ saved_section old (ite d (some x) entry)
    put (yes q) old entry k = sym (e old)
    put (no q) old entry k = k

    at :
        (w : View) (j : String)
        → (if same_view v w then ite (string_discrete id j) s (p.sections w j) else p.sections w j)
          ≡ saved_section (html.sections w j) (
              if same_view v w
              then ite (string_discrete id j) (some x) (p.saved.layout w j)
              else p.saved.layout w j)
    at w j = elim (Bool-cases (same_view v w)) [
      | inl t ↦ rw t (put (string_discrete id j) (html.sections w j) (p.saved.layout w j) (h.1 w j))
      | inr t ↦ rw t (h.1 w j)
    ]

toggle_section-Shows :
    (html : Page) (v : View) (id : String) (p : Page)
    → Shows html p
    → Shows html (toggle_section v id p)
unfolding toggle_section string_discrete
toggle_section-Shows html v id p h = elim (Bool-cases (p.sections v id).shown) [
  | inl e ↦ rw e (set_section-saved html p v id "hide" _ h (λ old. refl))
  | inr e ↦ rw e (set_section-saved html p v id "show" _ h (λ old. refl))
]

Step-Shows : (html : Page) {p q : Page} → Step p q → Shows html p → Shows html q
unfolding click_tab click_title
Step-Shows html (tab v p) h = elim (Bool-cases (p.offered v)) [
  | inl e ↦ rw e (show_view-Shows html (name v) p h)
  | inr e ↦ rw e h
]
Step-Shows html (title v id p) h = elim (Bool-cases (p.panel_shown v)) [
  | inl e ↦ rw e (toggle_section-Shows html v id p h)
  | inr e ↦ rw e h
]

Reach-Shows : (html : Page) {p q : Page} → Shows html p → Reach p q → Shows html q
Reach-Shows html h here = h
Reach-Shows html h (next r st) = Step-Shows html st (Reach-Shows html h r)

loaded-is_visible : (s : String) (html : Page) → IsLoaded html → is_visible s html ≡ false
loaded-is_visible s html h = ground (arith, h graph, h resources)

layout-Shows : (views : List String) (html : Page) → IsLoaded html → Shows html (layout views html)
unfolding layout show_view clear_views
layout-Shows views html h =
    rw (loaded-is_visible html.saved.view html h) (λ v. (refl, refl, refl), λ v id. refl)

layout-saved :
    (views : List String) (html : Page) → IsLoaded html → (layout views html).saved ≡ html.saved
unfolding layout show_view clear_views
layout-saved views html h = rw (loaded-is_visible html.saved.view html h) refl

-- A page is given by its settings and the state of its sections at first.
Shows-SameLayout :
    (html p q : Page) → Shows html p → Shows html q → p.saved ≡ q.saved → SameLayout p q
Shows-SameLayout html p q (f, g) (k, l) e = (
  λ v. (
    (f v).0 ∙ ap (λ s. is_named s.view v) e ∙ sym (k v).0,
    (f v).1 ∙ ap (λ s. is_named s.view v) e ∙ sym (k v).1,
    (f v).2 ∙ ap (λ s. is_named s.view v) e ∙ sym (k v).2,
  ),
  λ v id. g v id ∙ ap (λ s. saved_section (html.sections v id) (s.layout v id)) e ∙ sym (l v id),
)

-- When a page is laid out, and then tabs and titles are clicked in any order, the settings keep what is
-- shown: laid out again from its first state with the settings at that time, the page has the same
-- tabs selected and the same views, panels and sections shown.
pub layout-Restored :
    (views : List String) (html p : Page)
    → IsLoaded html
    → Reach (layout views html) p
    → SameLayout (layout views (record html { saved = p.saved })) p
layout-Restored views html p h r =
    let again = record html { saved = p.saved } in
    Shows-SameLayout html (layout views again) p (layout-Shows views again h)
      (Reach-Shows html (layout-Shows views html h) r) (layout-saved views again h)
