-- ===== src/Layout/Panel.antt =====
-- The views and the sections of their panels (src/main/resources/web-data/js/layout.js).
pub mod Restored
use dyn_dco.Base.{
  String, Option, none, some, List, Bool, true, false, ◌&&◌, ◌||◌, not, if◌then◌else◌, ite,
  string_discrete, contains, Table, update,
}

pub data View : Type 0 where
  graph resources : View

abbrev pub name : View → String
name graph = "graph"
name resources = "resources"

abbrev pub same_view : View → View → Bool
same_view graph graph = true
same_view graph resources = false
same_view resources graph = false
same_view resources resources = true

-- A section of a panel: whether its title has the class "expanded" and its contents are shown.
pub record Section : Type 0 where
  pub expanded : Bool
  pub shown : Bool

-- What `scc.settings.get()` returns for the layout: `main.view`, and `layout` of the settings of each
-- view.
pub record Saved : Type 0 where
  pub view : String
  pub layout : View → Table String

-- The page: the tabs that are offered and selected, the views and the panels that are shown, and the
-- sections by the panel and their id.
pub record Page : Type 0 where
  pub offered : View → Bool
  pub selected : View → Bool
  pub shown : View → Bool
  pub panel_shown : View → Bool
  pub sections : View → String → Section
  pub saved : Saved

-- `scc.settings.set`, which merges the change into the settings.
abbrev pub save_section : View → String → String → Saved → Saved
save_section v id x s = record s {
  layout = λ w j.
      if same_view v w then ite (string_discrete id j) (some x) (s.layout w j) else s.layout w j;
}

abbrev pub set_section : View → String → Section → Page → Page
set_section v id x p = record p {
  sections = λ w j.
      if same_view v w then ite (string_discrete id j) x (p.sections w j) else p.sections w j;
}

-- `toggleSection`
unfoldable pub toggle_section : View → String → Page → Page
toggle_section v id p =
    if (p.sections v id).shown
    then record (set_section v id (record { expanded = false; shown = false }) p) {
      saved = save_section v id "hide" p.saved;
    }
    else record (set_section v id (record { expanded = true; shown = true }) p) {
      saved = save_section v id "show" p.saved;
    }

-- `clearViews`
unfoldable pub clear_views : Page → Page
clear_views p = record p { selected = λ v. false; shown = λ v. false; panel_shown = λ v. false }

-- Whether an element with the id of the view stands for it.
abbrev pub is_named : String → View → Bool
is_named s v = ite (string_discrete s (name v)) true false

-- `$("#" + view + ".view").is(":visible")`
abbrev pub is_visible : String → Page → Bool
is_visible s p = (is_named s graph && p.shown graph) || (is_named s resources && p.shown resources)

-- `showView`
unfoldable pub show_view : String → Page → Page
show_view s p = if is_visible s p then p else record (clear_views p) {
  saved = record p.saved { view = s };
  selected = is_named s;
  shown = is_named s;
  panel_shown = is_named s;
}

-- The section that an entry of the settings asks for.
abbrev pub saved_section : Section → Option String → Section
saved_section old none = old
saved_section old (some x) =
    ite (string_discrete x "hide") (record { expanded = false; shown = false })
      (record { expanded = true; shown = true })

-- `layout`
unfoldable pub layout : List String → Page → Page
layout views p =
    let q =
      show_view p.saved.view (record p { offered = λ v. contains views (name v) || p.offered v }) in
    record q { sections = λ v id. saved_section (q.sections v id) (q.saved.layout v id) }

-- A click on a tab, and on the title of a section; both have to be on the page.
unfoldable pub click_tab : View → Page → Page
click_tab v p = if p.offered v then show_view (name v) p else p

unfoldable pub click_title : View → String → Page → Page
click_title v id p = if p.panel_shown v then toggle_section v id p else p
