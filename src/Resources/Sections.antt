-- ===== src/Resources/Sections.antt =====
-- The sections of the resources view and the boxes in them (src/main/resources/web-data/js/resources.js).
pub mod Shown
pub mod Redrawn
use dyn_dco.Base.{
  String, Option, none, some, List, [], ◌∷◌, ◌++◌, map, Bool, true, false, ◌&&◌, not, if◌then◌else◌,
  ite, string_discrete, contains, keep_if, Table,
}

-- A child of "#resourceBoxes", in the order on the page.
pub record Box : Type 0 where
  pub id : String
  pub hidden : Bool

-- The section and the input that are shown as chosen, where the page has them.
pub record Page : Type 0 where
  pub section : Option String
  pub checked : Option String
  pub body_class : String
  pub boxes : List Box

-- What the page has: the sections, the boxes of each section, the charts, and which of them overlap the
-- viewport when their boxes have been shown.
pub record Layout : Type 0 where
  pub sections : List String
  pub resource_boxes : Table (List String)
  pub line_charts : List String
  pub is_overlapping_viewport : String → Bool

abbrev pub is_id : String → Box → Bool
is_id v b = ite (string_discrete v b.id) true false

abbrev pub set_hidden : Bool → Box → Box
set_hidden h b = record b { hidden = h }

-- `$(boxes + " > div").attr("class", "hidden")`
abbrev pub hide_all : List Box → List Box
hide_all bs = map (set_hidden true) bs

-- A box is shown, and put behind the others.
abbrev pub show_box : String → List Box → List Box
show_box v bs = keep_if (λ b. not (is_id v b)) bs ++ map (set_hidden false) (keep_if (is_id v) bs)

abbrev pub show_all : List String → List Box → List Box
show_all [] bs = bs
show_all (v ∷ vs) bs = show_all vs (show_box v bs)

-- `v.endsWith("Chart")` and `v.slice(0, -5)`
abbrev pub chart_name : String → Option String
chart_name String.[] = none
chart_name (String.◌∷◌ c s) =
    let rest = chart_name s in
    ite (string_discrete (String.◌∷◌ c s) "Chart") (some "")
      (elim rest [ none ↦ none | some n ↦ some (String.◌∷◌ c n) ])

-- `update_chart`: whether a chart is drawn anew.
unfoldable pub update_chart : Layout → String → Bool
update_chart l chart = contains l.line_charts chart && l.is_overlapping_viewport chart

-- The charts that are drawn anew for the boxes of a section.
abbrev pub updated_charts : Layout → List String → List String
updated_charts l [] = []
updated_charts l (v ∷ vs) =
    let rest = updated_charts l vs in
    elim (chart_name v) [ none ↦ rest | some n ↦ if update_chart l n then n ∷ rest else rest ]

-- `show_boxes`, with the charts that are drawn anew
unfoldable pub show_boxes : Layout → String → List Box → List Box × List String
show_boxes l s bs = elim (l.resource_boxes s) [
  | none ↦ (hide_all bs, [])
  | some vs ↦ (show_all vs (hide_all bs), updated_charts l vs)
]

-- `show_section`
unfoldable pub show_section : Layout → String → Page → Page × List String
show_section l s p =
    let (bs, charts) = show_boxes l s p.boxes in
    let found = if contains l.sections s then some s else none in
    ite (string_discrete s "") (p, [])
      (record { section = found; checked = found; body_class = s; boxes = bs }, charts)

-- The handler of "hashchange", with the section in the settings.
unfoldable pub hash_changes : Layout → Option String → Page → Page × List String
hash_changes l section p = elim section [ none ↦ (p, []) | some s ↦ show_section l s p ]
