-- ===== src/Resources/Tables/Sections.antt =====
-- The sections of the program's own configuration
-- (src/main/resources/web-data/js/configuration.js and resources.js).
use dyn_dco.Base.{
  arith, ℕ, String, ◌≡◌, refl, sym, ◌∙◌, some, List, [], ◌∷◌, Bool, true, ◌&&◌, not,
  string_discrete, contains, lookup,
}
use dyn_dco.Resources.Sections.{Box, Layout, show_boxes}
use dyn_dco.Resources.Sections.Shown.{Distinct, visible, found, visible-show_boxes}
use dyn_dco.Resources.Registry.{
  Resources, Environment, charts_create, create_worker, create_node, create_charts,
}
use dyn_dco.Resources.Tables.{
  resource_boxes, chart_config_workers, chart_config_nodes, nodecharts_boxes, workercharts_boxes,
}

abbrev is_distinct : List String → Bool
is_distinct [] = true
is_distinct (v ∷ vs) = let rest = is_distinct vs in not (contains vs v) && rest

is_distinct-Distinct : (vs : List String) → is_distinct vs ≡ true → Distinct vs
is_distinct-Distinct [] h = tt
is_distinct-Distinct (v ∷ vs) h = (ground (arith, h), is_distinct-Distinct vs (ground (arith, h)))

abbrev all_distinct : List (String × List String) → Bool
all_distinct [] = true
all_distinct ((s, vs) ∷ rest) = let others = all_distinct rest in is_distinct vs && others

all_distinct-lookup :
    (s : String) (vs : List String) (table : List (String × List String))
    → all_distinct table ≡ true
    → lookup s table ≡ some vs
    → is_distinct vs ≡ true
all_distinct-lookup s vs [] h e = cc e
all_distinct-lookup s vs ((k, ws) ∷ rest) h e = ground (arith, h, e, all_distinct-lookup s vs rest)

-- The module with the charts and the boxes of the configuration, before and after it made its charts.
abbrev pub program : Environment → Environment
program env = record env {
  config_workers = chart_config_workers;
  config_nodes = chart_config_nodes;
}

abbrev pub loaded : Environment → ℕ → Resources → Resources
loaded env now r =
    create_charts (program env) now
      (record r { worker_charts = workercharts_boxes; node_charts = nodecharts_boxes })

abbrev pub boxes_of : Resources → List (String × List String)
boxes_of r = resource_boxes r.node_charts r.worker_charts

all_distinct-loaded :
    (env : Environment) (now : ℕ) (r : Resources)
    → all_distinct (boxes_of (loaded env now r)) ≡ true
unfolding create_charts create_worker create_node charts_create string_discrete
all_distinct-loaded env now r = refl

-- With the boxes that the program is configured with, whichever section is chosen after the charts of the
-- configuration have been made: the boxes that are visible are exactly those listed for the section that
-- the page has, in the order of the list.
pub visible-loaded :
    (env : Environment) (now : ℕ) (r : Resources) (l : Layout) (s : String) (vs : List String)
    (bs : List Box)
    → l.resource_boxes s ≡ lookup s (boxes_of (loaded env now r))
    → l.resource_boxes s ≡ some vs
    → visible (show_boxes l s bs).0 ≡ found vs bs
visible-loaded env now r l s vs bs e h = visible-show_boxes l s vs bs h (
    is_distinct-Distinct vs (
      all_distinct-lookup s vs (boxes_of (loaded env now r)) (all_distinct-loaded env now r)
        (sym e ∙ h)))
