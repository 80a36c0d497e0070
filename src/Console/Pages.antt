-- ===== src/Console/Pages.antt =====
-- The modules of a page, and what they order when the connection opens
-- (src/main/resources/web-data/js/main.js and the modules' onopen).
pub mod Asked
use dyn_dco.Base.{
  ℕ, String, Option, none, some, List, [], ◌∷◌, ◌++◌, Bool, true, false, ite, string_discrete,
  lookup, assign,
}
use dyn_dco.Console.Orders.{Request, Console, order}
use dyn_dco.Console.Dispatch.{Consumer, on_open}

-- `scc.modules`: what each requires, and which handlers it has.
abbrev consumer : List String → Bool → Bool → Bool → Consumer
consumer requires notready onclose onerror = record {
  requires = requires;
  has_notready = notready;
  has_onclose = onclose;
  has_onerror = onerror;
}

abbrev pub modules : List (String × Consumer)
modules =
    ("State", consumer ("state" ∷ "controls" ∷ []) false true false)
    ∷ ("Resources", consumer ("resources" ∷ "state" ∷ []) true true true)
    ∷ ("Configuration", consumer ("configuration" ∷ []) true true true)
    ∷ ("Log", consumer ("log" ∷ []) false false false)
    ∷ ("Graph", consumer ("graph" ∷ "configuration" ∷ []) true true false)
    ∷ ("BreakConditions", consumer ("breakconditions" ∷ []) true true true)
    ∷ []

-- `enableModules`
abbrev pub enable_modules : List String → List (String × Consumer) → List (String × Consumer)
enable_modules [] consumers = consumers
enable_modules (name ∷ names) consumers = elim (lookup name modules) [
  | none ↦ enable_modules names consumers
  | some m ↦ enable_modules names (assign name m consumers)
]

-- The view that is put into the settings, the modules, and what is laid out.
pub record Page : Type 0 where
  pub view : Option String
  pub consumers : List (String × Consumer)
  pub layouts : List String

abbrev pub resources_page : Page
resources_page = record {
  view = some "resources";
  consumers =
      enable_modules ("Resources" ∷ "Configuration" ∷ "Log" ∷ [])
        (enable_modules ("State" ∷ []) []);
  layouts = "resources" ∷ [];
}

abbrev pub graph_page : Page
graph_page = record {
  view = some "graph";
  consumers = enable_modules ("Graph" ∷ "BreakConditions" ∷ []) (enable_modules ("State" ∷ []) []);
  layouts = "graph" ∷ [];
}

abbrev pub whole_page : Page
whole_page = record {
  view = none;
  consumers =
      enable_modules
        ("Resources" ∷ "Configuration" ∷ "Log" ∷ "Graph" ∷ "BreakConditions" ∷ "State" ∷ []) [];
  layouts = "graph" ∷ "resources" ∷ [];
}

-- The switch over `window.location.pathname`
unfoldable pub start : String → Page
start path =
    ite (string_discrete path "/resources") resources_page
      (ite (string_discrete path "/graph") graph_page whole_page)

abbrev request : String → String → Request
request requestor provider = record { provider = provider; requestor = requestor; body = "" }

-- The order that `onopen` of a module makes; Graph and BreakConditions make none.
abbrev pub on_open_orders : List (String × Request)
on_open_orders =
    ("State", request "State" "state")
    ∷ ("Resources", request "Resources" "resources")
    ∷ ("Configuration", request "Resources" "configuration")
    ∷ ("Log", request "Resources" "log")
    ∷ []

abbrev pub requests_of : List (String × Consumer) → List Request
requests_of [] = []
requests_of ((name, m) ∷ rest) =
    let others = requests_of rest in
    elim (lookup name on_open_orders) [ none ↦ others | some r ↦ r ∷ others ]

module _ {C : Type 0} where
  abbrev pub order_all : List Request → Console C → Console C
  order_all [] c = c
  order_all (r ∷ rs) c = order_all rs (order r 0 none c)

  -- `onopen` of the socket, with that of the modules.
  unfoldable pub connect : Page → Console C → Console C
  connect page c = order_all (requests_of page.consumers) (on_open page.consumers c).0
