-- ===== src/Resources/Configuration.antt =====
-- The parameters on the page of the statistics
-- (src/main/resources/web-data/js/resources-configuration.js).
pub mod Latest
use Prim.Native.String.{◌++◌ as concat}
use dyn_dco.Base.{
  String, Option, none, some, List, [], ◌∷◌, ◌++◌, Bool, true, false, if◌then◌else◌, ◌&&◌, not, ite,
  string_discrete, contains, Table, update,
}
use dyn_dco.Resources.Tables.{hide_infrastructure_items}

-- A message of provider "configuration"; no `executionConfiguration` stands for "unknown". Values are
-- given as their texts, and those of the graph by the first of their entries, which may be missing.
pub record Message : Type 0 where
  pub execution_configuration : Option (List (String × String))
  pub system_properties : List (List (String × String))
  pub graph_configuration : List (String × Option String)

-- The texts of the elements "resStat…" and the items of the two lists.
pub record Page : Type 0 where
  pub res_stat : Table String
  pub infrastructure : List String
  pub graph : List String

abbrev pub item : String → String → String
item k v = concat k (concat ": " v)

-- `$.each(msg.executionConfiguration, …)`
abbrev pub set_stats : List (String × String) → Table String → Table String
set_stats [] t = t
set_stats ((k, v) ∷ rest) t = set_stats rest (update t k (some v))

-- The items of one object of the system properties.
abbrev pub property_items : List (String × String) → List String
property_items [] = []
property_items ((k, v) ∷ rest) =
    let others = property_items rest in
    if contains hide_infrastructure_items k then others else item k v ∷ others

abbrev pub infrastructure_items : List (List (String × String)) → List String
infrastructure_items [] = []
infrastructure_items (o ∷ os) = property_items o ++ infrastructure_items os

-- The port -1 is that of the page.
abbrev pub graph_value : String → String → Option String → String
graph_value port k none = "undefined"
graph_value port k (some v) =
    if ite (string_discrete k "consoleHttpPort") true false
      && ite (string_discrete v "-1") true false
    then port
    else v

abbrev pub graph_items : String → List (String × Option String) → List String
graph_items port [] = []
graph_items port ((k, v) ∷ rest) = item k (graph_value port k v) ∷ graph_items port rest

-- `onmessage`
unfoldable pub on_message : String → Message → Page → Page
on_message port msg p = record p {
  res_stat = elim msg.execution_configuration [
    | none ↦ p.res_stat
    | some o ↦ set_stats o p.res_stat
  ];
  infrastructure = infrastructure_items msg.system_properties;
  graph = graph_items port msg.graph_configuration;
}

abbrev pub on_messages : String → List Message → Page → Page
on_messages port [] p = p
on_messages port (m ∷ ms) p = on_messages port ms (on_message port m p)
