-- ===== src/Resources/Setup.antt =====
-- `setup` of a chart, and where it reads its data (src/main/resources/web-data/js/linechart.js).
pub mod Unknown
pub mod Answered
use dyn_dco.Base.{
  ℕ, ◌-◌, String, Option, none, some, List, [], ◌∷◌, Bool, true, false, if◌then◌else◌, ite,
  string_discrete, lookup,
}
use dyn_dco.Resources.Registry.{Config, Message, Environment, is_name, is_configured}
use dyn_dco.Resources.Info.{ChartInfo, chart_info}

-- The type of a chart, "worker" or "node".
pub data Kind : Type 0 where
  worker node : Kind

-- A `dataCallback`; `none` where it gives undefined or throws, on which `update` throws.
abbrev pub Callback : Type 0
Callback = Message → Option (List ℕ)

-- `config`, with formats of numbers `F` of d3.
pub record ChartConfig (F : Type 0) : Type 0 where
  pub json_name : String
  pub skip : Bool
  pub pretty_name : String
  pub info : String
  pub data_callback : Option Callback
  pub num_of_values : ℕ
  pub margin_top : ℕ
  pub margin_right : ℕ
  pub margin_bottom : ℕ
  pub margin_left : ℕ
  pub width : ℕ
  pub height : ℕ
  pub kind : Kind
  pub unit : String
  pub format : F
  pub format_tt : Option F

-- What an object of the configuration may have; `none` for what it does not have.
pub record Given (F : Type 0) : Type 0 where
  pub json_name : String
  pub skip : Option Bool
  pub unit : Option String
  pub data_callback : Option Callback
  pub format : Option F
  pub format_tt : Option F

abbrev pub or_else : {A : Type 0} → Option A → A → A
or_else none a = a
or_else (some b) a = b

abbrev pub or_given : {A : Type 0} → Option A → Option A → Option A
or_given none o = o
or_given (some b) o = some b

-- The first values; `si` is d3.format("s").
abbrev pub initial : {F : Type 0} → F → ChartConfig F
initial si = record {
  json_name = "";
  skip = false;
  pretty_name = "";
  info = "";
  data_callback = none;
  num_of_values = 100;
  margin_top = 20;
  margin_right = 20;
  margin_bottom = 30;
  margin_left = 50;
  width = 550;
  height = 250;
  kind = worker;
  unit = "";
  format = si;
  format_tt = none;
}

-- The data that a message has for a chart.
abbrev pub statistics : Kind → Message → List (String × List ℕ)
statistics worker msg = msg.worker_statistics
statistics node msg = msg.node_statistics

abbrev name_of : String → Option ChartInfo → String
name_of json_name none = json_name
name_of json_name (some i) = or_else i.name json_name

abbrev info_of : String → Option ChartInfo → String
info_of old none = old
info_of old (some i) = or_else i.info old

module _ {F : Type 0} where
  -- `$.extend(this.config, config)`
  unfoldable pub extend_config : Given F → ChartConfig F → ChartConfig F
  extend_config g c = record c {
    json_name = g.json_name;
    skip = or_else g.skip c.skip;
    unit = or_else g.unit c.unit;
    data_callback = or_given g.data_callback c.data_callback;
    format = or_else g.format c.format;
    format_tt = or_given g.format_tt c.format_tt;
  }

  unfoldable pub set_kind : List Config → ChartConfig F → ChartConfig F
  set_kind nodes c = record c { kind = if is_configured c.json_name nodes then node else c.kind }

  unfoldable pub set_callback : ChartConfig F → ChartConfig F
  set_callback c = record c {
    data_callback =
        some (or_else c.data_callback (λ msg. lookup c.json_name (statistics c.kind msg)));
  }

  unfoldable pub set_format_tt : ChartConfig F → ChartConfig F
  set_format_tt c = record c { format_tt = some (or_else c.format_tt c.format) }

  unfoldable pub set_texts : ChartConfig F → ChartConfig F
  set_texts c = record c {
    pretty_name =
        if is_name c.pretty_name ""
        then name_of c.json_name (chart_info c.json_name)
        else c.pretty_name;
    info = info_of c.info (chart_info c.json_name);
  }

  unfoldable pub set_size : ChartConfig F → ChartConfig F
  set_size c = record c {
    width = c.width - c.margin_left - c.margin_right;
    height = c.height - c.margin_top - c.margin_bottom;
  }

  -- `setup`, without the drawing
  unfoldable pub setup : List Config → Given F → ChartConfig F → ChartConfig F
  setup nodes g c =
      set_size (set_texts (set_format_tt (set_callback (set_kind nodes (extend_config g c)))))

  -- The object that the configuration has for a name, or `{jsonName : key}`.
  abbrev pub given : List (Given F) → String → Given F
  given [] name = record {
    json_name = name;
    skip = none;
    unit = none;
    data_callback = none;
    format = none;
    format_tt = none;
  }
  given (g ∷ gs) name = let rest = given gs name in if is_name g.json_name name then g else rest

  -- The data of the charts that are set up with the configuration.
  abbrev pub with_setup : F → List (Given F) → Environment → Environment
  with_setup si givens env = record env {
    data_callback = λ name msg.
        elim (setup env.config_nodes (given givens name) (initial si)).data_callback [
          | none ↦ none
          | some f ↦ f msg
        ];
  }
