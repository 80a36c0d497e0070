-- ===== src/Graph/Types.antt =====
-- The data that GraphD3 keeps and receives (src/main/resources/web-data/js/graph-drawing.js).
-- `N` stands for the numbers that the server sends and the script only copies or compares.
use Prim.Native.Char.{Char, code}
use dyn_dco.Base.{
  ℕ, Option, String, List, Bool, ◌||◌, ◌&&◌, leb, ltb, ◌==◌, if◌then◌else◌, Table, ite,
  string_discrete, suc,
}

-- A vertex property that the console only shows: any JSON text.
abbrev pub Json : Type 0
Json = String

-- `d.r`: the digits of the state, or the number 1.
pub data Radius : Type 0 where
  one : Radius
  text : String → Radius

-- An object of d3's vertex array.
pub record Vertex (N : Type 0) : Type 0 where
  pub id : String
  pub state : String
  pub seq : ℕ
  pub es : N
  pub ss : N
  pub cs : N
  pub info : Json
  pub r : Radius
  pub t : String

-- An object of d3's edge array; the vertex objects it points at are given by their ids.
pub record Edge : Type 0 where
  pub id : String
  pub source : String
  pub target : String

-- The properties of a vertex in a message of the server.
pub record VertexData (N : Type 0) : Type 0 where
  pub s : String
  pub es : N
  pub ss : N
  pub cs : N
  pub info : Json
  pub t : String

-- A message of provider "graph". `none` for a missing property.
pub record GraphMessage (N : Type 0) : Type 0 where
  pub vertices : Option (List (String × VertexData N))
  pub edges : Option (List (String × List String))
  pub lowest_state : String
  pub highest_state : String

-- The texts that the module puts on `#graph_background`.
pub data Background : Type 0 where
  loading canvas_empty no_match connection_lost not_ready : Background
  showing : ℕ → Background
  too_many : ℕ → ℕ → Background

-- What the handlers set going outside of this module.
pub data Action (N : Type 0) : Type 0 where
  after_no_match : Action N
  after_too_many : Action N
  expose : Vertex N → Action N
  refresh_after : ℕ → Action N

-- The numbers of the server, `parseFloat`, and d3's median.
pub record Numbers : Type 1 where
  pub Num : Type 0
  pub gtb : Num → Num → Bool
  pub parse_float : String → Num
  pub median : List Radius → Num

-- The variables of a GraphD3 object, the circles on the page, and what `localStorage` holds for it.
-- A circle is given by the id of the vertex that it is bound to.
pub record Canvas (N : Type 0) : Type 0 where
  pub vertices : List (Vertex N)
  pub edges : List Edge
  pub vertex_refs : Table ℕ
  pub edge_refs : Table ℕ
  pub vertex_sequence : ℕ
  pub vertex_sequence_end : ℕ
  pub circles : List String
  pub stored : List String
  pub gradient_domain : Option (N × N × N)
  pub signal_threshold : N
  pub collect_threshold : N
  pub background : Background
  pub exposed_vertex_id : Option String

-- The options of other modules that the handler reads. `refresh_rate` is `none` for "Never".
pub record Options : Type 0 where
  pub max_vertex_count : ℕ
  pub auto_refresh : Bool
  pub refresh_rate : Option ℕ

-- `[0-9.,]`
abbrev is_radius_char : Char → Bool
is_radius_char c = leb b'0' (code c) && leb (code c) b'9' || code c == b'.' || code c == b','

-- `data.s.replace(/[^0-9.,]/g, '')`
abbrev pub radius_text : String → String
radius_text String.[] = String.[]
radius_text (String.◌∷◌ c s) =
    let rest = radius_text s in if is_radius_char c then String.◌∷◌ c rest else rest

abbrev count_char : ℕ → String → ℕ
count_char k String.[] = 0
count_char k (String.◌∷◌ c s) = let rest = count_char k s in if code c == k then suc rest else rest

abbrev count_digits : String → ℕ
count_digits String.[] = 0
count_digits (String.◌∷◌ c s) =
    let rest = count_digits s in if leb b'0' (code c) && leb (code c) b'9' then suc rest else rest

-- `isNaN` on a text of digits, points and commas: one with a comma, with two points or with no
-- digit is no number.
abbrev pub is_nan : String → Bool
is_nan s = ltb 0 (count_char b',' s) || ltb 1 (count_char b'.' s) || count_digits s == 0

-- A text without letters is never "NaN", so only the two other tests are written out.
unfoldable pub radius : String → Radius
radius s =
    let digits = radius_text s in
    ite (string_discrete digits "") one (if is_nan digits then one else text digits)
