-- ===== src/GraphPanel/Exposition.antt =====
-- The exposition of a vertex (src/main/resources/web-data/js/graph.js).
pub mod Rows
pub mod Nulls
use Prim.Native.String.{◌++◌ as concat}
use dyn_dco.Base.{
  ℕ, zero, suc, String, Option, none, some, List, [], ◌∷◌, ◌++◌, Bool, true, false, if◌then◌else◌,
  ite, string_discrete,
}

-- A value that is shown as it is.
pub data Value : Type 0 where
  text : String → Value
  number : String → Value
  boolean : Bool → Value

-- What a vertex exposes.
mutual
  pub data Json : Type 0 where
    null : Json
    value : Value → Json
    array : Items → Json
    object : Members → Json

  pub data Items : Type 0 where
    no_items : Items
    item : Json → Items → Items

  pub data Members : Type 0 where
    no_members : Members
    member : String → Json → Members → Members

-- `name` of a node: a key, or an index of an array.
pub data Name : Type 0 where
  root : Name
  key : String → Name
  index : ℕ → Name

-- The nodes, with "val" or "children".
mutual
  pub data Node : Type 0 where
    leaf : Name → Value → Node
    branch : Name → Forest → Node

  pub data Forest : Type 0 where
    no_nodes : Forest
    nodes : Node → Forest → Forest

-- What `jsonIntoTree` does: it throws, returns the value, or an array of nodes.
pub data Converted : Type 0 where
  threw : Converted
  val : Value → Converted
  children : Forest → Converted

-- The callback of `$.each`, with what the rest of the loop pushes.
abbrev pub push : Name → Converted → Converted → Converted
push n threw rest = threw
push n (val v) (children f) = children (nodes (leaf n v) f)
push n (val v) threw = threw
push n (val v) (val w) = threw
push n (children g) (children f) = children (nodes (branch n g) f)
push n (children g) threw = threw
push n (children g) (val w) = threw

abbrev pub has_member : String → Members → Bool
has_member name no_members = false
has_member name (member k x ms) =
    let rest = has_member name ms in ite (string_discrete k name) true rest

-- `array_like` is what comes of an object with a member "length", which $.each may go through as if it
-- were an array.
module _ (array_like : Members → Converted) where
  -- `jsonIntoTree`: the type of null is "object" too, and $.each reads its length.
  unfoldable mutual
    pub json_into_tree : Json → Converted
    json_into_tree null = threw
    json_into_tree (value v) = val v
    json_into_tree (array xs) = each_item 0 xs
    json_into_tree (object ms) =
        let plain = each_member ms in if has_member "length" ms then array_like ms else plain

    pub each_item : ℕ → Items → Converted
    each_item i no_items = children no_nodes
    each_item i (item x xs) = push (index i) (json_into_tree x) (each_item (suc i) xs)

    pub each_member : Members → Converted
    each_member no_members = children no_nodes
    each_member (member k x ms) = push (key k) (json_into_tree x) (each_member ms)

pub data RowClass : Type 0 where
  hidden tobject_key tvalue_container : RowClass

-- A "div" of the exposition; its left margin is 10 pixels for each level below the root.
pub record Row : Type 0 where
  pub depth : ℕ
  pub class : RowClass
  pub name : Name
  pub value : Option Value

abbrev pub branch_class : ℕ → RowClass
branch_class zero = hidden
branch_class (suc d) = tobject_key

abbrev pub leaf_class : ℕ → RowClass
leaf_class zero = hidden
leaf_class (suc d) = tvalue_container

-- The nodes in the order of d3's tree layout, a node before its children, each with its row.
unfoldable mutual
  pub node_rows : ℕ → Node → List Row
  node_rows d (leaf n v) = record { depth = d; class = leaf_class d; name = n; value = some v } ∷ []
  node_rows d (branch n f) =
      record { depth = d; class = branch_class d; name = n; value = none } ∷ forest_rows (suc d) f

  pub forest_rows : ℕ → Forest → List Row
  forest_rows d no_nodes = []
  forest_rows d (nodes t f) = node_rows d t ++ forest_rows d f

abbrev name_text : (ℕ → String) → Name → String
name_text decimal root = "root"
name_text decimal (key k) = k
name_text decimal (index i) = decimal i

abbrev value_text : Value → String
value_text (text s) = s
value_text (number n) = n
value_text (boolean true) = "true"
value_text (boolean false) = "false"

-- The HTML of a row, into which name and value come as they are; `decimal` writes a number.
unfoldable pub row_html : (ℕ → String) → Row → String
row_html decimal r =
    let name = concat "<span class=\"tvalue_key\">" (concat (name_text decimal r.name) "</span>") in
    elim r.value [
      | none ↦ concat name ": "
      | some v ↦
          concat name (concat "<br/><span class=\"tvalue\">" (concat (value_text v) "</span>"))
    ]

-- The "div"s that are there already keep their class and margin, and only get another text; the others
-- are new.
abbrev pub keep_styles : List Row → List Row → List Row
keep_styles old [] = []
keep_styles [] (r ∷ rs) = r ∷ rs
keep_styles (o ∷ old) (r ∷ rs) = record r { depth = o.depth; class = o.class } ∷ keep_styles old rs

-- `expose` of the information of a vertex, an object, in a panel with some rows: the rows after it, or it
-- throws. A row has the name and value that `row_html` writes.
unfoldable pub expose : (Members → Converted) → List Row → Members → Option (List Row)
unfolding json_into_tree node_rows
expose array_like old info = elim (json_into_tree array_like (object info)) [
  | threw ↦ none
  | val v ↦ none
  | children f ↦ some (keep_styles old (node_rows 0 (branch root f)))
]
