-- ===== src/GraphPanel/Exposition/Rows.antt =====
-- That the rows of the exposition show the whole tree (src/main/resources/web-data/js/graph.js).
use mathlib.Core.List.{append_assoc, append-nil}
use dyn_dco.Base.{
  arith, ℕ, suc, ◌≤◌, ◌≡◌, refl, sym, ap, subst, ◌∙◌, List, [], ◌∷◌, ◌++◌, Option, none, some, ltb,
  length, if◌then◌else◌,
}
use dyn_dco.GraphPanel.Exposition.{
  root, Node, leaf, branch, Forest, no_nodes, nodes, Row, node_rows, forest_rows, Members,
  json_into_tree, object, keep_styles, Name, Value, RowClass, threw, val, children, expose,
  Converted,
}

-- Nodes, each with its depth.
abbrev Placed : Type 0
Placed = List (ℕ × Node)

-- The nodes at the beginning that are deeper than a depth, and the others.
abbrev deeper : ℕ → Placed → Forest
deeper d [] = no_nodes
deeper d ((e, t) ∷ s) = let rest = deeper d s in if ltb d e then nodes t rest else no_nodes

abbrev others : ℕ → Placed → Placed
others d [] = []
others d ((e, t) ∷ s) = let rest = others d s in if ltb d e then rest else (e, t) ∷ s

abbrev node_of : Row → Forest → Node
node_of r f = elim r.value [ none ↦ branch r.name f | some v ↦ leaf r.name v ]

-- The nodes that rows show: a row's children are the nodes below it that are deeper.
abbrev pub read : List Row → List (ℕ × Node)
read [] = []
read (r ∷ rs) = let s = read rs in (r.depth, node_of r (deeper r.depth s)) ∷ others r.depth s

abbrev placed : ℕ → Forest → Placed
placed d no_nodes = []
placed d (nodes t f) = (d, t) ∷ placed d f

-- The nodes begin at depth `d` or above it.
abbrev Ends : ℕ → Placed → Type 0
Ends d [] = Unit
Ends d ((e, t) ∷ s) = e ≤ d

deeper-Ends : (d : ℕ) (s : Placed) → Ends d s → deeper d s ≡ no_nodes
deeper-Ends d [] h = refl
deeper-Ends d ((e, t) ∷ s) h = ground (arith, h)

others-Ends : (d : ℕ) (s : Placed) → Ends d s → others d s ≡ s
others-Ends d [] h = refl
others-Ends d ((e, t) ∷ s) h = ground (arith, h)

deeper-placed : (d : ℕ) (f : Forest) (s : Placed) → Ends d s → deeper d (placed (suc d) f ++ s) ≡ f
deeper-placed d no_nodes s h = deeper-Ends d s h
deeper-placed d (nodes t f) s h = ground (arith, deeper-placed d f s h)

others-placed : (d : ℕ) (f : Forest) (s : Placed) → Ends d s → others d (placed (suc d) f ++ s) ≡ s
others-placed d no_nodes s h = others-Ends d s h
others-placed d (nodes t f) s h = ground (arith, others-placed d f s h)

Ends-placed : (d : ℕ) (f : Forest) (s : Placed) → Ends d s → Ends d (placed d f ++ s)
Ends-placed d no_nodes s h = h
Ends-placed d (nodes t f) s h = omega arith

-- Deeper nodes end where shallower ones do.
Ends-suc : (d : ℕ) (s : Placed) → Ends d s → Ends (suc d) s
Ends-suc d [] h = tt
Ends-suc d ((e, t) ∷ s) h = omega arith

mutual
  unfolding node_rows

  read-node :
      (d : ℕ) (t : Node) (rs : List Row)
      → Ends d (read rs)
      → read (node_rows d t ++ rs) ≡ (d, t) ∷ read rs
  read-node d (leaf n v) rs h = ap ((d, leaf n v) ∷◌) (others-Ends d (read rs) h)
  read-node d (branch n f) rs h =
      rw
        (
          read-forest (suc d) f rs (Ends-suc d (read rs) h),
          deeper-placed d f (read rs) h,
          others-placed d f (read rs) h,
        )
        refl

  read-forest :
      (d : ℕ) (f : Forest) (rs : List Row)
      → Ends d (read rs)
      → read (forest_rows d f ++ rs) ≡ placed d f ++ read rs
  read-forest d no_nodes rs h = refl
  read-forest d (nodes t f) rs h =
      ap read (append_assoc (node_rows d t) (forest_rows d f) rs)
      ∙ read-node d t (forest_rows d f ++ rs)
          (subst (Ends d) (sym (read-forest d f rs h)) (Ends-placed d f (read rs) h))
      ∙ ap ((d, t) ∷◌) (read-forest d f rs h)

keep_styles-nil : (rs : List Row) → keep_styles [] rs ≡ rs
keep_styles-nil [] = refl
keep_styles-nil (r ∷ rs) = refl

shown : Converted → Option (List Row)
shown c = elim c [
  | threw ↦ none
  | val v ↦ none
  | children f ↦ some (keep_styles [] (node_rows 0 (branch root f)))
]

read-shown :
    (c : Converted) (rs : List Row)
    → shown c ≡ some rs
    → (f : Forest) × (c ≡ children f) × (read rs ≡ (0, branch root f) ∷ [])
unfolding shown
read-shown threw rs h = absurd (cc h)
read-shown (val v) rs h = absurd (cc h)
read-shown (children f) rs h =
    let whole : rs ≡ node_rows 0 (branch root f) ++ [] = cc (
      h,
      keep_styles-nil (node_rows 0 (branch root f)),
      append-nil (node_rows 0 (branch root f)),
    ) in
    (f, refl, ap read whole ∙ read-node 0 (branch root f) [] tt)

-- The first exposition loses nothing of the tree that `jsonIntoTree` makes: in a panel without rows,
-- where it does not throw, the information has become an array of nodes, and the rows, read by their
-- depths alone, give back the root with these nodes as its children, at every depth in their order and
-- with their names and values.
pub read-expose :
    (array_like : Members → Converted) (info : Members) (rs : List Row)
    → expose array_like [] info ≡ some rs
    → (f : Forest) × (json_into_tree array_like (object info) ≡ children f)
      × (read rs ≡ (0, branch root f) ∷ [])
unfolding expose shown
read-expose array_like info rs h = read-shown (json_into_tree array_like (object info)) rs h

-- The names and values of rows, and their depths and classes.
abbrev pub texts : List Row → List (Name × Option Value)
texts [] = []
texts (r ∷ rs) = (r.name, r.value) ∷ texts rs

abbrev pub styles : List Row → List (ℕ × RowClass)
styles [] = []
styles (r ∷ rs) = (r.depth, r.class) ∷ styles rs

texts-keep_styles : (old rs : List Row) → texts (keep_styles old rs) ≡ texts rs
texts-keep_styles old [] = refl
texts-keep_styles [] (r ∷ rs) = refl
texts-keep_styles (o ∷ old) (r ∷ rs) = ap ((r.name, r.value) ∷◌) (texts-keep_styles old rs)

styles-keep_styles :
    (old more rs : List Row)
    → length rs ≡ length old
    → styles (keep_styles (old ++ more) rs) ≡ styles old
styles-keep_styles [] more [] h = refl
styles-keep_styles [] more (r ∷ rs) h = absurd (omega (arith, h))
styles-keep_styles (o ∷ old) more [] h = absurd (omega (arith, h))
styles-keep_styles (o ∷ old) more (r ∷ rs) h =
    ap ((o.depth, o.class) ∷◌) (styles-keep_styles old more rs (omega (arith, h)))

again : List Row → Converted → Option (List Row)
again old c = elim c [
  | threw ↦ none
  | val v ↦ none
  | children f ↦ some (keep_styles old (node_rows 0 (branch root f)))
]

again-keep_styles :
    (old : List Row) (c : Converted) (rs : List Row)
    → shown c ≡ some rs
    → again old c ≡ some (keep_styles old rs)
unfolding again shown
again-keep_styles old threw rs h = absurd (cc h)
again-keep_styles old (val v) rs h = absurd (cc h)
again-keep_styles old (children f) rs h = cc (h, keep_styles-nil (node_rows 0 (branch root f)))

-- A later exposition is not indented by its own tree: in a panel that has at least as many rows, it shows
-- the names and values that a first exposition of the information shows, in their order, but with the
-- depths and classes of the rows that were there.
pub expose-again :
    (array_like : Members → Converted) (old more : List Row) (info : Members) (rs : List Row)
    → expose array_like [] info ≡ some rs
    → length rs ≡ length old
    → (ts : List Row) × (expose array_like (old ++ more) info ≡ some ts)
      × (texts ts ≡ texts rs)
      × (styles ts ≡ styles old)
unfolding expose again shown
expose-again array_like old more info rs h l = (
  keep_styles (old ++ more) rs,
  again-keep_styles (old ++ more) (json_into_tree array_like (object info)) rs h,
  texts-keep_styles (old ++ more) rs,
  styles-keep_styles old more rs l,
)
