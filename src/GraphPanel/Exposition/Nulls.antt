-- ===== src/GraphPanel/Exposition/Nulls.antt =====
-- When the exposition fails (src/main/resources/web-data/js/graph.js).
use dyn_dco.Base.{
  arith, suc, List, ◌↔◌, subst, ◌∙◌, ◌≡◌, ◌||◌, refl, Bool, true, false, ℕ, Option, none, some,
}
use dyn_dco.GraphPanel.Exposition.{
  Json, Items, Members, null, value, array, object, no_items, item, no_members, member, Converted,
  threw, val, children, push, Name, has_member, keep_styles, json_into_tree, each_item, each_member,
  expose, Row, root, branch, node_rows,
}

-- There is a null somewhere in it.
abbrev mutual
  pub has_null : Json → Bool
  has_null null = true
  has_null (value v) = false
  has_null (array xs) = items_have_null xs
  has_null (object ms) = members_have_null ms

  pub items_have_null : Items → Bool
  items_have_null no_items = false
  items_have_null (item x xs) = has_null x || items_have_null xs

  pub members_have_null : Members → Bool
  members_have_null no_members = false
  members_have_null (member k x ms) = has_null x || members_have_null ms

-- An object in it has a member "length".
abbrev mutual
  pub has_length : Json → Bool
  has_length null = false
  has_length (value v) = false
  has_length (array xs) = items_have_length xs
  has_length (object ms) = has_member "length" ms || members_have_length ms

  pub items_have_length : Items → Bool
  items_have_length no_items = false
  items_have_length (item x xs) = has_length x || items_have_length xs

  pub members_have_length : Members → Bool
  members_have_length no_members = false
  members_have_length (member k x ms) = has_length x || members_have_length ms

abbrev throws : Converted → Bool
throws threw = true
throws (val v) = false
throws (children f) = false

-- What a loop gives: it throws, or gives an array.
abbrev is_loop : Converted → Bool
is_loop threw = true
is_loop (val v) = false
is_loop (children f) = true

is_loop-push : (n : Name) (c rest : Converted) → is_loop (push n c rest) ≡ true
is_loop-push n threw rest = refl
is_loop-push n (val v) threw = refl
is_loop-push n (val v) (val w) = refl
is_loop-push n (val v) (children f) = refl
is_loop-push n (children g) threw = refl
is_loop-push n (children g) (val w) = refl
is_loop-push n (children g) (children f) = refl

throws-push :
    (n : Name) (c rest : Converted)
    → is_loop rest ≡ true
    → throws (push n c rest) ≡ throws c || throws rest
throws-push n threw rest h = refl
throws-push n (val v) threw h = refl
throws-push n (val v) (val w) h = absurd (cc h)
throws-push n (val v) (children f) h = refl
throws-push n (children g) threw h = refl
throws-push n (children g) (val w) h = absurd (cc h)
throws-push n (children g) (children f) h = refl

module _ (array_like : Members → Converted) where
  is_loop-each_item : (i : ℕ) (xs : Items) → is_loop (each_item array_like i xs) ≡ true
  unfolding json_into_tree
  is_loop-each_item i no_items = refl
  is_loop-each_item i (item x xs) = is_loop-push _ (json_into_tree array_like x) _

  is_loop-each_member : (ms : Members) → is_loop (each_member array_like ms) ≡ true
  unfolding json_into_tree
  is_loop-each_member no_members = refl
  is_loop-each_member (member k x ms) = is_loop-push _ (json_into_tree array_like x) _

  mutual
    unfolding json_into_tree

    throws-json :
        (j : Json) → has_length j ≡ false → throws (json_into_tree array_like j) ≡ has_null j
    throws-json null h = refl
    throws-json (value v) h = refl
    throws-json (array xs) h = throws-items 0 xs h
    throws-json (object ms) h =
        let plain : has_member "length" ms ≡ false = ground (arith, h) in
        rw plain (throws-members ms (ground (arith, h)))

    throws-items :
        (i : ℕ) (xs : Items)
        → items_have_length xs ≡ false
        → throws (each_item array_like i xs) ≡ items_have_null xs
    throws-items i no_items h = refl
    throws-items i (item x xs) h =
        throws-push _ (json_into_tree array_like x) (each_item array_like _ xs)
          (is_loop-each_item _ xs)
        ∙ cc (throws-json x (ground (arith, h)), throws-items (suc i) xs (ground (arith, h)))

    throws-members :
        (ms : Members)
        → members_have_length ms ≡ false
        → throws (each_member array_like ms) ≡ members_have_null ms
    throws-members no_members h = refl
    throws-members (member k x ms) h =
        throws-push _ (json_into_tree array_like x) (each_member array_like ms)
          (is_loop-each_member ms)
        ∙ cc (throws-json x (ground (arith, h)), throws-members ms (ground (arith, h)))

  is_loop-object :
      (ms : Members)
      → has_member "length" ms ≡ false
      → is_loop (json_into_tree array_like (object ms)) ≡ true
  unfolding json_into_tree
  is_loop-object ms h = rw h (is_loop-each_member ms)

outcome : List Row → Converted → Option (List Row)
outcome old c = elim c [
  | threw ↦ none
  | val v ↦ none
  | children f ↦ some (keep_styles old (node_rows 0 (branch root f)))
]

outcome-none :
    (old : List Row) (c : Converted) → is_loop c ≡ true → (outcome old c ≡ none) ↔ (throws c ≡ true)
unfolding outcome
outcome-none old threw h = (λ e. refl, λ e. refl)
outcome-none old (val v) h = absurd (cc h)
outcome-none old (children f) h = (λ e. cc e, λ e. cc e)

-- If no object in the information of a vertex has a member "length", its exposition throws exactly when
-- there is a null in the information, at whatever depth.
pub expose-none :
    (array_like : Members → Converted) (old : List Row) (info : Members)
    → has_length (object info) ≡ false
    → (expose array_like old info ≡ none) ↔ (members_have_null info ≡ true)
unfolding expose outcome
expose-none array_like old info h =
    subst (λ b. (expose array_like old info ≡ none) ↔ (b ≡ true))
      (throws-json array_like (object info) h)
      (outcome-none old (json_into_tree array_like (object info))
        (is_loop-object array_like info (ground (arith, h))))
