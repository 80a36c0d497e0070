-- ===== src/GraphPanel/Controls/Bounded.antt =====
-- What a new limit of vertices leaves (src/main/resources/web-data/js/graph.js).
use dyn_dco.Base.{
  arith, ℕ, ◌≤◌, ◌≡◌, refl, subst, Option, none, some, List, [], ◌∷◌, Bool, ltb, if◌then◌else◌,
  Bool-cases, inl, inr, length, String, string_discrete, ◌≢◌,
}
use dyn_dco.Graph.Canvas.{remove_overflowing_vertices, overflowing_vertices}
use dyn_dco.Graph.Canvas.Invariant.{IsWellFormed, IsRemovable-of, remove-IsWellFormed}
use dyn_dco.Graph.Canvas.Overflow.{length-remove_overflowing}
use dyn_dco.GraphPanel.Counts.{
  Selector, vertex_count_intervals, options_up_to, choose, first_option,
  populate_target_count_selector,
}
use dyn_dco.GraphPanel.Controls.{
  Controls, change_max_vertex_count, change_substring, press_key, click_add,
}
use dyn_dco.Console.Orders.{Console, pending_for}
use dyn_dco.Console.Orders.Coherent.{IsCoherent}
use dyn_dco.Console.Orders.Pending.{order-supersedes}
use dyn_dco.Graph.Queries.{Query, Inputs, min, substring, request, order_graph, add_by_substring}
use mathlib.Core.Logic.{if_neg}

first_option-Bounded :
    (maximum : ℕ) (ns : List ℕ) (k : ℕ)
    → first_option (options_up_to maximum ns) ≡ some k
    → k ≤ maximum
first_option-Bounded maximum [] k e = absurd (cc e)
first_option-Bounded maximum (n ∷ ns) k e = elim (Bool-cases (ltb maximum n)) [
  | inl q ↦ absurd (ground (arith, q, e))
  | inr q ↦ ground (arith, q, e)
]

choose-Bounded :
    (maximum n : ℕ) (s : Selector) (k : ℕ)
    → n ≤ maximum
    → (choose n s).choice ≡ some k
    → k ≤ maximum
choose-Bounded maximum n s k h e = ground (arith, h, e)

populate-Bounded :
    (maximum : ℕ) (s : Selector) (k : ℕ)
    → (populate_target_count_selector maximum s).choice ≡ some k
    → k ≤ maximum
unfolding populate_target_count_selector
populate-Bounded maximum s k e = filled s.choice e
  where
    emptied : Selector
    emptied = record {
      options = options_up_to maximum vertex_count_intervals;
      choice = first_option (options_up_to maximum vertex_count_intervals);
    }

    filled :
        (o : Option ℕ)
        → (elim o as (λ x. Selector) [
          | none ↦ emptied
          | some n ↦ if ltb maximum n then choose maximum emptied else choose n emptied
        ]).choice
          ≡ some k
        → k ≤ maximum
    filled none q = first_option-Bounded maximum vertex_count_intervals k q
    filled (some n) q = elim (Bool-cases (ltb maximum n)) [
      | inl t ↦ choose-Bounded maximum maximum emptied k (omega arith) (
          subst (λ b. (if b then choose maximum emptied else choose n emptied).choice ≡ some k) t q)
      | inr t ↦ choose-Bounded maximum n emptied k (ground (arith, t)) (
          subst (λ b. (if b then choose maximum emptied else choose n emptied).choice ≡ some k) t q)
    ]

module _ {N : Type 0} where
  -- After a new limit is chosen, a well-formed canvas is well-formed and holds at most that many vertices,
  -- and no more are chosen to be added at once.
  pub change_max_vertex_count-Bounded :
      (n k : ℕ) (c : Controls N)
      → IsWellFormed c.canvas
      → (change_max_vertex_count n c).target_count.choice ≡ some k
      → IsWellFormed (change_max_vertex_count n c).canvas
        × (length (change_max_vertex_count n c).canvas.vertices ≤ n)
        × (k ≤ n)
  unfolding change_max_vertex_count remove_overflowing_vertices
  change_max_vertex_count-Bounded n k c h e = (
    remove-IsWellFormed (overflowing_vertices n c.canvas) c.canvas (IsRemovable-of h),
    length-remove_overflowing n c.canvas h,
    populate-Bounded n c.target_count k e,
  )

module _ {N C : Type 0} (text : Bool → Query N → String) where
  -- Whatever has been written into the input, ENTER in it, or the button beside it, leaves one order of
  -- the graph that waits: for at most a hundred vertices with that text in their ids.
  pub press_key-click_add :
      (inputs : Inputs) (c : Controls N) (written : String) (console : Console C)
      → written ≢ ""
      → IsCoherent console
      → (press_key text 13 inputs (change_substring written c) console
          ≡ click_add text inputs (change_substring written c) console)
        × (pending_for "graph" (click_add text inputs (change_substring written c) console)
            ≡ record {
              id = console.next_timer;
              delay = 0;
              request = request text inputs (substring (min 100 inputs.max_vertex_count) written);
            }
              ∷ [])
        × (min 100 inputs.max_vertex_count ≤ 100)
  unfolding press_key click_add change_substring add_by_substring order_graph
  press_key-click_add inputs c written console ne h = (
    refl,
    rw (if_neg (string_discrete written "") ne) (order-supersedes _ 0 none console h),
    ground arith,
  )
