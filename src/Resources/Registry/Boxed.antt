-- ===== src/Resources/Registry/Boxed.antt =====
-- That every chart has a box (src/main/resources/web-data/js/resources-charts.js).
use dyn_dco.Base.{
  ℕ, arith, String, ◌≡◌, sym, subst, List, [], ◌∷◌, ◌++◌, Bool, true, ◌||◌, if◌then◌else◌,
  string_discrete, contains, Bool-cases, inl, inr,
}
use dyn_dco.Resources.Registry.{
  Config, Resources, Message, Environment, is_name, box_of, charts_create, create_worker,
  create_node, create_workers, create_nodes, create_charts, add_once, is_new, add_worker, add_node,
  add_workers, add_nodes, add_new_charts,
}
use dyn_dco.Resources.Registry.Boxes.{has_chart, has_chart-charts_create, contains-append}

-- The boxes of charts have the box of a chart.
abbrev pub has_box : Resources → String → Bool
has_box r name = contains r.worker_charts (box_of name) || contains r.node_charts (box_of name)

abbrev pub IsBoxed : Resources → Type 0
IsBoxed r = (name : String) → has_chart r name ≡ true → has_box r name ≡ true

-- Boxes are only added.
abbrev Grows : Resources → Resources → Type 0
Grows r q = (name : String) → has_box r name ≡ true → has_box q name ≡ true

contains-append_left :
    (xs ys : List String) (s : String) → contains xs s ≡ true → contains (xs ++ ys) s ≡ true
contains-append_left xs ys s h = ground (arith, h, contains-append xs ys s)

contains-append_last : (xs : List String) (s : String) → contains (xs ++ s ∷ []) s ≡ true
contains-append_last xs s = ground (arith, contains-append xs (s ∷ []) s)

module _ (env : Environment) (now : ℕ) where
  created-IsBoxed :
      (key : String) (r q : Resources)
      → ((k : String) → has_chart q k ≡ has_chart r k || is_name key k)
      → Grows r q
      → has_box q key ≡ true
      → IsBoxed r
      → IsBoxed q
  created-IsBoxed key r q c g b h k e = elim (string_discrete key k) [
    | yes p ↦ subst (λ x. has_box q x ≡ true) p b
    | no p ↦ g k (h k (ground (arith, c k, e, p)))
  ]

  worker-IsBoxed :
      (key : String) (r : Resources) (boxes : List String)
      → ((s : String) → contains r.worker_charts s ≡ true → contains boxes s ≡ true)
      → contains boxes (box_of key) ≡ true
      → IsBoxed r
      → IsBoxed (record (charts_create env now key r) { worker_charts = boxes })
  unfolding charts_create
  worker-IsBoxed key r boxes g b h =
      created-IsBoxed key r (record (charts_create env now key r) { worker_charts = boxes })
        (has_chart-charts_create env now key r) (λ k e. ground (arith, e, g (box_of k)))
        (ground (arith, b)) h

  node-IsBoxed :
      (key : String) (r : Resources) (boxes : List String)
      → ((s : String) → contains r.node_charts s ≡ true → contains boxes s ≡ true)
      → contains boxes (box_of key) ≡ true
      → IsBoxed r
      → IsBoxed (record (charts_create env now key r) { node_charts = boxes })
  unfolding charts_create
  node-IsBoxed key r boxes g b h =
      created-IsBoxed key r (record (charts_create env now key r) { node_charts = boxes })
        (has_chart-charts_create env now key r) (λ k e. ground (arith, e, g (box_of k)))
        (ground (arith, b)) h

  add_once-keeps :
      (b : String) (xs : List String) (s : String)
      → contains xs s ≡ true
      → contains (add_once env now b xs) s ≡ true
  add_once-keeps b xs s h = ground (arith, h, contains-append_left xs (b ∷ []) s)

  add_once-has : (b : String) (xs : List String) → contains (add_once env now b xs) b ≡ true
  add_once-has b xs = ground (arith, contains-append_last xs b)

  create_worker-IsBoxed :
      (c : Config) (r : Resources) → IsBoxed r → IsBoxed (create_worker env now c r)
  unfolding create_worker charts_create
  create_worker-IsBoxed c r h = elim (Bool-cases c.skip) [
    | inl e ↦ rw e h
    | inr e ↦ rw e (
        worker-IsBoxed c.json_name r _ (add_once-keeps _ r.worker_charts)
          (add_once-has _ r.worker_charts) h)
  ]

  create_node-IsBoxed : (c : Config) (r : Resources) → IsBoxed r → IsBoxed (create_node env now c r)
  unfolding create_node charts_create
  create_node-IsBoxed c r h = elim (Bool-cases c.skip) [
    | inl e ↦ rw e h
    | inr e ↦ rw e (
        node-IsBoxed c.json_name r _ (add_once-keeps _ r.node_charts) (add_once-has _ r.node_charts)
          h)
  ]

  add_worker-IsBoxed :
      (key : String) (r : Resources) → IsBoxed r → IsBoxed (add_worker env now key r)
  unfolding add_worker charts_create
  add_worker-IsBoxed key r h = elim (Bool-cases (is_new env now env.config_workers key)) [
    | inl e ↦ rw e (
        worker-IsBoxed key r (r.worker_charts ++ box_of key ∷ [])
          (λ s. contains-append_left r.worker_charts (box_of key ∷ []) s)
          (contains-append_last r.worker_charts (box_of key)) h)
    | inr e ↦ rw e h
  ]

  add_node-IsBoxed : (key : String) (r : Resources) → IsBoxed r → IsBoxed (add_node env now key r)
  unfolding add_node charts_create
  add_node-IsBoxed key r h = elim (Bool-cases (is_new env now env.config_nodes key)) [
    | inl e ↦ rw e (
        node-IsBoxed key r (r.node_charts ++ box_of key ∷ [])
          (λ s. contains-append_left r.node_charts (box_of key ∷ []) s)
          (contains-append_last r.node_charts (box_of key)) h)
    | inr e ↦ rw e h
  ]

  create_workers-IsBoxed :
      (cs : List Config) (r : Resources) → IsBoxed r → IsBoxed (create_workers env now cs r)
  create_workers-IsBoxed [] r h = h
  create_workers-IsBoxed (c ∷ cs) r h =
      create_workers-IsBoxed cs (create_worker env now c r) (create_worker-IsBoxed c r h)

  create_nodes-IsBoxed :
      (cs : List Config) (r : Resources) → IsBoxed r → IsBoxed (create_nodes env now cs r)
  create_nodes-IsBoxed [] r h = h
  create_nodes-IsBoxed (c ∷ cs) r h =
      create_nodes-IsBoxed cs (create_node env now c r) (create_node-IsBoxed c r h)

  add_workers-IsBoxed :
      (s : List (String × List ℕ)) (r : Resources) → IsBoxed r → IsBoxed (add_workers env now s r)
  add_workers-IsBoxed [] r h = h
  add_workers-IsBoxed ((key, v) ∷ s) r h =
      add_workers-IsBoxed s (add_worker env now key r) (add_worker-IsBoxed key r h)

  add_nodes-IsBoxed :
      (s : List (String × List ℕ)) (r : Resources) → IsBoxed r → IsBoxed (add_nodes env now s r)
  add_nodes-IsBoxed [] r h = h
  add_nodes-IsBoxed ((key, v) ∷ s) r h =
      add_nodes-IsBoxed s (add_node env now key r) (add_node-IsBoxed key r h)

  pub create_charts-IsBoxed : (r : Resources) → IsBoxed r → IsBoxed (create_charts env now r)
  unfolding create_charts
  create_charts-IsBoxed r h =
      create_nodes-IsBoxed env.config_nodes (create_workers env now env.config_workers r)
        (create_workers-IsBoxed env.config_workers r h)

  pub add_new_charts-IsBoxed :
      (msg : Message) (r : Resources) → IsBoxed r → IsBoxed (add_new_charts env now msg r)
  unfolding add_new_charts
  add_new_charts-IsBoxed msg r h = elim (Bool-cases r.has_added_new_charts) [
    | inl e ↦ subst P (sym e) h
    | inr e ↦ subst P (sym e) (
        add_nodes-IsBoxed msg.node_statistics (add_workers env now msg.worker_statistics r)
          (add_workers-IsBoxed msg.worker_statistics r h))
  ]
    where
      P : Bool → Type 0
      P b = IsBoxed (
          if b
          then r
          else record (add_nodes env now msg.node_statistics
              (add_workers env now msg.worker_statistics r)) { has_added_new_charts = true })
