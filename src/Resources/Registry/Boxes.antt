-- ===== src/Resources/Registry/Boxes.antt =====
-- The charts that a message adds, and their boxes (src/main/resources/web-data/js/resources-charts.js).
use dyn_dco.Base.{
  subst, ℕ, arith, String, ◌≡◌, refl, sym, ◌∙◌, none, List, [], ◌∷◌, ◌++◌, Bool, true, false, not,
  ◌&&◌, ◌||◌, if◌then◌else◌, string_discrete, contains, Bool-cases, inl, inr,
}
use dyn_dco.Resources.Registry.{
  Config, LineChart, Resources, Message, Environment, is_name, is_configured, charts_contains,
  chart_skipped, put_chart, names, charts_create, is_new, add_worker, add_node, add_workers,
  add_nodes, add_new_charts,
}

-- Whether `lineCharts` has a chart.
abbrev pub has_chart : Resources → String → Bool
has_chart r name = contains (names r.line_charts) name

-- Whether a statistic is in a message.
abbrev pub has_key : List (String × List ℕ) → String → Bool
has_key [] name = false
has_key ((key, v) ∷ s) name = let rest = has_key s name in if is_name key name then true else rest

pub contains-append :
    (xs ys : List String) (s : String) → contains (xs ++ ys) s ≡ contains xs s || contains ys s
contains-append [] ys s = refl
contains-append (x ∷ xs) ys s = ground (arith, contains-append xs ys s)

contains-put_chart :
    (c : LineChart) (cs : List LineChart) (s : String)
    → contains (names (put_chart c cs)) s ≡ contains (names cs) s || is_name c.json_name s
contains-put_chart c [] s = ground arith
contains-put_chart c (d ∷ cs) s = ground (arith, contains-put_chart c cs s)

-- The names of the charts of a configuration.
abbrev pub config_names : List Config → List String
config_names [] = []
config_names (c ∷ cs) = c.json_name ∷ config_names cs

contains-config_names :
    (cs : List Config) (k : String) → contains (config_names cs) k ≡ is_configured k cs
contains-config_names [] k = refl
contains-config_names (c ∷ cs) k = ground (arith, contains-config_names cs k)

is_configured-append :
    (k : String) (cs ds : List Config)
    → is_configured k (cs ++ ds) ≡ is_configured k cs || is_configured k ds
is_configured-append k [] ds = refl
is_configured-append k (c ∷ cs) ds = ground (arith, is_configured-append k cs ds)

grow : (a n m : Bool) → (n ≡ true → m ≡ true) → a || n ≡ a || (n && m)
grow a true m h = ground (arith, h refl)
grow a false m h = refl

stay : (a n m : Bool) → (n ≡ true → m ≡ false) → a ≡ a || (n && m)
stay a true m h = ground (arith, h refl)
stay a false m h = ground arith

module _ (env : Environment) (now : ℕ) where
  pub has_chart-charts_create :
      (name : String) (r : Resources) (s : String)
      → has_chart (charts_create env now name r) s ≡ has_chart r s || is_name name s
  unfolding charts_create
  has_chart-charts_create name r s = contains-put_chart _ r.line_charts s

  is_name-is_new :
      (configs : List Config) (key k : String) (b : Bool)
      → is_new env now configs key ≡ b
      → is_name key k ≡ true
      → is_new env now configs k ≡ b
  is_name-is_new configs key k b e h = elim (string_discrete key k) [
    | yes p ↦ subst (λ x. is_new env now configs x ≡ b) p e
    | no p ↦ absurd (ground (arith, h, p))
  ]

  has_chart-add_worker :
      (key : String) (r : Resources) (k : String)
      → has_chart (add_worker env now key r) k
        ≡ has_chart r k || (is_name key k && is_new env now env.config_workers k)
  unfolding add_worker
  has_chart-add_worker key r k = elim (Bool-cases (is_new env now env.config_workers key)) [
    | inl e ↦ rw e (
        has_chart-charts_create key r k
        ∙ grow (has_chart r k) _ _ (is_name-is_new env.config_workers key k true e))
    | inr e ↦ rw e (stay (has_chart r k) _ _ (is_name-is_new env.config_workers key k false e))
  ]

  has_chart-add_node :
      (key : String) (r : Resources) (k : String)
      → has_chart (add_node env now key r) k
        ≡ has_chart r k || (is_name key k && is_new env now env.config_nodes k)
  unfolding add_node
  has_chart-add_node key r k = elim (Bool-cases (is_new env now env.config_nodes key)) [
    | inl e ↦ rw e (
        has_chart-charts_create key r k
        ∙ grow (has_chart r k) _ _ (is_name-is_new env.config_nodes key k true e))
    | inr e ↦ rw e (stay (has_chart r k) _ _ (is_name-is_new env.config_nodes key k false e))
  ]

  has_chart-add_workers :
      (s : List (String × List ℕ)) (r : Resources) (k : String)
      → has_chart (add_workers env now s r) k
        ≡ has_chart r k || (has_key s k && is_new env now env.config_workers k)
  has_chart-add_workers [] r k = ground arith
  has_chart-add_workers ((key, v) ∷ s) r k =
      ground
        (arith, has_chart-add_workers s (add_worker env now key r) k, has_chart-add_worker key r k)

  has_chart-add_nodes :
      (s : List (String × List ℕ)) (r : Resources) (k : String)
      → has_chart (add_nodes env now s r) k
        ≡ has_chart r k || (has_key s k && is_new env now env.config_nodes k)
  has_chart-add_nodes [] r k = ground arith
  has_chart-add_nodes ((key, v) ∷ s) r k =
      ground (arith, has_chart-add_nodes s (add_node env now key r) k, has_chart-add_node key r k)

  abbrev after : Message → Resources → Resources
  after msg r = add_nodes env now msg.node_statistics (add_workers env now msg.worker_statistics r)

  -- The statistics of a message that pass the test of the code.
  abbrev pub has_new : Message → String → Bool
  has_new msg k =
      (has_key msg.worker_statistics k && is_new env now env.config_workers k)
      || (has_key msg.node_statistics k && is_new env now env.config_nodes k)

  has_chart-after :
      (msg : Message) (r : Resources) (k : String)
      → has_chart (after msg r) k ≡ has_chart r k || has_new msg k
  has_chart-after msg r k = ground (
    arith,
    has_chart-add_nodes msg.node_statistics (add_workers env now msg.worker_statistics r) k,
    has_chart-add_workers msg.worker_statistics r k,
  )

  pub has_chart-add_tested :
      (msg : Message) (r : Resources) (k : String)
      → has_chart (add_new_charts env now msg r) k
        ≡ has_chart r k || (not r.has_added_new_charts && has_new msg k)
  unfolding add_new_charts
  has_chart-add_tested msg r k = elim (Bool-cases r.has_added_new_charts) [
    | inl e ↦ subst P (sym e) (ground arith)
    | inr e ↦ subst P (sym e) (has_chart-after msg r k)
  ]
    where
      P : Bool → Type 0
      P b =
          has_chart (if b then r else record (after msg r) { has_added_new_charts = true }) k
          ≡ has_chart r k || (not b && has_new msg k)

  is_new-configured :
      (configs : List Config) (k : String)
      → env.array_index k ≡ none
      → is_new env now configs k
        ≡ not (contains (config_names (env.config_workers ++ env.config_nodes)) k)
  unfolding is_new charts_contains chart_skipped
  is_new-configured configs k e = ground (
    arith,
    e,
    contains-config_names (env.config_workers ++ env.config_nodes) k,
    is_configured-append k env.config_workers env.config_nodes,
  )

  -- The first message adds exactly the charts of those statistics of workers and of nodes that are not
  -- among the charts of the configuration, and removes none; later messages add none. This is for names
  -- that are not the index of an array, as which the code would look them up in the configuration.
  pub has_chart-add_new_charts :
      (msg : Message) (r : Resources) (k : String)
      → env.array_index k ≡ none
      → has_chart (add_new_charts env now msg r) k
        ≡ has_chart r k
          || (not r.has_added_new_charts
              && (has_key msg.worker_statistics k || has_key msg.node_statistics k)
              && not (contains (config_names (env.config_workers ++ env.config_nodes)) k))
  has_chart-add_new_charts msg r k e = ground (
    arith,
    has_chart-add_tested msg r k,
    is_new-configured env.config_workers k e,
    is_new-configured env.config_nodes k e,
  )
