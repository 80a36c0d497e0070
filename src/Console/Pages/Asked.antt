-- ===== src/Console/Pages/Asked.antt =====
-- That each page asks for its data once (src/main/resources/web-data/js/main.js).
use dyn_dco.Base.{
  ℕ, String, ◌≡◌, ◌≢◌, refl, ◌∙◌, none, List, [], ◌∷◌, ite, string_discrete, All, strings_differ,
}
use dyn_dco.Console.Orders.{Request, Console, order, pending_for}
use dyn_dco.Console.Orders.Coherent.{IsCoherent, order-IsCoherent}
use dyn_dco.Console.Orders.Pending.{order-supersedes, order-others}
use dyn_dco.Console.Session.{open-IsCoherent}
use dyn_dco.Console.Dispatch.{on_open}
use dyn_dco.Console.Pages.{
  Page, start, resources_page, graph_page, whole_page, requests_of, order_all, connect,
}

-- No request has the provider.
abbrev Unasked : String → List Request → Type 0
Unasked p rs = All (λ r. r.provider ≢ p) rs

-- No provider is asked twice.
abbrev AskedOnce : List Request → Type 0
AskedOnce [] = Unit {0}
AskedOnce (r ∷ rs) = Unasked r.provider rs × AskedOnce rs

-- The request is the only one of its provider that waits.
abbrev pub Waits : {C : Type 0} → Console C → Request → Type 0
Waits c r = (id : ℕ) × (pending_for r.provider c ≡ record { id = id; delay = 0; request = r } ∷ [])

module _ {C : Type 0} where
  order_all-others :
      (p : String) (rs : List Request) (c : Console C)
      → IsCoherent c
      → Unasked p rs
      → pending_for p (order_all rs c) ≡ pending_for p c
  order_all-others p [] c h u = refl
  order_all-others p (r ∷ rs) c h u =
      order_all-others p rs (order r 0 none c) (order-IsCoherent r 0 none c h) u.1
      ∙ order-others r 0 none p c h u.0

  order_all-Waits :
      (rs : List Request) (c : Console C)
      → IsCoherent c
      → AskedOnce rs
      → All (Waits (order_all rs c)) rs
  order_all-Waits [] c h a = tt
  order_all-Waits (r ∷ rs) c h a = (
    (
      c.next_timer,
      order_all-others r.provider rs (order r 0 none c) (order-IsCoherent r 0 none c h) a.0
          ∙ order-supersedes r 0 none c h,
    ),
    order_all-Waits rs (order r 0 none c) (order-IsCoherent r 0 none c h) a.1,
  )

-- What holds of the three pages holds of the page of every path.
start-All :
    (P : Page → Type 0)
    → P resources_page
    → P graph_page
    → P whole_page
    → (path : String) → P (start path)
unfolding start
start-All P r g w path =
    elim (string_discrete path "/resources")
      as (λ d.
        P (ite d resources_page (ite (string_discrete path "/graph") graph_page whole_page))) [
          | yes e ↦ r
          | no e ↦ elim (string_discrete path "/graph") as (λ d. P (ite d graph_page whole_page)) [
            | yes f ↦ g
            | no f ↦ w
          ]
        ]

start-AskedOnce : (path : String) → AskedOnce (requests_of (start path).consumers)
unfolding string_discrete
start-AskedOnce =
    start-All (λ page. AskedOnce (requests_of page.consumers))
      (
        (
          strings_differ "resources" "state" refl,
          (strings_differ "configuration" "state" refl, (strings_differ "log" "state" refl, tt)),
        ),
        (
          (
            strings_differ "configuration" "resources" refl,
            (strings_differ "log" "resources" refl, tt),
          ),
          ((strings_differ "log" "configuration" refl, tt), (tt, tt)),
        ),
      )
      (tt, tt)
      (
        (
          strings_differ "configuration" "resources" refl,
          (strings_differ "log" "resources" refl, (strings_differ "state" "resources" refl, tt)),
        ),
        (
          (
            strings_differ "log" "configuration" refl,
            (strings_differ "state" "configuration" refl, tt),
          ),
          ((strings_differ "state" "log" refl, tt), (tt, tt)),
        ),
      )

module _ {C : Type 0} where
  -- When the connection opens on a coherent console, whichever the path of the page, each request
  -- that its modules make waits without a delay, as the only one of its provider.
  pub connect-Waits :
      (path : String) (c : Console C)
      → IsCoherent c
      → All (Waits (connect (start path) c)) (requests_of (start path).consumers)
  unfolding connect
  connect-Waits path c h =
      order_all-Waits (requests_of (start path).consumers) (on_open (start path).consumers c).0
        (open-IsCoherent (start path).consumers c h) (start-AskedOnce path)

  -- On the page of the graph nothing asks for the configuration, which Graph requires.
  connect-unasked :
      (c : Console C)
      → IsCoherent c
      → pending_for "configuration" (connect graph_page c) ≡ pending_for "configuration" c
  unfolding connect on_open string_discrete
  connect-unasked c h =
      order_all-others "configuration" (requests_of graph_page.consumers)
        (on_open graph_page.consumers c).0 (open-IsCoherent graph_page.consumers c h)
        (strings_differ "state" "configuration" refl, tt)
