-- ===== src/Console/Orders.antt =====
-- `scc.order`, `scc.resetOrders` and the timers behind them
-- (src/main/resources/web-data/js/main.js).
pub mod Coherent
pub mod Pending
use dyn_dco.Base.{
  ℕ, suc, String, Option, none, some, List, [], ◌∷◌, ◌++◌, Bool, true, false, not, ltb, ◌==◌,
  if◌then◌else◌, ite, string_discrete, Table, update, keep_if, lookup, assign, remove_key,
}

-- A message to the server.
pub record Request : Type 0 where
  pub provider : String
  pub requestor : String
  pub body : String

-- What `setTimeout` keeps until it runs.
pub record Timer : Type 0 where
  pub id : ℕ
  pub delay : ℕ
  pub request : Request

-- `scc.orders` and `scc.callbacks`, the timers of the browser, what went out over the socket, and
-- what could not. `C` stands for the callbacks. The browser numbers its timers from 1.
pub record Console (C : Type 0) : Type 0 where
  pub orders : List (String × ℕ)
  pub callbacks : Table C
  pub pending : List Timer
  pub next_timer : ℕ
  pub is_open : Bool
  pub sent : List Request
  pub not_sent : List Request

abbrev pub clear_timeout : Option ℕ → List Timer → List Timer
clear_timeout none ts = ts
clear_timeout (some id) ts = keep_if (λ t. not (t.id == id)) ts

-- `$.each(scc.orders, …)`
abbrev pub clear_all : List (String × ℕ) → List Timer → List Timer
clear_all [] ts = ts
clear_all ((k, id) ∷ rest) ts = clear_all rest (clear_timeout (some id) ts)

module _ {C : Type 0} where
  unfoldable pub reset_orders : String → Console C → Console C
  reset_orders provider c = record c {
    pending = clear_timeout (lookup provider c.orders) c.pending;
    orders = remove_key provider c.orders;
    callbacks = update c.callbacks provider none;
  }

  -- `if (scc.orders[id]) { scc.resetOrders(id); }`
  unfoldable pub drop_earlier : String → Console C → Console C
  drop_earlier provider c = elim (lookup provider c.orders) [
    | none ↦ c
    | some id ↦ if ltb 0 id then reset_orders provider c else c
  ]

  unfoldable pub order : Request → ℕ → Option C → Console C → Console C
  order r delay cb c =
      let d = drop_earlier r.provider c in
      record d {
        callbacks = update d.callbacks r.provider cb;
        orders = assign r.provider d.next_timer d.orders;
        pending = d.pending ++ record { id = d.next_timer; delay = delay; request = r } ∷ [];
        next_timer = suc d.next_timer;
      }

  -- The function that `order` gives to `setTimeout`; the entry in `scc.orders` stays.
  unfoldable pub fire : Timer → Console C → Console C
  fire t c =
      let rest = keep_if (λ u. not (u.id == t.id)) c.pending in
      if c.is_open
      then record c { pending = rest; sent = c.sent ++ t.request ∷ [] }
      else record c { pending = rest; not_sent = c.not_sent ++ t.request ∷ [] }

  -- `onclose` of the socket, before the consumers are told.
  unfoldable pub lose_connection : Console C → Console C
  lose_connection c = record c {
    pending = clear_all c.orders c.pending;
    orders = [];
    is_open = false;
  }

  -- The orders of a provider that wait for their timer.
  abbrev pub pending_for : String → Console C → List Timer
  pending_for provider c =
      keep_if (λ t. ite (string_discrete t.request.provider provider) true false) c.pending
