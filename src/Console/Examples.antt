-- ===== src/Console/Examples.antt =====
-- Small consoles and what the theorems say of them (src/main/resources/web-data/js/main.js).
use dyn_dco.Base.{
  ℕ, ◌≤◌, String, ◌≡◌, refl, none, some, List, [], ◌∷◌, ◌++◌, true, false, arith, no_entries,
  length, All,
}
use dyn_dco.Console.Orders.{Request, Console, order, pending_for, drop_earlier}
use dyn_dco.Console.Orders.Coherent.{IsCoherent, order-IsCoherent}
use dyn_dco.Console.Dispatch.{Consumer, Incoming, on_message, on_close}
use dyn_dco.Console.Dispatch.Retries.{on_message-retries}
use dyn_dco.Console.Pages.{start, connect, requests_of}
use dyn_dco.Console.Pages.Asked.{Waits, connect-Waits}
use dyn_dco.Console.Session.{Step, Reach, Reach-AtMostOne, fire_all, sent_for, order-LastSent}

abbrev fresh : Console ℕ
fresh = record {
  orders = [];
  callbacks = no_entries;
  pending = [];
  next_timer = 1;
  is_open = true;
  sent = [];
  not_sent = [];
}

fresh-IsCoherent : IsCoherent fresh
fresh-IsCoherent = record {
  positive = omega arith;
  named = tt;
  numbered = tt;
  distinct = tt;
  below = λ p i e. cc e;
  apart = λ p q i e f. cc e;
}

abbrev graph_request : Request
graph_request = record { provider = "graph"; requestor = "Graph"; body = "top" }

abbrev state_request : Request
state_request = record { provider = "state"; requestor = "State"; body = "" }

-- An order of the graph waits, with a callback.
abbrev ordered : Console ℕ
ordered = order graph_request 0 (some 7) fresh

ordered-IsCoherent : IsCoherent ordered
ordered-IsCoherent = order-IsCoherent graph_request 0 (some 7) fresh fresh-IsCoherent

abbrev modules : List (String × Consumer)
modules =
    (
      "Graph",
      record {
        requires = "graph" ∷ "configuration" ∷ [];
        has_notready = true;
        has_onclose = true;
        has_onerror = false;
      },
    )
    ∷ (
      "State",
      record {
        requires = "state" ∷ "controls" ∷ [];
        has_notready = false;
        has_onclose = true;
        has_onerror = false;
      },
    )
    ∷ []

abbrev graph_message : Incoming
graph_message = record {
  provider = "graph";
  requestor = "";
  request = state_request;
  msg = "";
  stacktrace = "";
  comment = "";
}

abbrev second_message : Incoming
second_message = record graph_message { msg = "more" }

abbrev not_ready_message : Incoming
not_ready_message = record {
  provider = "notready";
  requestor = "Graph";
  request = graph_request;
  msg = "";
  stacktrace = "";
  comment = "";
}

on_message-retries_example :
    (pending_for "graph" (on_message modules not_ready_message ordered).0
      ≡ record { id = ordered.next_timer; delay = 500; request = graph_request } ∷ [])
    × ((on_message modules not_ready_message ordered).0.callbacks "graph" ≡ none)
on_message-retries_example =
    on_message-retries modules not_ready_message ordered ordered-IsCoherent refl

order-LastSent_example :
    sent_for "graph"
      (fire_all
        (order graph_request 9 none ordered).pending
        (order graph_request 9 none ordered)).sent
    ≡ sent_for "graph" ordered.sent ++ graph_request ∷ []
unfolding order drop_earlier
order-LastSent_example = order-LastSent graph_request 9 none ordered ordered-IsCoherent refl

Reach-AtMostOne_example :
    length
      (pending_for "graph" (on_close modules (on_message modules not_ready_message ordered).0).0)
    ≤ 1
Reach-AtMostOne_example = Reach-AtMostOne modules "graph" ordered-IsCoherent (
    Reach.next (Reach.next Reach.here (Step.receiving ordered not_ready_message))
      (Step.closing (on_message modules not_ready_message ordered).0))

connect-Waits_example :
    All (Waits (connect (start "/resources") ordered)) (requests_of (start "/resources").consumers)
connect-Waits_example = connect-Waits "/resources" ordered ordered-IsCoherent
