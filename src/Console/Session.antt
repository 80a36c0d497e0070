-- ===== src/Console/Session.antt =====
-- A life of the console: orders, timers, messages and the loss of the connection, in any order
-- (src/main/resources/web-data/js/main.js).
use mathlib.Core.List.{append-nil, append_assoc}
use dyn_dco.Base.{
  ℕ, ◌≤◌, String, ◌≡◌, refl, sym, inl, inr, ◌∙◌, ap, Option, List, [], ◌∷◌, ◌++◌, map, true, false,
  arith, ite, string_discrete, keep_if, length,
}
use dyn_dco.Console.Orders.{Request, Timer, Console, order, reset_orders, fire, pending_for}
use dyn_dco.Console.Orders.Coherent.{
  IsCoherent, order-IsCoherent, reset_orders-IsCoherent, drop-cases, fire-IsCoherent,
  lose-IsCoherent,
}
use dyn_dco.Console.Orders.Pending.{pending-AtMostOne, order-supersedes}
use dyn_dco.Console.Dispatch.{Consumer, Incoming, on_message, on_close, on_open}
use dyn_dco.Console.Dispatch.Retries.{on_message-IsCoherent}

-- The requests of one provider.
abbrev pub sent_for : String → List Request → List Request
sent_for p = keep_if (λ r. ite (string_discrete r.provider p) true false)

sent_for-append :
    (p : String) (xs ys : List Request) → sent_for p (xs ++ ys) ≡ sent_for p xs ++ sent_for p ys
sent_for-append p [] ys = refl
sent_for-append p (x ∷ xs) ys = ground (arith, sent_for-append p xs ys)

sent_for-map :
    (p : String) (ts : List Timer)
    → sent_for p (map (λ t. t.request) ts)
      ≡ map
          (λ t. t.request)
          (keep_if (λ t. ite (string_discrete t.request.provider p) true false) ts)
sent_for-map p [] = refl
sent_for-map p (t ∷ ts) = ground (arith, sent_for-map p ts)

module _ {C : Type 0} (consumers : List (String × Consumer)) where
  pub data Step : Console C → Console C → Type 0 where
    ordering :
        (c : Console C) (r : Request) (delay : ℕ) (cb : Option C) → Step c (order r delay cb c)
    resetting : (c : Console C) (p : String) → Step c (reset_orders p c)
    firing : (c : Console C) (t : Timer) → Step c (fire t c)
    receiving : (c : Console C) (j : Incoming) → Step c (on_message consumers j c).0
    closing : (c : Console C) → Step c (on_close consumers c).0
    opening : (c : Console C) → Step c (on_open consumers c).0

  pub data Reach (s : Console C) : Console C → Type 0 where
    here : Reach s s
    next : {c d : Console C} → Reach s c → Step c d → Reach s d

  pub open-IsCoherent : (c : Console C) → IsCoherent c → IsCoherent (on_open consumers c).0
  unfolding on_open
  open-IsCoherent c h = record {
    positive = h.positive;
    named = h.named;
    numbered = h.numbered;
    distinct = h.distinct;
    below = h.below;
    apart = h.apart;
  }

  Step-IsCoherent : {c d : Console C} → Step c d → IsCoherent c → IsCoherent d
  unfolding on_close
  Step-IsCoherent (ordering c r delay cb) h = order-IsCoherent r delay cb c h
  Step-IsCoherent (resetting c p) h = reset_orders-IsCoherent p c h
  Step-IsCoherent (firing c t) h = fire-IsCoherent t c h
  Step-IsCoherent (receiving c j) h = on_message-IsCoherent consumers j c h
  Step-IsCoherent (closing c) h = lose-IsCoherent c h
  Step-IsCoherent (opening c) h = open-IsCoherent c h

  Reach-IsCoherent : {c d : Console C} → IsCoherent c → Reach c d → IsCoherent d
  Reach-IsCoherent h here = h
  Reach-IsCoherent h (next r st) = Step-IsCoherent st (Reach-IsCoherent h r)

  -- Whatever happens to a coherent console, at most one order of each provider waits.
  pub Reach-AtMostOne :
      (p : String) {c d : Console C} → IsCoherent c → Reach c d → length (pending_for p d) ≤ 1
  Reach-AtMostOne p {c} {d} h r = pending-AtMostOne p d (Reach-IsCoherent h r)

module _ {C : Type 0} where
  -- Every timer of a list runs, the first one first.
  unfoldable pub fire_all : List Timer → Console C → Console C
  fire_all [] c = c
  fire_all (t ∷ ts) c = fire_all ts (fire t c)

  fire-sent :
      (t : Timer) (c : Console C)
      → c.is_open ≡ true
      → ((fire t c).sent ≡ c.sent ++ t.request ∷ []) × ((fire t c).is_open ≡ true)
  unfolding fire
  fire-sent t c e = rw e (refl, refl)

  fire_all-sent :
      (ts : List Timer) (c : Console C)
      → c.is_open ≡ true
      → (fire_all ts c).sent ≡ c.sent ++ map (λ t. t.request) ts
  unfolding fire_all
  fire_all-sent [] c e = sym (append-nil c.sent)
  fire_all-sent (t ∷ ts) c e =
      let (s, o) = fire-sent t c e in
      fire_all-sent ts (fire t c) o
      ∙ ap (λ xs. xs ++ map (λ u. u.request) ts) s
      ∙ append_assoc c.sent (t.request ∷ []) (map (λ u. u.request) ts)

  sent-order :
      (r : Request) (delay : ℕ) (cb : Option C) (c : Console C)
      → ((order r delay cb c).sent ≡ c.sent) × ((order r delay cb c).is_open ≡ c.is_open)
  unfolding order reset_orders
  sent-order r delay cb c = elim (drop-cases r.provider c) [
    | inl (q, z) ↦ (ap (λ x. x.sent) q, ap (λ x. x.is_open) q)
    | inr (i, e, q) ↦ (ap (λ x. x.sent) q, ap (λ x. x.is_open) q)
  ]

  -- After an order, when all timers have run with the socket open, what has gone out for its provider
  -- is what had gone out before, and then the order alone: an order that waited before it is not sent.
  pub order-LastSent :
      (r : Request) (delay : ℕ) (cb : Option C) (c : Console C)
      → IsCoherent c
      → c.is_open ≡ true
      → (let d = order r delay cb c in sent_for r.provider (fire_all d.pending d).sent)
        ≡ sent_for r.provider c.sent ++ r ∷ []
  order-LastSent r delay cb c h e =
      let d = order r delay cb c in
      let (s, o) = sent-order r delay cb c in
      ap (sent_for r.provider)
        (fire_all-sent d.pending d (o ∙ e) ∙ ap (λ xs. xs ++ map (λ t. t.request) d.pending) s)
      ∙ sent_for-append r.provider c.sent (map (λ t. t.request) d.pending)
      ∙ ap (sent_for r.provider c.sent ++◌) (
          sent_for-map r.provider d.pending
          ∙ ap (map (λ t. t.request)) (order-supersedes r delay cb c h))
