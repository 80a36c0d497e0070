-- ===== src/Console/Dispatch/Retries.antt =====
-- What a message of the server does to the console: retries and callbacks
-- (src/main/resources/web-data/js/main.js).
use dyn_dco.Base.{
  ℕ, String, ◌≡◌, ◌≢◌, ◌⊎◌, Bool-cases, refl, none, List, [], ◌∷◌, string_discrete, arith,
  Option-cases, inl, inr, update, lookup,
}
use dyn_dco.Console.Orders.{Request, Console, order, pending_for}
use dyn_dco.Console.Orders.Coherent.{IsCoherent, order-IsCoherent}
use dyn_dco.Console.Orders.Pending.{order-supersedes}
use dyn_dco.Console.Dispatch.{Consumer, Incoming, retry, respond, call_back, on_message}

-- A provider whose messages the main module does not answer itself.
pub record IsOrdinary (provider : String) : Type 0 where
  pub not_notready : provider ≢ "notready"
  pub not_error : provider ≢ "error"
  pub not_invalid : provider ≢ "invalid"

module _ {C : Type 0} (consumers : List (String × Consumer)) where
  call_back-keeps :
      (P : Console C → Type 0) (p : String)
      → ((c : Console C) → P c → P (record c { callbacks = update c.callbacks p none }))
      → (c : Console C) → P c
      → P (call_back p c).0
  unfolding call_back
  call_back-keeps P p f c h = elim (Option-cases (c.callbacks p)) [
    | inl e ↦ rw (e, call_back) h
    | inr (cb, e) ↦ rw (e, call_back) (f c h)
  ]

  -- The console after a message: as the answer of the main module leaves it, but for a callback.
  on_message-cases :
      (j : Incoming) (c : Console C)
      → ((on_message consumers j c).0 ≡ (respond consumers j c).0)
        ⊎ ((on_message consumers j c).0 ≡ (call_back j.provider (respond consumers j c).0).0)
  unfolding on_message
  on_message-cases j c = elim (Bool-cases (respond consumers j c).1.1) [
    | inl e ↦ inr (rw (e, on_message) refl)
    | inr e ↦ inl (rw (e, on_message) refl)
  ]

  retry_lem : (j : Incoming) (c : Console C) → (retry consumers j c).0 ≡ order j.request 500 none c
  unfolding retry
  retry_lem j c = elim (Option-cases (lookup j.requestor consumers)) [
    | inl e ↦ rw (e, retry) refl
    | inr (m, e) ↦ rw (e, retry) refl
  ]

  respond-cases :
      (j : Incoming) (c : Console C)
      → ((j.provider ≡ "notready") × ((respond consumers j c).0 ≡ order j.request 500 none c))
        ⊎ ((j.provider ≢ "notready") × ((respond consumers j c).0 ≡ c))
  unfolding respond
  respond-cases j c = elim (string_discrete j.provider "notready") [
    | yes e ↦ inl (e, ground (arith, e, retry_lem j c))
    | no ne ↦ inr (ne, ground (arith, ne))
  ]

  callbacks-order :
      (r : Request) (delay : ℕ) (c : Console C) → (order r delay none c).callbacks r.provider ≡ none
  unfolding order
  callbacks-order r delay c = ground arith

  -- After "notready" the request waits again, alone of its provider, for half a second; the callback
  -- that was registered for its provider is gone, whether or not the requestor is enabled.
  pub on_message-retries :
      (j : Incoming) (c : Console C)
      → IsCoherent c
      → j.provider ≡ "notready"
      → (pending_for j.request.provider (on_message consumers j c).0
          ≡ record { id = c.next_timer; delay = 500; request = j.request } ∷ [])
        × ((on_message consumers j c).0.callbacks j.request.provider ≡ none)
  on_message-retries j c h e = elim (on_message-cases j c) [
    | inl f ↦ rw f answered
    | inr f ↦ rw f (
        call_back-keeps Waits j.provider (λ d (w, n). (w, ground (arith, n)))
          (respond consumers j c).0 answered)
  ]
    where
      Waits : Console C → Type 0
      Waits d =
          (pending_for j.request.provider d
            ≡ record { id = c.next_timer; delay = 500; request = j.request } ∷ [])
          × (d.callbacks j.request.provider ≡ none)

      answered : Waits (respond consumers j c).0
      answered = elim (respond-cases j c) [
        | inl (r, f) ↦
            rw f (order-supersedes j.request 500 none c h, callbacks-order j.request 500 c)
        | inr (r, f) ↦ absurd (r e)
      ]

  pub on_message-IsCoherent :
      (j : Incoming) (c : Console C) → IsCoherent c → IsCoherent (on_message consumers j c).0
  on_message-IsCoherent j c h = elim (on_message-cases j c) [
    | inl e ↦ rw e answered
    | inr e ↦ rw e (
        call_back-keeps IsCoherent j.provider
          (λ d g. record {
            positive = g.positive;
            named = g.named;
            numbered = g.numbered;
            distinct = g.distinct;
            below = g.below;
            apart = g.apart;
          })
          (respond consumers j c).0 answered)
  ]
    where
      answered : IsCoherent (respond consumers j c).0
      answered = elim (respond-cases j c) [
        | inl (r, e) ↦ rw e (order-IsCoherent j.request 500 none c h)
        | inr (r, e) ↦ rw e h
      ]
