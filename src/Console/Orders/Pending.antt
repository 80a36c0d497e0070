-- ===== src/Console/Orders/Pending.antt =====
-- What waits after an order, and after the connection is lost
-- (src/main/resources/web-data/js/main.js).
use mathlib.Core.List.{append-nil}
use dyn_dco.Base.{
  ℕ, ◌≤◌, String, ◌≡◌, ◌≢◌, refl, sym, ◌∙◌, ap, some, Option, List, [], ◌∷◌, ◌++◌, true, false,
  arith, ite, if◌then◌else◌, string_discrete, inl, inr, All, All-mono, keep_if, length, lookup,
}
use dyn_dco.Console.Orders.{
  Request, Timer, Console, clear_timeout, reset_orders, drop_earlier, order, lose_connection,
  pending_for,
}
use dyn_dco.Console.Orders.Coherent.{
  IsCoherent, DistinctTimers, drop-cases, drop-absent, clear_all-gone,
}

abbrev for_provider : String → List Timer → List Timer
for_provider p = keep_if (λ t. ite (string_discrete t.request.provider p) true false)

for_provider-none :
    (p : String) (ts : List Timer) → All (λ t. t.request.provider ≢ p) ts → for_provider p ts ≡ []
for_provider-none p [] h = refl
for_provider-none p (t ∷ ts) h = ground (arith, for_provider-none p ts h.1, h.0)

for_provider-append :
    (p : String) (ts : List Timer) (t : Timer)
    → for_provider p (ts ++ t ∷ [])
      ≡ for_provider p ts
        ++ (if ite (string_discrete t.request.provider p) true false then t ∷ [] else [])
for_provider-append p [] t = refl
for_provider-append p (u ∷ ts) t = ground (arith, for_provider-append p ts t)

some_inj : {i j : ℕ} → some i ≡ some j → i ≡ j
some_inj e = cc e

different :
    (p : String) (i : Option ℕ) (t : Timer) (us : List Timer)
    → i ≡ some t.id
    → All (λ u. u.request.provider ≡ p → i ≡ some u.id) us
    → All (λ u. u.id ≢ t.id) us
    → All (λ u. u.request.provider ≢ p) us
different p i t [] e a b = tt
different p i t (u ∷ us) e a b =
    (λ same. b.0 (some_inj (sym (a.0 same) ∙ e)), different p i t us e a.1 b.1)

-- Timers of one provider that are all named by the one order are one.
few :
    (p : String) (i : Option ℕ) (ts : List Timer)
    → All (λ t. t.request.provider ≡ p → i ≡ some t.id) ts
    → DistinctTimers ts
    → length (for_provider p ts) ≤ 1
few p i [] h d = omega arith
few p i (t ∷ ts) h d = elim (string_discrete t.request.provider p) [
  | no ne ↦ ground (arith, few p i ts h.1 d.1)
  | yes same ↦ ground (arith, for_provider-none p ts (different p i t ts (h.0 same) h.1 d.0))
]

-- Clearing a timer that is not of the provider.
for_provider-clear :
    (p : String) (i : ℕ) (o : Option ℕ) (ts : List Timer)
    → o ≢ some i
    → All (λ t. t.request.provider ≡ p → o ≡ some t.id) ts
    → for_provider p (clear_timeout (some i) ts) ≡ for_provider p ts
for_provider-clear p i o [] ne h = refl
for_provider-clear p i o (t ∷ ts) ne h = elim (string_discrete t.request.provider p) [
  | no other ↦ ground (arith, for_provider-clear p i o ts ne h.1)
  | yes same ↦ ground (arith, for_provider-clear p i o ts ne h.1, h.0 same)
]

module _ {C : Type 0} where
  abbrev named_for :
      (p : String) (c : Console C)
      → IsCoherent c
      → All (λ t. t.request.provider ≡ p → lookup p c.orders ≡ some t.id) c.pending
  named_for p c h =
      All-mono _ _ (λ t n same. ap (λ x. lookup x c.orders) (sym same) ∙ n) c.pending h.named

  -- On a coherent console at most one order of each provider waits.
  pub pending-AtMostOne : (p : String) (c : Console C) → IsCoherent c → length (pending_for p c) ≤ 1
  pending-AtMostOne p c h = few p (lookup p c.orders) c.pending (named_for p c h) h.distinct

  drop-next_timer : (p : String) (c : Console C) → (drop_earlier p c).next_timer ≡ c.next_timer
  unfolding reset_orders
  drop-next_timer p c = elim (drop-cases p c) [
    | inl (q, z) ↦ ap (λ x. x.next_timer) q
    | inr (i, e, q) ↦ ap (λ x. x.next_timer) q
  ]

  -- After an order it is the only one of its provider that waits: an earlier one is overridden.
  pub order-supersedes :
      (r : Request) (delay : ℕ) (cb : Option C) (c : Console C)
      → IsCoherent c
      → pending_for r.provider (order r delay cb c)
        ≡ record { id = c.next_timer; delay = delay; request = r } ∷ []
  unfolding order
  order-supersedes r delay cb c h = ground (
    arith,
    for_provider-append r.provider (drop_earlier r.provider c).pending
        (record { id = (drop_earlier r.provider c).next_timer; delay = delay; request = r }),
    for_provider-none r.provider (drop_earlier r.provider c).pending (drop-absent r.provider c h),
    drop-next_timer r.provider c,
  )

  drop-others :
      (p q : String) (c : Console C)
      → IsCoherent c
      → p ≢ q
      → for_provider q (drop_earlier p c).pending ≡ for_provider q c.pending
  unfolding reset_orders
  drop-others p q c h ne = elim (drop-cases p c) [
    | inl (e, z) ↦ ap (λ (x : Console C). for_provider q x.pending) e
    | inr (i, f, e) ↦
        ap (λ (x : Console C). for_provider q x.pending) e
        ∙ rw f (
            for_provider-clear q i (lookup q c.orders) c.pending (λ g. ne (h.apart p q i f g))
              (named_for q c h))
  ]

  -- The orders of other providers wait as before.
  pub order-others :
      (r : Request) (delay : ℕ) (cb : Option C) (q : String) (c : Console C)
      → IsCoherent c
      → r.provider ≢ q
      → pending_for q (order r delay cb c) ≡ pending_for q c
  unfolding order
  order-others r delay cb q c h ne = ground (
    arith,
    for_provider-append q (drop_earlier r.provider c).pending
        (record { id = (drop_earlier r.provider c).next_timer; delay = delay; request = r }),
    drop-others r.provider q c h ne,
    append-nil (for_provider q (drop_earlier r.provider c).pending),
    append-nil (for_provider q c.pending),
    ne,
  )

  -- No order waits after the connection is lost.
  lose_connection-silences : (c : Console C) → IsCoherent c → (lose_connection c).pending ≡ []
  unfolding lose_connection
  lose_connection-silences c h = clear_all-gone c.orders c.pending h.named
