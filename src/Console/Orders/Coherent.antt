-- ===== src/Console/Orders/Coherent.antt =====
-- The timers that wait are those that `scc.orders` names
-- (src/main/resources/web-data/js/main.js).
use dyn_dco.Base.{
  ℕ, ◌≤◌, ◌<◌, String, ◌≡◌, ◌≢◌, ◌⊎◌, refl, sym, ◌∙◌, ap, none, some, Option, List, [], ◌∷◌, ◌++◌,
  Bool, not, arith, ltb, ◌==◌, string_discrete, Bool-cases, Option-cases, inl, inr, All, All-append,
  All-mono, All-keep_if, All-zip, keep_if, lookup, remove_key, lookup-assign_same,
  lookup-assign_other, lookup-remove_same, lookup-remove_other,
}
use dyn_dco.Console.Orders.{
  Request, Timer, Console, clear_timeout, reset_orders, drop_earlier, order, fire, clear_all,
  lose_connection,
}

-- Timers with different ids.
abbrev pub DistinctTimers : List Timer → Type 0
DistinctTimers [] = Unit {0}
DistinctTimers (t ∷ ts) = All (λ u. u.id ≢ t.id) ts × DistinctTimers ts

pub record IsCoherent {C : Type 0} (c : Console C) : Type 0 where
  pub positive : 1 ≤ c.next_timer
  pub named : All (λ t. lookup t.request.provider c.orders ≡ some t.id) c.pending
  pub numbered : All (λ t. (1 ≤ t.id) × (t.id < c.next_timer)) c.pending
  pub distinct : DistinctTimers c.pending
  pub below : (p : String) (i : ℕ) → lookup p c.orders ≡ some i → i < c.next_timer
  pub apart :
      (p q : String) (i : ℕ) → lookup p c.orders ≡ some i → lookup q c.orders ≡ some i → p ≡ q

DistinctTimers-keep_if :
    (p : Timer → Bool) (ts : List Timer) → DistinctTimers ts → DistinctTimers (keep_if p ts)
DistinctTimers-keep_if p [] d = tt
DistinctTimers-keep_if p (t ∷ ts) d = elim (Bool-cases (p t)) [
  | inl e ↦ rw e (All-keep_if _ p ts d.0, DistinctTimers-keep_if p ts d.1)
  | inr e ↦ rw e (DistinctTimers-keep_if p ts d.1)
]

DistinctTimers-append :
    (ts : List Timer) (t : Timer)
    → DistinctTimers ts
    → All (λ u. u.id < t.id) ts
    → DistinctTimers (ts ++ t ∷ [])
DistinctTimers-append [] t d h = (tt, tt)
DistinctTimers-append (u ∷ ts) t d h = (
  All-append _ ts (t ∷ []) d.0 ((λ e. omega (arith, h.0, e)), tt),
  DistinctTimers-append ts t d.1 h.1,
)

-- A timer that `clearTimeout` leaves is not the one that was named for the provider.
named-remove :
    (p : String) (i : ℕ) (orders : List (String × ℕ)) (ts : List Timer)
    → lookup p orders ≡ some i
    → All (λ t. lookup t.request.provider orders ≡ some t.id) ts
    → All
        (λ t. lookup t.request.provider (remove_key p orders) ≡ some t.id)
        (clear_timeout (some i) ts)
named-remove p i orders [] e h = tt
named-remove p i orders (t ∷ ts) e h =
    ground (
      arith,
      named-remove p i orders ts e h.1,
      h.0,
      lookup-remove_other p t.request.provider orders,
    )

-- Every timer that is named by an order is cleared with the orders.
pub clear_all-gone :
    (orders : List (String × ℕ)) (ts : List Timer)
    → All (λ t. lookup t.request.provider orders ≡ some t.id) ts
    → clear_all orders ts ≡ []
clear_all-gone [] [] h = refl
clear_all-gone [] (t ∷ ts) h = cc (h.0)
clear_all-gone ((k, i) ∷ rest) ts h = clear_all-gone rest (clear_timeout (some i) ts) (left ts h)
  where
    left :
        (ts : List Timer)
        → All (λ t. lookup t.request.provider ((k, i) ∷ rest) ≡ some t.id) ts
        → All (λ t. lookup t.request.provider rest ≡ some t.id) (clear_timeout (some i) ts)
    left [] h = tt
    left (t ∷ ts) h = ground (arith, left ts h.1, h.0)

module _ {C : Type 0} where
  -- Another list of orders, in which a timer that stays is still named.
  keep-IsCoherent :
      (p : Timer → Bool) (c : Console C)
      → IsCoherent c
      → IsCoherent (record c { pending = keep_if p c.pending })
  keep-IsCoherent p c h = record {
    positive = h.positive;
    named = All-keep_if _ p c.pending h.named;
    numbered = All-keep_if _ p c.pending h.numbered;
    distinct = DistinctTimers-keep_if p c.pending h.distinct;
    below = h.below;
    apart = h.apart;
  }

  pub fire-IsCoherent : (t : Timer) (c : Console C) → IsCoherent c → IsCoherent (fire t c)
  unfolding fire
  fire-IsCoherent t c h =
      let k = keep-IsCoherent (λ u. not (u.id == t.id)) c h in
      elim (Bool-cases c.is_open) [
        | inl e ↦ rw e (record {
          positive = k.positive;
          named = k.named;
          numbered = k.numbered;
          distinct = k.distinct;
          below = k.below;
          apart = k.apart;
        })
        | inr e ↦ rw e (record {
          positive = k.positive;
          named = k.named;
          numbered = k.numbered;
          distinct = k.distinct;
          below = k.below;
          apart = k.apart;
        })
      ]

  reset-IsCoherent :
      (p : String) (i : ℕ) (c : Console C)
      → lookup p c.orders ≡ some i
      → IsCoherent c
      → IsCoherent (reset_orders p c)
  unfolding reset_orders
  reset-IsCoherent p i c e h = rw e (record {
    positive = h.positive;
    named = named-remove p i c.orders c.pending e h.named;
    numbered = All-keep_if _ _ c.pending h.numbered;
    distinct = DistinctTimers-keep_if _ c.pending h.distinct;
    below = λ q j f. h.below q j (stays q j f);
    apart = λ q r j f g. h.apart q r j (stays q j f) (stays r j g);
  })
    where
      stays :
          (q : String) (j : ℕ)
          → lookup q (remove_key p c.orders) ≡ some j
          → lookup q c.orders ≡ some j
      stays q j f = ground (
        arith,
        f,
        lookup-remove_other p q c.orders,
        lookup-remove_same p c.orders,
        string_discrete p q,
      )

  -- Either nothing had to be dropped, or the order that was named for the provider is reset.
  pub drop-cases :
      (p : String) (c : Console C)
      → ((drop_earlier p c ≡ c) × ((i : ℕ) → lookup p c.orders ≡ some i → i ≡ 0))
        ⊎ ((i : ℕ) × (lookup p c.orders ≡ some i) × (drop_earlier p c ≡ reset_orders p c))
  unfolding drop_earlier
  drop-cases p c = elim (Option-cases (lookup p c.orders)) [
    | inl e ↦ inl (rw (e, drop_earlier) refl, λ i f. cc (e, f))
    | inr (i, e) ↦ elim (Bool-cases (ltb 0 i)) [
      | inl f ↦ inr (i, e, rw (e, f, drop_earlier) refl)
      | inr f ↦ inl (rw (e, f, drop_earlier) refl, λ j g. ground (arith, e, f, g))
    ]
  ]

  drop-IsCoherent : (p : String) (c : Console C) → IsCoherent c → IsCoherent (drop_earlier p c)
  drop-IsCoherent p c h = elim (drop-cases p c) [
    | inl (q, zero_id) ↦ rw q h
    | inr (i, e, q) ↦ rw q (reset-IsCoherent p i c e h)
  ]

  -- No earlier order of the provider waits any more.
  pub drop-absent :
      (p : String) (c : Console C)
      → IsCoherent c
      → All (λ t. t.request.provider ≢ p) (drop_earlier p c).pending
  unfolding reset_orders
  drop-absent p c h = elim (drop-cases p c) [
    | inl (q, zero_id) ↦ rw q (
        All-mono _ _
          (λ t (n, l) same.
            ground (arith, zero_id t.id (ap (λ x. lookup x c.orders) (sym same) ∙ n), l.0))
          c.pending (All-zip _ _ c.pending h.named h.numbered))
    | inr (i, e, q) ↦
        rw (q, e)
          (All-mono _ _ (λ t n same. cc (n, same, lookup-remove_same p c.orders))
            (clear_timeout (some i) c.pending) (named-remove p i c.orders c.pending e h.named))
  ]

  pub order-IsCoherent :
      (r : Request) (delay : ℕ) (cb : Option C) (c : Console C)
      → IsCoherent c
      → IsCoherent (order r delay cb c)
  unfolding order
  order-IsCoherent r delay cb c h =
      let d = drop_earlier r.provider c in
      let g = drop-IsCoherent r.provider c h in
      record {
        positive = omega arith;
        named =
            All-append _ d.pending _
              (All-mono _ _
                (λ t (n, ne).
                  lookup-assign_other r.provider t.request.provider d.next_timer d.orders
                    (λ e. ne (sym e))
                  ∙ n)
                d.pending (All-zip _ _ d.pending g.named (drop-absent r.provider c h)))
              (lookup-assign_same r.provider d.next_timer d.orders, tt);
        numbered =
            All-append _ d.pending _ (All-mono _ _ (λ t n. (n.0, omega arith)) d.pending g.numbered)
              ((g.positive, omega arith), tt);
        distinct =
            DistinctTimers-append d.pending _ g.distinct
              (All-mono _ _ (λ t n. n.1) d.pending g.numbered);
        below = λ q j e. ground (
          arith,
          string_discrete r.provider q,
          lookup-assign_same r.provider d.next_timer d.orders,
          lookup-assign_other r.provider q d.next_timer d.orders,
          g.below q j,
          e,
        );
        apart = λ p q j e f. ground (
          arith,
          string_discrete r.provider q,
          string_discrete r.provider p,
          lookup-assign_same r.provider d.next_timer d.orders,
          lookup-assign_other r.provider p d.next_timer d.orders,
          lookup-assign_other r.provider q d.next_timer d.orders,
          g.below q j,
          g.below p j,
          g.apart p q j,
          e,
          f,
        );
      }

  pub lose-IsCoherent : (c : Console C) → IsCoherent c → IsCoherent (lose_connection c)
  unfolding lose_connection
  lose-IsCoherent c h = rw (clear_all-gone c.orders c.pending h.named) (record {
    positive = h.positive;
    named = tt;
    numbered = tt;
    distinct = tt;
    below = λ p i e. cc e;
    apart = λ p q i e f. cc e;
  })

  pub reset_orders-IsCoherent :
      (p : String) (c : Console C) → IsCoherent c → IsCoherent (reset_orders p c)
  unfolding reset_orders
  reset_orders-IsCoherent p c h = elim (Option-cases (lookup p c.orders)) [
    | inr (i, e) ↦ reset-IsCoherent p i c e h
    | inl e ↦ rw e (record {
      positive = h.positive;
      named =
          All-mono _ _
            (λ t n.
              lookup-remove_other p t.request.provider c.orders
                (λ same. absent t.id (ap (λ x. lookup x c.orders) same ∙ n) e)
              ∙ n)
            c.pending h.named;
      numbered = h.numbered;
      distinct = h.distinct;
      below = λ q j f. h.below q j (stays q j f);
      apart = λ q r j f g. h.apart q r j (stays q j f) (stays r j g);
    })
  ]
    where
      absent : (i : ℕ) → lookup p c.orders ≡ some i → lookup p c.orders ≡ none → ⊥
      absent i e f = cc (e, f)

      stays :
          (q : String) (j : ℕ)
          → lookup q (remove_key p c.orders) ≡ some j
          → lookup q c.orders ≡ some j
      stays q j f = ground (
        arith,
        f,
        lookup-remove_other p q c.orders,
        lookup-remove_same p c.orders,
        string_discrete p q,
      )
