-- ===== src/Resources/Chart/Extremes.antt =====
-- The lowest and the highest value of an array (src/main/resources/web-data/js/linechart.js).
use dyn_dco.Base.{
  ℕ, suc, ◌-◌, ◌≤◌, arith, ◌≡◌, ◌⊎◌, refl, subst, sym, ap, ◌∙◌, Option, none, some, List, [], ◌∷◌,
  ltb, if◌then◌else◌, All, get_elem?, Bool-cases, inl, inr,
}
use dyn_dco.Resources.Chart.{Extreme, below, min_max_from, get_min_max}

-- `v` stands at index `i` of an array that begins with `k`.
abbrev Stands : ℕ → List ℕ → ℕ → ℕ → Type 0
Stands k xs i v = (k ≤ i) × (get_elem? xs (i - k) ≡ some v)

Stands-suc : (k : ℕ) (xs : List ℕ) (i v w : ℕ) → Stands (suc k) xs i v → Stands k (w ∷ xs) i v
Stands-suc k xs i v w h =
    let step : i - k ≡ suc (i - suc k) = omega (arith, h.0) in
    (omega (arith, h.0), ap (get_elem? (w ∷ xs)) step ∙ h.1)

Stands-here : (k : ℕ) (xs : List ℕ) (v : ℕ) → Stands k (v ∷ xs) k v
Stands-here k xs v =
    let here : k - k ≡ 0 = omega arith in (omega arith, ap (get_elem? (v ∷ xs)) here)

-- What the loop says of the highest value `m`, having begun with `highest`.
abbrev IsHighest : ℕ → ℕ × ℕ → List ℕ → ℕ × ℕ → Type 0
IsHighest k highest xs m =
    (highest.0 ≤ m.0) × All (λ v. v ≤ m.0) xs × ((m ≡ highest) ⊎ Stands k xs m.1 m.0)

IsHighest-step :
    (k v : ℕ) (highest : ℕ × ℕ) (rest : List ℕ) (m : ℕ × ℕ)
    → IsHighest (suc k) (if ltb highest.0 v then (v, k) else highest) rest m
    → IsHighest k highest (v ∷ rest) m
IsHighest-step k v highest rest m h = elim (Bool-cases (ltb highest.0 v)) [
  | inl e ↦
      let g : IsHighest (suc k) (v, k) rest m =
        subst (λ b. IsHighest (suc k) (if b then (v, k) else highest) rest m) e h in
      (
        ground (arith, e, g.0),
        (g.0, g.1),
        elim g.2 [
          | inl q ↦ inr (subst (λ p. Stands k (v ∷ rest) p.1 p.0) (sym q) (Stands-here k rest v))
          | inr q ↦ inr (Stands-suc k rest m.1 m.0 v q)
        ],
      )
  | inr e ↦
      let g : IsHighest (suc k) highest rest m =
        subst (λ b. IsHighest (suc k) (if b then (v, k) else highest) rest m) e h in
      (
        g.0,
        (ground (arith, e, g.0), g.1),
        elim g.2 [ inl q ↦ inl q | inr q ↦ inr (Stands-suc k rest m.1 m.0 v q) ],
      )
]

min_max-IsHighest :
    (k : ℕ) (lowest : Extreme) (highest : ℕ × ℕ) (xs : List ℕ)
    → IsHighest k highest xs (min_max_from k lowest highest xs).1
unfolding min_max_from
min_max-IsHighest k lowest highest [] = (omega arith, tt, inl refl)
min_max-IsHighest k lowest highest (v ∷ rest) =
    IsHighest-step k v highest rest _ (min_max-IsHighest (suc k) _ _ rest)

-- `<=` on numbers and Infinity.
abbrev pub AtMost : Option ℕ → Option ℕ → Type 0
AtMost m none = Unit {0}
AtMost none (some n) = ⊥
AtMost (some m) (some n) = m ≤ n

AtMost-mono : (o : Option ℕ) (v n : ℕ) → AtMost o (some v) → v ≤ n → AtMost o (some n)
AtMost-mono none v n h le = h
AtMost-mono (some m) v n h le = omega (arith, h, le)

abbrev IsLowest : ℕ → Extreme → List ℕ → Extreme → Type 0
IsLowest k lowest xs m =
    AtMost m.v lowest.v
    × All (λ v. AtMost m.v (some v)) xs
    × ((m ≡ lowest) ⊎ ((v : ℕ) × (m.v ≡ some v) × Stands k xs m.id v))

IsLowest-step :
    (k v : ℕ) (o : Option ℕ) (i : ℕ) (rest : List ℕ) (m : Extreme)
    → IsLowest
        (suc k)
        (if below v o then record { v = some v; id = k } else record { v = o; id = i })
        rest
        m
    → IsLowest k (record { v = o; id = i }) (v ∷ rest) m
IsLowest-step k v none i rest m g = (
  tt,
  (g.0, g.1),
  elim g.2 [
    | inl q ↦ inr (
      v,
      ap (λ x. x.v) q,
      subst (λ j. Stands k (v ∷ rest) j v) (sym (ap (λ x. x.id) q)) (Stands-here k rest v),
    )
    | inr (w, e, q) ↦ inr (w, e, Stands-suc k rest m.id w v q)
  ],
)
IsLowest-step k v (some n) i rest m h = elim (Bool-cases (ltb v n)) [
  | inl e ↦
      let g : IsLowest (suc k) (record { v = some v; id = k }) rest m =
        subst
          (λ b.
            IsLowest (suc k)
              (if b then record { v = some v; id = k } else record { v = some n; id = i }) rest m)
          e h in
      (
        AtMost-mono m.v v n g.0 (ground (arith, e)),
        (g.0, g.1),
        elim g.2 [
          | inl q ↦ inr (
            v,
            ap (λ x. x.v) q,
            subst (λ j. Stands k (v ∷ rest) j v) (sym (ap (λ x. x.id) q)) (Stands-here k rest v),
          )
          | inr (w, f, q) ↦ inr (w, f, Stands-suc k rest m.id w v q)
        ],
      )
  | inr e ↦
      let g : IsLowest (suc k) (record { v = some n; id = i }) rest m =
        subst
          (λ b.
            IsLowest (suc k)
              (if b then record { v = some v; id = k } else record { v = some n; id = i }) rest m)
          e h in
      (
        g.0,
        (AtMost-mono m.v n v g.0 (ground (arith, e)), g.1),
        elim g.2 [ inl q ↦ inl q | inr (w, f, q) ↦ inr (w, f, Stands-suc k rest m.id w v q) ],
      )
]

min_max-IsLowest :
    (k : ℕ) (lowest : Extreme) (highest : ℕ × ℕ) (xs : List ℕ)
    → IsLowest k lowest xs (min_max_from k lowest highest xs).0
unfolding min_max_from
min_max-IsLowest k lowest highest [] = (self lowest.v, tt, inl refl)
  where
    self : (o : Option ℕ) → AtMost o o
    self none = tt
    self (some n) = omega arith
min_max-IsLowest k lowest highest (v ∷ rest) =
    IsLowest-step k v lowest.v lowest.id rest _ (min_max-IsLowest (suc k) _ _ rest)

Stands-zero : (xs : List ℕ) (i v : ℕ) → Stands 0 xs i v → get_elem? xs i ≡ some v
Stands-zero xs i v h = let same : i - 0 ≡ i = omega arith in ap (get_elem? xs) (sym same) ∙ h.1

-- What is claimed of the lowest and the highest value of an array.
pub record IsMinMax (xs : List ℕ) (m : Extreme × (ℕ × ℕ)) : Type 0 where
  pub lowest : All (λ v. AtMost m.0.v (some v)) xs
  pub highest : All (λ v. v ≤ m.1.0) xs
  pub lowest_at : (v : ℕ) × (m.0.v ≡ some v) × (get_elem? xs m.0.id ≡ some v)
  pub highest_at : (m.1.0 ≡ 0) ⊎ (get_elem? xs m.1.1 ≡ some m.1.0)

-- For an array that is not empty `getMinMax` returns a value of the array, with its index, that is not
-- above any of them, and one that is not below any, with its index unless that value is 0.
pub get_min_max-IsMinMax : (x : ℕ) (xs : List ℕ) → IsMinMax (x ∷ xs) (get_min_max (x ∷ xs))
unfolding get_min_max
get_min_max-IsMinMax x xs =
    let lo = min_max-IsLowest 0 (record { v = none; id = 0 }) (0, 0) (x ∷ xs) in
    let hi = min_max-IsHighest 0 (record { v = none; id = 0 }) (0, 0) (x ∷ xs) in
    record {
      lowest = lo.1;
      highest = hi.1;
      lowest_at = elim lo.2 [
        | inl q ↦ absurd (subst (λ e. AtMost e (some x)) (ap (λ e. e.v) q) lo.1.0)
        | inr (v, e, s) ↦ (v, e, Stands-zero (x ∷ xs) _ v s)
      ];
      highest_at = elim hi.2 [
        | inl q ↦ inl (ap (λ p. p.0) q)
        | inr s ↦ inr (Stands-zero (x ∷ xs) _ _ s)
      ];
    }
