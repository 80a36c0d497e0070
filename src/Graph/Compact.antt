-- ===== src/Graph/Compact.antt =====
-- The two loops of `removeVerticesFromCanvas`, over vertices and over edges, have one shape: an
-- object that goes loses its entry in the lookup table, and one that stays gets its new index
-- (src/main/resources/web-data/js/graph-drawing.js).
pub mod Loop
use dyn_dco.Base.{
  ℕ, suc, String, ◌≡◌, refl, none, some, List, [], ◌∷◌, map, Bool, true, false, not, arith, ite,
  string_discrete, Table, update, keep_if, contains, if◌then◌else◌,
}
use dyn_dco.Graph.Index.{position_from, position-absent, IsIndex, Distinct}

module _ {A : Type 0} (key : A → String) (gone : A → Bool) where
  -- `splice` at index `i`, or the entry `refs[key] = i`
  unfoldable pub compact : ℕ → List A → Table ℕ → List A × Table ℕ
  compact i [] refs = ([], refs)
  compact i (n ∷ rest) refs = elim (gone n) [
    | true ↦ compact i rest (update refs (key n) none)
    | false ↦
        let (kept, refs') = compact (suc i) rest (update refs (key n) (some i)) in (n ∷ kept, refs')
  ]

  abbrev pub staying : List A → List A
  staying = keep_if (λ n. not (gone n))

  pub compact-staying : (i : ℕ) (ns : List A) (refs : Table ℕ) → (compact i ns refs).0 ≡ staying ns
  unfolding compact
  compact-staying i [] refs = refl
  compact-staying i (n ∷ rest) refs = ground (
    arith,
    compact-staying i rest (λ j. ite (string_discrete (key n) j) none (refs j)),
    compact-staying (suc i) rest (λ j. ite (string_discrete (key n) j) (some i) (refs j)),
  )

  -- An id that is not in the list is not in a part of it.
  contains-staying :
      (k : String) (ns : List A)
      → contains (map key ns) k ≡ false
      → contains (map key (staying ns)) k ≡ false
  contains-staying k [] h = refl
  contains-staying k (n ∷ ns) h = ground (arith, contains-staying k ns)

  pub Distinct-staying : (ns : List A) → Distinct (map key ns) → Distinct (map key (staying ns))
  Distinct-staying [] d = tt
  Distinct-staying (n ∷ ns) d = ground (arith, contains-staying (key n) ns, Distinct-staying ns d.1)

  -- Every id of the list gets its new place, or none; the entries of other ids stay.
  compact-refs :
      (i : ℕ) (ns : List A) (refs : Table ℕ) (k : String)
      → Distinct (map key ns)
      → (compact i ns refs).1 k
        ≡ (if contains (map key ns) k then position_from i k (map key (staying ns)) else refs k)
  unfolding compact
  compact-refs i [] refs k d = refl
  compact-refs i (n ∷ rest) refs k d = ground (
    arith,
    compact-refs i rest (λ j. ite (string_discrete (key n) j) none (refs j)) k d.1,
    compact-refs (suc i) rest (λ j. ite (string_discrete (key n) j) (some i) (refs j)) k d.1,
    contains-staying k rest,
    position-absent i k (map key (staying rest)),
    position-absent (suc i) k (map key (staying rest)),
  )

  -- So the table is the index of what is left, also if it had lost entries before.
  pub compact-IsIndex :
      (ns : List A) (refs : Table ℕ)
      → Distinct (map key ns)
      → ((k : String) → contains (map key ns) k ≡ false → refs k ≡ none)
      → IsIndex (compact 0 ns refs).1 (map key (staying ns))
  compact-IsIndex ns refs d absent k = ground (
    arith,
    compact-refs 0 ns refs k d,
    absent k,
    contains-staying k ns,
    position-absent 0 k (map key (staying ns)),
  )
