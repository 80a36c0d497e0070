-- ===== src/Graph/Compact/Loop.antt =====
-- The loops of `removeVerticesFromCanvas` as they run over the indices of an array that gets shorter
-- (src/main/resources/web-data/js/graph-drawing.js).
use mathlib.Core.List.{append-nil, append_assoc}
use dyn_dco.Base.{
  ℕ, zero, suc, ◌≤◌, String, ◌≡◌, refl, sym, ◌∙◌, ap, Option, none, some, List, [], ◌∷◌, ◌++◌,
  length, get_elem?, Bool, true, false, arith, Table, update, Bool-cases, inl, inr,
}
use dyn_dco.Graph.Compact.{compact}

-- `splice(i, 1)`
abbrev pub splice : {A : Type 0} → ℕ → List A → List A
splice i [] = []
splice zero (n ∷ ns) = ns
splice (suc i) (n ∷ ns) = n ∷ splice i ns

get_elem?-append :
    {A : Type 0} (seen rest : List A) (n : A) → get_elem? (seen ++ n ∷ rest) (length seen) ≡ some n
get_elem?-append [] rest n = refl
get_elem?-append (m ∷ seen) rest n = get_elem?-append seen rest n

get_elem?-end : {A : Type 0} (seen : List A) → get_elem? seen (length seen) ≡ none
get_elem?-end [] = refl
get_elem?-end (m ∷ seen) = get_elem?-end seen

splice-append :
    {A : Type 0} (seen rest : List A) (n : A)
    → splice (length seen) (seen ++ n ∷ rest) ≡ seen ++ rest
splice-append [] rest n = refl
splice-append (m ∷ seen) rest n = ap (m ∷◌) (splice-append seen rest n)

length-snoc : {A : Type 0} (seen : List A) (n : A) → length (seen ++ n ∷ []) ≡ suc (length seen)
length-snoc [] n = refl
length-snoc (m ∷ seen) n = ap suc (length-snoc seen n)

module _ {A : Type 0} (key : A → String) (gone : A → Bool) where
  -- `for (var i = …; i < ns.length; i++)`, with a splice and a step back for what goes; `none` if it has
  -- not come to its end after so many rounds.
  unfoldable pub remove_loop : ℕ → ℕ → List A → Table ℕ → Option (List A × Table ℕ)
  remove_loop zero i ns refs = elim (get_elem? ns i) [ none ↦ some (ns, refs) | some n ↦ none ]
  remove_loop (suc fuel) i ns refs = elim (get_elem? ns i) [
    | none ↦ some (ns, refs)
    | some n ↦ elim (gone n) [
      | true ↦ remove_loop fuel i (splice i ns) (update refs (key n) none)
      | false ↦ remove_loop fuel (suc i) ns (update refs (key n) (some i))
    ]
  ]

  -- One round.
  loop-ends :
      (fuel i : ℕ) (ns : List A) (refs : Table ℕ)
      → get_elem? ns i ≡ none
      → remove_loop fuel i ns refs ≡ some (ns, refs)
  unfolding remove_loop
  loop-ends zero i ns refs e = rw (e, remove_loop) refl
  loop-ends (suc fuel) i ns refs e = rw (e, remove_loop) refl

  loop-removes :
      (fuel i : ℕ) (ns : List A) (refs : Table ℕ) (n : A)
      → get_elem? ns i ≡ some n
      → gone n ≡ true
      → remove_loop (suc fuel) i ns refs
        ≡ remove_loop fuel i (splice i ns) (update refs (key n) none)
  unfolding remove_loop
  loop-removes fuel i ns refs n e g = rw (e, g, remove_loop) refl

  loop-keeps :
      (fuel i : ℕ) (ns : List A) (refs : Table ℕ) (n : A)
      → get_elem? ns i ≡ some n
      → gone n ≡ false
      → remove_loop (suc fuel) i ns refs
        ≡ remove_loop fuel (suc i) ns (update refs (key n) (some i))
  unfolding remove_loop
  loop-keeps fuel i ns refs n e g = rw (e, g, remove_loop) refl

  compact-removes :
      (i : ℕ) (n : A) (rest : List A) (refs : Table ℕ)
      → gone n ≡ true
      → compact key gone i (n ∷ rest) refs ≡ compact key gone i rest (update refs (key n) none)
  unfolding compact
  compact-removes i n rest refs g = rw (g, compact) refl

  abbrev behind : List A → List A × Table ℕ → List A × Table ℕ
  behind seen r = (seen ++ r.0, r.1)

  compact-keeps :
      (i : ℕ) (n : A) (rest : List A) (refs : Table ℕ)
      → gone n ≡ false
      → compact key gone i (n ∷ rest) refs
        ≡ behind (n ∷ []) (compact key gone (suc i) rest (update refs (key n) (some i)))
  unfolding compact
  compact-keeps i n rest refs g = rw (g, compact) refl

  remove_loop-behind :
      (rest seen : List A) (refs : Table ℕ) (fuel : ℕ)
      → length rest ≤ fuel
      → remove_loop fuel (length seen) (seen ++ rest) refs
        ≡ some (behind seen (compact key gone (length seen) rest refs))
  unfolding compact
  remove_loop-behind [] seen refs fuel h =
      loop-ends fuel (length seen) (seen ++ []) refs
        (ap (λ ns. get_elem? ns (length seen)) (append-nil seen) ∙ get_elem?-end seen)
  remove_loop-behind (n ∷ rest) seen refs zero h = absurd (omega (arith, h))
  remove_loop-behind (n ∷ rest) seen refs (suc fuel) h = elim (Bool-cases (gone n)) [
    | inl g ↦
        loop-removes fuel (length seen) (seen ++ n ∷ rest) refs n (get_elem?-append seen rest n) g
        ∙ ap (λ ns. remove_loop fuel (length seen) ns (update refs (key n) none))
            (splice-append seen rest n)
        ∙ remove_loop-behind rest seen (update refs (key n) none) fuel (omega (arith, h))
        ∙ ap (λ r. some (behind seen r)) (sym (compact-removes (length seen) n rest refs g))
    | inr g ↦
        let longer : length (seen ++ n ∷ []) ≡ suc (length seen) = length-snoc seen n in
        let more = update refs (key n) (some (length seen)) in
        loop-keeps fuel (length seen) (seen ++ n ∷ rest) refs n (get_elem?-append seen rest n) g
        ∙ rw (longer, append_assoc seen (n ∷ []) rest) refl
        ∙ remove_loop-behind rest (seen ++ n ∷ []) more fuel (omega (arith, h))
        ∙ ap (λ k. some (behind (seen ++ n ∷ []) (compact key gone k rest more))) longer
        ∙ ap (λ ns. some (ns, (compact key gone (suc (length seen)) rest more).1))
            (append_assoc seen (n ∷ []) (compact key gone (suc (length seen)) rest more).0)
        ∙ ap (λ r. some (behind seen r)) (sym (compact-keeps (length seen) n rest refs g))
  ]

  -- The loop comes to its end after at most as many rounds as the array is long, although its index steps
  -- back after every removal, and leaves what the recursion over the list gives.
  pub remove_loop-compact :
      (ns : List A) (refs : Table ℕ) (fuel : ℕ)
      → length ns ≤ fuel
      → remove_loop fuel 0 ns refs ≡ some (compact key gone 0 ns refs)
  remove_loop-compact ns refs fuel h = remove_loop-behind ns [] refs fuel h
