-- ===== src/Resources/Sections/Redrawn.antt =====
-- Which charts are drawn anew when a section is chosen
-- (src/main/resources/web-data/js/resources.js and util.js).
use Prim.Native.String.{◌++◌ as concat}
use Prim.Native.String.append
use Prim.Native.Char.{Char}
use dyn_dco.Base.{
  arith, ℕ, suc, ◌+◌, String, ◌≡◌, ◌≢◌, refl, sym, ◌∙◌, ap, some, List, [], ◌∷◌, ◌&&◌,
  string_discrete, contains, Option-cases, inl, inr,
}
use dyn_dco.Resources.Sections.{Layout, chart_name, update_chart, updated_charts}
use dyn_dco.Resources.Registry.{box_of}

abbrev size : String → ℕ
size String.[] = 0
size (String.◌∷◌ c s) = suc (size s)

size-concat : (s : String) → size (concat s "Chart") ≡ size s + 5
size-concat String.[] = refl
size-concat (String.◌∷◌ c s) =
    ap size (append.cons c s "Chart") ∙ ap suc (size-concat s) ∙ omega arith

longer : (c : Char) (s : String) → String.◌∷◌ c (concat s "Chart") ≢ "Chart"
longer c s e = absurd (omega (arith, ap size e, size-concat s))

-- A box of a chart is read as that chart.
chart_name-box_of : (name : String) → chart_name (box_of name) ≡ some name
chart_name-box_of String.[] = ground arith
chart_name-box_of (String.◌∷◌ c s) =
    ap chart_name (append.cons c s "Chart") ∙ ground (arith, longer c s, chart_name-box_of s)

-- And only such a box.
chart_name-some : (v n : String) → chart_name v ≡ some n → v ≡ box_of n
chart_name-some String.[] n e = absurd (cc e)
chart_name-some (String.◌∷◌ c s) n e = elim (string_discrete (String.◌∷◌ c s) "Chart") [
  | yes q ↦ let empty : n ≡ "" = ground (arith, e, q) in q ∙ ap box_of (sym empty)
  | no q ↦ elim (Option-cases (chart_name s)) [
    | inl r ↦ absurd (ground (arith, e, q, r))
    | inr (m, r) ↦
        let longer_name : n ≡ String.◌∷◌ c m = ground (arith, e, q, r) in
        ap (String.◌∷◌ c) (chart_name-some s m r)
        ∙ sym (append.cons c m "Chart")
        ∙ ap box_of (sym longer_name)
  ]
]

some_inj : {a b : String} → some a ≡ some b → a ≡ b
some_inj e = cc e

box-differs : (v name : String) → chart_name v ≢ some name → v ≢ box_of name
box-differs v name ne e = ne (ap chart_name e ∙ chart_name-box_of name)

-- When the boxes of a section are shown, the charts that are drawn anew are exactly those whose box is
-- listed for the section, and which are there and overlap the viewport.
pub contains-updated_charts :
    (l : Layout) (vs : List String) (name : String)
    → contains (updated_charts l vs) name ≡ contains vs (box_of name) && update_chart l name
contains-updated_charts l [] name = refl
contains-updated_charts l (v ∷ vs) name =
    let ih = contains-updated_charts l vs name in
    elim (Option-cases (chart_name v)) [
      | inl r ↦ ground (arith, r, ih, box-differs v name (λ q. absurd (cc (r, q))))
      | inr (n, r) ↦ elim (string_discrete n name) [
        | yes q ↦ ground (arith, r, ih, q, chart_name-some v n r ∙ ap box_of q)
        | no q ↦ ground (arith, r, ih, q, box-differs v name (λ p. q (some_inj (sym r ∙ p))))
      ]
    ]
