-- ===== src/Resources/Sections/Shown.antt =====
-- Which boxes a section shows (src/main/resources/web-data/js/resources.js).
use mathlib.Core.List.{append-nil, append_assoc}
use dyn_dco.Base.{
  arith, String, ◌≡◌, ◌≢◌, refl, sym, subst, ap, ◌∙◌, Option, none, some, List, [], ◌∷◌, ◌++◌, map,
  false, not, if◌then◌else◌, contains, keep_if,
}
use dyn_dco.Resources.Sections.{
  Box, Layout, is_id, set_hidden, hide_all, show_box, show_all, updated_charts, show_boxes,
}

-- The boxes on the page that are not hidden, in their order.
abbrev pub visible : List Box → List String
visible [] = []
visible (b ∷ bs) = let rest = visible bs in if b.hidden then rest else b.id ∷ rest

-- The ids among `vs` that are ids of boxes, in the order of `vs`, each as often as it is one.
abbrev pub ids_of : String → List Box → List String
ids_of v [] = []
ids_of v (b ∷ bs) = let rest = ids_of v bs in if is_id v b then b.id ∷ rest else rest

abbrev pub found : List String → List Box → List String
found [] bs = []
found (v ∷ vs) bs = ids_of v bs ++ found vs bs

abbrev pub Distinct : List String → Type 0
Distinct [] = Unit
Distinct (v ∷ vs) = (contains vs v ≡ false) × Distinct vs

ids_of-append : (v : String) (xs ys : List Box) → ids_of v (xs ++ ys) ≡ ids_of v xs ++ ids_of v ys
ids_of-append v [] ys = refl
ids_of-append v (x ∷ xs) ys = ground (arith, ids_of-append v xs ys)

visible-append : (xs ys : List Box) → visible (xs ++ ys) ≡ visible xs ++ visible ys
visible-append [] ys = refl
visible-append (x ∷ xs) ys = ground (arith, visible-append xs ys)

-- The boxes that move to the end, and those that do not.
visible-moved :
    (v : String) (bs : List Box)
    → visible (map (set_hidden false) (keep_if (is_id v) bs)) ≡ ids_of v bs
visible-moved v [] = refl
visible-moved v (b ∷ bs) = ground (arith, visible-moved v bs)

visible-others :
    (v : String) (bs : List Box)
    → contains (visible bs) v ≡ false
    → visible (keep_if (λ b. not (is_id v b)) bs) ≡ visible bs
visible-others v [] h = refl
visible-others v (b ∷ bs) h = ground (arith, h, visible-others v bs)

visible-hide_all : (bs : List Box) → visible (hide_all bs) ≡ []
visible-hide_all [] = refl
visible-hide_all (b ∷ bs) = visible-hide_all bs

ids_of-hide_all : (v : String) (bs : List Box) → ids_of v (hide_all bs) ≡ ids_of v bs
ids_of-hide_all v [] = refl
ids_of-hide_all v (b ∷ bs) = ground (arith, ids_of-hide_all v bs)

found-hide_all : (vs : List String) (bs : List Box) → found vs (hide_all bs) ≡ found vs bs
found-hide_all [] bs = refl
found-hide_all (v ∷ vs) bs = rw (ids_of-hide_all v bs, found-hide_all vs bs) refl

ids_of-others :
    (w v : String) (bs : List Box)
    → w ≢ v
    → ids_of w (keep_if (λ b. not (is_id v b)) bs) ≡ ids_of w bs
ids_of-others w v [] d = refl
ids_of-others w v (b ∷ bs) d = ground (arith, d, ids_of-others w v bs d)

ids_of-moved :
    (w v : String) (bs : List Box)
    → w ≢ v
    → ids_of w (map (set_hidden false) (keep_if (is_id v) bs)) ≡ []
ids_of-moved w v [] d = refl
ids_of-moved w v (b ∷ bs) d = ground (arith, d, ids_of-moved w v bs d)

ids_of-show_box : (w v : String) (bs : List Box) → w ≢ v → ids_of w (show_box v bs) ≡ ids_of w bs
ids_of-show_box w v bs d = ground (
  arith,
  ids_of-append w (keep_if (λ b. not (is_id v b)) bs)
      (map (set_hidden false) (keep_if (is_id v) bs)),
  ids_of-others w v bs d,
  ids_of-moved w v bs d,
  append-nil (ids_of w bs),
)

visible-show_box :
    (v : String) (bs : List Box)
    → contains (visible bs) v ≡ false
    → visible (show_box v bs) ≡ visible bs ++ ids_of v bs
visible-show_box v bs h =
    visible-append (keep_if (λ b. not (is_id v b)) bs)
      (map (set_hidden false) (keep_if (is_id v) bs))
    ∙ cc (visible-others v bs h, visible-moved v bs)

contains-append :
    (xs ys : List String) (w : String)
    → contains xs w ≡ false
    → contains ys w ≡ false
    → contains (xs ++ ys) w ≡ false
contains-append [] ys w h k = k
contains-append (x ∷ xs) ys w h k = ground (arith, h, k, contains-append xs ys w)

contains-ids_of : (v w : String) (bs : List Box) → w ≢ v → contains (ids_of v bs) w ≡ false
contains-ids_of v w [] d = refl
contains-ids_of v w (b ∷ bs) d = ground (arith, d, contains-ids_of v w bs d)

-- None of the ids is that of a visible box.
abbrev Hidden : List String → List Box → Type 0
Hidden [] bs = Unit
Hidden (v ∷ vs) bs = (contains (visible bs) v ≡ false) × Hidden vs bs

head-differs : (w v : String) (vs : List String) → contains (w ∷ vs) v ≡ false → w ≢ v
head-differs w v vs h = ground (arith, h)

tail-contains :
    (w v : String) (vs : List String) → contains (w ∷ vs) v ≡ false → contains vs v ≡ false
tail-contains w v vs h = ground (arith, h)

found-show_box :
    (vs : List String) (v : String) (bs : List Box)
    → contains vs v ≡ false
    → found vs (show_box v bs) ≡ found vs bs
found-show_box [] v bs h = refl
found-show_box (w ∷ vs) v bs h =
    rw
      (
        ids_of-show_box w v bs (head-differs w v vs h),
        found-show_box vs v bs (tail-contains w v vs h),
      )
      refl

Hidden-show_box :
    (vs : List String) (v : String) (bs : List Box)
    → contains vs v ≡ false
    → contains (visible bs) v ≡ false
    → Hidden vs bs
    → Hidden vs (show_box v bs)
Hidden-show_box [] v bs h k l = tt
Hidden-show_box (w ∷ vs) v bs h k l = (
  subst (λ x. contains x w ≡ false) (sym (visible-show_box v bs k))
      (contains-append (visible bs) (ids_of v bs) w l.0
        (contains-ids_of v w bs (head-differs w v vs h))),
  Hidden-show_box vs v bs (tail-contains w v vs h) k l.1,
)

visible-show_all :
    (vs : List String) (bs : List Box)
    → Distinct vs
    → Hidden vs bs
    → visible (show_all vs bs) ≡ visible bs ++ found vs bs
visible-show_all [] bs d h = sym (append-nil (visible bs))
visible-show_all (v ∷ vs) bs d h =
    visible-show_all vs (show_box v bs) d.1 (Hidden-show_box vs v bs d.0 h.0 h.1)
    ∙ cc (visible-show_box v bs h.0, found-show_box vs v bs d.0)
    ∙ append_assoc (visible bs) (ids_of v bs) (found vs bs)

nothing_visible-Hidden : (vs : List String) (bs : List Box) → visible bs ≡ [] → Hidden vs bs
nothing_visible-Hidden [] bs e = tt
nothing_visible-Hidden (v ∷ vs) bs e = (ap (λ x. contains x v) e, nothing_visible-Hidden vs bs e)

show_boxes-listed :
    (l : Layout) (s : String) (vs : List String) (bs : List Box)
    → l.resource_boxes s ≡ some vs
    → (show_boxes l s bs).0 ≡ show_all vs (hide_all bs)
unfolding show_boxes
show_boxes-listed l s vs bs e = subst (λ o. (chosen o).0 ≡ show_all vs (hide_all bs)) (sym e) refl
  where
    chosen : Option (List String) → List Box × List String
    chosen o = elim o [
      | none ↦ (hide_all bs, [])
      | some ws ↦ (show_all ws (hide_all bs), updated_charts l ws)
    ]

-- When a section is chosen whose boxes are listed once each, the visible boxes are exactly the listed
-- ones that the page has, in the order of the list, whichever were visible before.
pub visible-show_boxes :
    (l : Layout) (s : String) (vs : List String) (bs : List Box)
    → l.resource_boxes s ≡ some vs
    → Distinct vs
    → visible (show_boxes l s bs).0 ≡ found vs bs
visible-show_boxes l s vs bs e d =
    ap visible (show_boxes-listed l s vs bs e)
    ∙ visible-show_all vs (hide_all bs) d
        (nothing_visible-Hidden vs (hide_all bs) (visible-hide_all bs))
    ∙ cc (visible-hide_all bs, found-hide_all vs bs)
