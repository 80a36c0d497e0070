-- ===== src/Layout/Popup/Stays.antt =====
-- How long a message stays (src/main/resources/web-data/js/layout.js).
use dyn_dco.Base.{
  String, ◌≡◌, ◌≢◌, if_pos, refl, sym, subst, Option, none, some, List, [], ◌∷◌, ◌++◌, Bool, true,
  false, if◌then◌else◌, string_discrete,
}
use dyn_dco.Layout.Popup.{
  Animation, slide_down, slide_up, Place, on_page, off_page, Popup, escaped_html_with_newlines,
  hide_msg, show_msg, end_animation, Passing, animation_ends, timeout, pass,
}

-- The pop-up is not on its way out.
abbrev pub all_down : List Animation → Bool
all_down [] = true
all_down (slide_down ∷ xs) = all_down xs
all_down (slide_up ∷ xs) = false

abbrev pub pass_all : List Passing → Popup → Popup
pass_all [] p = p
pass_all (e ∷ es) p = pass_all es (pass e p)

-- Where "#top" stands when no animation runs.
abbrev pub rest_at : Place → List Animation → Option Place
rest_at l [] = some l
rest_at l (x ∷ xs) = none

abbrev pub resting_place : Popup → Option Place
resting_place p = rest_at p.place p.animations

-- A message that nothing is going to hide.
record Stays (type : String) (text : String) (p : Popup) : Type 0 where
  has_message : p.texts type ≡ some text
  is_shown : p.visible ≡ some type
  going_down : all_down p.animations ≡ true
  no_timer : p.timer ≡ false
  at_rest : resting_place p ≢ some off_page

rest_at-on_page : (xs : List Animation) → rest_at on_page xs ≢ some off_page
rest_at-on_page [] e = cc e
rest_at-on_page (x ∷ xs) e = cc e

end_animation-Stays :
    {type text : String} (xs : List Animation) (p : Popup)
    → p.animations ≡ xs
    → Stays type text p
    → Stays type text (end_animation xs p)
unfolding end_animation
end_animation-Stays [] p e h = h
end_animation-Stays (slide_down ∷ xs) p e h = record {
  has_message = h.has_message;
  is_shown = h.is_shown;
  going_down = subst (λ x. all_down x ≡ true) e h.going_down;
  no_timer = h.no_timer;
  at_rest = rest_at-on_page xs;
}
end_animation-Stays (slide_up ∷ xs) p e h =
    absurd (cc (subst (λ x. all_down x ≡ true) e h.going_down))

pass-Stays :
    (type text : String) (e : Passing) (p : Popup) → Stays type text p → Stays type text (pass e p)
unfolding pass
pass-Stays type text animation_ends p h = end_animation-Stays p.animations p refl h
pass-Stays type text timeout p h =
    subst (λ b. Stays type text (if b then hide_msg false (record p { timer = false }) else p))
      (sym h.no_timer) h

pass_all-Stays :
    (type text : String) (es : List Passing) (p : Popup)
    → Stays type text p
    → Stays type text (pass_all es p)
pass_all-Stays type text [] p h = h
pass_all-Stays type text (e ∷ es) p h =
    pass_all-Stays type text es (pass e p) (pass-Stays type text e p h)

all_down-append :
    (xs : List Animation) → all_down xs ≡ true → all_down (xs ++ slide_down ∷ []) ≡ true
all_down-append [] h = refl
all_down-append (slide_down ∷ xs) h = all_down-append xs h
all_down-append (slide_up ∷ xs) h = absurd (cc h)

rest_at-append :
    (l : Place) (xs : List Animation) → rest_at l (xs ++ slide_down ∷ []) ≢ some off_page
rest_at-append l [] e = cc e
rest_at-append l (x ∷ xs) e = cc e

-- A message without a timeout that comes while the pop-up is not on its way out stays: however many
-- animations end and timers run out after it, also those of earlier messages, it is the visible one and
-- has its text, and the pop-up does not come to rest off the page.
pub show_msg-stays :
    (escape : String → String) (type msg : String) (es : List Passing) (p : Popup)
    → all_down p.animations ≡ true
    → ((pass_all es (show_msg escape type msg false p)).texts type
        ≡ some (escaped_html_with_newlines escape msg))
      × ((pass_all es (show_msg escape type msg false p)).visible ≡ some type)
      × (resting_place (pass_all es (show_msg escape type msg false p)) ≢ some off_page)
unfolding show_msg
show_msg-stays escape type msg es p h =
    let s =
      pass_all-Stays type (escaped_html_with_newlines escape msg) es
        (show_msg escape type msg false p)
        (record {
          has_message = if_pos (string_discrete type type) refl _ _;
          is_shown = refl;
          going_down = all_down-append p.animations h;
          no_timer = refl;
          at_rest = rest_at-append p.place p.animations;
        }) in
    (s.has_message, s.is_shown, s.at_rest)
