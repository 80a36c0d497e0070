-- ===== src/Layout/Examples.antt =====
-- A page whose section is closed, and a message on it (src/main/resources/web-data/js/layout.js).
use dyn_dco.Base.{String, ◌≡◌, ◌≢◌, refl, none, some, List, [], ◌∷◌, true, false, no_entries}
use dyn_dco.Layout.Panel.{graph, resources, Page, layout, click_tab, click_title}
use dyn_dco.Layout.Panel.Restored.{Step, Reach, SameLayout, layout-Restored}
use dyn_dco.Layout.Popup.{
  slide_down, off_page, Popup, escaped_html_with_newlines, show_msg, animation_ends, timeout,
}
use dyn_dco.Layout.Popup.Stays.{pass_all, resting_place, show_msg-stays}

abbrev main_html : Page
main_html = record {
  offered = λ v. false;
  selected = λ v. false;
  shown = λ v. false;
  panel_shown = λ v. false;
  sections = λ v id. record { expanded = true; shown = true };
  saved = record { view = "graph"; layout = λ v. no_entries };
}

abbrev both : List String
both = "graph" ∷ "resources" ∷ []

abbrev closed : Page
closed = click_title graph "gc" (layout both main_html)

abbrev clicked : Page
clicked = click_tab resources closed

layout-Restored_example :
    SameLayout (layout both (record main_html { saved = clicked.saved })) clicked
layout-Restored_example =
    layout-Restored both main_html clicked (λ v. refl)
      (Reach.next (Reach.next Reach.here (Step.title graph "gc" (layout both main_html)))
        (Step.tab resources closed))

abbrev hidden_popup : Popup
hidden_popup = record {
  texts = no_entries;
  visible = none;
  place = off_page;
  animations = slide_down ∷ [];
  timer = true;
}

abbrev lost : Popup
lost =
    pass_all (timeout ∷ animation_ends ∷ animation_ends ∷ [])
      (show_msg (λ s. s) "#error" "Connection Lost" false hidden_popup)

show_msg-stays_example :
    (lost.texts "#error" ≡ some (escaped_html_with_newlines (λ s. s) "Connection Lost"))
    × (lost.visible ≡ some "#error")
    × (resting_place lost ≢ some off_page)
show_msg-stays_example =
    show_msg-stays (λ s. s) "#error" "Connection Lost"
      (timeout ∷ animation_ends ∷ animation_ends ∷ []) hidden_popup refl
