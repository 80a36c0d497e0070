-- ===== src/Layout/Popup.antt =====
-- The pop-up for messages at the top of the page (src/main/resources/web-data/js/layout.js).
pub mod Stays
use Prim.Native.Char.{Char, code}
use Prim.Native.String.{◌++◌ as concat}
use dyn_dco.Base.{
  String, ◌==◌, Option, none, some, List, [], ◌∷◌, ◌++◌, map, Bool, true, false, if◌then◌else◌,
  Table, update, no_entries,
}

pub data Animation : Type 0 where
  slide_down slide_up : Animation

pub data Place : Type 0 where
  off_page on_page : Place

-- The elements of class "msg" by their selector: the texts in them, and the one that is not hidden.
-- `animations` are those of "#top" in their order, of which the first is running, and `place` is where
-- it stands when none is; `timer` is whether `hidingTimeout` is going to call `hideMsg`.
pub record Popup : Type 0 where
  pub texts : Table String
  pub visible : Option String
  pub place : Place
  pub animations : List Animation
  pub timer : Bool

abbrev onto : Char → List String → List String
onto c [] = String.◌∷◌ c String.[] ∷ []
onto c (l ∷ ls) = String.◌∷◌ c l ∷ ls

-- `text.split(/\n/)`
abbrev pub lines : String → List String
lines String.[] = String.[] ∷ []
lines (String.◌∷◌ c s) =
    let rest = lines s in if code c == 10 then String.[] ∷ rest else onto c rest

-- `htmls.join("<br>")`
abbrev pub join : List String → String
join [] = ""
join (l ∷ []) = l
join (l ∷ k ∷ ls) = concat l (concat "<br>" (join (k ∷ ls)))

-- `escapedHtmlWithNewlines`; `escape` is how the browser writes a text as HTML.
unfoldable pub escaped_html_with_newlines : (String → String) → String → String
escaped_html_with_newlines escape text = join (map escape (lines text))

-- `.stop()` ends the running animation, and the next one begins.
abbrev pub stop : List Animation → List Animation
stop [] = []
stop (a ∷ xs) = xs

-- `hideMsg`
unfoldable pub hide_msg : Bool → Popup → Popup
hide_msg true p = record p { place = off_page; texts = no_entries }
hide_msg false p = record p { animations = stop p.animations ++ slide_up ∷ [] }

-- `showMsg`
unfoldable pub show_msg : (String → String) → String → String → Bool → Popup → Popup
show_msg escape type msg with_timeout p = record p {
  texts = update p.texts type (some (escaped_html_with_newlines escape msg));
  visible = some type;
  animations = p.animations ++ slide_down ∷ [];
  timer = with_timeout;
}

-- The running animation ends; that of `hideMsg` empties the messages then.
unfoldable pub end_animation : List Animation → Popup → Popup
end_animation [] p = p
end_animation (slide_down ∷ xs) p = record p { animations = xs; place = on_page }
end_animation (slide_up ∷ xs) p = record p { animations = xs; place = off_page; texts = no_entries }

-- What happens to the pop-up when time passes.
pub data Passing : Type 0 where
  animation_ends timeout : Passing

unfoldable pub pass : Passing → Popup → Popup
pass animation_ends p = end_animation p.animations p
pass timeout p = if p.timer then hide_msg false (record p { timer = false }) else p
