-- ===== src/BreakConditions/Conditions.antt =====
-- The list of conditions (src/main/resources/web-data/js/breakconditions.js).
use Prim.Native.String.{◌++◌ as concat}
use dyn_dco.Base.{
  ℕ, zero, suc, ◌-◌, ◌≤◌, arith, String, ◌≡◌, Option, none, some, List, [], ◌∷◌, ◌++◌, map, Bool,
  true, false, ltb, if◌then◌else◌, ite, string_discrete, contains, lookup, Bool-cases, inl, inr,
}
use dyn_dco.BreakConditions.Names.{state_changes, state_names, signal_names, collect_names}

-- A condition of the server; the properties that its type does not have are empty.
pub record Condition : Type 0 where
  pub id : String
  pub name : String
  pub vertex_id : String
  pub expected_state : String
  pub current_state : String
  pub signal_threshold : String
  pub collect_threshold : String

-- A message of provider "breakconditions".
pub record Incoming : Type 0 where
  pub active : List Condition
  pub reached : List (String × String)
  pub status : String
  pub error : Option String

-- A row of the list on the page.
pub record Row : Type 0 where
  pub id : String
  pub is_reached : Bool
  pub title : String
  pub link : String
  pub text : String
  pub goal : Option String

pub data Line : Type 0 where
  no_conditions no_execution invalid_id invalid_state new_condition : Line
  unknown_error : String → Line
  condition : Row → Line

abbrev text_length : String → ℕ
text_length String.[] = 0
text_length (String.◌∷◌ c s) = suc (text_length s)

abbrev text_drop : ℕ → String → String
text_drop zero s = s
text_drop (suc n) String.[] = String.[]
text_drop (suc n) (String.◌∷◌ c s) = text_drop n s

abbrev text_take : ℕ → String → String
text_take zero s = String.[]
text_take (suc n) String.[] = String.[]
text_take (suc n) (String.◌∷◌ c s) = String.◌∷◌ c (text_take n s)

-- A long id loses its beginning: the last 32 characters stay.
unfoldable pub shorten_id : String → String
shorten_id s = if ltb 30 (text_length s) then text_drop (text_length s - 32) s else s

-- A long goal loses its end.
unfoldable pub shorten_goal : String → String
shorten_goal s = if ltb 15 (text_length s) then concat (text_take 12 s) "..." else s

-- What stands behind the name of a condition.
unfoldable pub detail : Condition → String
detail c =
    if contains state_names c.name
    then concat " " c.expected_state
    else (if contains (state_changes ∷ []) c.name
        then concat " from " c.current_state
        else (if contains signal_names c.name
            then concat " " c.signal_threshold
            else (if contains collect_names c.name then concat " " c.collect_threshold else "")))

unfoldable pub row : List (String × String) → Condition → Row
row reached c = record {
  id = c.id;
  is_reached = elim (lookup c.id reached) [ none ↦ false | some g ↦ true ];
  title = c.vertex_id;
  link = concat "..." (shorten_id c.vertex_id);
  text = concat c.name (detail c);
  goal = elim (lookup c.id reached) [ none ↦ none | some g ↦ some (shorten_goal g) ];
}

abbrev starts_with : String → String → Bool
starts_with String.[] s = true
starts_with (String.◌∷◌ c t) String.[] = false
starts_with (String.◌∷◌ c t) (String.◌∷◌ d s) =
    let rest = starts_with t s in
    ite (string_discrete (String.◌∷◌ c String.[]) (String.◌∷◌ d String.[])) rest false

-- `s.indexOf(t) != -1`
abbrev pub has_text : String → String → Bool
has_text t String.[] = starts_with t ""
has_text t (String.◌∷◌ c s) =
    let rest = has_text t s in if starts_with t (String.◌∷◌ c s) then true else rest

unfoldable pub error_line : String → Line
error_line e =
    if has_text "Missing or invalid vertexId" e
    then invalid_id
    else (if has_text "Invalid state" e then invalid_state else unknown_error e)

abbrev placeholder : List Condition → List Line
placeholder [] = no_conditions ∷ []
placeholder (c ∷ cs) = []

-- `onmessage`: the new list, and whether the conditions are ordered again after a second.
unfoldable pub on_message : Incoming → List Line × Bool
on_message j =
    let lines = placeholder j.active ++ map (λ c. condition (row j.reached c)) j.active in
    ite (string_discrete j.status "noExecution") (lines ++ no_execution ∷ [], true)
      (elim j.error [ none ↦ (lines, false) | some e ↦ (lines ++ error_line e ∷ [], false) ])

text_drop-length : (n : ℕ) (s : String) → text_length (text_drop n s) ≡ text_length s - n
text_drop-length zero s = omega arith
text_drop-length (suc n) String.[] = omega arith
text_drop-length (suc n) (String.◌∷◌ c s) = omega (arith, text_drop-length n s)

-- No id that is shown is longer than 32 characters.
shorten_id-Short : (s : String) → text_length (shorten_id s) ≤ 32
unfolding shorten_id
shorten_id-Short s = elim (Bool-cases (ltb 30 (text_length s))) [
  | inl e ↦ rw e (omega (arith, text_drop-length (text_length s - 32) s))
  | inr e ↦ rw e (ground (arith, e))
]
