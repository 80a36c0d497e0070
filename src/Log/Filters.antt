-- ===== src/Log/Filters.antt =====
-- The filters by level and by source (src/main/resources/web-data/js/resources-log.js).
use dyn_dco.Base.{
  arith, ℕ, zero, suc, ◌-◌, ◌≡◌, refl, none, some, Option, List, [], ◌∷◌, ◌++◌, map, Bool, not,
  if◌then◌else◌, ltb, Bool-cases, inl, inr, All, All-append,
}
use dyn_dco.Log.Types.{Level, Source, Message, Item, Log, same_level, same_source}
use dyn_dco.Log.Fragments.{item, bump_last, repeats, collect}
use dyn_dco.Log.Box.{count_debug, drop_debug, is_debug, max_debug, trim, on_message}

-- The click on a level: its button, and the entries of the level.
unfoldable pub toggle_level : Level → Log → Log
toggle_level v log = record log {
  active_level = λ w. if same_level w v then not (log.active_level w) else log.active_level w;
  items =
      map
        (λ x.
          if same_level x.message.level v
          then record x { hidden_level = not x.hidden_level }
          else x)
        log.items;
}

unfoldable pub toggle_source : Source → Log → Log
toggle_source v log = record log {
  active_source = λ w. if same_source w v then not (log.active_source w) else log.active_source w;
  items =
      map
        (λ x.
          if same_source x.message.source v
          then record x { hidden_source = not x.hidden_source }
          else x)
        log.items;
}

-- An entry is hidden by a filter if and only if the filter is off for it.
abbrev pub Agrees : (Level → Bool) → (Source → Bool) → Item → Type 0
Agrees levels sources x =
    (x.hidden_level ≡ not (levels x.message.level))
    × (x.hidden_source ≡ not (sources x.message.source))

abbrev pub IsFiltered : Log → Type 0
IsFiltered log = All (Agrees log.active_level log.active_source) log.items

All-bump_last :
    (levels : Level → Bool) (sources : Source → Bool) (xs : List Item)
    → All (Agrees levels sources) xs
    → All (Agrees levels sources) (bump_last xs)
All-bump_last levels sources [] h = h
All-bump_last levels sources (x ∷ []) h = h
All-bump_last levels sources (x ∷ y ∷ rest) h = (h.0, All-bump_last levels sources (y ∷ rest) h.1)

collect-Agrees :
    (log : Log) (latest : Option Message) (xs : List Item) (ms : List Message)
    → All (Agrees log.active_level log.active_source) xs
    → All (Agrees log.active_level log.active_source) (collect log latest xs ms)
unfolding collect
collect-Agrees log latest xs [] h = h
collect-Agrees log latest xs (m ∷ ms) h = elim (Bool-cases (repeats latest m)) [
  | inl e ↦
      rw (e, collect)
        (collect-Agrees log latest (bump_last xs) ms
          (All-bump_last log.active_level log.active_source xs h))
  | inr e ↦
      rw (e, collect)
        (collect-Agrees log (some m) (xs ++ item log m ∷ []) ms
          (All-append _ xs (item log m ∷ []) h ((refl, refl), tt)))
]

All-drop_debug : (P : Item → Type 0) (n : ℕ) (xs : List Item) → All P xs → All P (drop_debug n xs)
All-drop_debug P zero xs h = h
All-drop_debug P (suc n) [] h = tt
All-drop_debug P (suc n) (x ∷ xs) h = elim (Bool-cases (is_debug x)) [
  | inl e ↦ rw e (All-drop_debug P n xs h.1)
  | inr e ↦ rw e (h.0, All-drop_debug P (suc n) xs h.1)
]

on_message-IsFiltered :
    (ms : List Message) (log : Log) → IsFiltered log → IsFiltered (on_message ms log)
unfolding on_message trim
on_message-IsFiltered ms log h =
    let xs = log.items ++ collect log none [] ms in
    let all : All (Agrees log.active_level log.active_source) xs =
      All-append _ log.items (collect log none [] ms) h (collect-Agrees log none [] ms tt) in
    elim (Bool-cases (ltb max_debug (count_debug xs))) [
      | inl e ↦ rw e (All-drop_debug _ (count_debug xs - max_debug) xs all)
      | inr e ↦ rw e all
    ]

toggled_level :
    (v : Level) (levels : Level → Bool) (sources : Source → Bool) (xs : List Item)
    → All (Agrees levels sources) xs
    → All (Agrees (λ w. if same_level w v then not (levels w) else levels w) sources) (
        map
          (λ x.
            if same_level x.message.level v
            then record x { hidden_level = not x.hidden_level }
            else x)
          xs)
toggled_level v levels sources [] h = tt
toggled_level v levels sources (x ∷ xs) h = (one, toggled_level v levels sources xs h.1)
  where
    one :
        Agrees
          (λ w. if same_level w v then not (levels w) else levels w)
          sources
          (if same_level x.message.level v
            then record x { hidden_level = not x.hidden_level }
            else x)
    one = ground (arith, h.0.0, h.0.1)

toggled_source :
    (v : Source) (levels : Level → Bool) (sources : Source → Bool) (xs : List Item)
    → All (Agrees levels sources) xs
    → All (Agrees levels (λ w. if same_source w v then not (sources w) else sources w)) (
        map
          (λ x.
            if same_source x.message.source v
            then record x { hidden_source = not x.hidden_source }
            else x)
          xs)
toggled_source v levels sources [] h = tt
toggled_source v levels sources (x ∷ xs) h = (one, toggled_source v levels sources xs h.1)
  where
    one :
        Agrees levels
          (λ w. if same_source w v then not (sources w) else sources w)
          (if same_source x.message.source v
            then record x { hidden_source = not x.hidden_source }
            else x)
    one = ground (arith, h.0.0, h.0.1)

toggle_level-IsFiltered : (v : Level) (log : Log) → IsFiltered log → IsFiltered (toggle_level v log)
unfolding toggle_level
toggle_level-IsFiltered v log h = toggled_level v log.active_level log.active_source log.items h

toggle_source-IsFiltered :
    (v : Source) (log : Log) → IsFiltered log → IsFiltered (toggle_source v log)
unfolding toggle_source
toggle_source-IsFiltered v log h = toggled_source v log.active_level log.active_source log.items h

-- What the server and the user do to the list.
pub data Step : Log → Log → Type 0 where
  receiving : (log : Log) (ms : List Message) → Step log (on_message ms log)
  filtering_level : (log : Log) (v : Level) → Step log (toggle_level v log)
  filtering_source : (log : Log) (v : Source) → Step log (toggle_source v log)

pub data Reach (s : Log) : Log → Type 0 where
  here : Reach s s
  next : {a b : Log} → Reach s a → Step a b → Reach s b

Step-IsFiltered : {a b : Log} → Step a b → IsFiltered a → IsFiltered b
Step-IsFiltered (receiving log ms) h = on_message-IsFiltered ms log h
Step-IsFiltered (filtering_level log v) h = toggle_level-IsFiltered v log h
Step-IsFiltered (filtering_source log v) h = toggle_source-IsFiltered v log h

-- In whatever order messages come and filters are clicked: if at first every entry is hidden exactly
-- when the filter of its level, or of its source, is off, then so it is afterwards.
pub Reach-IsFiltered : {a b : Log} → IsFiltered a → Reach a b → IsFiltered b
Reach-IsFiltered h here = h
Reach-IsFiltered h (next r st) = Step-IsFiltered st (Reach-IsFiltered h r)
