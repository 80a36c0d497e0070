-- ===== src/Log/Box.antt =====
-- The handler of log messages, and how many debug messages the list keeps
-- (src/main/resources/web-data/js/resources-log.js).
use dyn_dco.Base.{
  ℕ, zero, suc, ◌+◌, ◌-◌, ◌≤◌, arith, ◌≡◌, refl, none, List, [], ◌∷◌, ◌++◌, Bool, not,
  if◌then◌else◌, ltb, Bool-cases, inl, inr, keep_if,
}
use dyn_dco.Log.Types.{Level, debug, Message, Item, Log, same_level}
use dyn_dco.Log.Fragments.{collect}

-- `box.find('li.level_debug')`
abbrev pub is_debug : Item → Bool
is_debug x = same_level x.message.level debug

abbrev pub count_debug : List Item → ℕ
count_debug [] = 0
count_debug (x ∷ xs) = let rest = count_debug xs in if is_debug x then suc rest else rest

-- `debugMessages.slice(0, n).remove()`
abbrev pub drop_debug : ℕ → List Item → List Item
drop_debug zero xs = xs
drop_debug (suc n) [] = []
drop_debug (suc n) (x ∷ xs) =
    let fewer = drop_debug n xs in
    let same = drop_debug (suc n) xs in if is_debug x then fewer else x ∷ same

abbrev pub max_debug : ℕ
max_debug = 100

unfoldable pub trim : List Item → List Item
trim xs = let n = count_debug xs in if ltb max_debug n then drop_debug (n - max_debug) xs else xs

-- `logMessagesPerLevel[json.level] += 1` for each message.
abbrev pub count_level : Level → List Message → ℕ
count_level v [] = 0
count_level v (m ∷ ms) =
    let rest = count_level v ms in if same_level m.level v then suc rest else rest

unfoldable pub on_message : List Message → Log → Log
on_message ms log = record log {
  items = trim (log.items ++ collect log none [] ms);
  counts = λ v. log.counts v + count_level v ms;
}

drop_debug-count : (n : ℕ) (xs : List Item) → count_debug (drop_debug n xs) ≡ count_debug xs - n
drop_debug-count zero xs = omega arith
drop_debug-count (suc n) [] = omega arith
drop_debug-count (suc n) (x ∷ xs) =
    ground (arith, drop_debug-count n xs, drop_debug-count (suc n) xs)

drop_debug-others :
    (n : ℕ) (xs : List Item)
    → keep_if (λ x. not (is_debug x)) (drop_debug n xs) ≡ keep_if (λ x. not (is_debug x)) xs
drop_debug-others zero xs = refl
drop_debug-others (suc n) [] = refl
drop_debug-others (suc n) (x ∷ xs) =
    ground (arith, drop_debug-others n xs, drop_debug-others (suc n) xs)

-- After log messages the list has at most 100 debug messages, and no entry of another level was
-- removed or reordered for that.
pub on_message-FewDebug :
    (ms : List Message) (log : Log)
    → (count_debug (on_message ms log).items ≤ 100)
      × (keep_if (λ x. not (is_debug x)) (on_message ms log).items
          ≡ keep_if (λ x. not (is_debug x)) (log.items ++ collect log none [] ms))
unfolding on_message trim
on_message-FewDebug ms log =
    let xs = log.items ++ collect log none [] ms in
    elim (Bool-cases (ltb max_debug (count_debug xs))) [
      | inl e ↦ rw e (
        omega (arith, drop_debug-count (count_debug xs - 100) xs),
        drop_debug-others (count_debug xs - 100) xs,
      )
      | inr e ↦ rw e (ground (arith, e), refl)
    ]
