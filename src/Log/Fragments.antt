-- ===== src/Log/Fragments.antt =====
-- Messages that follow each other and say the same become one entry
-- (src/main/resources/web-data/js/resources-log.js).
use mathlib.Core.List.{append-nil, append_assoc}
use dyn_dco.Base.{
  ℕ, zero, suc, ◌≡◌, refl, sym, ap, ◌∙◌, Option, none, some, List, [], ◌∷◌, ◌++◌, map, Bool, false,
  not, if◌then◌else◌, Bool-cases, inl, inr,
}
use dyn_dco.Log.Types.{Message, Item, Log, Key, key, same_entry, same_entry-Eq}

abbrev pub item : Log → Message → Item
item log m = record {
  message = m;
  occurrences = 1;
  hidden_level = not (log.active_level m.level);
  hidden_source = not (log.active_source m.source);
}

-- `fragments[fragments.length-1].occurrences += 1`
abbrev pub bump_last : List Item → List Item
bump_last [] = []
bump_last (x ∷ []) = record x { occurrences = suc x.occurrences } ∷ []
bump_last (x ∷ y ∷ rest) = x ∷ bump_last (y ∷ rest)

abbrev pub repeats : Option Message → Message → Bool
repeats none m = false
repeats (some latest) m = same_entry latest m

-- The loop over the messages.
unfoldable pub collect : Log → Option Message → List Item → List Message → List Item
collect log latest fragments [] = fragments
collect log latest fragments (m ∷ ms) =
    if repeats latest m
    then collect log latest (bump_last fragments) ms
    else collect log (some m) (fragments ++ item log m ∷ []) ms

abbrev replicate : ℕ → Key → List Key
replicate zero k = []
replicate (suc n) k = k ∷ replicate n k

-- What a list of entries says, each as often as it occurred.
abbrev pub said : List Item → List Key
said [] = []
said (x ∷ xs) = replicate x.occurrences (key x.message) ++ said xs

said-append : (xs ys : List Item) → said (xs ++ ys) ≡ said xs ++ said ys
said-append [] ys = refl
said-append (x ∷ xs) ys =
    ap (replicate x.occurrences (key x.message) ++◌) (said-append xs ys)
    ∙ sym (append_assoc (replicate x.occurrences (key x.message)) (said xs) (said ys))

replicate-snoc : (n : ℕ) (k : Key) → replicate (suc n) k ≡ replicate n k ++ k ∷ []
replicate-snoc zero k = refl
replicate-snoc (suc n) k = ap (k ∷◌) (replicate-snoc n k)

abbrev bump : Item → Item
bump x = record x { occurrences = suc x.occurrences }

bump_last-append : (xs : List Item) (x : Item) → bump_last (xs ++ x ∷ []) ≡ xs ++ bump x ∷ []
bump_last-append [] x = refl
bump_last-append (y ∷ []) x = refl
bump_last-append (y ∷ z ∷ rest) x = ap (y ∷◌) (bump_last-append (z ∷ rest) x)

said-bump :
    (xs : List Item) (x : Item)
    → said (xs ++ bump x ∷ []) ≡ said (xs ++ x ∷ []) ++ key x.message ∷ []
said-bump xs x =
    let k = key x.message in
    said-append xs (bump x ∷ [])
    ∙ ap (said xs ++◌) (
        append-nil (replicate (suc x.occurrences) k)
        ∙ replicate-snoc x.occurrences k
        ∙ ap (λ ks. ks ++ k ∷ []) (sym (append-nil (replicate x.occurrences k))))
    ∙ sym (append_assoc (said xs) (replicate x.occurrences k ++ []) (k ∷ []))
    ∙ ap (λ ks. ks ++ k ∷ []) (sym (said-append xs (x ∷ [])))

collect-said :
    (log : Log) (l : Message) (xs : List Item) (x : Item) (ms : List Message)
    → key x.message ≡ key l
    → said (collect log (some l) (xs ++ x ∷ []) ms) ≡ said (xs ++ x ∷ []) ++ map key ms
unfolding collect
collect-said log l xs x [] e = sym (append-nil (said (xs ++ x ∷ [])))
collect-said log l xs x (m ∷ ms) e = elim (Bool-cases (same_entry l m)) [
  | inl s ↦
      let same : key x.message ≡ key m = e ∙ same_entry-Eq l m s in
      rw (s, collect)
        (ap (λ fs. said (collect log (some l) fs ms)) (bump_last-append xs x)
          ∙ collect-said log l xs (bump x) ms e
          ∙ ap (λ ks. ks ++ map key ms) (said-bump xs x)
          ∙ append_assoc (said (xs ++ x ∷ [])) (key x.message ∷ []) (map key ms)
          ∙ ap (λ k. said (xs ++ x ∷ []) ++ k ∷ map key ms) same)
  | inr s ↦
      rw (s, collect)
        (collect-said log m (xs ++ x ∷ []) (item log m) ms refl
          ∙ ap (λ ks. ks ++ map key ms) (said-append (xs ++ x ∷ []) (item log m ∷ []))
          ∙ append_assoc (said (xs ++ x ∷ [])) (key m ∷ []) (map key ms))
]

-- No message is lost or reordered when those that repeat become one entry: the entries say, each as
-- often as it occurred, what the messages say.
pub said-collect : (log : Log) (ms : List Message) → said (collect log none [] ms) ≡ map key ms
unfolding collect
said-collect log [] = refl
said-collect log (m ∷ ms) = collect-said log m [] (item log m) ms refl
