-- ===== src/Log/Types.antt =====
-- Log messages and the list in which they are shown
-- (src/main/resources/web-data/js/resources-log.js).
use dyn_dco.Base.{
  ℕ, String, ◌≡◌, refl, Option, none, some, arith, List, Bool, true, false, ◌==◌, if◌then◌else◌,
  ite, string_discrete,
}

pub data Level : Type 0 where
  error warning info debug : Level

pub data Source : Type 0 where
  akka sc user : Source

-- A message of the server; the level and the source are one of those that the filters have.
pub record Message : Type 0 where
  pub level : Level
  pub source : Source
  pub cause : Option String
  pub log_source : String
  pub log_class : String
  pub text : String
  pub date : String

-- An entry of the list.
pub record Item : Type 0 where
  pub message : Message
  pub occurrences : ℕ
  pub hidden_level : Bool
  pub hidden_source : Bool

-- The list, the filters that are active, and the number of messages of each level.
pub record Log : Type 0 where
  pub items : List Item
  pub active_level : Level → Bool
  pub active_source : Source → Bool
  pub counts : Level → ℕ

-- `logLevelIndex`
abbrev pub level_index : Level → ℕ
level_index error = 1
level_index warning = 2
level_index info = 3
level_index debug = 4

-- `logSourceIndex`
abbrev pub source_index : Source → ℕ
source_index akka = 1
source_index sc = 2
source_index user = 3

abbrev pub same_level : Level → Level → Bool
same_level a b = level_index a == level_index b

abbrev pub same_source : Source → Source → Bool
same_source a b = source_index a == source_index b

same_level-Eq : (a b : Level) → same_level a b ≡ true → a ≡ b
same_level-Eq error error e = refl
same_level-Eq warning warning e = refl
same_level-Eq info info e = refl
same_level-Eq debug debug e = refl
same_level-Eq error warning e = cc e
same_level-Eq error info e = cc e
same_level-Eq error debug e = cc e
same_level-Eq warning error e = cc e
same_level-Eq warning info e = cc e
same_level-Eq warning debug e = cc e
same_level-Eq info error e = cc e
same_level-Eq info warning e = cc e
same_level-Eq info debug e = cc e
same_level-Eq debug error e = cc e
same_level-Eq debug warning e = cc e
same_level-Eq debug info e = cc e

abbrev pub same_cause : Option String → Option String → Bool
same_cause none none = true
same_cause none (some y) = false
same_cause (some x) none = false
same_cause (some x) (some y) = ite (string_discrete x y) true false

-- The comparison of a message with the one before it.
abbrev pub same_text : String → String → Bool
same_text x y = ite (string_discrete x y) true false

unfoldable pub same_entry : Message → Message → Bool
same_entry a b =
    if same_level a.level b.level
    then (if same_cause a.cause b.cause
        then (if same_text a.log_source b.log_source
            then (if same_text a.log_class b.log_class then same_text a.text b.text else false)
            else false)
        else false)
    else false

-- What an entry says of a message.
pub record Key : Type 0 where
  pub level : Level
  pub cause : Option String
  pub log_source : String
  pub log_class : String
  pub text : String

abbrev pub key : Message → Key
key m = record {
  level = m.level;
  cause = m.cause;
  log_source = m.log_source;
  log_class = m.log_class;
  text = m.text;
}

same_cause-Eq : (a b : Option String) → same_cause a b ≡ true → a ≡ b
same_cause-Eq none none e = refl
same_cause-Eq none (some y) e = cc e
same_cause-Eq (some x) none e = cc e
same_cause-Eq (some x) (some y) e = ground (arith, e)

pub same_entry-Eq : (a b : Message) → same_entry a b ≡ true → key a ≡ key b
unfolding same_entry
same_entry-Eq a b e =
    ground (arith, e, same_level-Eq a.level b.level, same_cause-Eq a.cause b.cause)
