-- ===== src/Log/Examples.antt =====
-- Log messages and what the theorems say of them
-- (src/main/resources/web-data/js/resources-log.js).
use dyn_dco.Base.{◌≡◌, ◌≤◌, refl, none, [], ◌∷◌, ◌++◌, map, true, not, keep_if, string_discrete}
use dyn_dco.Log.Types.{Level, Source, Message, Log, key, same_entry}
use dyn_dco.Log.Fragments.{collect, said, said-collect}
use dyn_dco.Log.Box.{count_debug, is_debug, on_message, on_message-FewDebug}
use dyn_dco.Log.Filters.{IsFiltered, toggle_level, Step, Reach, Reach-IsFiltered}

abbrev started : Message
started = record {
  level = Level.debug;
  source = Source.user;
  cause = none;
  log_source = "node";
  log_class = "Node";
  text = "started";
  date = "12:00";
}

abbrev empty_log : Log
empty_log = record {
  items = [];
  active_level = λ v. true;
  active_source = λ v. true;
  counts = λ v. 0;
}

-- two messages that say the same are one entry
collect_test :
    map (λ x. x.occurrences) (collect empty_log none [] (started ∷ started ∷ [])) ≡ 2 ∷ []
unfolding collect same_entry string_discrete
collect_test = refl

said-collect_example :
    said (collect empty_log none [] (started ∷ started ∷ [])) ≡ key started ∷ key started ∷ []
said-collect_example = said-collect empty_log (started ∷ started ∷ [])

on_message-FewDebug_example :
    (count_debug (on_message (started ∷ []) empty_log).items ≤ 100)
    × (keep_if (λ x. not (is_debug x)) (on_message (started ∷ []) empty_log).items
        ≡ keep_if
            (λ x. not (is_debug x))
            (empty_log.items ++ collect empty_log none [] (started ∷ [])))
on_message-FewDebug_example = on_message-FewDebug (started ∷ []) empty_log

Reach-IsFiltered_example :
    IsFiltered (toggle_level Level.debug (on_message (started ∷ []) empty_log))
Reach-IsFiltered_example = Reach-IsFiltered {a = empty_log} tt (
    Reach.next (Reach.next Reach.here (Step.receiving empty_log (started ∷ [])))
      (Step.filtering_level (on_message (started ∷ []) empty_log) Level.debug))
