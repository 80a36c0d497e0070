-- ===== src/Resources/Examples.antt =====
-- Small statistics and charts, and what the theorems say of them
-- (src/main/resources/web-data/js/util.js, linechart.js).
use dyn_dco.Base.{◌+◌, ◌≤◌, ◌<◌, ◌≡◌, refl, some, [], ◌∷◌, length, get_elem?}
use dyn_dco.Resources.Sums.{sum_at, SentStatistics, sum_message_sent, get_system_load}
use dyn_dco.Resources.Durations.{duration_rounded, value, value-duration_rounded}

abbrev sent : SentStatistics
sent = record {
  to_nodes = 1 ∷ 2 ∷ [];
  to_workers = 10 ∷ 20 ∷ [];
  to_coordinator = 100 ∷ [];
  to_others = 0 ∷ 0 ∷ [];
}

sum_message_sent_test : sum_at (sum_message_sent sent) 1 ≡ 22
unfolding sum_message_sent
sum_message_sent_test = refl

get_system_load_test : get_elem? (get_system_load (3 ∷ 4 ∷ [])) 1 ≡ some 7
unfolding get_system_load
get_system_load_test = refl

-- the text would be " 1h 2m 3s"
duration_rounded_test :
    duration_rounded 3723004
    ≡ record { count = 1; unit = 3600000 }
      ∷ record { count = 2; unit = 60000 }
      ∷ record { count = 3; unit = 1000 }
      ∷ []
unfolding duration_rounded
duration_rounded_test = refl

value-duration_rounded_example :
    (length (duration_rounded 3723004) ≤ 3)
    × (value (duration_rounded 3723004) ≤ 3723004)
    × (3723004 < value (duration_rounded 3723004) + 1000)
value-duration_rounded_example = value-duration_rounded 3723004
