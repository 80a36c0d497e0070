-- ===== src/Resources/Configuration/Latest.antt =====
-- What the page shows after several messages
-- (src/main/resources/web-data/js/resources-configuration.js).
use dyn_dco.Base.{
  String, ◌≡◌, refl, ◌∙◌, ap, Option, none, some, List, [], ◌∷◌, ◌++◌, ite, string_discrete, Table,
  update,
}
use dyn_dco.Resources.Configuration.{
  Message, Page, set_stats, infrastructure_items, graph_items, on_message, on_messages,
}

-- The last value of a parameter, in one object and in messages, or what there was.
abbrev pub last_value : String → List (String × String) → Option String → Option String
last_value k [] old = old
last_value k ((j, v) ∷ rest) old = last_value k rest (ite (string_discrete j k) (some v) old)

abbrev pub said : String → Message → Option String → Option String
said k m old = elim m.execution_configuration [ none ↦ old | some o ↦ last_value k o old ]

abbrev pub last_stat : String → List Message → Option String → Option String
last_stat k [] old = old
last_stat k (m ∷ ms) old = last_stat k ms (said k m old)

set_stats-value :
    (k : String) (o : List (String × String)) (t : Table String)
    → set_stats o t k ≡ last_value k o (t k)
set_stats-value k [] t = refl
set_stats-value k ((j, v) ∷ rest) t = set_stats-value k rest (update t j (some v))

-- The element of a parameter after one message.
res_stat-on_message :
    (port : String) (k : String) (m : Message) (p : Page)
    → (on_message port m p).res_stat k ≡ said k m (p.res_stat k)
unfolding on_message
res_stat-on_message port k m p =
    elim m.execution_configuration
      as (λ o.
        (elim o as (λ x. Table String) [ none ↦ p.res_stat | some c ↦ set_stats c p.res_stat ]) k
        ≡ (elim o as (λ x. Option String) [
          | none ↦ p.res_stat k
          | some c ↦ last_value k c (p.res_stat k)
        ])) [ none ↦ refl | some o ↦ set_stats-value k o p.res_stat ]

res_stat-on_messages :
    (port : String) (k : String) (ms : List Message) (p : Page)
    → (on_messages port ms p).res_stat k ≡ last_stat k ms (p.res_stat k)
res_stat-on_messages port k [] p = refl
res_stat-on_messages port k (m ∷ ms) p =
    res_stat-on_messages port k ms (on_message port m p)
    ∙ ap (last_stat k ms) (res_stat-on_message port k m p)

on_messages-last :
    (port : String) (ms : List Message) (m : Message) (p : Page)
    → on_messages port (ms ++ m ∷ []) p ≡ on_message port m (on_messages port ms p)
on_messages-last port [] m p = refl
on_messages-last port (n ∷ ms) m p = on_messages-last port ms m (on_message port n p)

-- After any messages a parameter has the value that the last message with a value for it gave, or what
-- it had before, and both lists are those of the last message alone.
on_messages-latest :
    (port : String) (ms : List Message) (m : Message) (k : String) (p : Page)
    → (let q = on_messages port (ms ++ m ∷ []) p in
        (q.res_stat k ≡ last_stat k (ms ++ m ∷ []) (p.res_stat k))
        × (q.infrastructure ≡ infrastructure_items m.system_properties)
        × (q.graph ≡ graph_items port m.graph_configuration))
unfolding on_message
on_messages-latest port ms m k p = (
  res_stat-on_messages port k (ms ++ m ∷ []) p,
  ap (λ q. q.infrastructure) (on_messages-last port ms m p),
  ap (λ q. q.graph) (on_messages-last port ms m p),
)
