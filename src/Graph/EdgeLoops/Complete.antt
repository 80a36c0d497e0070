-- ===== src/Graph/EdgeLoops/Complete.antt =====
-- The loop of `onmessage` over the edges of a message: which edges it records.
use Prim.Native.String.{◌++◌ as concat}
use dyn_dco.Base.{String, List, [], ◌∷◌, Bool, false, ◌||◌, ite, string_discrete, contains}

-- The message has an edge from `s` to `t`.
abbrev pub has_edge : List (String × List String) → String → String → Bool
has_edge [] s t = false
has_edge ((source, targets) ∷ rest) s t =
    ite (string_discrete source s) (contains targets t) false || has_edge rest s t
