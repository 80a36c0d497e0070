-- ===== src/Graph/Storage.antt =====
-- VertexStorageAgent: the ids that the browser keeps (src/main/resources/web-data/js/graph-drawing.js).
use dyn_dco.Base.{
  ℕ, suc, arith, String, ◌≡◌, ◌≢◌, refl, ap, Option, none, some, List, [], ◌∷◌, ◌++◌, false,
  if◌then◌else◌, contains, All,
}
use dyn_dco.Graph.Compact.Loop.{splice}

-- The constructor: what is read when nothing is stored, or an empty text.
abbrev stored_before : Option (List String) → List String
stored_before none = []
stored_before (some ids) = ids

-- The loop of `push` over the stored ids, from the index `key` on: the index is that of the stored id.
abbrev drop_stored : ℕ → List String → List String → List String
drop_stored key [] ids = ids
drop_stored key (value ∷ stored) ids =
    drop_stored (suc key) stored (if contains ids value then splice key ids else ids)

-- `push`
unfoldable pub push : List String → List String → List String
push ids stored = stored ++ drop_stored 0 stored ids

drop_stored-fresh :
    (key : ℕ) (stored ids : List String)
    → All (λ v. contains ids v ≡ false) stored
    → drop_stored key stored ids ≡ ids
drop_stored-fresh key [] ids h = refl
drop_stored-fresh key (v ∷ vs) ids h = rw (h.0) (drop_stored-fresh (suc key) vs ids h.1)

-- New ids are appended, none is lost.
push-fresh :
    (ids stored : List String)
    → All (λ v. contains ids v ≡ false) stored
    → push ids stored ≡ stored ++ ids
unfolding push
push-fresh ids stored h = ap (λ xs. stored ++ xs) (drop_stored-fresh 0 stored ids h)

-- With an id that is stored already, a new id before it is lost and the stored one is kept twice.
push-loses : (v w : String) → w ≢ v → push (w ∷ v ∷ []) (v ∷ []) ≡ v ∷ v ∷ []
unfolding push
push-loses v w n = ground (arith, n)
