-- ===== src/Query/StateMap.antt =====
-- The map of a contract's state in `into_state_map` of workspaces/src/rpc/tool.rs.
use near_workspaces_rs.Prelude.{
  ◌≡◌, refl, ap, ◌∙◌, Option, none, some, List, [], ◌∷◌, ◌==◌, list_eq, nat_eq, if◌then◌else◌, Bool,
  true, false,
}
use near_workspaces_rs.Primitives.{Bytes}
use near_workspaces_rs.Account.{overwrite}
use near_workspaces_rs.Map
use near_workspaces_rs.Map.{get, get-insert}
use near_workspaces_rs.Query.Kinds.{collected, into_state_map}

-- The value of the last item with this key.
abbrev pub last_value : Bytes → List (Bytes × Bytes) → Option Bytes
last_value k [] = none
last_value k ((key, value) ∷ items) =
    overwrite (if key == k then some value else none) (last_value k items)

inserted :
    (b : Bool) (o new : Option Bytes) (value : Bytes)
    → overwrite (if b then some value else o) new
      ≡ overwrite o (overwrite (if b then some value else none) new)
inserted true o none value = refl
inserted true o (some x) value = refl
inserted false o none value = refl
inserted false o (some x) value = refl

get-collected :
    (k : Bytes) (m items : List (Bytes × Bytes))
    → get k (collected m items) ≡ overwrite (get k m) (last_value k items)
unfolding collected
get-collected k m [] = refl
get-collected k m ((key, value) ∷ items) =
    get-collected k (Map.insert key value m) items
    ∙ ap (λ o. overwrite o (last_value k items)) (get-insert key k value m)
    ∙ inserted (key == k) (get k m) (last_value k items) value

-- The map that is made of the state's items holds, under each key, the value of the last item with
-- that key, and nothing under a key that no item has.
pub get-into_state_map :
    (k : Bytes) (items : List (Bytes × Bytes)) → get k (into_state_map items) ≡ last_value k items
unfolding into_state_map get
get-into_state_map k items = get-collected k [] items ∙ from (last_value k items)
  where
    from : (o : Option Bytes) → overwrite none o ≡ o
    from none = refl
    from (some x) = refl
