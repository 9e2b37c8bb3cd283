-- ===== src/Approval/Persist.antt =====
-- Storing the approval manager and loading it back: `Rules`, `Snapshot` and `Load` of
-- cli/approval/manager.go. `json_marshal` and `json_unmarshal` are the package `encoding/json` on a
-- `PersistedState`; `none` is an error that it returns.
use xclaw.Prelude.{
  ℕ, Bool, true, false, List, [], ◌∷◌, Option, none, some, String, str_eq, trim_space,
  if◌then◌else◌,
}
use xclaw.Prelude.Dict
use xclaw.Prelude.Dict.{Dict, values}
use xclaw.Approval.Rule.{Rule}
use xclaw.Approval.Request.{Request}
use xclaw.Approval.Manager.{Manager, normalize_rules, expire_requests}
pub mod Normal
pub mod Keys
pub mod RoundTrip

pub record PersistedState : Type 0 where
  pub stored_rules : List Rule
  pub stored_requests : List Request

-- Rules returns a copy.
unfoldable pub rules : Manager → List Rule
rules m = m.rules

-- The map's values, in the order in which `range` visits them.
unfoldable pub persisted : Manager → PersistedState
persisted m = record { stored_rules = m.rules; stored_requests = values m.requests }

-- The loop that builds the map again; a request without an id is skipped.
unfoldable pub index_requests : List Request → Dict Request → Dict Request
index_requests [] requests = requests
index_requests (req ∷ stored) requests =
    let skipped = index_requests stored requests in
    let kept = index_requests stored (Dict.insert req.id req requests) in
    if str_eq (trim_space req.id) "" then skipped else kept

-- The rules are replaced only where some are stored.
unfoldable pub loaded_rules : (ℕ → ℕ) → List Rule → List Rule → List Rule
loaded_rules nano [] old = old
loaded_rules nano (rule ∷ stored) old = normalize_rules nano 0 (rule ∷ stored)

unfoldable pub restore : (ℕ → ℕ) → ℕ → PersistedState → Manager → Manager
restore nano now state m = expire_requests now (record {
  rules = loaded_rules nano state.stored_rules m.rules;
  requests = index_requests state.stored_requests [];
})

module _ (json_marshal : PersistedState → Option String) where
  unfoldable pub snapshot : ℕ → Manager → Option String × Manager
  snapshot now m = let m' = expire_requests now m in (json_marshal (persisted m'), m')

module _ (json_unmarshal : String → Option PersistedState) where
  -- The flag says whether Load returns an error.
  unfoldable pub load : (ℕ → ℕ) → ℕ → String → Manager → Bool × Manager
  load nano now raw m =
      let text = trim_space raw in
      if str_eq text "" then (false, m) else elim (json_unmarshal text) [
        | none ↦ (true, m)
        | some state ↦ (false, restore nano now state m)
      ]
