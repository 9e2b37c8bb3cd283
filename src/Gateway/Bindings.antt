-- ===== src/Gateway/Bindings.antt =====
-- The chats that are bound to agents (cli/gateway/gateway.go): `UpsertBinding`, `DeleteBinding` and
-- `ListBindings`. What is saved is not modelled; the list is sorted as sort.Slice sorts up to twelve.
use xclaw.Prelude.{ℕ, ◌||◌, List, [], ◌∷◌, String, str_eq, to_lower, trim_space, ltb, if◌then◌else◌}
use xclaw.Prelude.Dict
use xclaw.Prelude.Dict.{Dict}
use xclaw.Prelude.Result.{Result, ok, err}
use xclaw.Gateway.Events.{Binding}

abbrev trimmed_binding : String → ℕ → Binding → Binding
trimmed_binding fresh now b = record b {
  id = if str_eq b.id "" then fresh else b.id;
  platform = to_lower (trim_space b.platform);
  chat_id = trim_space b.chat_id;
  thread_id = trim_space b.thread_id;
  agent_id = trim_space b.agent_id;
  sender_id = trim_space b.sender_id;
  updated_at = now;
}

unfoldable pub upsert_binding :
    String → ℕ → Binding → Dict Binding → Result String Binding × Dict Binding
upsert_binding fresh now binding bindings =
    let b = trimmed_binding fresh now binding in
    if str_eq b.platform "" || str_eq b.chat_id ""
    then (err "platform and chat_id are required", bindings)
    else (ok b, Dict.insert b.id b bindings)

unfoldable pub delete_binding : String → Dict Binding → Result String (Dict Binding)
delete_binding raw bindings =
    let id = trim_space raw in
    if str_eq id "" then err "binding id required" else ok (Dict.erase id bindings)

unfoldable pub bindings_of : String → List Binding → List Binding
bindings_of agent_id [] = []
bindings_of agent_id (b ∷ items) =
    let rest = bindings_of agent_id items in
    if str_eq agent_id "" || str_eq b.agent_id agent_id then b ∷ rest else rest

unfoldable pub insert_binding : Binding → List Binding → List Binding
insert_binding b [] = b ∷ []
insert_binding b (q ∷ items) =
    let further = q ∷ insert_binding b items in
    if ltb b.updated_at q.updated_at then further else b ∷ q ∷ items

unfoldable pub latest_first : List Binding → List Binding
unfolding insert_binding
latest_first [] = []
latest_first (b ∷ items) = insert_binding b (latest_first items)

unfoldable pub list_bindings : String → Dict Binding → List Binding
unfolding bindings_of latest_first
list_bindings agent_id bindings =
    latest_first (bindings_of (trim_space agent_id) (Dict.values bindings))
