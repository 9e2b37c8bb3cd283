-- ===== src/Gateway/EditPolicy/Examples.antt =====
-- Edits of a concrete message.
use xclaw.Prelude.{◌≡◌, refl, List, [], ◌∷◌, some}
use xclaw.Prelude.Dict
use xclaw.Gateway.EditPolicy.{
  EditRecord, EditTracker, default_edit_policy, get_record, check_and_record, check_record,
}
use xclaw.Gateway.EditPolicy.Budget.{Show, show_all, allowed_edits, Edited, edit_budget}

abbrev sent : EditRecord
sent = record { edit_count = 9; first_sent = 5; last_text = "hi" }

abbrev tracker : EditTracker
tracker = record { records = ("m1", sent) ∷ []; policy = default_edit_policy }

abbrev shows : List Show
shows =
    record { now = 6; id = "m1"; text = "hello" }
    ∷ record { now = 7; id = "m1"; text = "hello, world" }
    ∷ []

-- The tenth edit is the last.
one_allowed : allowed_edits "m1" shows tracker ≡ 1
unfolding allowed_edits check_and_record check_record Dict.lookup Dict.insert
one_allowed = refl

edit_budget_example :
    (r' : EditRecord) × (get_record "m1" (show_all shows tracker) ≡ some r')
    × Edited default_edit_policy (allowed_edits "m1" shows tracker) sent r'
unfolding Dict.lookup
edit_budget_example = edit_budget "m1" shows tracker sent refl
