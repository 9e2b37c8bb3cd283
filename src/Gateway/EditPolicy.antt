-- ===== src/Gateway/EditPolicy.antt =====
-- When a sent message may be edited (cli/gateway/edit_policy.go). `MaxEdits` and `EditThreshold`
-- are Go `int`s, and 0 stands for every value below it too; the window is not negative.
pub mod Budget
mod Examples
use Prim.Native.String.{len}
use xclaw.Prelude.{
  ℕ, ◌+◌, ◌-◌, ◌*◌, ◌^◌, Bool, true, false, [], Option, none, some, String, leb, ltb, if◌then◌else◌,
}
use xclaw.Prelude.Dict
use xclaw.Prelude.Dict.{Dict}

pub record EditPolicy : Type 0 where
  pub max_edits : ℕ
  pub edit_window : ℕ
  pub edit_threshold : ℕ

abbrev pub default_edit_policy : EditPolicy
default_edit_policy = record {
  max_edits = 10;
  edit_window = 24 * 3600 * 10 ^ 9;
  edit_threshold = 3;
}

-- |len(new) - len(old)|, in bytes.
abbrev pub length_diff : String → String → ℕ
length_diff original new_content =
    if ltb (len new_content) (len original)
    then len original - len new_content
    else len new_content - len original

unfoldable pub should_edit : EditPolicy → ℕ → String → String → ℕ → ℕ → Bool
should_edit p now original new_content edit_count first_sent =
    if leb p.max_edits edit_count
    then false
    else if ltb p.edit_window (now - first_sent)
    then false
    else if ltb (length_diff original new_content) p.edit_threshold
    then false
    else true

pub record EditRecord : Type 0 where
  pub edit_count : ℕ
  pub first_sent : ℕ
  pub last_text : String

pub record EditTracker : Type 0 where
  pub records : Dict EditRecord
  pub policy : EditPolicy

abbrev pub new_edit_tracker : EditPolicy → EditTracker
new_edit_tracker policy = record { records = []; policy = policy }

-- CheckAndRecord on what it finds: the answer, and the record that it leaves.
unfoldable pub check_record : EditPolicy → ℕ → String → Option EditRecord → Bool × EditRecord
unfolding should_edit
check_record p now text none = (true, record { edit_count = 0; first_sent = now; last_text = text })
check_record p now text (some r) =
    if should_edit p now r.last_text text r.edit_count r.first_sent
    then (true, record r { edit_count = r.edit_count + 1; last_text = text })
    else (false, r)

unfoldable pub check_and_record : ℕ → String → String → EditTracker → Bool × EditTracker
check_and_record now id text t =
    let (allowed, r) = check_record t.policy now text (Dict.lookup id t.records) in
    (allowed, record t { records = Dict.insert id r t.records })

unfoldable pub get_record : String → EditTracker → Option EditRecord
get_record id t = Dict.lookup id t.records

unfoldable pub cleanup : ℕ → ℕ → EditTracker → EditTracker
cleanup now max_age t = record t {
  records = Dict.remove_if (λ r. ltb max_age (now - r.first_sent)) t.records;
}
