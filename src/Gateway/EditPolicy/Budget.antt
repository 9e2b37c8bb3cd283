-- ===== src/Gateway/EditPolicy/Budget.antt =====
-- How many edits a message gets.
use xclaw.Prelude.{
  ℕ, ◌+◌, ◌≤◌, ◌≡◌, refl, Bool, true, false, List, [], ◌∷◌, some, String, arith, inl, inr, ◌∙◌,
  Bool-cases, str_eq, eq_iff, eq_refl, if◌then◌else◌,
}
use xclaw.Prelude.Dict
use xclaw.Prelude.Dict.{lookup-insert}
use xclaw.Gateway.EditPolicy.{
  EditPolicy, EditRecord, EditTracker, check_record, check_and_record, get_record,
}

-- A request to show a text as the message `id`.
pub record Show : Type 0 where
  pub now : ℕ
  pub id : String
  pub text : String

unfoldable pub show_all : List Show → EditTracker → EditTracker
show_all [] t = t
show_all (s ∷ shows) t = show_all shows (check_and_record s.now s.id s.text t).1

abbrev bit : Bool → ℕ
bit b = if b then 1 else 0

-- How many of the requests for the message `id` were allowed.
unfoldable pub allowed_edits : String → List Show → EditTracker → ℕ
allowed_edits id [] t = 0
allowed_edits id (s ∷ shows) t =
    let rest = allowed_edits id shows (check_and_record s.now s.id s.text t).1 in
    if str_eq s.id id then bit (check_and_record s.now s.id s.text t).0 + rest else rest

-- What `n` allowed requests make of a message's record.
pub record Edited (p : EditPolicy) (n : ℕ) (r r' : EditRecord) : Type 0 where
  pub counted : r'.edit_count ≡ r.edit_count + n
  pub same_start : r'.first_sent ≡ r.first_sent
  pub in_budget : r.edit_count ≤ p.max_edits → r'.edit_count ≤ p.max_edits

check_record-Edited :
    (p : EditPolicy) (now : ℕ) (text : String) (r : EditRecord)
    → Edited p (bit (check_record p now text (some r)).0) r (check_record p now text (some r)).1
unfolding check_record
check_record-Edited p now text r = ground arith

Edited-trans :
    {p : EditPolicy} {n m : ℕ} {a b c : EditRecord}
    → Edited p n a b
    → Edited p m b c
    → Edited p (n + m) a c
Edited-trans f g = record {
  counted = omega (arith, f.counted, g.counted);
  same_start = g.same_start ∙ f.same_start;
  in_budget = λ h. g.in_budget (f.in_budget h);
}

Edited-refl : (p : EditPolicy) (r : EditRecord) → Edited p 0 r r
Edited-refl p r = record { counted = omega arith; same_start = refl; in_budget = λ h. h }

after_own :
    (id : String) (s : Show) (t : EditTracker) (r : EditRecord)
    → Dict.lookup id t.records ≡ some r
    → str_eq s.id id ≡ true
    → ((check_and_record s.now s.id s.text t).0 ≡ (check_record t.policy s.now s.text (some r)).0)
      × (Dict.lookup id (check_and_record s.now s.id s.text t).1.records
          ≡ some (check_record t.policy s.now s.text (some r)).1)
unfolding check_and_record
after_own id s t r h e = rw ((eq_iff s.id id).0 e, h) (refl, rw (lookup-insert, eq_refl))

after_other :
    (id : String) (s : Show) (t : EditTracker)
    → str_eq s.id id ≡ false
    → Dict.lookup id (check_and_record s.now s.id s.text t).1.records ≡ Dict.lookup id t.records
unfolding check_and_record
after_other id s t e = rw (lookup-insert, e)

-- Over any requests for any messages, a message that was sent gets the edits that its record counts;
-- and never more than the policy allows, if it had no more before.
pub edit_budget :
    (id : String) (shows : List Show) (t : EditTracker) (r : EditRecord)
    → Dict.lookup id t.records ≡ some r
    → (r' : EditRecord) × (get_record id (show_all shows t) ≡ some r')
      × Edited t.policy (allowed_edits id shows t) r r'
unfolding show_all allowed_edits get_record check_and_record
edit_budget id [] t r h = (r, h, Edited-refl t.policy r)
edit_budget id (s ∷ shows) t r h = elim (Bool-cases (str_eq s.id id)) [
  | inl e ↦
      (let (r', h', p) =
          edit_budget id shows (check_and_record s.now s.id s.text t).1
            (check_record t.policy s.now s.text (some r)).1 (after_own id s t r h e).1 in
        (
          r',
          h',
          rw (e, (after_own id s t r h e).0)
              (Edited-trans (check_record-Edited t.policy s.now s.text r) p),
        ))
  | inr e ↦
      (let (r', h', p) =
          edit_budget id shows (check_and_record s.now s.id s.text t).1 r
            (after_other id s t e ∙ h) in
        (r', h', rw e p))
]
