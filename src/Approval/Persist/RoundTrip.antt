-- ===== src/Approval/Persist/RoundTrip.antt =====
-- Loading what was stored: `Snapshot` and `Load` of cli/approval/manager.go.
use xclaw.Prelude.{
  ℕ, ◌≡◌, refl, ap, ◌∙◌, sym, false, List, [], ◌∷◌, ◌++◌, Option, some, String, arith, str_eq,
  eq_iff, trim_space,
}
use mathlib.Core.List.{append-nil, append_assoc}
use xclaw.Prelude.Dict
use xclaw.Prelude.Dict.{Dict, Lacks, values, lookup-insert, lookup-map_values}
use xclaw.Approval.Rule.{Rule}
use xclaw.Approval.Request.{Request}
use xclaw.Approval.Manager.{Manager, expire_requests}
use xclaw.Approval.Persist.Keys.{IsKeyed, IsNormal, IsStored, expire-IsStored}
use xclaw.Approval.Persist.{
  PersistedState, persisted, index_requests, loaded_rules, restore, snapshot, load,
}

-- No key of the first map is in the second.
abbrev Apart : Dict Request → Dict Request → Type 0
Apart [] acc = Unit
Apart ((k, r) ∷ m) acc = Lacks k acc × Apart m acc

Apart-nil : (m : Dict Request) → Apart m []
Apart-nil [] = tt
Apart-nil ((k, r) ∷ m) = (unfold Dict.lookup in refl, Apart-nil m)

insert_new :
    (k : String) (r : Request) (acc : Dict Request)
    → Lacks k acc
    → Dict.insert k r acc ≡ acc ++ (k, r) ∷ []
unfolding Dict.insert Dict.lookup
insert_new k r [] h = refl
insert_new k r ((j, q) ∷ acc) h = ground (arith, insert_new k r acc)

lookup-snoc :
    (j k : String) (r : Request) (acc : Dict Request)
    → str_eq k j ≡ false
    → Lacks j acc
    → Lacks j (acc ++ (k, r) ∷ [])
unfolding Dict.lookup
lookup-snoc j k r [] ne h = rw ne
lookup-snoc j k r ((i, q) ∷ acc) ne h = ground (arith, lookup-snoc j k r acc ne)

Apart-snoc :
    (k : String) (r : Request) (m acc : Dict Request)
    → Lacks k m
    → Apart m acc
    → Apart m (acc ++ (k, r) ∷ [])
unfolding Dict.lookup
Apart-snoc k r [] acc h a = tt
Apart-snoc k r ((j, q) ∷ m) acc h (aj, a) = (
  lookup-snoc j k r acc (ground (arith, eq_iff j k, eq_iff k j)) aj,
  Apart-snoc k r m acc (ground arith) a,
)

index-cons :
    (k : String) (r : Request) (stored : List Request) (acc : Dict Request)
    → r.id ≡ k
    → str_eq (trim_space k) "" ≡ false
    → index_requests (r ∷ stored) acc ≡ index_requests stored (Dict.insert k r acc)
unfolding index_requests
index-cons k r stored acc same named =
    let named' : str_eq (trim_space r.id) "" ≡ false =
      ap (λ i. str_eq (trim_space i) "") same ∙ named in
    simp named' (ap (λ i. index_requests stored (Dict.insert i r acc)) same)

-- The map is rebuilt from its values.
index-values :
    (m acc : Dict Request) → IsKeyed m → Apart m acc → index_requests (values m) acc ≡ acc ++ m
index-values [] acc h a = unfold index_requests in sym (append-nil acc)
index-values ((k, r) ∷ m) acc (same, named, lacks, keyed) (ak, a) =
    index-cons k r (values m) acc same named
    ∙ ap (index_requests (values m)) (insert_new k r acc ak)
    ∙ index-values m (acc ++ (k, r) ∷ []) keyed (Apart-snoc k r m acc lacks a)
    ∙ append_assoc acc ((k, r) ∷ []) m

-- Load keeps the rules that it finds where none are stored.
abbrev pub or_old : List Rule → List Rule → List Rule
or_old [] old = old
or_old (rule ∷ rules) old = rule ∷ rules

loaded-normal :
    (nano : ℕ → ℕ) (rules old : List Rule)
    → IsNormal rules
    → loaded_rules nano rules old ≡ or_old rules old
unfolding loaded_rules
loaded-normal nano [] old h = refl
loaded-normal nano (rule ∷ rules) old h = h nano 0

restored-manager :
    (m old : Manager) (nano : ℕ → ℕ) (now : ℕ)
    → IsStored m
    → ◌≡◌ {A = Manager}
        (record {
          rules = loaded_rules nano (persisted (expire_requests now m)).stored_rules old.rules;
          requests = index_requests (persisted (expire_requests now m)).stored_requests [];
        })
        (record (expire_requests now m) { rules = or_old m.rules old.rules })
unfolding persisted expire_requests
restored-manager m old nano now s =
    let kept = expire_requests now m in
    rw
      (
        index-values kept.requests [] (expire-IsStored now m s).keyed (Apart-nil kept.requests),
        loaded-normal nano m.rules old.rules s.normal,
      )
      refl

-- A manager that keeps its requests under their ids and its rules normalized, as every run from the
-- start does, is stored at `now`, and the text is loaded at `later` into any manager; `json` reads
-- the state that it wrote. Then Load reports no error, and the loaded manager has exactly the
-- requests and the rules of the stored one, as after another expiry at `later`; only where no rules
-- were stored does it keep the rules that it had.
pub load-snapshot :
    (json_marshal : PersistedState → Option String)
    (json_unmarshal : String → Option PersistedState) (m old : Manager) (nano : ℕ → ℕ)
    (now later : ℕ) (raw : String)
    → IsStored m
    → (snapshot json_marshal now m).0 ≡ some raw
    → str_eq (trim_space raw) "" ≡ false
    → (json_marshal (persisted (expire_requests now m)) ≡ some raw
        → json_unmarshal (trim_space raw) ≡ some (persisted (expire_requests now m)))
    → load json_unmarshal nano later raw old ≡ (
      false,
      expire_requests later (record (expire_requests now m) { rules = or_old m.rules old.rules }),
    )
unfolding load restore
load-snapshot json_marshal json_unmarshal m old nano now later raw s written named reads =
    rw (named, reads (unfold snapshot in written))
      (ap (λ loaded. (false, expire_requests later loaded)) (restored-manager m old nano now s))
