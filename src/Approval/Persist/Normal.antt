-- ===== src/Approval/Persist/Normal.antt =====
-- Normalizing rules twice (`normalizeRule`, `normalizeStringList`, `normalizeStrategy` in
-- cli/approval/manager.go).
use xclaw.Prelude.{
  ℕ, suc, ◌≡◌, refl, ap, false, inl, inr, List, [], ◌∷◌, String, arith, Bool-cases, str_eq,
  trim_space, trim_space_idem, trim_space-numbered, numbered-not_empty, is_space, ◌⊎◌, show_decimal,
  ◌<>◌,
}
use xclaw.Approval.Lists.{normalize_from, normalize_string_list, is_seen}
use xclaw.Approval.Rule.{
  Rule, or_default, normalize_rule, normalize_strategy, strategy_all, strategy_any, strategy_single,
}
use xclaw.Approval.Manager.{normalize_rules}

-- Names that are trimmed, not blank, and not among `seen`, nor twice.
abbrev IsNormalFrom : List String → List String → Type 0
IsNormalFrom [] seen = Unit
IsNormalFrom (v ∷ values) seen =
    (trim_space v ≡ v)
    × (str_eq v "" ≡ false)
    × (is_seen seen v ≡ false)
    × IsNormalFrom values (v ∷ seen)

normalize_from-IsNormalFrom :
    (values seen : List String) → IsNormalFrom (normalize_from values seen) seen
unfolding normalize_from
normalize_from-IsNormalFrom [] seen = tt
normalize_from-IsNormalFrom (v ∷ values) seen = elim (Bool-cases (str_eq (trim_space v) "")) [
  | inl e ↦ rw e (normalize_from-IsNormalFrom values seen)
  | inr e ↦ rw e (elim (Bool-cases (is_seen seen (trim_space v))) [
    | inl s ↦ rw s (normalize_from-IsNormalFrom values seen)
    | inr s ↦
        rw s (trim_space_idem v, e, s, normalize_from-IsNormalFrom values (trim_space v ∷ seen))
  ])
]

normalize_from_fixed :
    (values seen : List String) → IsNormalFrom values seen → normalize_from values seen ≡ values
unfolding normalize_from
normalize_from_fixed [] seen h = refl
normalize_from_fixed (v ∷ values) seen (t, b, s, h) =
    rw (t, b, s) (ap (λ vs. v ∷ vs) (normalize_from_fixed values (v ∷ seen) h))

pub normalize_string_list_idem :
    (values : List String)
    → normalize_string_list (normalize_string_list values) ≡ normalize_string_list values
unfolding normalize_string_list
normalize_string_list_idem values =
    normalize_from_fixed (normalize_from values []) [] (normalize_from-IsNormalFrom values [])

normalize_strategy-cases :
    (s : String)
    → (normalize_strategy s ≡ strategy_all)
      ⊎ (normalize_strategy s ≡ strategy_any)
      ⊎ (normalize_strategy s ≡ strategy_single)
unfolding normalize_strategy
normalize_strategy-cases s = ground arith

normalize_strategy_idem :
    (s : String) → normalize_strategy (normalize_strategy s) ≡ normalize_strategy s
normalize_strategy_idem s = elim (normalize_strategy-cases s) [
  | inl e ↦ rw e (unfold normalize_strategy trim_space in refl)
  | inr (inl e) ↦ rw e (unfold normalize_strategy trim_space in refl)
  | inr (inr e) ↦ rw e (unfold normalize_strategy trim_space in refl)
]

-- What `or_default` gives is trimmed and not blank, where its default is.
IsName : String → Type 0
IsName s = (trim_space s ≡ s) × (str_eq s "" ≡ false)

or_default-IsName : (s d : String) → IsName d → IsName (or_default (trim_space s) d)
unfolding or_default IsName
or_default-IsName s d (t, b) = elim (Bool-cases (str_eq (trim_space s) "")) [
  | inl e ↦ rw e (t, b)
  | inr e ↦ rw e (trim_space_idem s, e)
]

or_default_fixed : (s d : String) → IsName s → or_default (trim_space s) d ≡ s
unfolding or_default IsName
or_default_fixed s d (t, b) = rw (t, b) refl

rule_id-IsName : (n : ℕ) → IsName ("rule_" <> show_decimal n)
unfolding IsName is_space
rule_id-IsName n = (
  trim_space-numbered "rule_" n (refl, (refl, (refl, (refl, (refl, tt))))),
  numbered-not_empty "rule_" n refl,
)

pub normalize_rule_idem :
    (nano nano' : ℕ) (rule : Rule)
    → normalize_rule nano' (normalize_rule nano rule) ≡ normalize_rule nano rule
unfolding normalize_rule
normalize_rule_idem nano nano' rule =
    let id_ok = or_default-IsName rule.id _ (rule_id-IsName nano) in
    rw
      (
        or_default_fixed _ ("rule_" <> show_decimal nano') id_ok,
        or_default_fixed _ (or_default (trim_space rule.id) ("rule_" <> show_decimal nano))
            (or_default-IsName rule.name _ id_ok),
        normalize_string_list_idem rule.tools,
        normalize_string_list_idem rule.risks,
        normalize_string_list_idem rule.path_prefixes,
        normalize_string_list_idem rule.command_patterns,
        normalize_string_list_idem rule.approvers,
        normalize_strategy_idem rule.strategy,
      )
      (ground arith)

pub normalize_rules_idem :
    (nano nano' : ℕ → ℕ) (i j : ℕ) (rules : List Rule)
    → normalize_rules nano' j (normalize_rules nano i rules) ≡ normalize_rules nano i rules
unfolding normalize_rules
normalize_rules_idem nano nano' i j [] = refl
normalize_rules_idem nano nano' i j (rule ∷ rules) = rw (
  normalize_rule_idem (nano i) (nano' j) rule,
  normalize_rules_idem nano nano' (suc i) (suc j) rules,
)
