-- ===== src/Gateway/Send/Marks.antt =====
-- How an answer of `Send` of cli/gateway/gateway.go comes about: missing targets, marks and what is kept.
use mathlib.Core.Path.{subst}
use xclaw.Prelude.{
  ℕ, ◌+◌, ◌-◌, ◌<◌, ◌≡◌, refl, Bool, true, false, List, [], ◌∷◌, ◌++◌, length, drop, length-append,
  drop-append, Option, none, some, String, str_eq, has_prefix, trim_space, Bool-cases, inl, inr,
  eq_iff, eq_refl, arith, if◌then◌else◌,
}
use xclaw.Prelude.Dict
use xclaw.Prelude.Dict.{Dict, lookup-insert}
use xclaw.Prelude.Parse.{split}
use xclaw.Prelude.Result.{Result, ok, err}
use xclaw.Gateway.Reliability.{
  DedupeCache, is_live, purge, exists, ReliabilityManager, mark_outbound, mark, day,
}
use xclaw.Gateway.Events.{OutboundEvent, DlqItem, Binding, Config}
use xclaw.Gateway.Targets.{
  ResolvedTarget, resolve_target, named_target, event_target, bound_target, target_parts,
}
use xclaw.Gateway.Send.{is_blank, kept_last}

bound_error :
    (target : String) (b : Option Binding) (message : String)
    → bound_target target b ≡ err message
    → message ≡ "binding not found"
bound_error target none message e = cc
bound_error target (some b) message e = absurd cc

pub resolve_error :
    (cfg : Config) (bindings : Dict Binding) (last_targets : Dict String) (agent_id raw : String)
    (event : OutboundEvent) (message : String)
    → resolve_target cfg bindings last_targets agent_id raw event ≡ err message
    → message ≡ "binding not found"
unfolding resolve_target
resolve_error cfg bindings last_targets agent_id raw event message e =
    let target = named_target cfg last_targets agent_id raw event in
    from_binding (has_prefix target "binding:") _ (target_parts target (split 58 target))
      (event_target target event) (λ unbound. bound_error target _ message unbound) e
  where
    from_binding :
        (bound : Bool) (r : Result String ResolvedTarget) (parts : Option ResolvedTarget)
        (other : ResolvedTarget)
        → (r ≡ err message → message ≡ "binding not found")
        → (if bound then r else elim parts [ none ↦ ok other | some resolved ↦ ok resolved ])
          ≡ err message
        → message ≡ "binding not found"
    from_binding true r parts other f e = f e
    from_binding false r none other f e = absurd cc
    from_binding false r (some resolved) other f e = absurd cc

-- The last 2000 hold the one that came last.
pub kept_last-last :
    (n : ℕ) (items : List DlqItem) (item : DlqItem)
    → 0 < n
    → (front : List DlqItem) × (kept_last n (items ++ (item ∷ [])) ≡ front ++ (item ∷ []))
kept_last-last n items item some_room =
    let k = length (items ++ (item ∷ [])) - n in
    (
      drop k items,
      drop-append k items (item ∷ []) (omega (arith, length-append items (item ∷ []), some_room)),
    )

pub not_empty : (key : String) → is_blank key ≡ false → str_eq key "" ≡ false
unfolding trim_space
not_empty key some_key = elim (Bool-cases (str_eq key "")) [
  | inr e ↦ e
  | inl e ↦ absurd (blank (subst (λ k. is_blank k ≡ false) ((eq_iff key "").0 e) some_key))
]
  where
    blank : is_blank "" ≡ false → ⊥
    blank p = cc

pub mark-found :
    (now : ℕ) (key : String) (r : ReliabilityManager)
    → str_eq key "" ≡ false
    → Dict.lookup key (mark_outbound now key r).outbound_idem.items ≡ some (now + day)
unfolding mark_outbound mark
mark-found now key r some_text = rw (some_text, lookup-insert, eq_refl) refl

is_live-some :
    (now : ℕ) (until : Option ℕ) → is_live now until ≡ true → (u : ℕ) × (until ≡ some u) × (now < u)
is_live-some now none live = absurd cc
is_live-some now (some u) live = (u, refl, ground (arith, live))

-- A key that counts as sent is marked, up to a time that is to come.
pub exists-live :
    (now : ℕ) (key : String) (c : DedupeCache)
    → (exists now key c).0 ≡ true
    → (u : ℕ) × (Dict.lookup key (exists now key c).1.items ≡ some u) × (now < u)
unfolding exists
exists-live now key c live = elim (Bool-cases (str_eq key "")) [
  | inl e ↦ absurd (blank (rw (exists, e) at live))
  | inr e ↦
      rw (exists, e)
        (is_live-some now (Dict.lookup key (purge now c).items) (rw (exists, e) at live))
]
  where
    blank : false ≡ true → ⊥
    blank q = cc
