-- ===== src/Llm/TokenMonitor/Usage.antt =====
-- What the monitor's history holds, and what the monitored gateway adds to it.
use xclaw.Prelude.{
  ℕ, zero, suc, ◌+◌, ◌-◌, ◌≤◌, ◌≡◌, refl, ap, sym, ◌∙◌, Bool, true, false, List, [], ◌∷◌, ◌++◌,
  Option, none, some, String, str_eq, eq_refl, length, drop, length-drop, length-append, ltb, arith,
  Bool-cases, inl, inr,
}
use mathlib.Core.List.{append-nil, append_assoc}
use xclaw.Prelude.Dict as Dict
use xclaw.Prelude.Int.{ℤ, leb_ℕ}
use xclaw.Llm.TokenMonitor.{
  TokenUsage, TokenMonitor, new_token_monitor, max_history, trimmed, record_usage, today,
  used_since, check_limit, set_limit, generate, generate_stream, estimated, joined,
}

trimmed-drop : (max : ℕ) (us : List TokenUsage) → trimmed max us ≡ drop (length us - max) us
unfolding trimmed
trimmed-drop max us = elim (Bool-cases (ltb max (length us))) [
  | inl long ↦ rw long refl
  | inr short ↦ let none_left : length us - max ≡ 0 = ground arith in rw (short, none_left) refl
]

drop-nil : (n : ℕ) → drop {A = TokenUsage} n [] ≡ []
drop-nil zero = refl
drop-nil (suc n) = refl

drop-drop : (a b : ℕ) (us : List TokenUsage) → drop a (drop b us) ≡ drop (b + a) us
drop-drop a zero us = ap (λ (n : ℕ). drop n us) (omega arith)
drop-drop a (suc b) [] = drop-nil a ∙ sym (drop-nil (suc b + a))
drop-drop a (suc b) (u ∷ us) =
    let same : suc (b + a) ≡ suc b + a = omega arith in
    drop-drop a b us ∙ ap (λ (n : ℕ). drop n (u ∷ us)) same

drop-snoc :
    (k : ℕ) (us : List TokenUsage) (u : TokenUsage)
    → k ≤ length us
    → drop k us ++ u ∷ [] ≡ drop k (us ++ u ∷ [])
drop-snoc zero us u fits = refl
drop-snoc (suc k) [] u fits = ground arith
drop-snoc (suc k) (v ∷ us) u fits = drop-snoc k us u (omega arith)

-- To trim before a usage is added makes no difference.
trimmed-snoc :
    (max : ℕ) (us : List TokenUsage) (u : TokenUsage)
    → trimmed max (trimmed max us ++ u ∷ []) ≡ trimmed max (us ++ u ∷ [])
trimmed-snoc max us u =
    let k = length us - max in
    let kept = drop k us ++ u ∷ [] in
    let more = length-append us (u ∷ []) in
    let more' = length-append (drop k us) (u ∷ []) in
    let left = length-drop k us in
    let same : k + (length kept - max) ≡ length (us ++ u ∷ []) - max = omega arith in
    ap (λ (vs : List TokenUsage). trimmed max (vs ++ u ∷ [])) (trimmed-drop max us)
    ∙ trimmed-drop max kept
    ∙ ap (drop (length kept - max)) (drop-snoc k us u (omega arith))
    ∙ drop-drop (length kept - max) k (us ++ u ∷ [])
    ∙ ap (λ (n : ℕ). drop n (us ++ u ∷ [])) same
    ∙ sym (trimmed-drop max (us ++ u ∷ []))

-- Record, one usage after the other.
unfoldable pub record_all : List TokenUsage → TokenMonitor → TokenMonitor
unfolding record_usage
record_all [] m = m
record_all (u ∷ us) m = record_all us (record_usage u m)

record_all-from :
    (us before : List TokenUsage) (m : TokenMonitor)
    → m.history ≡ trimmed max_history before
    → (record_all us m).history ≡ trimmed max_history (before ++ us)
unfolding record_all
record_all-from [] before m e = e ∙ ap (trimmed max_history) (sym (append-nil before))
record_all-from (u ∷ us) before m e =
    record_all-from us (before ++ u ∷ []) (record_usage u m) (
      ap (λ (h : List TokenUsage). trimmed max_history (h ++ u ∷ [])) e
      ∙ trimmed-snoc max_history before u)
    ∙ ap (trimmed max_history) (append_assoc before (u ∷ []) us)

-- The history of a new monitor after any usages is the last 10000 of them, in order.
pub record_all-history :
    (us : List TokenUsage) → (record_all us new_token_monitor).history ≡ trimmed max_history us
unfolding trimmed
record_all-history us = record_all-from us [] new_token_monitor refl

used-append :
    (start : ℕ) (agent : String) (us vs : List TokenUsage)
    → used_since start agent (us ++ vs) ≡ used_since start agent us + used_since start agent vs
unfolding used_since
used-append start agent [] vs = omega arith
used-append start agent (u ∷ us) vs = let rest = used-append start agent us vs in ground arith

used-drop :
    (start : ℕ) (agent : String) (n : ℕ) (us : List TokenUsage)
    → used_since start agent (drop n us) ≤ used_since start agent us
unfolding used_since
used-drop start agent zero us = omega arith
used-drop start agent (suc n) [] = omega arith
used-drop start agent (suc n) (u ∷ us) = let rest = used-drop start agent n us in ground arith

-- A request of the monitored gateway, and the inner gateway's answer to it: of Generate, with `none`
-- for an error, or of GenerateStream.
pub data Request : Type 0 where
  generate_request : ℕ → String → String → String → Option String → Request
  stream_request : ℕ → String → String → String → List String → Bool → Request

unfoldable pub request : (String → ℕ) → Request → TokenMonitor → TokenMonitor
unfolding generate generate_stream
request count (generate_request now provider model prompt reply) m =
    (generate count now provider model prompt reply m).1
request count (stream_request now provider model prompt chunks succeeds) m =
    (generate_stream count now provider model prompt chunks succeeds m).1

unfoldable pub requests : (String → ℕ) → List Request → TokenMonitor → TokenMonitor
unfolding request
requests count [] m = m
requests count (r ∷ rs) m = requests count rs (request count r m)

estimated-uncounted :
    (count : String → ℕ) (start now : ℕ) (agent provider model prompt reply : String)
    (m : TokenMonitor)
    → str_eq "" agent ≡ false
    → used_since start agent
        (record_usage (estimated count now provider model prompt reply) m).history
      ≤ used_since start agent m.history
unfolding record_usage used_since
estimated-uncounted count start now agent provider model prompt reply m named =
    let u = estimated count now provider model prompt reply in
    let longer = m.history ++ u ∷ [] in
    let n = length longer - max_history in
    let all = used-append start agent m.history (u ∷ []) in
    let kept = used-drop start agent n longer in rw (trimmed-drop max_history longer) (ground arith)

request-uncounted :
    (count : String → ℕ) (start : ℕ) (agent : String) (r : Request) (m : TokenMonitor)
    → str_eq "" agent ≡ false
    → used_since start agent (request count r m).history ≤ used_since start agent m.history
unfolding request generate generate_stream
request-uncounted count start agent (generate_request now provider model prompt none) m named =
    omega arith
request-uncounted count start agent (generate_request now provider model prompt (some reply)) m
      named =
    estimated-uncounted count start now agent provider model prompt reply m named
request-uncounted count start agent (stream_request now provider model prompt chunks false) m
      named =
    omega arith
request-uncounted count start agent (stream_request now provider model prompt chunks true) m named =
    estimated-uncounted count start now agent provider model prompt (joined chunks) m named

requests-uncounted :
    (count : String → ℕ) (start : ℕ) (agent : String) (rs : List Request) (m : TokenMonitor)
    → str_eq "" agent ≡ false
    → used_since start agent (requests count rs m).history ≤ used_since start agent m.history
unfolding requests
requests-uncounted count start agent [] m named = omega arith
requests-uncounted count start agent (r ∷ rs) m named =
    let first = request-uncounted count start agent r m named in
    let rest = requests-uncounted count start agent rs (request count r m) named in omega arith

requests-limits :
    (count : String → ℕ) (rs : List Request) (m : TokenMonitor)
    → (requests count rs m).limits ≡ m.limits
unfolding requests request generate generate_stream record_usage
requests-limits count [] m = refl
requests-limits count (generate_request now provider model prompt none ∷ rs) m =
    requests-limits count rs m
requests-limits count (generate_request now provider model prompt (some reply) ∷ rs) m =
    requests-limits count rs (record_usage (estimated count now provider model prompt reply) m)
requests-limits count (stream_request now provider model prompt chunks false ∷ rs) m =
    requests-limits count rs m
requests-limits count (stream_request now provider model prompt chunks true ∷ rs) m =
    requests-limits count rs
      (record_usage (estimated count now provider model prompt (joined chunks)) m)

-- The tokens of the requests through the monitored gateway count for no agent that has a name: on a
-- new monitor with any limit for it, CheckLimit finds none used, whatever the requests were.
pub limit_not_reached :
    (count : String → ℕ) (rs : List Request) (now : ℕ) (agent : String) (limit : ℤ)
    → str_eq "" agent ≡ false
    → check_limit now agent (requests count rs (set_limit agent limit new_token_monitor))
      ≡ (leb_ℕ limit 0, 0, limit)
unfolding check_limit set_limit used_since
limit_not_reached count rs now agent limit named =
    let m = set_limit agent limit new_token_monitor in
    let bound = requests-uncounted count (today now) agent rs m named in
    let unused : used_since (today now) agent (requests count rs m).history ≡ 0 = omega arith in
    rw
      (
        check_limit,
        requests-limits count rs m,
        Dict.lookup-insert agent agent limit [],
        eq_refl agent,
        unused,
      )
      refl
