-- ===== src/Llm/TokenMonitor/Examples.antt =====
-- A monitor with two agents.
use xclaw.Prelude.{ℕ, ◌+◌, ◌*◌, ◌≡◌, refl, true, [], ◌∷◌, some, String}
use xclaw.Prelude.Dict
use xclaw.Prelude.Int.{pos, leb_ℕ}
use xclaw.Scheduler.Calendar.{day_length}
use xclaw.Llm.TokenMonitor.{
  TokenUsage, TokenMonitor, new_token_monitor, set_limit, check_limit, used_since,
}
use xclaw.Llm.TokenMonitor.Usage.{generate_request, stream_request, requests, limit_not_reached}

abbrev usage : String → ℕ → ℕ → TokenUsage
usage agent tokens timestamp = record {
  provider = "p";
  model = "m";
  prompt_tokens = tokens;
  completion_tokens = 0;
  total_tokens = tokens;
  timestamp = timestamp;
  session_id = "s";
  agent_id = agent;
}

abbrev monitor : TokenMonitor
monitor = record {
  history =
      usage "a" 5 day_length
      ∷ usage "b" 7 (20 * day_length)
      ∷ usage "a" 9 (20 * day_length + 1)
      ∷ [];
  limits = ("a", pos 9) ∷ [];
}

-- Nine tokens on the twentieth day reach a limit of nine.
reached : check_limit (20 * day_length + 100) "a" monitor ≡ (true, 9, pos 9)
unfolding check_limit used_since Dict.lookup
reached = refl

limit_not_reached_example :
    check_limit 9 "a" (
      requests
        (λ text. 50)
        (generate_request 3 "p" "m" "hi" (some "there")
          ∷ stream_request 4 "p" "m" "hi" ("a" ∷ "b" ∷ []) true
          ∷ [])
        (set_limit "a" (pos 60) new_token_monitor))
    ≡ (leb_ℕ (pos 60) 0, 0, pos 60)
limit_not_reached_example =
    limit_not_reached (λ text. 50)
      (generate_request 3 "p" "m" "hi" (some "there")
        ∷ stream_request 4 "p" "m" "hi" ("a" ∷ "b" ∷ []) true
        ∷ [])
      9 "a" (pos 60) refl
