-- ===== src/Llm/Gateway/Examples.antt =====
-- The gateway to the language models on concrete calls, and its theorems there.
use xclaw.Prelude.{
  ◌+◌, ◌≤◌, ◌≡◌, arith, refl, [], ◌∷◌, none, some, String, trim_space, to_lower, contains_text,
}
use xclaw.Prelude.Dict
use xclaw.Llm.Gateway.{
  LocalGateway, CachedResponse, new_local_gateway, route, get_cached, put_cached, complexity_score,
  newlines, keyword_score, mentions, cache_time,
}
use xclaw.Llm.Gateway.Ask.{Outside, answered, unanswered, Reply, ok, ask, generate_openai}
use xclaw.Llm.Gateway.Generate.{
  Outcome, cache_key, stored, looked_up, answer, compress_prompt, generate,
}
use xclaw.Llm.Gateway.Recent.{IsRecent}
use xclaw.Llm.Gateway.Origin.{generate_all, generated-IsRecent}
use xclaw.Llm.Gateway.Enough.{generate_returns}

-- A client that is answered "hi" at once; each event is a nanosecond after the one before, and a text
-- is its own hash.
abbrev friendly : Outside
friendly = record {
  post = λ event request. answered 200 "hi";
  openai_texts = λ body. some (body ∷ []);
  anthropic_texts = λ body. none;
  open_stream = λ event request. unanswered;
  openai_deltas = λ event. none;
  anthropic_delta = λ event. none;
  sha1_hex = λ text n. text;
  clock = λ event. event;
}

abbrev one_provider : LocalGateway
one_provider = record new_local_gateway {
  providers = ("p", record { base_url = "http://p"; api_key = "k"; model_map = [] }) ∷ [];
}

abbrev hi_kept : CachedResponse
hi_kept = record { response = "hi"; expires = 2 + cache_time }

abbrev asked_once : LocalGateway
asked_once = record one_provider { cache = ("p|m|hello", hi_kept) ∷ []; cache_misses = 1 }

abbrev asked_twice : LocalGateway
asked_twice = record asked_once { cache_hits = 1 }

-- The names of tools do not count.
tools_uncounted : complexity_score "read_file, then write_file" new_local_gateway.routing ≡ 0
unfolding complexity_score newlines keyword_score mentions to_lower contains_text
tools_uncounted = refl

first_call :
    generate_all friendly 1 (("p", "m", "hello") ∷ []) 0 one_provider ≡ some (4, asked_once)
unfolding generate_all generate compress_prompt answer looked_up stored get_cached put_cached route
    cache_key ask generate_openai Dict.lookup Dict.insert trim_space complexity_score newlines
    keyword_score mentions to_lower contains_text
first_call = refl

second_call : generate friendly 2 "p" "m" "hello" 4 asked_once ≡ some (ok "hi", 5, asked_twice)
unfolding generate compress_prompt answer looked_up get_cached route cache_key Dict.lookup
    trim_space complexity_score newlines keyword_score mentions to_lower contains_text
second_call = refl

generated-IsRecent_example :
    (sent : Outcome String) × (compress_prompt
        (λ p t. generate friendly 1 p "mini" t 4 asked_once)
        "hello"
        4
        asked_once
      ≡ some sent)
    × (4 ≤ sent.1)
    × IsRecent friendly one_provider.providers sent.1 5
        (cache_key friendly "p" (route sent.2 "m" sent.0) sent.0)
        "hi"
generated-IsRecent_example =
    generated-IsRecent friendly 1 (("p", "m", "hello") ∷ []) one_provider asked_once asked_twice "p"
      "m" "hello" "hi" 4 5 (λ a b h. h) refl first_call second_call

generate_returns_example :
    (o : Outcome Reply) × (generate friendly 1 "p" "m" "hello" 0 one_provider ≡ some o)
unfolding newlines
generate_returns_example = generate_returns friendly 1 "p" "m" "hello" 0 one_provider (omega arith)
