-- ===== src/Llm/Gateway.antt =====
-- The gateway to the language models: cli/llm/gateway.go. This file has its state, the routing of a
-- prompt to a model and the cache; the children have the rest.
use Prim.Native.Char.{code}
use Prim.Native.String.{len}
use xclaw.Prelude.{
  ℕ, zero, suc, ◌+◌, ◌-◌, ◌*◌, ◌/◌, ◌^◌, Bool, true, false, ◌&&◌, ◌||◌, not, List, [], ◌∷◌, length,
  Option, none, some, String, str_eq, has_prefix, contains_text, to_lower, trim_space, ◌<>◌, leb,
  ltb, ◌==◌, if◌then◌else◌,
}
use xclaw.Prelude.Dict
use xclaw.Prelude.Dict.{Dict}
pub mod Prompt
pub mod Ask
pub mod Generate
pub mod Stream
pub mod Fresh
pub mod Recent
pub mod Origin
pub mod Enough
mod Examples

-- A nil map is an empty one.
pub record ProviderConfig : Type 0 where
  pub base_url : String
  pub api_key : String
  pub model_map : Dict String

-- The bounds are Go `int`s: 0 stands for every value that is not positive.
pub record RoutingConfig : Type 0 where
  pub enabled : Bool
  pub low_complexity_max : ℕ
  pub medium_complexity : ℕ
  pub hard_keywords : List String
  pub complexity_weights : List String

pub record CachedResponse : Type 0 where
  pub response : String
  pub expires : ℕ

pub record LocalGateway : Type 0 where
  pub providers : Dict ProviderConfig
  pub route_model : Bool
  pub routing : RoutingConfig
  pub cache : Dict CachedResponse
  pub cache_hits : ℕ
  pub cache_misses : ℕ

abbrev pub new_local_gateway : LocalGateway
new_local_gateway = record {
  providers = [];
  route_model = true;
  routing = record {
    enabled = true;
    low_complexity_max = 8;
    medium_complexity = 18;
    hard_keywords =
        "架构" ∷ "重构" ∷ "并发" ∷ "安全" ∷ "优化" ∷ "多步骤" ∷ "多代理" ∷ "算法" ∷ "benchmark" ∷ "debug" ∷ "incident"
        ∷ "root cause" ∷ "distributed" ∷ [];
    complexity_weights = [];
  };
  cache = [];
  cache_hits = 0;
  cache_misses = 0;
}

unfoldable pub register_provider : String → ProviderConfig → LocalGateway → LocalGateway
register_provider name cfg g = record g { providers = Dict.insert name cfg g.providers }

-- The keys of the set `seen`.
abbrev has_key : List String → String → Bool
has_key [] key = false
has_key (k ∷ seen) key = str_eq k key || has_key seen key

-- The loop of normalizeKeywords: what it appends to `out`, with the set `seen` so far.
unfoldable pub keywords_from : List String → List String → List String
keywords_from [] seen = []
keywords_from (item ∷ items) seen =
    let word = trim_space item in
    let key = to_lower word in
    let skip = keywords_from items seen in
    let keep = word ∷ keywords_from items (key ∷ seen) in
    if str_eq word "" then skip else if has_key seen key then skip else keep

unfoldable pub normalize_keywords : List String → List String
unfolding keywords_from
normalize_keywords items = keywords_from items []

unfoldable pub set_routing_config : RoutingConfig → LocalGateway → LocalGateway
set_routing_config cfg g =
    let low = if cfg.low_complexity_max == 0 then 8 else cfg.low_complexity_max in
    record g {
      routing = record cfg {
        low_complexity_max = low;
        medium_complexity =
            if leb cfg.medium_complexity low then low + 10 else cfg.medium_complexity;
        hard_keywords = normalize_keywords cfg.hard_keywords;
      };
    }

-- A copy of the configuration.
abbrev pub get_routing_config : LocalGateway → RoutingConfig
get_routing_config g = g.routing

-- `len` is the number of bytes.
abbrev pub count_tokens : String → ℕ
count_tokens text = len text / 4

-- strings.Count(s, "\n")
unfoldable pub newlines : String → ℕ
newlines String.[] = 0
newlines (String.◌∷◌ c s) = if code c == 10 then suc (newlines s) else newlines s

-- The loop over the keywords; `lower` is the prompt in lower case.
unfoldable pub keyword_score : String → List String → ℕ
keyword_score lower [] = 0
keyword_score lower (kw ∷ keywords) =
    let rest = keyword_score lower keywords in
    if str_eq kw "" then rest else if contains_text lower (to_lower kw) then 3 + rest else rest

abbrev tool_names : List String
tool_names =
    "list_dir" ∷ "read_file" ∷ "write_file" ∷ "search_text" ∷ "exec_cmd" ∷ "spawn_subagent"
    ∷ "delegate_to_subagent" ∷ "list_subagents" ∷ "terminate_subagent" ∷ "image_generate" ∷ []

-- The pattern is a raw string with two backslashes, so it asks for a backslash and a `b` on either side
-- of the name. The length of what it matches at the front, or 0.
abbrev first_mention : List String → String → ℕ
first_mention [] s = 0
first_mention (name ∷ names) s =
    let mention = "\\b" <> name <> "\\b" in
    if has_prefix s mention then len mention else first_mention names s

-- The number of matches that FindAllString finds, from left to right, after `skip` characters.
unfoldable pub mentions : ℕ → String → ℕ
mentions skip String.[] = 0
mentions zero (String.◌∷◌ c s) =
    let found = first_mention tool_names (String.◌∷◌ c s) in
    let here = suc (mentions (found - 1) s) in
    let later = mentions 0 s in if found == 0 then later else here
mentions (suc skip) (String.◌∷◌ c s) = mentions skip s

unfoldable pub complexity_score : String → RoutingConfig → ℕ
unfolding keyword_score mentions newlines
complexity_score prompt cfg =
    let lower = to_lower prompt in
    count_tokens prompt / 400
    + keyword_score lower cfg.hard_keywords
    + mentions 0 lower
    + (if ltb 160 (newlines prompt) then 4 else 0)

unfoldable pub route : LocalGateway → String → String → String
unfolding complexity_score
route g model prompt =
    let cfg = get_routing_config g in
    let score = complexity_score prompt cfg in
    if not (str_eq (trim_space model) "") || not g.route_model
    then model
    else if not cfg.enabled
    then "standard"
    else if leb score cfg.low_complexity_max
    then "mini"
    else if leb score cfg.medium_complexity
    then "standard"
    else "advanced"

-- time.Now().After(item.Expires)
abbrev pub is_stale : ℕ → CachedResponse → Bool
is_stale now item = ltb item.expires now

unfoldable pub get_cached : ℕ → String → LocalGateway → Option String × LocalGateway
get_cached now key g = elim (Dict.lookup key g.cache) [
  | none ↦ (none, record g { cache_misses = suc g.cache_misses })
  | some item ↦
      if is_stale now item
      then (none, record g { cache = Dict.erase key g.cache; cache_misses = suc g.cache_misses })
      else (some item.response, record g { cache_hits = suc g.cache_hits })
]

abbrev pub cache_time : ℕ
cache_time = 5 * 60 * 10 ^ 9

-- `now` stamps the entry; the cleaning of a large cache reads the clock again.
unfoldable pub put_cached : ℕ → ℕ → String → String → LocalGateway → LocalGateway
put_cached now later key response g =
    let cache =
      Dict.insert key (record { response = response; expires = now + cache_time }) g.cache in
    record g {
      cache = if ltb 2048 (length cache) then Dict.remove_if (is_stale later) cache else cache;
    }

-- The rate of the hits is the pair of the hits and the requests.
pub record CacheMetrics : Type 0 where
  pub hits : ℕ
  pub misses : ℕ
  pub total_requests : ℕ
  pub hit_rate : ℕ × ℕ
  pub token_saved : ℕ
  pub alert_low_rate : Bool

unfoldable pub get_cache_metrics : LocalGateway → CacheMetrics
get_cache_metrics g =
    let total = g.cache_hits + g.cache_misses in
    record {
      hits = g.cache_hits;
      misses = g.cache_misses;
      total_requests = total;
      hit_rate = (g.cache_hits, total);
      token_saved = g.cache_hits * 800;
      alert_low_rate = leb 20 total && ltb (10 * g.cache_hits) (8 * total);
    }
