-- ===== src/Llm/Gateway/Ask.antt =====
-- What answers a prompt behind the cache: `generateLocal`, `generateOpenAI` and `generateAnthropic` of
-- cli/llm/gateway.go.
use Prim.Native.String.{len}
use xclaw.Prelude.{
  ℕ, ltb, Bool, false, ◌||◌, List, [], ◌∷◌, Option, none, some, String, str_eq, trim_space, ◌<>◌,
  ◌==◌, if◌then◌else◌,
}
use xclaw.Prelude.Dict
use xclaw.Prelude.Dict.{Dict}
use xclaw.Llm.Gateway.{ProviderConfig}
use xclaw.Llm.Gateway.Prompt.{lines}

-- The request that is sent: its body is the model, the content of the one message, and the bound.
pub record ApiRequest : Type 0 where
  pub url : String
  pub headers : List (String × String)
  pub model : String
  pub content : String
  pub max_tokens : ℕ
  pub stream : Bool

-- No request, no answer, no body, or an answer with its status and body.
pub data HttpReply : Type 0 where
  uncreated failed unread : HttpReply
  answered : ℕ → String → HttpReply

pub data GenerateError : Type 0 where
  prompt_is_empty unknown_provider create_request do_request read_response read_stream
        decode_response no_choices :
      GenerateError
  api_error : ℕ → String → GenerateError

pub data Reply : Type 0 where
  ok : String → Reply
  err : GenerateError → Reply

abbrev last_line : List String → String
last_line [] = ""
last_line (l ∷ []) = l
last_line (l ∷ k ∷ ls) = last_line (k ∷ ls)

unfoldable pub generate_local : String → String → Reply
generate_local model prompt =
    let p = trim_space prompt in
    let name = if str_eq model "" then "local-reasoner" else model in
    if str_eq p ""
    then err prompt_is_empty
    else ok (
        "执行结论：\n"
        <> "1. 已完成对输入任务的结构化分析。\n"
        <> "2. 已按当前策略执行必要动作并记录审计。\n"
        <> "3. 如需更高质量答案，请在设置中配置外部模型凭证。\n\n"
        <> "上下文回显："
        <> last_line (lines p)
        <> "\n\n模型："
        <> "local/"
        <> name)

-- The texts in the decoded body; the first is the answer.
abbrev first_text : Option (List String) → Reply
first_text none = err decode_response
first_text (some []) = err no_choices
first_text (some (text ∷ texts)) = ok text

abbrev read_reply : (String → Option (List String)) → HttpReply → Reply
read_reply texts uncreated = err create_request
read_reply texts failed = err do_request
read_reply texts unread = err read_response
read_reply texts (answered status body) =
    if status == 200 then first_text (texts body) else err (api_error status body)

-- A line that was read from a streamed body, up to its newline, or an error in its place. The body
-- ends with the list; what stands behind the last newline is not handed on.
pub data StreamRead : Type 0 where
  line : String → StreamRead
  read_failed : StreamRead

pub data StreamReply : Type 0 where
  unrequested unanswered : StreamReply
  refused : ℕ → String → StreamReply
  streamed : List StreamRead → StreamReply

-- What the gateway uses of the outside, by the number of an event where the time matters: the HTTP
-- client, the readers of the bodies and of the streamed events, the hash of the first bytes of a text, and the clock.
pub record Outside : Type 0 where
  pub post : ℕ → ApiRequest → HttpReply
  pub openai_texts : String → Option (List String)
  pub anthropic_texts : String → Option (List String)
  pub open_stream : ℕ → ApiRequest → StreamReply
  pub openai_deltas : String → Option (List String)
  pub anthropic_delta : String → Option (String × String)
  pub sha1_hex : String → ℕ → String
  pub clock : ℕ → ℕ

module _ (out : Outside) where
  unfoldable pub prefix_hash : String → String
  prefix_hash prompt =
      let p = trim_space prompt in out.sha1_hex p (if ltb 1800 (len p) then 1800 else len p)

  unfoldable pub generate_openai : ℕ → ProviderConfig → String → String → Reply
  unfolding prefix_hash
  generate_openai event cfg model prompt = read_reply out.openai_texts (
      out.post event (record {
        url = cfg.base_url <> "/v1/chat/completions";
        headers =
            ("Content-Type", "application/json")
            ∷ ("Authorization", "Bearer " <> cfg.api_key)
            ∷ ("X-Prompt-Cache-Key", prefix_hash prompt)
            ∷ [];
        model = model;
        content = prompt;
        max_tokens = 4096;
        stream = false;
      }))

  unfoldable pub generate_anthropic : ℕ → ProviderConfig → String → String → Reply
  generate_anthropic event cfg model prompt = read_reply out.anthropic_texts (
      out.post event (record {
        url = cfg.base_url <> "/v1/messages";
        headers =
            ("Content-Type", "application/json")
            ∷ ("x-api-key", cfg.api_key)
            ∷ ("anthropic-version", "2023-06-01")
            ∷ ("anthropic-beta", "prompt-caching-2024-07-31")
            ∷ [];
        model = model;
        content = prompt;
        max_tokens = 4096;
        stream = false;
      }))

  abbrev pub mapped_model : ProviderConfig → String → String
  mapped_model cfg model = elim (Dict.lookup model cfg.model_map) [ none ↦ model | some m ↦ m ]

  -- The part of Generate behind the look-up in the cache.
  unfoldable pub ask : ℕ → Dict ProviderConfig → String → String → String → Reply
  unfolding generate_local generate_openai generate_anthropic
  ask event providers provider model prompt =
      if str_eq provider "" || str_eq provider "local"
      then generate_local model prompt
      else elim (Dict.lookup provider providers) [
        | none ↦ err unknown_provider
        | some cfg ↦
            if str_eq provider "anthropic"
            then generate_anthropic event cfg (mapped_model cfg model) prompt
            else generate_openai event cfg (mapped_model cfg model) prompt
      ]
