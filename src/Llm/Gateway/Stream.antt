-- ===== src/Llm/Gateway/Stream.antt =====
-- Streamed answers: `GenerateStream`, `generateOpenAIStream` and `generateAnthropicStream` of
-- cli/llm/gateway.go. A run gives the chunks that the handler gets, in order, and the error, if any.
use Prim.Native.String.{len, slice}
use xclaw.Prelude.{
  ℕ, suc, true, ◌||◌, List, [], ◌∷◌, Option, none, some, String, str_eq, has_prefix, trim_space,
  ◌<>◌, if◌then◌else◌,
}
use xclaw.Prelude.Dict
use xclaw.Prelude.Dict.{Dict}
use xclaw.Llm.Gateway.{LocalGateway, ProviderConfig, route}
use xclaw.Llm.Gateway.Ask.{
  StreamRead, line, read_failed, StreamReply, unrequested, unanswered, refused, streamed,
  GenerateError, create_request, do_request, read_stream, api_error, unknown_provider, Reply, ok,
  err, Outside, prefix_hash, mapped_model, generate_local,
}
use xclaw.Llm.Gateway.Generate.{Outcome, compress_prompt, generate}

-- The chunks that the handler got, and the error that ended the stream.
abbrev pub Streamed : Type 0
Streamed = List String × Option GenerateError

abbrev with_chunk : Option String → Streamed → Streamed
with_chunk none rest = rest
with_chunk (some chunk) (chunks, e) = (chunk ∷ chunks, e)

-- The data of an event line; the prefix is 6 characters long.
unfoldable pub event_data : String → Option String
event_data raw =
    let trimmed = trim_space raw in
    if has_prefix trimmed "data: " then some (slice trimmed 6 (len trimmed)) else none

abbrev not_empty : String → Option String
not_empty text = if str_eq text "" then none else some text

abbrev first_delta : Option (List String) → Option String
first_delta none = none
first_delta (some []) = none
first_delta (some (text ∷ texts)) = not_empty text

abbrev content_delta : Option (String × String) → Option String
content_delta none = none
content_delta (some (kind, text)) =
    if str_eq kind "content_block_delta" then not_empty text else none

module _ (out : Outside) where
  -- The loop over an OpenAI stream ends at its closing event.
  unfoldable pub read_openai : List StreamRead → Streamed
  unfolding event_data
  read_openai [] = ([], none)
  read_openai (read_failed ∷ reads) = ([], some read_stream)
  read_openai (line raw ∷ reads) =
      let rest = read_openai reads in
      elim (event_data raw) [
        | none ↦ rest
        | some event ↦
            if str_eq event "[DONE]"
            then ([], none)
            else with_chunk (first_delta (out.openai_deltas event)) rest
      ]

  unfoldable pub read_anthropic : List StreamRead → Streamed
  unfolding event_data
  read_anthropic [] = ([], none)
  read_anthropic (read_failed ∷ reads) = ([], some read_stream)
  read_anthropic (line raw ∷ reads) =
      let rest = read_anthropic reads in
      elim (event_data raw) [
        | none ↦ rest
        | some event ↦ with_chunk (content_delta (out.anthropic_delta event)) rest
      ]

  abbrev read_stream_reply : (List StreamRead → Streamed) → StreamReply → Streamed
  read_stream_reply read unrequested = ([], some create_request)
  read_stream_reply read unanswered = ([], some do_request)
  read_stream_reply read (refused status body) = ([], some (api_error status body))
  read_stream_reply read (streamed reads) = read reads

  unfoldable pub stream_openai : ℕ → ProviderConfig → String → String → Streamed
  unfolding read_openai
  stream_openai event cfg model prompt = read_stream_reply read_openai (
      out.open_stream event (record {
        url = cfg.base_url <> "/v1/chat/completions";
        headers =
            ("Content-Type", "application/json")
            ∷ ("Authorization", "Bearer " <> cfg.api_key)
            ∷ ("Accept", "text/event-stream")
            ∷ ("X-Prompt-Cache-Key", prefix_hash out prompt)
            ∷ [];
        model = model;
        content = prompt;
        max_tokens = 4096;
        stream = true;
      }))

  unfoldable pub stream_anthropic : ℕ → ProviderConfig → String → String → Streamed
  unfolding read_anthropic
  stream_anthropic event cfg model prompt = read_stream_reply read_anthropic (
      out.open_stream event (record {
        url = cfg.base_url <> "/v1/messages";
        headers =
            ("Content-Type", "application/json")
            ∷ ("x-api-key", cfg.api_key)
            ∷ ("anthropic-version", "2023-06-01")
            ∷ ("anthropic-beta", "prompt-caching-2024-07-31")
            ∷ ("Accept", "text/event-stream")
            ∷ [];
        model = model;
        content = prompt;
        max_tokens = 4096;
        stream = true;
      }))

  abbrev whole : Reply → Streamed
  whole (ok text) = (text ∷ [], none)
  whole (err e) = ([], some e)

  unfoldable pub stream_from : ℕ → Dict ProviderConfig → String → String → String → Streamed
  unfolding stream_openai stream_anthropic
  stream_from event providers provider model prompt =
      if str_eq provider "" || str_eq provider "local"
      then whole (generate_local model prompt)
      else elim (Dict.lookup provider providers) [
        | none ↦ ([], some unknown_provider)
        | some cfg ↦
            if str_eq provider "anthropic"
            then stream_anthropic event cfg (mapped_model out cfg model) prompt
            else stream_openai event cfg (mapped_model out cfg model) prompt
      ]

  abbrev streamed_from : String → String → Option (Outcome String) → Option (Outcome Streamed)
  streamed_from provider model none = none
  streamed_from provider model (some (prompt, event, g)) =
      some (stream_from event g.providers provider (route g model prompt) prompt, suc event, g)

  -- The cache serves the summary of a long prompt alone.
  unfoldable pub generate_stream :
      ℕ → String → String → String → ℕ → LocalGateway → Option (Outcome Streamed)
  unfolding stream_from
  generate_stream fuel provider model prompt event g =
      streamed_from provider model
        (compress_prompt (λ p text. generate out fuel p "mini" text event g) prompt event g)
