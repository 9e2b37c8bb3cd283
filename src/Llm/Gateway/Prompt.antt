-- ===== src/Llm/Gateway/Prompt.antt =====
-- What the gateway to the language models cuts from a long prompt: the texts that `compressPrompt` and
-- `summarizePrompt` of cli/llm/gateway.go make.
use Prim.Native.Nat.{min, max}
use xclaw.Prelude.{◌-◌, Bool, List, length, take, drop, String, trim_space, ◌<>◌, ltb}
use xclaw.Prelude.Parse.{split, join}
use xclaw.Llm.Gateway.{count_tokens}

abbrev pub lines : String → List String
lines prompt = split 10 prompt

-- lines[120 : len(lines)-80]
abbrev pub middle_lines : List String → List String
middle_lines ls = take (length ls - 80 - 120) (drop 120 ls)

-- The prompt that asks for a summary.
unfoldable pub summary_prompt : List String → String
summary_prompt middle = "请将以下对话历史压缩为简洁摘要，保留关键信息和决策点，不超过 800 字：\n\n" <> join "\n" middle

-- The prompt with a summary in the place of its middle.
unfoldable pub with_summary : List String → String → String
with_summary ls summary =
    join "\n" (take 120 ls)
    <> "\n\n[...历史上下文摘要...]\n"
    <> trim_space summary
    <> "\n\n[...最新上下文...]\n"
    <> join "\n" (drop (length ls - 80) ls)

-- The first and the last lines alone.
unfoldable pub compact : List String → String
compact ls =
    let head_count = min 120 (length ls) in
    join "\n" (take head_count ls)
    <> "\n\n[...历史上下文已压缩...]\n\n"
    <> join "\n" (drop (max (length ls - 80) head_count) ls)

abbrev pub is_long : String → Bool
is_long prompt = ltb 6000 (count_tokens prompt)
