-- ===== src/Gateway/Stream.antt =====
-- Streaming of replies: the mode, the division into chunks, and stream sessions
-- (cli/gateway/stream.go). Sizes and counts are Go `int`s, and 0 stands for every value below it too.
-- A text that is cut at byte positions is the list of its bytes.
pub mod Chunks
mod Examples
use xclaw.Prelude.{
  ℕ, zero, suc, ◌+◌, ◌-◌, ◌/◌, Bool, true, false, ◌&&◌, ◌||◌, not, List, [], ◌∷◌, ◌++◌, length,
  take, drop, Option, none, some, String, str_eq, leb, ltb, ◌==◌, if◌then◌else◌,
}
use xclaw.Prelude.Dict
use xclaw.Prelude.Dict.{Dict}

abbrev pub Bytes : Type 0
Bytes = List ℕ

abbrev pub mode_edit : String
mode_edit = "edit"

abbrev pub mode_chunk : String
mode_chunk = "chunk"

abbrev pub mode_replace : String
mode_replace = "replace"

pub record StreamConfig : Type 0 where
  pub mode : String
  pub chunk_size : ℕ
  pub edit_window_ms : ℕ
  pub max_edits_per_msg : ℕ
  pub auto_mode : Bool

abbrev pub default_stream_config : StreamConfig
default_stream_config = record {
  mode = mode_edit;
  chunk_size = 3500;
  edit_window_ms = 3000;
  max_edits_per_msg = 30;
  auto_mode = true;
}

abbrev pub or_number : ℕ → ℕ → ℕ
or_number n d = if n == 0 then d else n

-- The configuration of the handler that NewStreamHandler makes.
unfoldable pub new_stream_handler : StreamConfig → StreamConfig
new_stream_handler cfg = record {
  mode = if str_eq cfg.mode "" then mode_edit else cfg.mode;
  chunk_size = or_number cfg.chunk_size 3500;
  edit_window_ms = or_number cfg.edit_window_ms 3000;
  max_edits_per_msg = or_number cfg.max_edits_per_msg 30;
  auto_mode = cfg.auto_mode;
}

unfoldable pub update_config : StreamConfig → StreamConfig → StreamConfig
update_config cfg h = record {
  mode = if str_eq cfg.mode "" then h.mode else cfg.mode;
  chunk_size = or_number cfg.chunk_size h.chunk_size;
  edit_window_ms = or_number cfg.edit_window_ms h.edit_window_ms;
  max_edits_per_msg = or_number cfg.max_edits_per_msg h.max_edits_per_msg;
  auto_mode = cfg.auto_mode;
}

-- The fields of CapabilityProfile (cli/gateway/types.go) that the gateway's text handling reads.
pub record CapabilityProfile : Type 0 where
  pub supports_streaming_text : Bool
  pub supports_edit : Bool
  pub supports_buttons : Bool
  pub supports_threads : Bool
  pub supports_typing : Bool
  pub supports_audio : Bool
  pub max_text_len : ℕ
  pub rate_limit_per_minute : ℕ

unfoldable pub select_mode : StreamConfig → CapabilityProfile → ℕ → ℕ → String
select_mode h cap text_len edit_count =
    if not h.auto_mode
    then h.mode
    else if not cap.supports_edit || leb h.max_edits_per_msg edit_count
    then (if cap.supports_streaming_text then mode_chunk else mode_replace)
    else if ltb 0 cap.max_text_len && ltb cap.max_text_len text_len
    then mode_chunk
    else mode_edit

pub record StreamChunk : Type 0 where
  pub index : ℕ
  pub mode : String
  pub content : Bytes
  pub finished : Bool

-- strings.LastIndex(s, string(b)); `none` is -1.
unfoldable pub last_index : ℕ → Bytes → Option ℕ
last_index b [] = none
last_index b (x ∷ xs) = elim (last_index b xs) [
  | some i ↦ some (suc i)
  | none ↦ if x == b then some 0 else none
]

-- Where a chunk of `text[pos:]` ends: behind the last newline if that lies beyond the half.
unfoldable pub newline_end : ℕ → ℕ → Option ℕ → ℕ
newline_end max_size end none = end
newline_end max_size end (some i) = if ltb (max_size / 2) i then i + 1 else end

unfoldable pub chunk_end : ℕ → Bytes → ℕ
unfolding newline_end
chunk_end max_size rest =
    if ltb max_size (length rest)
    then newline_end max_size max_size (last_index b'\n' (take max_size rest))
    else length rest

-- What one round appends.
abbrev pub chunk_at : ℕ → Bytes → ℕ → StreamChunk
chunk_at max_size rest idx =
    let end = chunk_end max_size rest in
    record { index = idx; mode = ""; content = take end rest; finished = leb (length rest) end }

-- The loop over `pos`: `rest` is `text[pos:]`. Each round takes a byte at least, so the text's length
-- is fuel enough.
unfoldable pub chunk_loop : ℕ → ℕ → Bytes → ℕ → List StreamChunk
chunk_loop zero max_size rest idx = []
chunk_loop (suc fuel) max_size [] idx = []
chunk_loop (suc fuel) max_size (b ∷ rest) idx =
    chunk_at max_size (b ∷ rest) idx
    ∷ chunk_loop fuel max_size (drop (chunk_end max_size (b ∷ rest)) (b ∷ rest)) (idx + 1)

-- The size that ChunkText goes by.
abbrev pub effective_size : StreamConfig → ℕ → ℕ
effective_size h max_size = or_number (or_number max_size h.chunk_size) 3500

unfoldable pub chunk_text : StreamConfig → Bytes → ℕ → List StreamChunk
chunk_text h text max_size =
    let size = effective_size h max_size in
    let chunks = chunk_loop (length text) size text 0 in
    if leb (length text) size
    then record { index = 0; mode = ""; content = text; finished = true } ∷ []
    else chunks

pub record StreamSession : Type 0 where
  pub id : String
  pub mode : String
  pub chunks : List StreamChunk
  pub edit_count : ℕ
  pub started_at : ℕ
  pub updated_at : ℕ

abbrev pub Sessions : Type 0
Sessions = Dict StreamSession

unfoldable pub start : ℕ → ℕ → String → String → Sessions → Sessions
start started updated id mode m =
    Dict.insert id
      (record {
        id = id;
        mode = mode;
        chunks = [];
        edit_count = 0;
        started_at = started;
        updated_at = updated;
      })
      m

abbrev pub appended : ℕ → StreamChunk → StreamSession → StreamSession
appended now chunk sess = record sess {
  chunks = sess.chunks ++ chunk ∷ [];
  updated_at = now;
  edit_count = if str_eq chunk.mode mode_edit then sess.edit_count + 1 else sess.edit_count;
}

-- The session is a pointer: what is changed is what the map holds.
unfoldable pub append_chunk : ℕ → String → StreamChunk → Sessions → Sessions
append_chunk now id chunk m = elim (Dict.lookup id m) [
  | none ↦ m
  | some sess ↦ Dict.insert id (appended now chunk sess) m
]

unfoldable pub finish : ℕ → String → Sessions → Sessions
finish now id m = elim (Dict.lookup id m) [
  | none ↦ m
  | some sess ↦ Dict.insert id (record sess { updated_at = now }) m
]

unfoldable pub cleanup : ℕ → ℕ → Sessions → Sessions
cleanup now max_age m = Dict.remove_if (λ sess. ltb max_age (now - sess.updated_at)) m
