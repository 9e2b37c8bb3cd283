-- ===== src/Gateway/Stream/Examples.antt =====
-- A concrete text in chunks.
use Prim.Native.Char.{code}
use Prim.Native.String.{String}
use xclaw.Prelude.{◌≡◌, refl, arith, [], ◌∷◌, map}
use xclaw.Gateway.Stream.{
  Bytes, StreamChunk, default_stream_config, chunk_text, chunk_loop, chunk_end, last_index,
  effective_size,
}
use xclaw.Gateway.Stream.Chunks.{joined, AllFit, Numbered, LastFinished, chunk_text_lem}

abbrev ascii : String → Bytes
ascii String.[] = []
ascii (String.◌∷◌ c s) = code c ∷ ascii s

abbrev content_of : StreamChunk → Bytes
content_of c = c.content

-- The second newline lies beyond the half of the first seven bytes, and the chunk ends there.
cut_at_newline :
    map content_of (chunk_text default_stream_config (ascii "a\nbcd\nefgh") 7)
    ≡ ascii "a\nbcd\n" ∷ ascii "efgh" ∷ []
unfolding chunk_text chunk_loop chunk_end last_index
cut_at_newline = refl

chunk_text_lem_example :
    (joined (chunk_text default_stream_config (ascii "a\nbcd\nefgh") 7) ≡ ascii "a\nbcd\nefgh")
    × AllFit
        (effective_size default_stream_config 7)
        (chunk_text default_stream_config (ascii "a\nbcd\nefgh") 7)
    × Numbered 0 (chunk_text default_stream_config (ascii "a\nbcd\nefgh") 7)
    × LastFinished (chunk_text default_stream_config (ascii "a\nbcd\nefgh") 7)
chunk_text_lem_example = chunk_text_lem default_stream_config (ascii "a\nbcd\nefgh") 7 (omega arith)
