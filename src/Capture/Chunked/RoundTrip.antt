-- ===== src/Capture/Chunked/RoundTrip.antt =====
-- What a sender writes in chunks is decoded to the body, and what follows it is left alone.
use arc_twitch_widget.Prelude.{List, ◌++◌}
use arc_twitch_widget.Text.Utf8.{Bytes}
use arc_twitch_widget.Capture.Chunked.{crlf}
use arc_twitch_widget.Capture.Chunked.Rounds.{Chunk, IsLast, chunked}

module _ (last rest : Bytes) (ends : IsLast last) where
  wire : Bytes → List Chunk → Bytes
  wire a cs = a ++ (chunked cs last ++ rest)

  abbrev behind : Bytes → Chunk → Bytes
  behind a c = a ++ (c.line ++ (crlf ++ (c.content ++ crlf)))
