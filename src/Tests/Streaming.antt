-- ===== src/Tests/Streaming.antt =====
-- The server-sent event parser at concrete inputs.
use marimo_export.Prelude.{
  Option, none, some, [], ◌∷◌, ◌++◌, ◌≡◌, ◌≢◌, refl, arith, ok, err, any, ltb, if◌then◌else◌,
}
use marimo_export.Remote.Sse
use marimo_export.Remote.Sse.{Bytes, Parser, init, feed, close, line}
use marimo_export.Remote.Sse.Chunks
use marimo_export.Remote.Sse.Bounds

-- A decoder that takes ASCII and refuses all else.
abbrev ascii : Bytes → Option Bytes
ascii bytes = if any (λ b. ltb 127 b) bytes then none else some bytes

abbrev parser : Parser
parser = init 100

-- "data: a\ndat"
abbrev chunk : Bytes
chunk = b'd' ∷ b'a' ∷ b't' ∷ b'a' ∷ b':' ∷ b' ' ∷ b'a' ∷ 10 ∷ b'd' ∷ b'a' ∷ b't' ∷ []

-- "a:b\n\n"
abbrev chunk_end : Bytes
chunk_end = b'a' ∷ b':' ∷ b'b' ∷ 10 ∷ 10 ∷ []

program : Unit {0}
unfolding feed close line Sse.join_lines
program = tt

-- The two data lines make one event of the default name.
two_lines :
    (feed ascii parser (chunk ++ chunk_end)).1
    ≡ ok (record { event = Sse.message_event; payload = b'a' ∷ 10 ∷ b'b' ∷ [] } ∷ [])
unfolding program
two_lines = refl

feed-append_example :
    feed ascii parser (chunk ++ chunk_end)
    ≡ Chunks.prepend ascii [] (feed ascii (feed ascii parser chunk).0 chunk_end)
unfolding program
feed-append_example =
    Chunks.feed-append ascii parser (feed ascii parser chunk).0 chunk chunk_end [] refl refl

feed-Fits_example : Bounds.Fits (feed ascii parser chunk)
unfolding program
feed-Fits_example = Bounds.feed-Fits ascii parser chunk (omega arith)

split_return_raises_example :
    ((feed ascii (Bounds.full_parser ascii 5 [] [] 0) (13 ∷ [])).1 ≡ err Sse.over_limit)
    × ((feed ascii (Bounds.full_parser ascii 5 [] [] 0) (13 ∷ 10 ∷ [])).1 ≢ err Sse.over_limit)
split_return_raises_example = Bounds.split_return_raises ascii 5 [] [] 0
