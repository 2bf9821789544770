-- ===== src/Buffer/Tests.antt =====
-- Runs of src/buffer.c, and its theorems at a concrete buffer.
use tinc_quic.Common.{ℕ, ◌≤◌, ◌≡◌, refl, arith, some, [], ◌∷◌, ◌++◌, length, take, drop}
use tinc_quic.Buffer.{Buffer, buffer_readline, buffer_add, buffer_consume, buffer_read}
use tinc_quic.Buffer.{find_newline, block}
use tinc_quic.Buffer.Add.{buffer_add-contents}
use tinc_quic.Buffer.Queue.{IsBuffer, contents}
use tinc_quic.Buffer.Read.{buffer_read-contents}

-- Two bytes of five are consumed.
abbrev half : Buffer
half = record { bytes = some (1 ∷ 2 ∷ 3 ∷ 10 ∷ 5 ∷ []); maxlen = 5; len = 5; offset = 2 }

half-IsBuffer : IsBuffer half
half-IsBuffer = record {
  in_order = omega arith;
  fits = omega arith;
  written = omega arith;
  word = omega arith;
}

line_read :
    buffer_readline half
    ≡ some (2, record { bytes = some (1 ∷ 2 ∷ 3 ∷ 0 ∷ 5 ∷ []); maxlen = 5; len = 5; offset = 4 })
unfolding buffer_readline buffer_consume find_newline
line_read = refl

buffer_add-contents_example :
    (contents (buffer_add half (6 ∷ 7 ∷ [])) ≡ contents half ++ (6 ∷ 7 ∷ []))
    × IsBuffer (buffer_add half (6 ∷ 7 ∷ []))
buffer_add-contents_example = buffer_add-contents half (6 ∷ 7 ∷ []) half-IsBuffer (omega arith)

three_wait : 2 ≤ length (contents half)
unfolding contents
three_wait = omega arith

buffer_read-contents_example :
    (start : ℕ) × (b' : Buffer) × (buffer_read half 2 ≡ some (start, b'))
    × (take 2 (drop start (block b'.bytes)) ++ contents b' ≡ contents half)
    × IsBuffer b'
buffer_read-contents_example = buffer_read-contents half 2 half-IsBuffer three_wait
