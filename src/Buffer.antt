-- ===== src/Buffer.antt =====
-- src/buffer.c: the buffers that metadata are collected in. `bytes`, the C `data`, is `none` for NULL, and else the
-- bytes that were written to the block; the block has `maxlen` bytes.
pub mod Queue
pub mod Add
pub mod Read
mod Tests
use tinc_quic.Common.{ℕ, zero, suc, ◌+◌, ◌-◌, ◌*◌, ◌/◌, ◌%◌, ◌^◌, ◌≤◌, ◌<◌, bit_and, bit_or}
use tinc_quic.Common.{◌≡◌, refl, sym, ap, ◌∙◌, ◌≢◌, ◌↔◌, ◌⊎◌, inl, inr, arith, Bool, true}
use tinc_quic.Common.{false, ◌&&◌, ◌||◌, not, Option, none, some, List, [], ◌∷◌, ◌++◌, map, ltb}
use tinc_quic.Common.{leb, ◌==◌, if◌then◌else◌, ◌>>=◌, length, take, u32, drop, set}

pub record Buffer : Type 0 where
  pub bytes : Option (List ℕ)
  pub maxlen : ℕ
  pub len : ℕ
  pub offset : ℕ

abbrev pub block : Option (List ℕ) → List ℕ
block none = []
block (some bytes) = bytes

-- The `memmove` to the front, with the change of `len` and `offset` that follows it.
unfoldable pub move_front : Buffer → Buffer
move_front buffer =
    let rest = buffer.len - buffer.offset in
    let written = block buffer.bytes in
    record buffer {
      bytes = some (take rest (drop buffer.offset written) ++ drop rest written);
      len = rest;
      offset = 0;
    }

unfoldable pub buffer_compact : Buffer → ℕ → Buffer
buffer_compact buffer maxsize =
    if leb maxsize buffer.len || ltb (buffer.len / 8) (buffer.offset / 7)
    then move_front buffer
    else buffer

-- Room at the front is used first; then the block is made larger.
unfoldable pub slide : Buffer → ℕ → Buffer
slide buffer size =
    if ltb 0 buffer.offset && ltb buffer.maxlen (u32 (buffer.len + size))
    then move_front buffer
    else buffer

unfoldable pub grow : Buffer → ℕ → Buffer
grow buffer size =
    if ltb buffer.maxlen (u32 (buffer.len + size))
    then record buffer { maxlen = u32 (buffer.len + size) }
    else buffer

unfoldable pub ready : Option (List ℕ) → Buffer → ℕ → Buffer
ready none buffer size = record buffer { bytes = some []; maxlen = size }
ready (some written) buffer size = grow (slide buffer size) size

-- The start of the bytes that were made room for, and the buffer.
unfoldable pub buffer_prepare : Buffer → ℕ → ℕ × Buffer
buffer_prepare buffer size =
    let room = ready buffer.bytes buffer size in
    (room.len, record room { len = u32 (room.len + size) })

-- `memcpy` to a block, at `start`
abbrev pub write : ℕ → List ℕ → List ℕ → List ℕ
write start bytes to = take start to ++ (bytes ++ drop (start + length bytes) to)

unfoldable pub buffer_add : Buffer → List ℕ → Buffer
buffer_add buffer bytes =
    let (start, room) = buffer_prepare buffer (length bytes) in
    record room { bytes = some (write start bytes (block room.bytes)) }

-- The start of the bytes, and the buffer.
unfoldable pub buffer_consume : Buffer → ℕ → ℕ × Buffer
buffer_consume buffer size =
    let offset = u32 (buffer.offset + size) in
    (
      buffer.offset,
      if leb buffer.len offset
          then record buffer { offset = 0; len = 0 }
          else record buffer { offset = offset },
    )

unfoldable pub buffer_read : Buffer → ℕ → Option (ℕ × Buffer)
buffer_read buffer size =
    if ltb (buffer.len - buffer.offset) size then none else some (buffer_consume buffer size)

-- `memchr`
pub find_newline : List ℕ → Option ℕ
find_newline [] = none
find_newline (x ∷ xs) =
    if x == 10 then some 0 else elim (find_newline xs) [ none ↦ none | some i ↦ some (suc i) ]

-- The newline becomes the end of the string that starts where the bytes start.
unfoldable pub buffer_readline : Buffer → Option (ℕ × Buffer)
buffer_readline buffer =
    let written = block buffer.bytes in
    elim (find_newline (take (buffer.len - buffer.offset) (drop buffer.offset written))) [
      | none ↦ none
      | some i ↦ some (
          buffer_consume (record buffer { bytes = some (set written (buffer.offset + i) 0) })
            (i + 1))
    ]

unfoldable pub buffer_clear : Buffer → Buffer
buffer_clear buffer = record { bytes = none; maxlen = 0; len = 0; offset = 0 }
