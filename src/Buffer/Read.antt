-- ===== src/Buffer/Read.antt =====
-- Reading the bytes that wait longest.
use tinc_quic.Common.{ℕ, zero, suc, ◌+◌, ◌-◌, ◌≤◌, ◌≡◌, sym, ap, ◌∙◌, inl, inr, arith, false}
use tinc_quic.Common.{some, List, [], ◌∷◌, ◌++◌, ltb, leb, take, drop, take-nil, length, u32}
use tinc_quic.Common.{Bool-cases, drop-drop}
use mathlib.Core.List.{append-nil}
use tinc_quic.Buffer.{buffer_read, buffer_consume, Buffer, block}
use tinc_quic.Buffer.Queue.{contents, IsBuffer, length-contents}

take_split : (s n : ℕ) (xs : List ℕ) → s ≤ n → take s xs ++ take (n - s) (drop s xs) ≡ take n xs
take_split zero n xs h = let e : n - 0 ≡ n = omega arith in rw (e)
take_split (suc s) zero xs h = absurd (omega arith)
take_split (suc s) (suc n) [] h = take-nil ℕ (suc n - suc s)
take_split (suc s) (suc n) (x ∷ xs) h =
    let e : suc n - suc s ≡ n - s = omega arith in rw (e, take_split s n xs (omega arith))

-- If `size` bytes wait in a sound buffer, buffer_read points to the first of them, the others still
-- wait, and the buffer is sound again.
pub buffer_read-contents :
    (b : Buffer) (size : ℕ)
    → IsBuffer b
    → size ≤ length (contents b)
    → (start : ℕ) × (b' : Buffer) × (buffer_read b size ≡ some (start, b'))
      × (take size (drop start (block b'.bytes)) ++ contents b' ≡ contents b)
      × IsBuffer b'
unfolding buffer_read buffer_consume contents
buffer_read-contents b size ok h =
    let len : length (contents b) ≡ b.len - b.offset = length-contents b ok in
    let enough : ltb (b.len - b.offset) size ≡ false = ground (arith, h, len) in
    let no_wrap : u32 (b.offset + size) ≡ b.offset + size =
      omega (arith, h, len, ok.word, ok.fits) in
    let less : b.len - (b.offset + size) ≡ b.len - b.offset - size = omega arith in
    let parts = take_split size (b.len - b.offset) (drop b.offset (block b.bytes)) in
    elim (Bool-cases (leb b.len (b.offset + size))) [
      | inl all ↦ (
        b.offset,
        record b { offset = 0; len = 0 },
        rw (enough, no_wrap, all),
        append-nil (take size (drop b.offset (block b.bytes)))
            ∙ ap (λ k. take k (drop b.offset (block b.bytes))) (ground (arith, all, h, len)),
        record {
          in_order = omega arith;
          fits = omega arith;
          written = omega arith;
          word = ok.word;
        },
      )
      | inr some_left ↦ (
        b.offset,
        record b { offset = b.offset + size },
        rw (enough, no_wrap, some_left),
        rw (less, sym (drop-drop size b.offset (block b.bytes))) (parts (omega (arith, h, len))),
        record {
          in_order = ground (arith, some_left);
          fits = ok.fits;
          written = ok.written;
          word = ok.word;
        },
      )
    ]
