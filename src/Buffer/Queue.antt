-- ===== src/Buffer/Queue.antt =====
-- A buffer is a queue of bytes.
use tinc_quic.Common.{ℕ, ◌-◌, ◌/◌, ◌^◌, ◌≤◌, ◌<◌, ◌≡◌, refl, inl, inr, arith, ◌||◌, List, ◌++◌}
use tinc_quic.Common.{ltb, leb, length, Bool-cases, length-append, length-take, take, drop}
use tinc_quic.Common.{length-drop, take-append}
use mathlib.Core.Path.{subst}
use tinc_quic.Buffer.{Buffer, buffer_compact, move_front, block}

-- The bytes that wait in the buffer.
unfoldable pub contents : Buffer → List ℕ
contents buffer = take (buffer.len - buffer.offset) (drop buffer.offset (block buffer.bytes))

pub record IsBuffer (buffer : Buffer) : Type 0 where
  pub in_order : buffer.offset ≤ buffer.len
  pub fits : buffer.len ≤ buffer.maxlen
  pub written : buffer.len ≤ length (block buffer.bytes)
  pub word : buffer.maxlen < 2 ^ 32

pub length-contents : (b : Buffer) → IsBuffer b → length (contents b) ≡ b.len - b.offset
unfolding contents
length-contents b ok = omega (
  arith,
  ok.in_order,
  ok.written,
  length-take (b.len - b.offset) (drop b.offset (block b.bytes)),
  length-drop b.offset (block b.bytes),
)

pub take_front : (n : ℕ) (xs ys : List ℕ) → length xs ≡ n → take n (xs ++ ys) ≡ xs
take_front n xs ys h = subst (λ k. take k (xs ++ ys) ≡ xs) h (take-append xs ys)

pub contents-move_front : (b : Buffer) → IsBuffer b → contents (move_front b) ≡ contents b
unfolding contents move_front
contents-move_front b ok =
    let e : b.len - b.offset - 0 ≡ b.len - b.offset = omega arith in
    rw (e) (
      take_front (b.len - b.offset) (take (b.len - b.offset) (drop b.offset (block b.bytes)))
        (drop (b.len - b.offset) (block b.bytes)) (length-contents b ok))

pub length-move_front : (b : Buffer) → (move_front b).len ≤ b.len
unfolding move_front
length-move_front b = omega arith

pub move_front-IsBuffer : (b : Buffer) → IsBuffer b → IsBuffer (move_front b)
unfolding move_front contents
move_front-IsBuffer b ok = record {
  in_order = omega arith;
  fits = omega (arith, ok.fits);
  written = omega (
    arith,
    length-append (take (b.len - b.offset) (drop b.offset (block b.bytes)))
        (drop (b.len - b.offset) (block b.bytes)),
    length-contents b ok,
  );
  word = ok.word;
}

-- What buffer_compact does cannot be seen: the same bytes wait in a sound buffer.
pub buffer_compact-contents :
    (b : Buffer) (maxsize : ℕ)
    → IsBuffer b
    → (contents (buffer_compact b maxsize) ≡ contents b) × IsBuffer (buffer_compact b maxsize)
unfolding buffer_compact
buffer_compact-contents b maxsize ok =
    elim (Bool-cases (leb maxsize b.len || ltb (b.len / 8) (b.offset / 7))) [
      | inl moves ↦ rw (moves) (contents-move_front b ok, move_front-IsBuffer b ok)
      | inr stays ↦ rw (stays) (refl, ok)
    ]
