-- ===== src/Buffer/Add.antt =====
-- Adding bytes behind those that wait.
use tinc_quic.Common.{ℕ, zero, suc, ◌+◌, ◌-◌, ◌^◌, ◌≤◌, ◌<◌, ◌≡◌, refl, sym, ap, ◌∙◌, inl, inr}
use tinc_quic.Common.{arith, ◌&&◌, Option, none, some, List, [], ◌∷◌, ◌++◌, ltb, drop, length}
use tinc_quic.Common.{take, Bool-cases, take-nil, u32, length-take, length-append, length-drop}
use mathlib.Core.List.{append_assoc}
use tinc_quic.Buffer.{Buffer, buffer_add, grow, ready, slide, buffer_prepare, block, write}
use tinc_quic.Buffer.Queue.{contents, IsBuffer, move_front-IsBuffer, contents-move_front}
use tinc_quic.Buffer.Queue.{length-move_front, take_front}

drop_front : (n : ℕ) (xs ys : List ℕ) → n ≤ length xs → drop n (xs ++ ys) ≡ drop n xs ++ ys
drop_front zero xs ys h = refl
drop_front (suc n) [] ys h = absurd (omega arith)
drop_front (suc n) (x ∷ xs) ys h = drop_front n xs ys (omega arith)

drop-take : (n m : ℕ) (xs : List ℕ) → drop n (take m xs) ≡ take (m - n) (drop n xs)
drop-take zero m xs = let e : m - 0 ≡ m = omega arith in rw (e)
drop-take (suc n) zero xs = let e : 0 - suc n ≡ 0 = omega arith in rw (e)
drop-take (suc n) (suc m) [] = sym (take-nil ℕ (suc m - suc n))
drop-take (suc n) (suc m) (x ∷ xs) =
    let e : suc m - suc n ≡ m - n = omega arith in rw (e) (drop-take n m xs)

-- Room for `size` more bytes: the same bytes wait, and nothing overflows.
record HasRoom (b : Buffer) (size : ℕ) (room : Buffer) : Type 0 where
  sound : IsBuffer room
  same : contents room ≡ contents b
  enough : room.len + size ≤ room.maxlen

grow-HasRoom :
    (b : Buffer) (size : ℕ) → IsBuffer b → b.len + size < 2 ^ 32 → HasRoom b size (grow b size)
unfolding grow contents
grow-HasRoom b size ok h = elim (Bool-cases (ltb b.maxlen (u32 (b.len + size)))) [
  | inl more ↦
      rw (grow, more)
        (record {
          sound = record {
            in_order = ok.in_order;
            fits = omega (arith, h);
            written = ok.written;
            word = omega arith;
          };
          same = refl;
          enough = omega (arith, h);
        })
  | inr room ↦
      rw (grow, room) (record { sound = ok; same = refl; enough = ground (arith, room, h) })
]

slide-same :
    (b : Buffer) (size : ℕ)
    → IsBuffer b
    → IsBuffer (slide b size)
      × (contents (slide b size) ≡ contents b)
      × ((slide b size).len ≤ b.len)
unfolding slide
slide-same b size ok = elim (Bool-cases (ltb 0 b.offset && ltb b.maxlen (u32 (b.len + size)))) [
  | inl moves ↦
      rw (slide, moves) (move_front-IsBuffer b ok, contents-move_front b ok, length-move_front b)
  | inr stays ↦ rw (slide, stays) (ok, refl, omega arith)
]

room-HasRoom :
    (b : Buffer) (size : ℕ)
    → IsBuffer b
    → b.len + size < 2 ^ 32
    → HasRoom b size (grow (slide b size) size)
room-HasRoom b size ok h =
    let (ok', same, shorter) = slide-same b size ok in
    let room : HasRoom (slide b size) size (grow (slide b size) size) =
      grow-HasRoom (slide b size) size ok' (omega (arith, shorter)) in
    record { sound = room.sound; same = room.same ∙ same; enough = room.enough }

-- Bytes written behind those that wait.
append_bytes :
    (b : Buffer) (d : List ℕ)
    → IsBuffer b
    → take (b.len + length d - b.offset) (drop b.offset (write b.len d (block b.bytes)))
      ≡ contents b ++ d
unfolding contents
append_bytes b d ok =
    let front = take b.len (block b.bytes) in
    let back = drop (b.len + length d) (block b.bytes) in
    let len : length front ≡ b.len = omega (arith, ok.written, length-take b.len (block b.bytes)) in
    let waiting : drop b.offset front ≡ take (b.len - b.offset) (drop b.offset (block b.bytes)) =
      drop-take b.offset b.len (block b.bytes) in
    let split : drop b.offset (front ++ (d ++ back)) ≡ (drop b.offset front ++ d) ++ back =
      drop_front b.offset front (d ++ back) (omega (arith, len, ok.in_order))
      ∙ sym (append_assoc (drop b.offset front) d back) in
    let size : length (drop b.offset front ++ d) ≡ b.len + length d - b.offset = omega (
      arith,
      len,
      ok.in_order,
      length-append (drop b.offset front) d,
      length-drop b.offset front,
    ) in
    rw (split, take_front (b.len + length d - b.offset) (drop b.offset front ++ d) back size)
      (ap (λ x. x ++ d) waiting)

length-write :
    (b : Buffer) (d : List ℕ)
    → IsBuffer b
    → b.len + length d ≤ length (write b.len d (block b.bytes))
length-write b d ok =
    let front = take b.len (block b.bytes) in
    let back = drop (b.len + length d) (block b.bytes) in
    omega (
      arith,
      ok.written,
      length-take b.len (block b.bytes),
      length-append front (d ++ back),
      length-append d back,
    )

ready_at-HasRoom :
    (o : Option (List ℕ)) (b : Buffer) (size : ℕ)
    → b.bytes ≡ o
    → IsBuffer b
    → b.len + size < 2 ^ 32
    → HasRoom b size (ready o b size)
unfolding ready contents
ready_at-HasRoom (some written) b size e ok h = room-HasRoom b size ok h
ready_at-HasRoom none b size e ok h =
    let empty : b.len ≡ 0 = ground (arith, ok.written, ap (λ o. length (block o)) e) in
    let no_rest : b.len - b.offset ≡ 0 = omega (arith, empty) in
    record {
      sound = record {
        in_order = ok.in_order;
        fits = omega (arith, empty);
        written = omega (arith, empty);
        word = omega (arith, h);
      };
      same = rw (no_rest);
      enough = omega (arith, empty);
    }

ready-HasRoom :
    (b : Buffer) (size : ℕ)
    → IsBuffer b
    → b.len + size < 2 ^ 32
    → HasRoom b size (ready b.bytes b size)
ready-HasRoom b size ok h = ready_at-HasRoom b.bytes b size refl ok h

-- While the lengths stay below 2 ^ 32, buffer_add puts its bytes behind those that wait in a sound
-- buffer, and the buffer is sound again.
pub buffer_add-contents :
    (b : Buffer) (d : List ℕ)
    → IsBuffer b
    → b.len + length d < 2 ^ 32
    → (contents (buffer_add b d) ≡ contents b ++ d) × IsBuffer (buffer_add b d)
unfolding buffer_add buffer_prepare contents
buffer_add-contents b d ok h =
    let room = ready b.bytes b (length d) in
    let has : HasRoom b (length d) room = ready-HasRoom b (length d) ok h in
    let no_wrap : u32 (room.len + length d) ≡ room.len + length d =
      omega (arith, has.enough, has.sound.word) in
    (
      rw (no_wrap) (append_bytes room d has.sound ∙ ap (λ x. x ++ d) has.same),
      record {
        in_order = omega (arith, has.sound.in_order, no_wrap);
        fits = omega (arith, has.enough, no_wrap);
        written = omega (arith, no_wrap, length-write room d has.sound);
        word = has.sound.word;
      },
    )
