-- ===== src/Bench/Frame/Written.antt =====
-- What the frame reader makes of a frame that was written.
use Prim.Native.Nat.{bit_and, bit_or}
use mathlib.Core.List.{append_assoc}
use chat_crdt.Prelude.{
  ℕ, zero, suc, ◌+◌, ◌%◌, ◌^◌, ◌<◌, ◌≡◌, refl, sym, ap, ◌∙◌, some, [], ◌∷◌, Bool, true, ◌++◌, not,
  length, ◌==◌, if◌then◌else◌, ltb, by_test, nat_Eq, arith,
}
use chat_crdt.Shared.Bits.{bit_and_low4, bit_and_low7, bit_and_top, bit_or_top, xor_twice}
use chat_crdt.Bench.Frame.{
  Bytes, byte_at, mask_from, read_be, write_be, take_bytes, length_size, ◌>>=◌, next_frame, frame,
  is_masked, short_length, key_size, payload_length, after_head, after_length, after_key,
  after_payload,
}
use chat_crdt.Bench.Frame.Reading.{take_bytes_own}

pub mask_from_twice : (i : ℕ) (key b : Bytes) → mask_from i key (mask_from i key b) ≡ b
unfolding mask_from
mask_from_twice i key [] = refl
mask_from_twice i key (x ∷ b) =
    ap (λ y. y ∷ mask_from (suc i) key (mask_from (suc i) key b))
      (xor_twice x (byte_at (i % 4) key))
    ∙ ap (λ r. x ∷ r) (mask_from_twice (suc i) key b)

length-mask_from : (i : ℕ) (key b : Bytes) → length (mask_from i key b) ≡ length b
unfolding mask_from
length-mask_from i key [] = refl
length-mask_from i key (x ∷ b) = ap suc (length-mask_from (suc i) key b)

read_two : (v : ℕ) → v < 65_536 → read_be 0 (write_be 2 v) ≡ v
unfolding write_be
read_two v h = omega arith

read_eight : (v : ℕ) → v < 2 ^ 64 → read_be 0 (write_be 8 v) ≡ v
unfolding write_be
read_eight v h = omega arith

take_all : (n : ℕ) (b rest : Bytes) → length b ≡ n → take_bytes n (b ++ rest) ≡ some (b, rest)
take_all n b rest h = ap (λ k. take_bytes k (b ++ rest)) (sym h) ∙ take_bytes_own b rest

-- A masked frame whose parts have the lengths that its header says.
read_parts :
    (b0 b1 : ℕ) (long key m rest : Bytes)
    → let head = b0 ∷ (b1 ∷ []) in
      is_masked head ≡ true
      → length long ≡ length_size (short_length head)
      → length key ≡ 4
      → length m ≡ payload_length head long
      → next_frame (b0 ∷ (b1 ∷ (long ++ (key ++ (m ++ rest)))))
        ≡ some ((bit_and b0 0x0f, mask_from 0 key m), rest)
unfolding next_frame
read_parts b0 b1 long key m rest masked l k p =
    let head = b0 ∷ (b1 ∷ []) in
    let four : length key ≡ key_size head = k ∙ rw masked refl in
    ap (λ o. o >>= after_head) (take_all 2 head (long ++ (key ++ (m ++ rest))) refl)
    ∙ ap (λ o. o >>= after_length head) (take_all _ long (key ++ (m ++ rest)) l)
    ∙ ap (λ o. o >>= after_key head long) (take_all _ key (m ++ rest) four)
    ∙ ap (λ o. o >>= after_payload head key) (take_all _ m rest p)
    ∙ ap (λ (t : Bool). some ((bit_and b0 0x0f, if t then mask_from 0 key m else m), rest)) masked

length-write_be : (n v : ℕ) → length (write_be n v) ≡ n
unfolding write_be
length-write_be zero v = refl
length-write_be (suc n) v = ap suc (length-write_be n v)

-- What the second byte of a header says: the mask bit and the short length.
second_byte :
    (b0 x : ℕ)
    → x < 128
    → let head = b0 ∷ (bit_or 0x80 x ∷ []) in (is_masked head ≡ true) × (short_length head ≡ x)
second_byte b0 x h =
    let top = bit_or_top x h in
    let mask : bit_and (bit_or 0x80 x) 0x80 ≡ 128 =
      ap (λ z. bit_and z 0x80) top ∙ bit_and_top (128 + x) (omega arith) ∙ omega arith in
    let low : bit_and (bit_or 0x80 x) 0x7f ≡ x =
      ap (λ z. bit_and z 0x7f) top ∙ bit_and_low7 (128 + x) (omega arith) ∙ omega arith in
    (ap (λ z. not (z == 0)) mask, low)

first_byte : (opcode : ℕ) → opcode < 16 → bit_and (bit_or 0x80 opcode) 0x0f ≡ opcode
first_byte opcode h =
    ap (λ z. bit_and z 0x0f) (bit_or_top opcode (omega arith))
    ∙ bit_and_low4 (128 + opcode) (omega arith)
    ∙ omega arith

regroup : (long key m rest : Bytes) → (long ++ (key ++ m)) ++ rest ≡ long ++ (key ++ (m ++ rest))
regroup long key m rest =
    append_assoc long (key ++ m) rest ∙ ap (λ t. long ++ t) (append_assoc key m rest)

-- A frame with a header of any of the three shapes.
read_shape :
    (opcode x : ℕ) (long key payload rest : Bytes)
    → opcode < 16
    → x < 128
    → length long ≡ length_size x
    → length key ≡ 4
    → length payload ≡ (if length_size x == 0 then x else read_be 0 long)
    → next_frame (
        ((bit_or 0x80 opcode ∷ (bit_or 0x80 x ∷ long)) ++ (key ++ mask_from 0 key payload)) ++ rest)
      ≡ some ((opcode, payload), rest)
read_shape opcode x long key payload rest o h l k p =
    let b0 = bit_or 0x80 opcode in
    let b1 = bit_or 0x80 x in
    let m = mask_from 0 key payload in
    let (masked, short) = second_byte b0 x h in
    let sized : length long ≡ length_size (short_length (b0 ∷ (b1 ∷ []))) =
      l ∙ ap length_size (sym short) in
    let measured : length m ≡ payload_length (b0 ∷ (b1 ∷ [])) long =
      length-mask_from 0 key payload
      ∙ p
      ∙ ap (λ z. if length_size z == 0 then z else read_be 0 long) (sym short) in
    ap (λ t. next_frame (b0 ∷ (b1 ∷ t))) (regroup long key m rest)
    ∙ read_parts b0 b1 long key m rest masked sized k measured
    ∙ ap (λ t. some ((t, mask_from 0 key m), rest)) (first_byte opcode o)
    ∙ ap (λ t. some ((opcode, t), rest)) (mask_from_twice 0 key payload)

-- A frame that was written is read back, and what follows it is left.
pub next_frame-frame :
    (opcode : ℕ) (key payload rest : Bytes)
    → opcode < 16
    → length key ≡ 4
    → length payload < 2 ^ 64
    → next_frame (frame opcode key payload ++ rest) ≡ some ((opcode, payload), rest)
unfolding frame
next_frame-frame opcode key payload rest o k fits =
    let len = length payload in
    let P = λ (t : Bytes).
      next_frame (((bit_or 0x80 opcode ∷ t) ++ (key ++ mask_from 0 key payload)) ++ rest)
      ≡ some ((opcode, payload), rest) in
    by_test P (ltb len 126) _ _
      (λ t.
        read_shape opcode len [] key payload rest o (ground arith) (ground arith) k (ground arith))
      λ t.
        by_test P (ltb len 65_536) _ _
          (λ u.
            read_shape opcode 126 (write_be 2 len) key payload rest o (omega arith)
              (length-write_be 2 len) k (sym (read_two len (ground arith))))
          λ u.
            read_shape opcode 127 (write_be 8 len) key payload rest o (omega arith)
              (length-write_be 8 len) k (sym (read_eight len fits))
