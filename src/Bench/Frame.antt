-- ===== src/Bench/Frame.antt =====
-- apps/server/bench/raw-ws-socket.ts: how its frames are written and read.
pub mod Reading
pub mod Written
use Prim.Native.Nat.{bit_and, bit_or, bit_xor}
use chat_crdt.Prelude.{
  ℕ, zero, suc, ◌+◌, ◌*◌, ◌/◌, ◌%◌, ◌^◌, Bool, true, false, not, ◌||◌, Option, none, some, List, [],
  ◌∷◌, ◌++◌, map, Text, codes, drop, length, ltb, leb, ◌==◌, if◌then◌else◌, nat_Eq,
}

abbrev pub Bytes : Type 0
Bytes = List ℕ

abbrev pub opcode_text : ℕ
opcode_text = 0x1

abbrev pub opcode_binary : ℕ
opcode_binary = 0x2

abbrev pub opcode_close : ℕ
opcode_close = 0x8

abbrev pub opcode_ping : ℕ
opcode_ping = 0x9

abbrev pub opcode_pong : ℕ
opcode_pong = 0xa

-- `b[i]`, and what `^` makes of it out of range.
abbrev pub byte_at : ℕ → Bytes → ℕ
byte_at i [] = 0
byte_at zero (b ∷ bs) = b
byte_at (suc i) (b ∷ bs) = byte_at i bs

-- The loop that masks and unmasks, from index `i` on.
unfoldable pub mask_from : ℕ → Bytes → Bytes → Bytes
mask_from i key [] = []
mask_from i key (b ∷ bs) = bit_xor b (byte_at (i % 4) key) ∷ mask_from (suc i) key bs

-- `readUInt16BE` and `readBigUInt64BE`. A length that `Number` would round is longer than a buffer.
abbrev pub read_be : ℕ → Bytes → ℕ
read_be acc [] = acc
read_be acc (b ∷ bs) = read_be (acc * 256 + b) bs

-- `writeUInt16BE` and `writeBigUInt64BE`, in this many bytes.
unfoldable pub write_be : ℕ → ℕ → Bytes
write_be zero v = []
write_be (suc n) v = v / 256 ^ n % 256 ∷ write_be n v

-- The next `n` bytes, if they are there, and what follows: `offset` moves past them.
unfoldable pub take_bytes : ℕ → Bytes → Option (Bytes × Bytes)
take_bytes zero b = some ([], b)
take_bytes (suc n) [] = none
take_bytes (suc n) (x ∷ b) = elim (take_bytes n b) [
  | none ↦ none
  | some (front, rest) ↦ some (x ∷ front, rest)
]

-- How many bytes the longer length takes.
abbrev pub length_size : ℕ → ℕ
length_size len = if len == 126 then 2 else if len == 127 then 8 else 0

infixl 5 ◌>>=◌
abbrev pub ◌>>=◌ : {A B : Type 0} → Option A → (A → Option B) → Option B
none >>= f = none
some a >>= f = f a

abbrev pub is_masked : Bytes → Bool
is_masked head = not (bit_and (byte_at 1 head) 0x80 == 0)

abbrev pub short_length : Bytes → ℕ
short_length head = bit_and (byte_at 1 head) 0x7f

abbrev pub key_size : Bytes → ℕ
key_size head = if is_masked head then 4 else 0

abbrev pub payload_length : Bytes → Bytes → ℕ
payload_length head long =
    let short = short_length head in if length_size short == 0 then short else read_be 0 long

-- What `processBuffer` does when it has taken the payload, the mask key, the longer length, and the
-- first two bytes.
abbrev pub after_payload : Bytes → Bytes → Bytes × Bytes → Option ((ℕ × Bytes) × Bytes)
after_payload head key (payload, buffer) = some (
  (bit_and (byte_at 0 head) 0x0f, if is_masked head then mask_from 0 key payload else payload),
  buffer,
)

abbrev pub after_key : Bytes → Bytes → Bytes × Bytes → Option ((ℕ × Bytes) × Bytes)
after_key head long (key, buffer) =
    take_bytes (payload_length head long) buffer >>= after_payload head key

abbrev pub after_length : Bytes → Bytes × Bytes → Option ((ℕ × Bytes) × Bytes)
after_length head (long, buffer) = take_bytes (key_size head) buffer >>= after_key head long

abbrev pub after_head : Bytes × Bytes → Option ((ℕ × Bytes) × Bytes)
after_head (head, buffer) =
    take_bytes (length_size (short_length head)) buffer >>= after_length head

-- The first frame that is buffered, its opcode and payload, and what follows it; nothing while a part
-- of it is missing.
unfoldable pub next_frame : Bytes → Option ((ℕ × Bytes) × Bytes)
unfolding take_bytes mask_from
next_frame buffer = take_bytes 2 buffer >>= after_head

-- The header of a frame: FIN, the opcode, and the length behind the mask bit.
abbrev pub header : ℕ → ℕ → Bytes
header opcode len =
    bit_or 0x80 opcode
    ∷ (if ltb len 126
        then bit_or 0x80 len ∷ []
        else if ltb len 65_536
        then bit_or 0x80 126 ∷ write_be 2 len
        else bit_or 0x80 127 ∷ write_be 8 len)

unfoldable pub frame : ℕ → Bytes → Bytes → Bytes
unfolding write_be mask_from
frame opcode key payload = header opcode (length payload) ++ (key ++ mask_from 0 key payload)
