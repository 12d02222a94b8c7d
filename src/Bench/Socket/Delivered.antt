-- ===== src/Bench/Socket/Delivered.antt =====
-- Messages from one end to the other.
use chat_crdt.Prelude.{
  ℕ, suc, ◌^◌, ◌<◌, ◌≡◌, refl, sym, ap, ◌∙◌, Bool, true, false, List, [], ◌∷◌, ◌++◌, map, length,
  All, if◌then◌else◌, arith,
}
use chat_crdt.Bench.Frame.{Bytes, frame, opcode_binary, next_frame}
use chat_crdt.Bench.Frame.Written.{next_frame-frame}
use chat_crdt.Bench.Socket.{
  Node, Socket, Step, Effect, message, wrote, handle_frame, emit_message, write_frame, send,
  process_buffer, on_data, feed,
}
use chat_crdt.Bench.Socket.Stream.{
  with_buffer, and_then, joined, process_done, process_next, chunks_joined,
}

-- The bytes that these effects put on the wire.
abbrev pub written : List Effect → Bytes
written [] = []
written (wrote b ∷ es) = b ++ written es
written (_ ∷ es) = written es

unfoldable pub send_all : Node → List Bytes → Socket → Step
unfolding send
send_all n [] s = (s, [])
send_all n (m ∷ ms) s = and_then (send n m s) (send_all n ms)

module _ (n : Node) where
  abbrev pub wire : ℕ → List Bytes → Bytes
  wire drawn [] = []
  wire drawn (m ∷ ms) = frame opcode_binary (n.mask_key drawn) m ++ wire (suc drawn) ms

  pub written-send_all :
      (ms : List Bytes) (w : Socket)
      → w.closed ≡ false
      → written (send_all n ms w).1 ≡ wire w.drawn ms
  unfolding send_all send write_frame
  written-send_all [] w h = refl
  written-send_all (m ∷ ms) w h =
      let rest = written-send_all ms (record w { drawn = suc w.drawn }) h in
      let f = frame opcode_binary (n.mask_key w.drawn) m in
      ap
        (λ (t : Bool).
          written
            (and_then (if t then (w, []) else (record w { drawn = suc w.drawn }, wrote f ∷ []))
              (send_all n ms)).1)
        h
      ∙ ap (λ b. f ++ b) rest

  process_wire :
      (ms : List Bytes) (drawn : ℕ) (r : Socket)
      → ((k : ℕ) → length (n.mask_key k) ≡ 4)
      → All (λ (m : Bytes). length m < 2 ^ 64) ms
      → r.attached ≡ true
      → r.events.on_message ≡ true
      → process_buffer n (with_buffer (wire drawn ms) r) ≡ (with_buffer [] r, map message ms)
  unfolding next_frame handle_frame emit_message
  process_wire [] drawn r keys small a m = process_done n (with_buffer [] r) refl
  process_wire (x ∷ ms) drawn r keys (fits, small) a m =
      let rest = wire (suc drawn) ms in
      process_next n (with_buffer (wire drawn (x ∷ ms)) r) opcode_binary x rest
        (next_frame-frame opcode_binary (n.mask_key drawn) x rest (omega arith) (keys drawn) fits)
      ∙ ap
          (λ (t : Bool).
            and_then
              (if t
                then (with_buffer rest r, if r.events.on_message then message x ∷ [] else [])
                else (
                  record r { recv_buffer = rest; pending_messages = r.pending_messages ++ x ∷ [] },
                  [],
                ))
              (process_buffer n))
          a
      ∙ ap
          (λ (t : Bool).
            and_then (with_buffer rest r, if t then message x ∷ [] else []) (process_buffer n))
          m
      ∙ ap (λ (p : Step). (p.0, message x ∷ p.1)) (process_wire ms (suc drawn) r keys small a m)

-- What an open socket sends, message by message, reaches an attached one as it was sent: cut up by TCP
-- in any way, it makes the handler be called with each message once, in order, and nothing is left in
-- the buffer. The mask keys have four bytes, and no message has 2 ^ 64 bytes or more.
pub sent_delivered :
    (n : Node) (w r : Socket) (ms chunks : List Bytes) (chunk : Bytes)
    → ((k : ℕ) → length (n.mask_key k) ≡ 4)
    → w.closed ≡ false
    → All (λ (m : Bytes). length m < 2 ^ 64) ms
    → r.attached ≡ true
    → r.events.on_message ≡ true
    → r.recv_buffer ≡ []
    → joined chunk chunks ≡ written (send_all n ms w).1
    → feed n (chunk ∷ chunks) r ≡ (r, map message ms)
unfolding on_data
sent_delivered n w r ms chunks chunk keys opened small a m empty same =
    chunks_joined n chunk chunks r
    ∙ ap (λ b. process_buffer n (with_buffer (b ++ joined chunk chunks) r)) empty
    ∙ ap (λ b. process_buffer n (with_buffer b r)) (same ∙ written-send_all n ms w opened)
    ∙ process_wire n ms w.drawn r keys small a m
    ∙ ap (λ b. (with_buffer b r, map message ms)) (sym empty)
