-- ===== src/Bench/Connect/Answered.antt =====
-- What comes before the consumer has given its handlers.
use mathlib.Core.List.{append_assoc, append-nil}
use chat_crdt.Prelude.{
  ℕ, suc, ◌^◌, ◌<◌, ◌≡◌, refl, sym, ap, ◌∙◌, Bool, true, false, none, some, List, [], ◌∷◌, ◌++◌,
  Text, map, length, All, if◌then◌else◌, arith,
}
use chat_crdt.Bench.Frame.{Bytes, opcode_binary, next_frame}
use chat_crdt.Bench.Frame.Written.{next_frame-frame}
use chat_crdt.Bench.Socket.{
  Node, Socket, Events, message, call_all, handle_frame, emit_message, process_buffer, on,
}
use chat_crdt.Bench.Socket.Stream.{with_buffer, and_then, joined, process_done, process_next}
use chat_crdt.Bench.Socket.Delivered.{written, send_all, wire, written-send_all}
use chat_crdt.Bench.Connect.{
  split_header, failure, Connection, handshaking, opened, resolved, new_socket, on_tcp_data,
  tcp_feed,
}
use chat_crdt.Bench.Connect.Pieces.{run_of, judged, decided, begun, on_tcp_data-append}

abbrev queued : List Bytes → Socket → Socket
queued ms r = record r { recv_buffer = []; pending_messages = r.pending_messages ++ ms }

all_called : (ms : List Bytes) → call_all true ms ≡ map message ms
all_called [] = refl
all_called (m ∷ ms) = ap (λ l. message m ∷ l) (all_called ms)

module _ (n : Node) (keys : (k : ℕ) → length (n.mask_key k) ≡ 4) where
  queue_wire :
      (ms : List Bytes) (drawn : ℕ) (r : Socket)
      → All (λ (m : Bytes). length m < 2 ^ 64) ms
      → r.attached ≡ false
      → process_buffer n (with_buffer (wire n drawn ms) r) ≡ (queued ms r, [])
  unfolding next_frame handle_frame emit_message
  queue_wire [] drawn r small a =
      process_done n (with_buffer [] r) refl
      ∙ ap (λ ps. (record r { recv_buffer = []; pending_messages = ps }, []))
          (sym (append-nil r.pending_messages))
  queue_wire (x ∷ ms) drawn r (fits, small) a =
      let rest = wire n (suc drawn) ms in
      let one : Socket = record r { pending_messages = r.pending_messages ++ x ∷ [] } in
      process_next n (with_buffer (wire n drawn (x ∷ ms)) r) opcode_binary x rest
        (next_frame-frame opcode_binary (n.mask_key drawn) x rest (omega arith) (keys drawn) fits)
      ∙ ap
          (λ (t : Bool).
            and_then
              (if t
                then (with_buffer rest r, if r.events.on_message then message x ∷ [] else [])
                else (with_buffer rest one, []))
              (process_buffer n))
          a
      ∙ queue_wire ms (suc drawn) one small a
      ∙ ap (λ ps. (record r { recv_buffer = []; pending_messages = ps }, []))
          (append_assoc r.pending_messages (x ∷ []) ms)

module _ (n : Node) (expected : Text) where
  fed_one :
      (chunk : Bytes) (k : Connection)
      → tcp_feed n expected (chunk ∷ []) k ≡ on_tcp_data n expected chunk k
  unfolding tcp_feed
  fed_one chunk k =
      ap (λ l. ((on_tcp_data n expected chunk k).0, l))
        (append-nil (on_tcp_data n expected chunk k).1)

  tcp_feed-joined :
      (chunk : Bytes) (chunks : List Bytes) (k : Connection)
      → tcp_feed n expected (chunk ∷ chunks) k ≡ on_tcp_data n expected (joined chunk chunks) k
  unfolding tcp_feed
  tcp_feed-joined chunk [] k = fed_one chunk k
  tcp_feed-joined chunk (c ∷ chunks) k =
      let (k', now) = on_tcp_data n expected chunk k in
      ap (λ r. (r.0, now ++ r.1)) (tcp_feed-joined c chunks k')
      ∙ sym (on_tcp_data-append n expected chunk (joined c chunks) k)

-- The response and what an open socket sends behind it may come in any pieces, the first messages with
-- the end of the response. If the response is a 101 with the expected accept key, the connection is
-- resolved once, and none of the messages is lost although no handler is there yet: when the consumer
-- gives one for messages, it is called with each of them, in order. The mask keys have four bytes,
-- and no message has 2 ^ 64 bytes or more.
pub connected_queued :
    (n : Node) (expected : Text) (w : Socket) (ms chunks : List Bytes) (chunk header : Bytes)
    (given : Events)
    → ((k : ℕ) → length (n.mask_key k) ≡ 4)
    → w.closed ≡ false
    → All (λ (m : Bytes). length m < 2 ^ 64) ms
    → split_header (joined chunk chunks) ≡ some (header, written (send_all n ms w).1)
    → failure n expected (n.utf8_decode header) ≡ none
    → given.on_message ≡ true
    → (s : Socket) × (tcp_feed n expected (chunk ∷ chunks) (handshaking [])
        ≡ (opened s, resolved ∷ []))
      × ((on given s).1 ≡ map message ms)
unfolding on
connected_queued n expected w ms chunks chunk header given keys is_open small parts fine m =
    let stream = joined chunk chunks in
    let s = queued ms (new_socket []) in
    (
      s,
      tcp_feed-joined n expected chunk chunks (handshaking [])
          ∙ begun n expected stream []
          ∙ ap (λ o. decided n expected o stream) parts
          ∙ ap (λ f. judged n expected f (written (send_all n ms w).1)) fine
          ∙ ap (λ b. run_of n expected (resolved ∷ []) (process_buffer n (new_socket b)))
              (written-send_all n ms w is_open)
          ∙ ap (run_of n expected (resolved ∷ []))
              (queue_wire n keys ms w.drawn (new_socket []) small refl),
      ap (λ b. call_all b ms ++ []) m ∙ append-nil (call_all true ms) ∙ all_called ms,
    )
