-- ===== src/Bench/Connect/Tests.antt =====
-- A connection at concrete inputs.
use chat_crdt.Prelude.{
  ◌≡◌, refl, arith, true, false, [], ◌∷◌, ◌++◌, Text, codes, map, starts_with, text_eq,
}
use chat_crdt.Bench.Frame.{Bytes, frame, mask_from}
use chat_crdt.Bench.Socket.{Node, Socket, Events, message, send, write_frame, on}
use chat_crdt.Bench.Socket.Delivered.{send_all}
use chat_crdt.Bench.Connect.{
  handshaking, opened, resolved, new_socket, tcp_feed, split_header, failure, accept_match,
}
use chat_crdt.Bench.Connect.Answered.{connected_queued}

abbrev node : Node
node = record { utf8_decode = λ b. b; utf8_encode = λ t. t; mask_key = λ k. 1 ∷ 2 ∷ 3 ∷ k ∷ [] }

abbrev server : Socket
server = new_socket []

abbrev listening : Events
listening = record { on_message = true; on_close = false; on_error = false }

abbrev response : Text
response = codes "HTTP/1.1 101 OK" ++ (13 ∷ 10 ∷ codes "Sec-WebSocket-Accept: k")

abbrev start : Bytes
start = response ++ (13 ∷ 10 ∷ 13 ∷ [])

-- The rest of the empty line, and the first message with it.
abbrev later : Bytes
later = 10 ∷ 0x82 ∷ 0x82 ∷ 1 ∷ 2 ∷ 3 ∷ 0 ∷ 5 ∷ 4 ∷ []

connected_queued_example :
    (s : Socket) × (tcp_feed node (codes "k") (start ∷ later ∷ []) (handshaking [])
      ≡ (opened s, resolved ∷ []))
    × ((on listening s).1 ≡ map message ((4 ∷ 6 ∷ []) ∷ []))
unfolding split_header starts_with failure accept_match send_all send write_frame frame mask_from
    text_eq
connected_queued_example =
    connected_queued node (codes "k") server ((4 ∷ 6 ∷ []) ∷ []) (later ∷ []) start response
      listening (λ k. refl) refl (omega arith, tt) refl refl refl
