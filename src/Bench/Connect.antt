-- ===== src/Bench/Connect.antt =====
-- apps/server/bench/raw-ws-socket.ts: RawWsSocket.connect, from the first bytes of the response on.
pub mod Pieces
pub mod Answered
mod Tests
use chat_crdt.Prelude.{
  ℕ, zero, suc, ◌+◌, Bool, true, false, not, ◌&&◌, Option, none, some, List, [], ◌∷◌, ◌++◌, Text,
  codes, drop, leb, ◌==◌, starts_with, if◌then◌else◌, text_Eq, nat_Eq,
}
use chat_crdt.Engine.Messages.{is_space}
use chat_crdt.Bench.Frame.{Bytes}
use chat_crdt.Bench.Socket.{Node, Socket, Effect, destroyed, process_buffer, on_data}

abbrev pub crlf : Bytes
crlf = 13 ∷ 10 ∷ []

abbrev pub with_first : ℕ → Option (Bytes × Bytes) → Option (Bytes × Bytes)
with_first b none = none
with_first b (some (header, rest)) = some (b ∷ header, rest)

-- The bytes before the first empty line, and those behind it.
unfoldable pub split_header : Bytes → Option (Bytes × Bytes)
unfolding starts_with
split_header [] = none
split_header (b ∷ bs) =
    let later = split_header bs in
    if starts_with (crlf ++ crlf) (b ∷ bs) then some ([], drop 4 (b ∷ bs)) else with_first b later

abbrev pub first_line : Text → Text
unfolding starts_with
first_line [] = []
first_line (c ∷ t) = let rest = first_line t in if starts_with crlf (c ∷ t) then [] else c ∷ rest

abbrev pub lower : ℕ → ℕ
lower c = if leb b'A' c && leb c b'Z' then c + 32 else c

-- What follows `p`, in lower case, if the text starts with it in any case.
abbrev pub after_prefix : Text → Text → Option Text
after_prefix [] t = some t
after_prefix (c ∷ p) [] = none
after_prefix (c ∷ p) (d ∷ t) = let rest = after_prefix p t in if lower d == c then rest else none

abbrev pub skip_spaces : Text → Text
skip_spaces [] = []
skip_spaces (c ∷ t) = let rest = skip_spaces t in if is_space c then rest else c ∷ t

abbrev pub word : Text → Text
word [] = []
word (c ∷ t) = let rest = word t in if is_space c then [] else c ∷ rest

-- The key that a match at this place has.
abbrev pub key_here : Option Text → Option Text
key_here none = none
key_here (some t) = elim (word (skip_spaces t)) [ [] ↦ none | c ∷ w ↦ some (c ∷ w) ]

-- `/sec-websocket-accept:\s*(\S+)/i`
unfoldable pub accept_match : Text → Option Text
accept_match [] = none
accept_match (c ∷ t) =
    let later = accept_match t in
    elim (key_here (after_prefix (codes "sec-websocket-accept:") (c ∷ t))) [
      | none ↦ later
      | some key ↦ some key
    ]

abbrev pub is_key : Text → Option Text → Bool
is_key expected none = false
is_key expected (some key) = key == expected

-- `bad_status` also stands for a response with an empty status line.
pub data Failure : Type 0 where
  bad_status : Text → Failure
  bad_accept : Failure

pub data Connection : Type 0 where
  handshaking : Bytes → Connection
  rejected : Failure → Connection
  opened : Socket → Connection

-- What the promise of `connect` and the sockets do.
pub data Outcome : Type 0 where
  resolved : Outcome
  did : Effect → Outcome

abbrev pub all_did : List Effect → List Outcome
all_did [] = []
all_did (e ∷ es) = did e ∷ all_did es

abbrev pub new_socket : Bytes → Socket
new_socket rest = record {
  recv_buffer = rest;
  closed = false;
  events = record { on_message = false; on_close = false; on_error = false };
  attached = false;
  pending_messages = [];
  pending_close = none;
  pending_error = none;
  drawn = 0;
}

module _ (n : Node) where
  -- What is wrong with the response?
  unfoldable pub failure : Text → Text → Option Failure
  unfolding accept_match starts_with
  failure expected header =
      let status = first_line header in
      if not (starts_with (codes "HTTP/1.1 101") status)
      then some (bad_status status)
      else if not (is_key expected (accept_match header))
      then some bad_accept
      else none

  -- `onHandshakeData`, and `onData` from the end of the handshake on. `expected` is the base64 of the SHA-1
  -- of the key that was sent. The processing of an empty buffer does nothing.
  unfoldable pub on_tcp_data : Text → Bytes → Connection → Connection × List Outcome
  unfolding split_header failure process_buffer on_data
  on_tcp_data expected chunk (handshaking buffer) = elim (split_header (buffer ++ chunk)) [
    | none ↦ (handshaking (buffer ++ chunk), [])
    | some (header, rest) ↦ elim (failure expected (n.utf8_decode header)) [
      | some f ↦ (rejected f, did destroyed ∷ [])
      | none ↦ let (s, es) = process_buffer n (new_socket rest) in (opened s, resolved ∷ all_did es)
    ]
  ]
  on_tcp_data expected chunk (rejected f) = (rejected f, [])
  on_tcp_data expected chunk (opened s) =
      let (s', es) = on_data n chunk s in (opened s', all_did es)

  unfoldable pub tcp_feed : Text → List Bytes → Connection → Connection × List Outcome
  unfolding on_tcp_data
  tcp_feed expected [] c = (c, [])
  tcp_feed expected (chunk ∷ chunks) c =
      let (c', now) = on_tcp_data expected chunk c in
      let (c'', later) = tcp_feed expected chunks c' in (c'', now ++ later)
