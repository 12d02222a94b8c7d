-- ===== src/Bench/Socket.antt =====
-- apps/server/bench/raw-ws-socket.ts: RawWsSocket, once its TCP socket is there.
pub mod Stream
pub mod Delivered
use chat_crdt.Prelude.{
  ℕ, zero, suc, ◌+◌, ◌*◌, Bool, true, false, ◌||◌, Option, none, some, List, [], ◌∷◌, ◌++◌, Text,
  drop, length, ltb, leb, ◌==◌, if◌then◌else◌, nat_Eq,
}
use chat_crdt.Bench.Frame.{
  Bytes, opcode_text, opcode_binary, opcode_close, opcode_ping, opcode_pong, byte_at, write_be,
  next_frame, frame,
}

-- Which handlers a consumer gives.
pub record Events : Type 0 where
  pub on_message : Bool
  pub on_close : Bool
  pub on_error : Bool

-- Calls of the handlers, and what is done to the TCP socket.
pub data Effect : Type 0 where
  message wrote : Bytes → Effect
  closed_with : ℕ → Text → Effect
  failed : Text → Effect
  destroyed : Effect

-- `RawWsSocket`. `drawn` counts the mask keys that were drawn.
pub record Socket : Type 0 where
  pub recv_buffer : Bytes
  pub closed : Bool
  pub events : Events
  pub attached : Bool
  pub pending_messages : List Bytes
  pub pending_close : Option (ℕ × Text)
  pub pending_error : Option Text
  pub drawn : ℕ

abbrev pub Step : Type 0
Step = Socket × List Effect

abbrev pub call : Bool → Effect → List Effect
call given e = if given then e ∷ [] else []

abbrev pub merge : Events → Events → Events
merge e f = record {
  on_message = e.on_message || f.on_message;
  on_close = e.on_close || f.on_close;
  on_error = e.on_error || f.on_error;
}

abbrev pub call_all : Bool → List Bytes → List Effect
call_all given [] = []
call_all given (m ∷ ms) = call given (message m) ++ call_all given ms

abbrev pub call_close : Bool → Option (ℕ × Text) → List Effect
call_close given none = []
call_close given (some (code, reason)) = call given (closed_with code reason)

abbrev pub call_error : Bool → Option Text → List Effect
call_error given none = []
call_error given (some e) = call given (failed e)

unfoldable pub on : Events → Socket → Step
on events s =
    let now = merge s.events events in
    (
      record s {
        events = now;
        attached = true;
        pending_messages = [];
        pending_close = none;
        pending_error = none;
      },
      call_all now.on_message s.pending_messages
          ++ (call_close now.on_close s.pending_close ++ call_error now.on_error s.pending_error),
    )

unfoldable pub emit_message : Bytes → Socket → Step
emit_message bytes s =
    if s.attached
    then (s, call s.events.on_message (message bytes))
    else (record s { pending_messages = s.pending_messages ++ bytes ∷ [] }, [])

unfoldable pub emit_close : ℕ → Text → Socket → Step
emit_close code reason s =
    if s.attached
    then (s, call s.events.on_close (closed_with code reason))
    else (record s { pending_close = some (code, reason) }, [])

unfoldable pub emit_error : Text → Socket → Step
emit_error e s =
    if s.attached
    then (s, call s.events.on_error (failed e))
    else (record s { pending_error = some e }, [])

unfoldable pub handle_close : ℕ → Text → Socket → Step
unfolding emit_close
handle_close code reason s =
    if s.closed
    then (s, [])
    else let (s', called) = emit_close code reason (record s { closed = true }) in
      (s', destroyed ∷ called)

-- The decoder and the encoder of UTF-8, and the mask keys, which are drawn at random.
pub record Node : Type 0 where
  pub utf8_decode : Bytes → Text
  pub utf8_encode : Text → Bytes
  pub mask_key : ℕ → Bytes

module _ (n : Node) where
  unfoldable pub write_frame : ℕ → Bytes → Socket → Step
  unfolding frame
  write_frame opcode payload s = if s.closed then (s, []) else (
    record s { drawn = suc s.drawn },
    wrote (frame opcode (n.mask_key s.drawn) payload) ∷ [],
  )

  unfoldable pub send : Bytes → Socket → Step
  unfolding write_frame
  send bytes s = write_frame opcode_binary bytes s

  unfoldable pub close : ℕ → Text → Socket → Step
  unfolding write_be write_frame handle_close
  close code reason s =
      if s.closed
      then (s, [])
      else let (s', sent) = write_frame opcode_close (write_be 2 code ++ n.utf8_encode reason) s in
        let (s'', called) = handle_close code reason s' in (s'', sent ++ called)

  unfoldable pub handle_frame : ℕ → Bytes → Socket → Step
  unfolding emit_message handle_close write_frame
  handle_frame opcode payload s =
      if opcode == opcode_binary || opcode == opcode_text
      then emit_message payload s
      else if opcode == opcode_close
      then handle_close
          (if leb 2 (length payload) then byte_at 0 payload * 256 + byte_at 1 payload else 1005)
          (if ltb 2 (length payload) then n.utf8_decode (drop 2 payload) else []) s
      else if opcode == opcode_ping
      then write_frame opcode_pong payload s
      else (s, [])

  -- `processBuffer`, for at most this many frames.
  unfoldable pub process : ℕ → Socket → Step
  unfolding next_frame handle_frame
  process zero s = (s, [])
  process (suc fuel) s = elim (next_frame s.recv_buffer) [
    | none ↦ (s, [])
    | some ((opcode, payload), rest) ↦
        let (s', now) = handle_frame opcode payload (record s { recv_buffer = rest }) in
        let (s'', later) = process fuel s' in (s'', now ++ later)
  ]

  -- A frame has two bytes at least, so there are not more frames than bytes.
  unfoldable pub process_buffer : Socket → Step
  unfolding process
  process_buffer s = process (length s.recv_buffer) s

  unfoldable pub on_data : Bytes → Socket → Step
  unfolding process_buffer
  on_data chunk s = process_buffer (record s { recv_buffer = s.recv_buffer ++ chunk })

  -- The 'data' events of the TCP socket, one after another.
  unfoldable pub feed : List Bytes → Socket → Step
  unfolding on_data
  feed [] s = (s, [])
  feed (chunk ∷ chunks) s =
      let (s', now) = on_data chunk s in let (s'', later) = feed chunks s' in (s'', now ++ later)
