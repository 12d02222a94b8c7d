-- ===== src/Server/Gateway/Messages.antt =====
-- sync.gateway.ts, `handleMessage` with `plaintextIntoE2eeRoom` and `askForResync`, and the messages
-- that arrive from Redis.
pub mod Gated
pub mod History
use chat_crdt.Prelude.{
  ℕ, suc, ◌-◌, ◌+◌, ◌*◌, Bool, true, false, not, ◌&&◌, ◌||◌, Option, none, some, List, [], ◌∷◌,
  ◌++◌, Text, get, put, contains, length, ltb, ◌==◌, if◌then◌else◌, text_Eq, nat_Eq,
}
use chat_crdt.Shared.Backoff.{backoff_delay}
use chat_crdt.Server.Gate.{GateResult, accepted, rejected, check_enveloped_update}
use chat_crdt.Server.Gateway.{
  Library, Gateway, RoomState, Step, Bytes, Inbound, sync_step1, sync_step2, sync_update,
  sync_broken, awareness, awareness_broken, unknown, Effect, send, close, count, step1, step2,
  e2ee_rejected, inc_sync_messages, inc_awareness_messages, inc_e2ee_rejected_updates,
  RejectionState, default_room,
}
use chat_crdt.Server.Gateway.RateLimit.{is_rate_limited}
use chat_crdt.Server.Gateway.Fanout.{Origin, client, redis, apply_to_room, apply_presence}
use chat_crdt.Server.Gateway.Epochs.{raise_epoch}

abbrev pub max_ws_message_bytes : ℕ
max_ws_message_bytes = 64 * 1024

abbrev pub reject_resync_base_ms : ℕ
reject_resync_base_ms = 1_000

abbrev pub reject_resync_max_ms : ℕ
reject_resync_max_ms = 30_000

-- `previous?.signature === signature ? previous.repeats + 1 : 0`
unfoldable pub next_repeats : Option RejectionState → Text → ℕ
next_repeats none signature = 0
next_repeats (some previous) signature =
    if previous.signature == signature then suc previous.repeats else 0

-- A message from Redis, its JSON parsed.
pub data RedisMessage : Type 0 where
  redis_epoch : Text → Option ℕ → RedisMessage
  redis_update redis_awareness : Text → Bytes → RedisMessage

module _ (l : Library) where
  open l use {state_vector, encode_state, decode_structs, json_parse, decode_frame, digest}

  -- `sendStep1` of `askForResync`
  unfoldable pub send_step1 : ℕ → RoomState l → Gateway l → List Effect
  send_step1 c room g =
      if contains c g.open_sockets then send c (step1 (state_vector room.doc)) ∷ [] else []

  unfoldable pub ask_for_resync : ℕ → RoomState l → Bytes → Gateway l → Step l
  unfolding get put next_repeats send_step1 backoff_delay
  ask_for_resync c room refused g =
      let signature = digest refused in
      let repeats = next_repeats (get c g.last_rejection) signature in
      let delay : Option ℕ =
        if repeats == 0
        then none
        else some (backoff_delay reject_resync_base_ms reject_resync_max_ms (repeats - 1)) in
      let state : RejectionState = record {
        signature = signature;
        repeats = repeats;
        timer = delay;
      } in
      let g' : Gateway l = record g { last_rejection = put c state g.last_rejection } in
      (g', if repeats == 0 then send_step1 c room g else [])

  -- The timer of `askForResync` runs out. It holds the room of the socket's message handler.
  unfoldable pub resync_timer : ℕ → Gateway l → Step l
  unfolding get put send_step1
  resync_timer c g = elim (get c g.last_rejection) [
    | none ↦ (g, [])
    | some state ↦ elim state.timer [
      | none ↦ (g, [])
      | some delay ↦
          let g' : Gateway l = record g {
            last_rejection = put c (record state { timer = none }) g.last_rejection;
          } in
          elim (get c g.handlers) [
            | none ↦ (g', [])
            | some r ↦ elim (get r g.objects) [
              | none ↦ (g', [])
              | some room ↦ (g', send_step1 c room g)
            ]
          ]
    ]
  ]

  -- Whether a room's updates are checked at all.
  abbrev pub is_gated : RoomState l → Bool
  is_gated room = ltb 0 room.current_key_id && not (room.room_id == default_room)

  -- `plaintextIntoE2eeRoom` for a frame that carries an update.
  unfoldable pub plaintext_into_e2ee_room : RoomState l → Bytes → GateResult
  plaintext_into_e2ee_room room u =
      if is_gated room then check_enveloped_update json_parse decode_structs u else accepted

  -- A step2 or an update from a client.
  unfoldable pub receive_update : ℕ → ℕ → RoomState l → Bytes → Bytes → Gateway l → Step l
  unfolding plaintext_into_e2ee_room ask_for_resync
  receive_update c r room frame u g = elim (plaintext_into_e2ee_room room u) [
    | accepted ↦
        let (g', sent) = apply_to_room l r u (client c) g in (g', count inc_sync_messages ∷ sent)
    | rejected ids ↦
        let (g', asked) = ask_for_resync c room frame g in
        (
          g',
          count inc_sync_messages
              ∷ count inc_e2ee_rejected_updates
              ∷ send c (e2ee_rejected room.current_key_id ids)
              ∷ asked,
        )
  ]

  -- The `try` of `handleMessage`; `frame` is the whole frame.
  unfoldable pub dispatch : ℕ → ℕ → RoomState l → Bytes → Inbound → Gateway l → Step l
  unfolding receive_update
  dispatch c r room frame (sync_step1 sv) g =
      (g, count inc_sync_messages ∷ send c (step2 (encode_state room.doc sv)) ∷ [])
  dispatch c r room frame (sync_step2 u) g = receive_update c r room frame u g
  dispatch c r room frame (sync_update u) g = receive_update c r room frame u g
  dispatch c r room frame sync_broken g = (g, count inc_sync_messages ∷ [])
  dispatch c r room frame (awareness u) g =
      let (g', sent) = apply_presence l r u (client c) g in
      (g', count inc_awareness_messages ∷ sent)
  dispatch c r room frame awareness_broken g = (g, count inc_awareness_messages ∷ [])
  dispatch c r room frame unknown g = (g, [])

  -- `handleMessage`; `r` is the object that the socket's handler holds.
  unfoldable pub handle_message : ℕ → ℕ → ℕ → Bytes → Gateway l → Step l
  unfolding dispatch
  handle_message now c r frame g =
      if ltb max_ws_message_bytes (length frame)
      then (g, close c 1009 ∷ [])
      else let (limited, g') = is_rate_limited l now c g in
        if limited then (g', close c 4029 ∷ []) else elim (get r g'.objects) [
          | none ↦ (g', [])
          | some room ↦ dispatch c r room frame (decode_frame frame) g'
        ]

  unfoldable pub deliver : RedisMessage → Gateway l → Step l
  unfolding get
  deliver (redis_epoch db_id key_id) g = raise_epoch l db_id key_id g
  deliver (redis_update name u) g = elim (get name g.rooms) [
    | none ↦ (g, [])
    | some r ↦ apply_to_room l r u redis g
  ]
  deliver (redis_awareness name u) g = elim (get name g.rooms) [
    | none ↦ (g, [])
    | some r ↦ apply_presence l r u redis g
  ]

  -- The 'pmessage' handler: a message of this instance's own is skipped.
  unfoldable pub on_pmessage : Text → Text → RedisMessage → Gateway l → Step l
  unfolding deliver
  on_pmessage instance_id origin message g =
      if origin == instance_id then (g, []) else deliver message g
