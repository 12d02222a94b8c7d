-- ===== src/Server/Gateway/Lifecycle.antt =====
-- sync.gateway.ts, the life of a connection and of a room: `handleConnection`, `getOrCreateRoom`,
-- `handleDisconnect` with the collection that it schedules, and `persistRoomState`.
pub mod Admission
pub mod Collection
pub mod Closed
use chat_crdt.Prelude.{
  ℕ, suc, Bool, true, false, not, ◌||◌, ◌&&◌, Option, none, some, List, [], ◌∷◌, ◌++◌, Text, codes,
  get, put, delete, filter, contains, length, ltb, ◌==◌, if◌then◌else◌, text_Eq, nat_Eq,
}
use chat_crdt.Server.Db.{Db, Room}
use chat_crdt.Server.Rooms.{is_member}
use chat_crdt.Server.Gateway.{
  Library, Gateway, RoomState, Step, Effect, send, close, store, count, step1, step2, presence,
  room_epoch, inc_ws_connections, dec_ws_connections, dec_rooms_loaded, set_yjs_state_bytes,
  remove_yjs_state_bytes, new_room_state, default_room,
}
use chat_crdt.Server.Gateway.Fanout.{drop_presence, destroy_room, known_ids, is_empty}
use chat_crdt.Server.Gateway.Epochs.{finish_load}

-- The token of the subprotocols that the client offers, split and trimmed.
unfoldable pub token_of : List Text → Text
token_of [] = []
token_of (scheme ∷ []) = []
token_of (scheme ∷ token ∷ rest) = if scheme == codes "bearer" then token else []

module _ (l : Library) where
  open l use {verify, state_vector, encode_state, state_ids, encode_awareness}

  -- The code that a connection is closed with, if it is refused.
  unfoldable pub admit : Db → List Text → Text → Option ℕ
  unfolding token_of
  admit db offered name = elim (verify (token_of offered)) [
    | none ↦ some 4001
    | some user ↦ if name == default_room || is_member name user db then none else some 4003
  ]

  -- `getOrCreateRoom` up to its first `await`: the object, and whether it is new.
  unfoldable pub open_room : Text → Gateway l → (ℕ × Bool) × Gateway l
  unfolding get put
  open_room name g = elim (get name g.room_init) [
    | some r ↦ ((r, false), g)
    | none ↦
        let r = g.next_object in
        (
          (r, true),
          record g {
            objects = put r (new_room_state l name) g.objects;
            next_object = suc r;
            rooms = put name r g.rooms;
            room_init = put name r g.room_init;
          },
        )
  ]

  unfoldable pub greeting : ℕ → RoomState l → List Effect
  greeting c room =
      let ids = state_ids room.presence in
      let epoch =
        if ltb 0 room.current_key_id && not (room.room_id == default_room)
        then send c (room_epoch room.current_key_id) ∷ []
        else [] in
      let states =
        if is_empty ids then [] else send c (presence (encode_awareness room.presence ids)) ∷ [] in
      epoch
      ++ send c (step1 (state_vector room.doc))
        ∷ send c (step2 (encode_state room.doc (0 ∷ [])))
        ∷ states

  -- `handleConnection` from where the room is there.
  unfoldable pub attach : ℕ → Text → ℕ → Gateway l → Step l
  unfolding greeting get put
  attach c name r g = elim (get r g.objects) [
    | none ↦ (g, [])
    | some room ↦
        let clients = if contains c room.clients then room.clients else room.clients ++ c ∷ [] in
        let room' : RoomState l = record room { clients = clients } in
        (
          record g {
            objects = put r room' g.objects;
            client_room = put c name g.client_room;
            handlers = put c r g.handlers;
            alive = put c true g.alive;
          },
          count inc_ws_connections ∷ greeting c room',
        )
  ]

  -- `handleConnection` with nothing between its `await`s. `row` and `made` are what the database has
  -- for a room that is loaded.
  unfoldable pub handle_connection :
      Db → ℕ → List Text → Text → Option Room → Option Room → Gateway l → Step l
  unfolding admit open_room attach finish_load
  handle_connection db c offered name row made g = elim (admit db offered name) [
    | some code ↦ (g, close c code ∷ [])
    | none ↦
        let ((r, fresh), g1) = open_room name g in
        let (g2, sent) = if fresh then finish_load l r row made g1 else (g1, []) in
        let (g3, sent') = attach c name r g2 in (g3, sent ++ sent')
  ]

  -- `handleDisconnect` where the room is there.
  unfoldable pub detach : ℕ → Text → ℕ → RoomState l → Gateway l → Step l
  unfolding drop_presence get put delete
  detach c name r room g =
      let clients = filter (λ x. not (x == c)) room.clients in
      let g1 : Gateway l = record g {
        objects = put r (record room { clients = clients }) g.objects;
      } in
      let ids = known_ids (get c g.awareness_ids) in
      let (g2, sent) = drop_presence l r ids g1 in
      let g3 : Gateway l =
        if is_empty ids then g1 else record g2 { awareness_ids = delete c g2.awareness_ids } in
      let timers = if is_empty clients then g.gc_timers ++ (name, r) ∷ [] else g.gc_timers in
      (record g3 { gc_timers = timers }, if is_empty ids then [] else sent)

  -- `handleDisconnect`; a room's name is no empty string, which the source reads as no room.
  unfoldable pub handle_disconnect : ℕ → Gateway l → Step l
  unfolding detach get delete
  handle_disconnect c g = elim (get c g.client_room) [
    | none ↦ (g, [])
    | some name ↦
        if is_empty name
        then (g, [])
        else let g' : Gateway l = record g {
          client_room = delete c g.client_room;
          handlers = delete c g.handlers;
        } in
          elim (get name g.rooms) [
            | none ↦ (g', count dec_ws_connections ∷ [])
            | some r ↦ elim (get r g.objects) [
              | none ↦ (g', count dec_ws_connections ∷ [])
              | some room ↦
                  let (g2, sent) = detach c name r room g' in (g2, count dec_ws_connections ∷ sent)
            ]
          ]
  ]

  unfoldable pub persist_room_state : ℕ → Gateway l → List Effect
  unfolding get
  persist_room_state r g = elim (get r g.objects) [
    | none ↦ []
    | some room ↦
        let state = encode_state room.doc (0 ∷ []) in
        count (set_yjs_state_bytes room.room_id (length state)) ∷ store room.room_id state ∷ []
  ]

  -- The timer of `schedulePersist` runs out.
  unfoldable pub persist_due : Text → Gateway l → Step l
  unfolding persist_room_state get delete
  persist_due name g = elim (get name g.persist_timers) [
    | none ↦ (g, [])
    | some r ↦ (record g { persist_timers = delete name g.persist_timers }, persist_room_state r g)
  ]

  -- The body of the timer of `handleDisconnect`.
  unfoldable pub collect : Text → ℕ → Gateway l → Step l
  unfolding persist_room_state destroy_room get delete
  collect name r g = elim (get r g.objects) [
    | none ↦ (g, [])
    | some room ↦
        if is_empty room.clients
        then (let stored : List Effect = elim (get name g.persist_timers) [
          | none ↦ []
          | some old ↦ persist_room_state r g
        ] in
            let g1 : Gateway l = record g { persist_timers = delete name g.persist_timers } in
            let (g2, sent) = destroy_room l r g1 in
            (
              record g2 { rooms = delete name g2.rooms; room_init = delete name g2.room_init },
              stored ++ sent ++ count dec_rooms_loaded ∷ count (remove_yjs_state_bytes name) ∷ [],
            ))
        else (g, [])
  ]

  -- The first of the timers of `handleDisconnect` runs out; they have one delay.
  unfoldable pub collection_due : Gateway l → Step l
  unfolding collect
  collection_due g = elim g.gc_timers [
    | [] ↦ (g, [])
    | (name, r) ∷ timers ↦ collect name r (record g { gc_timers = timers })
  ]
