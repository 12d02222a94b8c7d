-- ===== src/Server/Gateway/Epochs.antt =====
-- sync.gateway.ts, `raiseEpoch` and its two callers, and `loadRoomState`.
pub mod Monotone
use chat_crdt.Prelude.{
  ℕ, ◌≤◌, ◌≡◌, refl, Bool, true, false, not, ◌&&◌, ◌||◌, Option, none, some, List, [], ◌∷◌, ◌++◌,
  Text, Map, get, put, max, ltb, leb, ◌==◌, if◌then◌else◌, text_Eq, nat_Eq, In,
}
use chat_crdt.Server.Db.{Db, Room, room_by_name}
use chat_crdt.Server.Gateway.{
  Library, Gateway, RoomState, Step, Effect, publish_epoch, count, inc_rooms_loaded, room_epoch,
  send_all,
}

abbrev pub or_zero : Option ℕ → ℕ
or_zero none = 0
or_zero (some n) = n

-- `room.dbId === dbId`
abbrev pub has_db_id : Option Text → Text → Bool
has_db_id none id = false
has_db_id (some d) id = d == id

-- `room.dbId ??= upserted?.id ?? null`
abbrev pub or_made : Option Text → Option Room → Option Text
or_made (some id) made = some id
or_made none none = none
or_made none (some made) = some made.id

module _ (l : Library) where
  -- The body of the loop of `raiseEpoch`, for the object of one room.
  unfoldable pub raise_one : Text → ℕ → RoomState l → RoomState l × List Effect
  raise_one db_id key_id room =
      if not (has_db_id room.db_id db_id) || leb key_id room.current_key_id
      then (room, [])
      else (record room { current_key_id = key_id }, send_all (room_epoch key_id) room.clients)

  -- The loop over `this.rooms.values()`.
  unfoldable pub raise_rooms :
      Text → ℕ → List (Text × ℕ) → Map ℕ (RoomState l) → Map ℕ (RoomState l) × List Effect
  unfolding raise_one get put
  raise_rooms db_id key_id [] objects = (objects, [])
  raise_rooms db_id key_id ((name, r) ∷ rooms) objects = elim (get r objects) [
    | none ↦ raise_rooms db_id key_id rooms objects
    | some room ↦
        let (room', sent) = raise_one db_id key_id room in
        let (objects', more) = raise_rooms db_id key_id rooms (put r room' objects) in
        (objects', sent ++ more)
  ]

  -- `raiseEpoch`; the epoch is `none` where it is no number.
  unfoldable pub raise_epoch : Text → Option ℕ → Gateway l → Step l
  unfolding raise_rooms
  raise_epoch db_id none g = (g, [])
  raise_epoch db_id (some key_id) g =
      let seen = max (or_zero (get db_id g.epoch_by_db_id)) key_id in
      let (objects, sent) = raise_rooms db_id key_id g.rooms g.objects in
      (record g { epoch_by_db_id = put db_id seen g.epoch_by_db_id; objects = objects }, sent)

  -- The listener that the constructor's `onEpochAdvanced` registers.
  unfoldable pub on_epoch_advanced : Text → ℕ → Gateway l → Step l
  unfolding raise_epoch
  on_epoch_advanced db_id key_id g =
      let (g', sent) = raise_epoch db_id (some key_id) g in
      (g', sent ++ publish_epoch db_id key_id ∷ [])

  abbrev pub loaded_doc : Option (List ℕ) → l.Doc → l.Doc
  loaded_doc none doc = doc
  loaded_doc (some state) doc = (l.apply_update doc state).0

  -- What `loadRoomState` makes of the room's row and of the epochs seen so far.
  unfoldable pub load_room : Option Room → Map Text ℕ → RoomState l → RoomState l
  unfolding get
  load_room none seen room = room
  load_room (some row) seen room = record room {
    db_id = some row.id;
    current_key_id = max (max room.current_key_id row.current_key_id) (or_zero (get row.id seen));
    doc = loaded_doc row.yjs_state room.doc;
  }

  -- `loadRoomState` and what follows it in `getOrCreateRoom`. `made` is the row that the upsert
  -- returns where there was none.
  unfoldable pub finish_load : ℕ → Option Room → Option Room → Gateway l → Step l
  unfolding load_room put
  finish_load r row made g = elim (get r g.objects) [
    | none ↦ (g, [])
    | some room ↦
        let loaded' = load_room row g.epoch_by_db_id room in
        (
          record g {
            objects =
                put r (record loaded' { db_id = or_made loaded'.db_id made; loaded = true })
                  g.objects;
          },
          count inc_rooms_loaded ∷ [],
        )
  ]
