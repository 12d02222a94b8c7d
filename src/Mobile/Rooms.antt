-- ===== src/Mobile/Rooms.antt =====
-- apps/mobile/src/store/rooms.store.ts, with `createLatestWins` of apps/mobile/src/crypto/roomRefresher.ts: what the app
-- knows of the rooms and of their encryption.
pub mod Seen
pub mod Latest
use chat_crdt.Prelude.{
  ℕ, suc, Bool, true, false, not, ◌&&◌, ◌||◌, Option, none, some, List, [], ◌∷◌, ◌++◌, map, Text,
  codes, Map, get, put, delete, find, any, max, ltb, leb, ◌==◌, if◌then◌else◌, text_Eq, nat_Eq,
}
use chat_crdt.Mobile.Render.{
  RoomE2eeState, plaintext_room, e2ee_room, unknown_room, RefreshState, pending, offline, failed,
  ok, resolve_room_e2ee_state,
}

pub record RoomSummary : Type 0 where
  pub id : Text
  pub name : Text
  pub role : Text
  pub current_key_id : ℕ

pub record RoomsState : Type 0 where
  pub rooms : List RoomSummary
  pub refresh_by_room : Map Text RefreshState
  pub ever_e2ee_by_room : Map Text Bool

-- The refresher's `onRefresh`.
unfoldable pub on_refresh : Text → Option RefreshState → RoomsState → RoomsState
unfolding put delete
on_refresh room none s = record s { refresh_by_room = delete room s.refresh_by_room }
on_refresh room (some state) s = record s {
  refresh_by_room = put room state (delete room s.refresh_by_room);
}

-- The refresher's `onEverE2ee`.
unfoldable pub on_ever_e2ee : Text → RoomsState → RoomsState
unfolding put
on_ever_e2ee room s = record s { ever_e2ee_by_room = put room true s.ever_e2ee_by_room }

-- The flags that `rememberE2eeRooms` sets.
unfoldable pub remember_e2ee_rooms : List RoomSummary → Map Text Bool → Map Text Bool
unfolding put
remember_e2ee_rooms [] ever = ever
remember_e2ee_rooms (r ∷ rooms) ever =
    remember_e2ee_rooms rooms (if ltb 0 r.current_key_id then put r.name true ever else ever)

-- What `requestRooms` does with a list that it applies.
unfoldable pub apply_rooms : List RoomSummary → RoomsState → RoomsState
unfolding remember_e2ee_rooms
apply_rooms rooms s = record s {
  rooms = rooms;
  ever_e2ee_by_room = remember_e2ee_rooms rooms s.ever_e2ee_by_room;
}

-- `previous?.status === 'ok' ? previous.currentKeyId : 0`
abbrev pub known_key_id : Option RefreshState → ℕ
known_key_id (some (ok k)) = k
known_key_id _ = 0

abbrev pub raise_summary : Text → ℕ → RoomSummary → RoomSummary
raise_summary name key_id r =
    if r.name == name then record r { current_key_id = max r.current_key_id key_id } else r

unfoldable pub note_room_epoch : Text → ℕ → RoomsState → RoomsState
unfolding get put
note_room_epoch name key_id s = if leb key_id 0 then s else record {
  rooms = map (raise_summary name key_id) s.rooms;
  refresh_by_room =
      put name (ok (max (known_key_id (get name s.refresh_by_room)) key_id)) s.refresh_by_room;
  ever_e2ee_by_room = put name true s.ever_e2ee_by_room;
}

-- The state after `createRoom`.
unfoldable pub room_created : RoomSummary → RoomsState → RoomsState
room_created room s = record s { rooms = s.rooms ++ room ∷ [] }

-- The state after `joinRoom`.
unfoldable pub room_joined : RoomSummary → RoomsState → RoomsState
room_joined room s = record s {
  rooms = if any (λ r. r.name == room.name) s.rooms then s.rooms else s.rooms ++ room ∷ [];
}

abbrev pub cached_key_id : Option RoomSummary → ℕ
cached_key_id none = 0
cached_key_id (some r) = r.current_key_id

abbrev pub or_false : Option Bool → Bool
or_false none = false
or_false (some b) = b

unfoldable pub use_room_e2ee_state : Text → RoomsState → RoomE2eeState
unfolding resolve_room_e2ee_state get
use_room_e2ee_state name s =
    if name == codes "default"
    then plaintext_room
    else resolve_room_e2ee_state (cached_key_id (find (λ r. r.name == name) s.rooms))
        (get name s.refresh_by_room) (or_false (get name s.ever_e2ee_by_room))

-- What changes the store.
pub data Event : Type 0 where
  refreshed : Text → Option RefreshState → Event
  flagged : Text → Event
  listed : List RoomSummary → Event
  noted : Text → ℕ → Event
  created joined : RoomSummary → Event

unfoldable pub step : Event → RoomsState → RoomsState
unfolding on_refresh on_ever_e2ee apply_rooms note_room_epoch room_created room_joined
step (refreshed room state) s = on_refresh room state s
step (flagged room) s = on_ever_e2ee room s
step (listed rooms) s = apply_rooms rooms s
step (noted name key_id) s = note_room_epoch name key_id s
step (created room) s = room_created room s
step (joined room) s = room_joined room s

unfoldable pub run : List Event → RoomsState → RoomsState
unfolding step
run [] s = s
run (e ∷ es) s = run es (step e s)

-- `createLatestWins`
pub record LatestWins : Type 0 where
  pub started : ℕ
  pub applied : ℕ

unfoldable pub begin : LatestWins → ℕ × LatestWins
begin w = (suc w.started, record w { started = suc w.started })

unfoldable pub try_apply : ℕ → LatestWins → Bool × LatestWins
try_apply seq w = if leb seq w.applied then (false, w) else (true, record w { applied = seq })
