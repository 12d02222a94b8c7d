-- ===== src/Server/Gateway.antt =====
-- apps/server/src/sync/sync.gateway.ts and room-state.ts: the state of one gateway instance and what
-- it sends. The operations are in the modules below, each named for its part of the file.
-- Yjs documents and awareness, lib0's decoding and the JWT check are the record `Library`.
pub mod RateLimit
pub mod Epochs
pub mod Fanout
pub mod Messages
pub mod Lifecycle
pub mod Heartbeat
mod Tests
use chat_crdt.Prelude.{
  ℕ, Bool, true, false, not, ◌&&◌, Option, none, some, List, [], ◌∷◌, ◌++◌, map, Text, codes, Map,
  get, put, delete, filter, contains, ◌==◌, if◌then◌else◌, text_Eq, nat_Eq,
}
use chat_crdt.Server.Gate.{Struct}
use chat_crdt.Shared.Value.{Value}

abbrev pub Bytes : Type 0
Bytes = List ℕ

-- What a client's frame says, as lib0 and y-protocols read it. A frame may break off, or be of a
-- type that the gateway does not know, before or after its type has been read.
pub data Inbound : Type 0 where
  sync_step1 sync_step2 sync_update : Bytes → Inbound
  sync_broken : Inbound
  awareness : Bytes → Inbound
  awareness_broken : Inbound
  unknown : Inbound

-- The clientIDs that an awareness update touched.
pub record Changes : Type 0 where
  pub added : List ℕ
  pub updated : List ℕ
  pub removed : List ℕ

pub record Library : Type 1 where
  pub Doc : Type 0
  pub new_doc : Doc
  -- `Y.applyUpdate`: the new document, and the update that its handlers get if it changed.
  pub apply_update : Doc → Bytes → Doc × Option Bytes
  pub state_vector : Doc → Bytes
  -- What a replica with this state vector lacks.
  pub encode_state : Doc → Bytes → Bytes
  pub decode_structs : Bytes → Option (List Struct)
  pub json_parse : Text → Option Value
  pub Awareness : Type 0
  pub new_awareness : Awareness
  pub apply_awareness : Awareness → Bytes → Awareness × Changes
  pub remove_states : Awareness → List ℕ → Awareness × Changes
  -- `Awareness.destroy`, which drops the local state.
  pub destroy_awareness : Awareness → Awareness × Changes
  pub state_ids : Awareness → List ℕ
  pub encode_awareness : Awareness → List ℕ → Bytes
  pub decode_frame : Bytes → Inbound
  -- `createHash('sha256')`
  pub digest : Bytes → Text
  -- `jwt.verify`: the token's user.
  pub verify : Text → Option Text

-- A frame to a client.
pub data Frame : Type 0 where
  step1 step2 update presence : Bytes → Frame
  e2ee_rejected : ℕ → List Text → Frame
  room_epoch : ℕ → Frame

pub data Metric : Type 0 where
  inc_ws_connections dec_ws_connections inc_rooms_loaded dec_rooms_loaded : Metric
  inc_sync_messages inc_awareness_messages inc_e2ee_rejected_updates : Metric
  inc_doc_bytes inc_awareness_bytes : ℕ → Metric
  set_yjs_state_bytes : Text → ℕ → Metric
  remove_yjs_state_bytes : Text → Metric

-- What the gateway does to the world, in order. Redis payloads carry bytes, which the source wraps
-- in base64 and JSON with the instance's id.
pub data Effect : Type 0 where
  send : ℕ → Frame → Effect
  close : ℕ → ℕ → Effect
  terminate ping : ℕ → Effect
  publish_update publish_awareness : Text → Bytes → Effect
  publish_epoch : Text → ℕ → Effect
  store : Text → Bytes → Effect
  count : Metric → Effect

pub record RateState : Type 0 where
  pub count : ℕ
  pub window_start : ℕ

pub record RejectionState : Type 0 where
  pub signature : Text
  pub repeats : ℕ
  -- The delay of a pending re-ask.
  pub timer : Option ℕ

module _ (l : Library) where
  open l use {Doc, Awareness, new_doc, new_awareness}

  -- `loaded` is set once `loadRoomState` is done and the two update handlers are registered.
  pub record RoomState : Type 0 where
    pub room_id : Text
    pub doc : Doc
    pub presence : Awareness
    pub clients : List ℕ
    pub db_id : Option Text
    pub current_key_id : ℕ
    pub loaded : Bool

  -- Sockets are numbers. A RoomState is an object that maps, closures and timers share, so it stands
  -- in `objects` under a number of its own, and they hold that number.
  pub record Gateway : Type 0 where
    pub objects : Map ℕ RoomState
    pub next_object : ℕ
    pub rooms : Map Text ℕ
    pub room_init : Map Text ℕ
    pub client_room : Map ℕ Text
    -- The room in each socket's message handler.
    pub handlers : Map ℕ ℕ
    pub persist_timers : Map Text ℕ
    pub client_rate : Map ℕ RateState
    pub last_rejection : Map ℕ RejectionState
    pub awareness_ids : Map ℕ (List ℕ)
    pub alive : Map ℕ Bool
    pub epoch_by_db_id : Map Text ℕ
    -- The collections that `handleDisconnect` has scheduled: the room's name and the object.
    pub gc_timers : List (Text × ℕ)
    -- The sockets whose readyState is OPEN.
    pub open_sockets : List ℕ

  -- A step of the gateway: its new state and its effects.
  abbrev pub Step : Type 0
  Step = Gateway × List Effect

  abbrev pub init : Gateway
  init = record {
    objects = [];
    next_object = 0;
    rooms = [];
    room_init = [];
    client_room = [];
    handlers = [];
    persist_timers = [];
    client_rate = [];
    last_rejection = [];
    awareness_ids = [];
    alive = [];
    epoch_by_db_id = [];
    gc_timers = [];
    open_sockets = [];
  }

  -- `new RoomState(roomId)`
  abbrev pub new_room_state : Text → RoomState
  new_room_state room_id = record {
    room_id = room_id;
    doc = new_doc;
    presence = new_awareness;
    clients = [];
    db_id = none;
    current_key_id = 0;
    loaded = false;
  }

abbrev pub default_room : Text
default_room = codes "default"

-- The same frame to each of these sockets.
abbrev pub send_all : Frame → List ℕ → List Effect
send_all f clients = map (λ c. send c f) clients

abbrev pub is_origin : Option ℕ → ℕ → Bool
is_origin none c = false
is_origin (some o) c = c == o

-- `if (client !== origin && client.readyState === WebSocket.OPEN) client.send(msg)`
abbrev pub send_others : Frame → Option ℕ → List ℕ → List ℕ → List Effect
send_others f origin open_sockets clients =
    send_all f (filter (λ c. not (is_origin origin c) && contains c open_sockets) clients)
