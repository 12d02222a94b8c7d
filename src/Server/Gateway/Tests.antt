-- ===== src/Server/Gateway/Tests.antt =====
-- The theorems on the gateway at concrete inputs.
use chat_crdt.Prelude.{
  contains, nat_Eq, ℕ, ◌≤◌, ◌≡◌, refl, true, false, Option, none, some, List, [], ◌∷◌, ◌++◌, Text,
  codes, get, contains, All, All-append, if◌then◌else◌, text_eq, nat_Eq, text_Eq, arith,
}
use chat_crdt.Shared.Value.{Value}
use chat_crdt.Server.Db.{Db, Room}
use chat_crdt.Server.Gate.{Struct, accepted, check_enveloped_update}
use chat_crdt.Server.Gateway.{
  Library, Gateway, RoomState, Bytes, sync_update, Changes, update, init, default_room,
}
use chat_crdt.Server.Gateway.RateLimit.{passed, rate_limit_bound}
use chat_crdt.Server.Gateway.Fanout.{client, apply_to_room}
use chat_crdt.Server.Gateway.Fanout.Laws.{frames_to, updates_published, fanout_once}
use chat_crdt.Server.Gateway.Messages.{handle_message, deliver, redis_update}
use chat_crdt.Server.Gateway.Messages.Gated.{IsRefused, handle_message-IsRefused}
use chat_crdt.Server.Gateway.Messages.History.{Kept, receive_all, gated_history}
use chat_crdt.Server.Gateway.Lifecycle.{
  handle_connection, handle_disconnect, attach, open_room, collection_due,
}
use chat_crdt.Server.Gateway.Lifecycle.Admission.{IsAllowed, IsEntered, connected_IsAllowed}
use chat_crdt.Server.Gateway.Lifecycle.{attach, handle_disconnect, collect}
use chat_crdt.Server.Gateway.Lifecycle.Closed.{closed_socket_entered}
use chat_crdt.Server.Gateway.Lifecycle.Collection.{collection_unmaps}
use chat_crdt.Server.Gateway.Heartbeat.{terminates, sweep_heartbeats, on_pong, second_sweep}

abbrev nothing_changed : Changes
nothing_changed = record { added = []; updated = []; removed = [] }

abbrev no_json : Text → Option Value
no_json text = none

-- An update that holds the byte 6 does not decode; any other has no structs.
abbrev decode : Bytes → Option (List Struct)
decode u = if contains 6 u then none else some []

abbrev user_of : Text → Option Text
user_of [] = none
user_of (c ∷ token) = some (c ∷ token)

-- A document is the list of the updates it was given.
abbrev library : Library
library = record {
  Doc = List Bytes;
  new_doc = [];
  apply_update = λ d u. (d ++ u ∷ [], some u);
  state_vector = λ d. 0 ∷ [];
  encode_state = λ d sv. 8 ∷ [];
  decode_structs = decode;
  json_parse = no_json;
  Awareness = List ℕ;
  new_awareness = [];
  apply_awareness = λ a u. (a, nothing_changed);
  remove_states = λ a ids. (a, nothing_changed);
  destroy_awareness = λ a. ([], nothing_changed);
  state_ids = λ a. a;
  encode_awareness = λ a ids. ids;
  decode_frame = λ frame. sync_update frame;
  digest = λ u. u;
  verify = user_of;
}

abbrev ops : Text
ops = codes "ops"

-- A room with two clients, at epoch 1.
abbrev ops_room : RoomState library
ops_room = record {
  room_id = ops;
  doc = [];
  presence = [];
  clients = 1 ∷ 2 ∷ [];
  db_id = some (codes "r1");
  current_key_id = 1;
  loaded = true;
}

abbrev gateway : Gateway library
gateway = record (init library) {
  objects = (0, ops_room) ∷ [];
  next_object = 1;
  rooms = (ops, 0) ∷ [];
  room_init = (ops, 0) ∷ [];
  open_sockets = 1 ∷ 2 ∷ 3 ∷ [];
}

rate_limit_bound_example :
    (passed (some (record { count = 60; window_start = 0 })) (10 ∷ 999 ∷ 1_000 ∷ []) ≤ 120)
    × (passed none (10 ∷ 999 ∷ 1_000 ∷ []) ≤ 60)
rate_limit_bound_example =
    rate_limit_bound (record { count = 60; window_start = 0 }) (10 ∷ 999 ∷ 1_000 ∷ []) 10
      ((omega arith, omega arith), ((omega arith, omega arith), ((omega arith, omega arith), tt)))

abbrev row : Room
row = record { id = codes "r1"; name = ops; yjs_state = none; current_key_id = 1 }

handle_message-IsRefused_example :
    IsRefused library 1 gateway (handle_message library 50 1 0 (6 ∷ []) gateway)
unfolding text_eq check_enveloped_update get
handle_message-IsRefused_example =
    handle_message-IsRefused library 50 1 0 ops_room (6 ∷ []) (6 ∷ []) [] gateway refl refl refl
      refl

-- Every update in the document passed the gate.
abbrev AllPassed : List Bytes → Type 0
AllPassed d = All (λ u. check_enveloped_update no_json decode u ≡ accepted) d

gated_history_example :
    Kept library AllPassed 0 ops_room
      (receive_all library 0 ((50, 1, 6 ∷ []) ∷ (60, 2, 5 ∷ []) ∷ []) gateway)
unfolding text_eq get
gated_history_example =
    gated_history library AllPassed
      (λ d u e p.
        All-append (λ v. check_enveloped_update no_json decode v ≡ accepted) d (u ∷ []) p (e, tt))
      0 ((50, 1, 6 ∷ []) ∷ (60, 2, 5 ∷ []) ∷ []) gateway ops_room refl refl tt

fanout_once_example :
    (frames_to 2 (apply_to_room library 0 (5 ∷ []) (client 1) gateway).1 ≡ update (5 ∷ []) ∷ [])
    × (updates_published (apply_to_room library 0 (5 ∷ []) (client 1) gateway).1
        ≡ (ops, 5 ∷ []) ∷ [])
unfolding get
fanout_once_example =
    fanout_once library 0 2 (5 ∷ []) (5 ∷ []) (client 1) gateway ops_room ((5 ∷ []) ∷ []) refl refl
      refl

abbrev no_rows : Db
no_rows = record { users = []; rooms = []; members = []; grants = [] }

abbrev offered : List Text
offered = codes "bearer" ∷ codes "alice" ∷ []

connected_IsAllowed_example :
    (default_room ≡ default_room)
    × IsAllowed library no_rows offered default_room
    × IsEntered library 3 default_room
        (handle_connection library no_rows 3 offered default_room none none gateway).0
unfolding handle_connection text_eq get
connected_IsAllowed_example =
    connected_IsAllowed library no_rows 3 offered default_room default_room none none gateway refl
      refl

-- The object 0 has lost its clients, and its room's name stands for the object 1.
abbrev reopened : Gateway library
reopened = record gateway {
  objects = (0, record ops_room { clients = [] }) ∷ (1, ops_room) ∷ [];
  next_object = 2;
  rooms = (ops, 1) ∷ [];
  room_init = (ops, 1) ∷ [];
  gc_timers = (ops, 0) ∷ [];
}

collection_unmaps_example :
    (get ops (collection_due library reopened).0.rooms ≡ none)
    × (deliver library (redis_update ops (5 ∷ [])) (collection_due library reopened).0
        ≡ ((collection_due library reopened).0, []))
    × (get 1 (collection_due library reopened).0.objects ≡ some ops_room)
unfolding get
collection_unmaps_example =
    collection_unmaps library ops 0 1 [] reopened (record ops_room { clients = [] }) (5 ∷ []) refl
      refl refl refl

second_sweep_example :
    (terminates 1
        (sweep_heartbeats library (1 ∷ 2 ∷ []) (sweep_heartbeats library (1 ∷ 2 ∷ []) gateway).0).1
      ≡ true)
    × (terminates 1
          (sweep_heartbeats library
            (1 ∷ 2 ∷ [])
            (on_pong library 1 (sweep_heartbeats library (1 ∷ 2 ∷ []) gateway).0)).1
        ≡ false)
unfolding get
second_sweep_example = second_sweep library 1 (1 ∷ 2 ∷ []) (1 ∷ 2 ∷ []) gateway refl refl refl

-- A client leaves, comes back and leaves again; the first timer collects the room, a third visit
-- makes a new object, and the second timer takes that object's name away.
abbrev alone : Gateway library
alone = record gateway {
  objects = (0, record ops_room { clients = 1 ∷ [] }) ∷ [];
  client_room = (1, ops) ∷ [];
  handlers = (1, 0) ∷ [];
}

reopen : Gateway library → Gateway library
unfolding handle_disconnect attach collection_due open_room
reopen g =
    let left = (handle_disconnect library 1 g).0 in
    let back = (attach library 1 ops 0 left).0 in
    let left_again = (handle_disconnect library 1 back).0 in
    let collected = (collection_due library left_again).0 in
    let ((r, fresh), opened) = open_room library ops collected in (attach library 1 ops r opened).0

abbrev clients_of : Option (RoomState library) → List ℕ
clients_of none = []
clients_of (some room) = room.clients

stale_timer_reached :
    (get ops (reopen alone).rooms ≡ some 1)
    × (clients_of (get 1 (reopen alone).objects) ≡ 1 ∷ [])
    × (get ops (collection_due library (reopen alone)).0.rooms ≡ none)
    × (clients_of (get 1 (collection_due library (reopen alone)).0.objects) ≡ 1 ∷ [])
unfolding reopen collection_due get text_eq
stale_timer_reached = (refl, refl, refl, refl)

closed_socket_entered_example :
    let (closed, sent) = handle_disconnect library 3 gateway in
    let g' = (attach library 3 ops 0 closed).0 in
    (sent ≡ [])
    × ((room' : RoomState library) × (get 0 g'.objects ≡ some room')
        × (contains 3 room'.clients ≡ true))
    × (collect library ops 0 g' ≡ (g', []))
unfolding get
closed_socket_entered_example = closed_socket_entered library 3 ops ops 0 gateway ops_room refl refl
