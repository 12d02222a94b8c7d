-- ===== src/Server/Gateway/Fanout.antt =====
-- sync.gateway.ts: what follows a change of a room's document or awareness (the handlers registered by
-- `registerRoomUpdateHandler` and `registerRoomAwarenessHandler`, and `schedulePersist`).
pub mod Laws
use chat_crdt.Prelude.{
  ℕ, Bool, true, false, not, Option, none, some, List, [], ◌∷◌, ◌++◌, get, put, filter, contains,
  length, ◌==◌, if◌then◌else◌, text_Eq, nat_Eq,
}
use chat_crdt.Server.Gateway.{
  Library, Gateway, RoomState, Step, Bytes, Changes, Frame, update, presence, Effect,
  publish_update, publish_awareness, count, inc_doc_bytes, inc_awareness_bytes, send_others,
}

-- The origin of a Yjs transaction.
pub data Origin : Type 0 where
  client : ℕ → Origin
  redis : Origin
  disconnect : Origin
  -- The local state of an `Awareness` that is destroyed.
  local : Origin

abbrev pub origin_socket : Origin → Option ℕ
origin_socket (client c) = some c
origin_socket _ = none

abbrev pub is_redis : Origin → Bool
is_redis redis = true
is_redis _ = false

-- `set.add` and `set.delete` on the ids of one socket.
abbrev pub add_ids : List ℕ → List ℕ → List ℕ
add_ids [] set = set
add_ids (i ∷ is) set = add_ids is (if contains i set then set else set ++ i ∷ [])

abbrev pub remove_ids : List ℕ → List ℕ → List ℕ
remove_ids is set = filter (λ i. not (contains i is)) set

abbrev pub known_ids : Option (List ℕ) → List ℕ
known_ids none = []
known_ids (some ids) = ids

abbrev pub is_empty : List ℕ → Bool
is_empty [] = true
is_empty (x ∷ xs) = false

module _ (l : Library) where
  open l use {apply_update, encode_awareness}

  -- The 'update' handler of a room's document.
  unfoldable pub on_doc_update : ℕ → RoomState l → Bytes → Origin → Gateway l → Step l
  unfolding put
  on_doc_update r room u origin g =
      let fan = send_others (update u) (origin_socket origin) g.open_sockets room.clients in
      if is_redis origin then (g, fan) else (
        record g { persist_timers = put room.room_id r g.persist_timers },
        fan ++ publish_update room.room_id u ∷ count (inc_doc_bytes (length u)) ∷ [],
      )

  -- `Y.applyUpdate(room.doc, u, origin)`: the handler is called if it is registered and the document
  -- has changed.
  unfoldable pub apply_to_room : ℕ → Bytes → Origin → Gateway l → Step l
  unfolding on_doc_update get put
  apply_to_room r u origin g = elim (get r g.objects) [
    | none ↦ (g, [])
    | some room ↦
        let (doc, event) = apply_update room.doc u in
        let room' : RoomState l = record room { doc = doc } in
        let g' : Gateway l = record g { objects = put r room' g.objects } in
        elim event [
          | none ↦ (g', [])
          | some delta ↦ if room.loaded then on_doc_update r room' delta origin g' else (g', [])
        ]
  ]

  -- The ids that a socket's clients control, after a change that came from it.
  unfoldable pub track_ids : RoomState l → Changes → Origin → Gateway l → Gateway l
  unfolding get put
  track_ids room ch (client c) g =
      if contains c room.clients
      then record g {
        awareness_ids =
            put c
              (remove_ids ch.removed
                (add_ids ch.updated (add_ids ch.added (known_ids (get c g.awareness_ids)))))
              g.awareness_ids;
      }
      else g
  track_ids room ch redis g = g
  track_ids room ch disconnect g = g
  track_ids room ch local g = g

  -- The 'update' handler of a room's awareness.
  unfoldable pub on_awareness_change : RoomState l → Changes → Origin → Gateway l → Step l
  unfolding track_ids
  on_awareness_change room ch origin g =
      let changed = ch.added ++ ch.updated ++ ch.removed in
      if is_empty changed
      then (g, [])
      else let g' = track_ids room ch origin g in
        let u = encode_awareness room.presence changed in
        let fan = send_others (presence u) (origin_socket origin) g.open_sockets room.clients in
        if is_redis origin then (g', fan) else (
          g',
          fan ++ publish_awareness room.room_id u ∷ count (inc_awareness_bytes (length u)) ∷ [],
        )

  -- `applyAwarenessUpdate(room.awareness, u, origin)`
  unfoldable pub apply_presence : ℕ → Bytes → Origin → Gateway l → Step l
  unfolding on_awareness_change get put
  apply_presence r u origin g = elim (get r g.objects) [
    | none ↦ (g, [])
    | some room ↦
        let (presence', ch) = l.apply_awareness room.presence u in
        let room' : RoomState l = record room { presence = presence' } in
        let g' : Gateway l = record g { objects = put r room' g.objects } in
        if room.loaded then on_awareness_change room' ch origin g' else (g', [])
  ]

  -- `removeAwarenessStates(room.awareness, ids, 'disconnect')`
  unfoldable pub drop_presence : ℕ → List ℕ → Gateway l → Step l
  unfolding on_awareness_change get put
  drop_presence r ids g = elim (get r g.objects) [
    | none ↦ (g, [])
    | some room ↦
        let (presence', ch) = l.remove_states room.presence ids in
        let room' : RoomState l = record room { presence = presence' } in
        let g' : Gateway l = record g { objects = put r room' g.objects } in
        if room.loaded then on_awareness_change room' ch disconnect g' else (g', [])
  ]

  -- `room.destroy()`; the document's and the presence's handlers are gone afterwards.
  unfoldable pub destroy_room : ℕ → Gateway l → Step l
  unfolding on_awareness_change get put
  destroy_room r g = elim (get r g.objects) [
    | none ↦ (g, [])
    | some room ↦
        let (presence', ch) = l.destroy_awareness room.presence in
        let room' : RoomState l = record room { presence = presence'; loaded = false } in
        let g' : Gateway l = record g { objects = put r room' g.objects } in
        if room.loaded then on_awareness_change room' ch local g' else (g', [])
  ]
