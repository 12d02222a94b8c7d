-- ===== src/Server/Gateway/Messages/History.antt =====
-- What a gated room's document can hold after any frames from its clients.
use chat_crdt.Prelude.{
  ℕ, ◌≡◌, refl, ap, ◌∙◌, Bool, true, false, ◌⊎◌, inl, inr, some, List, [], ◌∷◌, Text, get, put,
  get-put, length, ltb, Bool-cases, if◌then◌else◌, text_Eq, nat_Eq, nat_eq_iff, arith,
}
use chat_crdt.Server.Gate.{GateResult, accepted, rejected, check_enveloped_update}
use chat_crdt.Server.Gateway.{
  Library, Gateway, RoomState, Step, Bytes, Inbound, sync_step1, sync_step2, sync_update,
  sync_broken, awareness, awareness_broken, unknown,
}
use chat_crdt.Server.Gateway.RateLimit.{is_rate_limited}
use chat_crdt.Server.Gateway.Fanout.{
  Origin, client, redis, disconnect, local, apply_to_room, apply_presence, on_awareness_change,
  on_doc_update, track_ids,
}
use chat_crdt.Server.Gateway.Messages.{
  is_gated, plaintext_into_e2ee_room, receive_update, dispatch, handle_message,
  max_ws_message_bytes,
}

-- The frames that one room's sockets send, each with its time and its socket.
abbrev pub Frames : Type 0
Frames = List (ℕ × ℕ × Bytes)

GateResult-cases : (x : GateResult) → (x ≡ accepted) ⊎ ((ids : List Text) × (x ≡ rejected ids))
GateResult-cases accepted = inl refl
GateResult-cases (rejected ids) = inr (ids, refl)

module _ (l : Library) where
  pub receive_all : ℕ → Frames → Gateway l → Gateway l
  receive_all r [] g = g
  receive_all r ((now, c, frame) ∷ frames) g =
      receive_all r frames (handle_message l now c r frame g).0

  get-put_self :
      (r : ℕ) (room : RoomState l) (objects : List (ℕ × RoomState l))
      → get r (put r room objects) ≡ some room
  get-put_self r room objects = get-put r r room objects ∙ ground (arith, nat_eq_iff r r)

  track_ids_objects :
      (room : RoomState l) (ch : _) (o : Origin) (g : Gateway l)
      → (track_ids l room ch o g).objects ≡ g.objects
  unfolding track_ids
  track_ids_objects room ch (client c) g = ground arith
  track_ids_objects room ch redis g = refl
  track_ids_objects room ch disconnect g = refl
  track_ids_objects room ch local g = refl

  apply_to_room_objects :
      (r : ℕ) (u : Bytes) (o : Origin) (g : Gateway l) (room : RoomState l)
      → get r g.objects ≡ some room
      → (apply_to_room l r u o g).0.objects
        ≡ put r (record room { doc = (l.apply_update room.doc u).0 }) g.objects
  unfolding apply_to_room on_doc_update
  apply_to_room_objects r u o g room h = ground arith

  on_awareness_change_objects :
      (room : RoomState l) (ch : _) (o : Origin) (g : Gateway l)
      → (on_awareness_change l room ch o g).0.objects ≡ g.objects
  unfolding on_awareness_change
  on_awareness_change_objects room ch o g = ground (arith, track_ids_objects room ch o g)

  if_objects :
      (b : Bool) (s : Step l) (g' : Gateway l)
      → s.0.objects ≡ g'.objects
      → (if b then s else (g', [])).0.objects ≡ g'.objects
  if_objects true s g' e = e
  if_objects false s g' e = refl

  apply_presence_objects :
      (r : ℕ) (u : Bytes) (o : Origin) (g : Gateway l) (room : RoomState l)
      → get r g.objects ≡ some room
      → (apply_presence l r u o g).0.objects
        ≡ put r (record room { presence = (l.apply_awareness room.presence u).0 }) g.objects
  unfolding apply_presence
  apply_presence_objects r u o g room h =
      let presence' = (l.apply_awareness room.presence u).0 in
      let room' : RoomState l = record room { presence = presence' } in
      let g' : Gateway l = record g { objects = put r room' g.objects } in
      rw (h, apply_presence)
        (if_objects room.loaded _ g'
          (on_awareness_change_objects room' (l.apply_awareness room.presence u).1 o g'))

  is_rate_limited_objects :
      (now c : ℕ) (g : Gateway l) (r : ℕ)
      → get r (is_rate_limited l now c g).1.objects ≡ get r g.objects
  unfolding is_rate_limited
  is_rate_limited_objects now c g r = refl

  -- The object of a room after a frame, with the predicate `P` on its document kept.
  module _ (P : l.Doc → Type 0) where
    abbrev pub Kept : ℕ → RoomState l → Gateway l → Type 0
    Kept r room g =
        (room' : RoomState l) × (get r g.objects ≡ some room')
        × (room'.room_id ≡ room.room_id)
        × (room'.current_key_id ≡ room.current_key_id)
        × P room'.doc

    module _
        (clean : (d : l.Doc) (u : Bytes)
          → check_enveloped_update l.json_parse l.decode_structs u ≡ accepted
          → P d
          → P (l.apply_update d u).0) where
      receive_update-Kept :
          (c r : ℕ) (room : RoomState l) (frame u : Bytes) (g : Gateway l)
          → get r g.objects ≡ some room
          → is_gated l room ≡ true
          → P room.doc
          → Kept r room (receive_update l c r room frame u g).0
      unfolding receive_update plaintext_into_e2ee_room
      receive_update-Kept c r room frame u g h gated p =
          elim (GateResult-cases (check_enveloped_update l.json_parse l.decode_structs u)) [
            | inl e ↦
                rw (gated, receive_update, plaintext_into_e2ee_room)
                  (rw (e, receive_update)
                    (
                      record room { doc = (l.apply_update room.doc u).0 },
                      ap (get r) (apply_to_room_objects r u (client c) g room h)
                          ∙ get-put_self r _ g.objects,
                      refl,
                      refl,
                      clean room.doc u e p,
                    ))
            | inr (ids, e) ↦
                rw (gated, receive_update, plaintext_into_e2ee_room)
                  (rw (e, receive_update) (room, h, refl, refl, p))
          ]

      dispatch-Kept :
          (c r : ℕ) (room : RoomState l) (frame : Bytes) (m : Inbound) (g : Gateway l)
          → get r g.objects ≡ some room
          → is_gated l room ≡ true
          → P room.doc
          → Kept r room (dispatch l c r room frame m g).0
      unfolding dispatch
      dispatch-Kept c r room frame (sync_step1 sv) g h gated p = (room, h, refl, refl, p)
      dispatch-Kept c r room frame (sync_step2 u) g h gated p =
          receive_update-Kept c r room frame u g h gated p
      dispatch-Kept c r room frame (sync_update u) g h gated p =
          receive_update-Kept c r room frame u g h gated p
      dispatch-Kept c r room frame sync_broken g h gated p = (room, h, refl, refl, p)
      dispatch-Kept c r room frame (awareness u) g h gated p = (
        record room { presence = (l.apply_awareness room.presence u).0 },
        ap (get r) (apply_presence_objects r u (client c) g room h) ∙ get-put_self r _ g.objects,
        refl,
        refl,
        p,
      )
      dispatch-Kept c r room frame awareness_broken g h gated p = (room, h, refl, refl, p)
      dispatch-Kept c r room frame unknown g h gated p = (room, h, refl, refl, p)

      handle_message-Kept :
          (now c r : ℕ) (frame : Bytes) (g : Gateway l) (room : RoomState l)
          → get r g.objects ≡ some room
          → is_gated l room ≡ true
          → P room.doc
          → Kept r room (handle_message l now c r frame g).0
      unfolding handle_message
      handle_message-Kept now c r frame g room h gated p =
          elim (Bool-cases (ltb max_ws_message_bytes (length frame))) [
            | inl e ↦ rw (e, handle_message) (room, h, refl, refl, p)
            | inr e ↦
                rw (e, handle_message)
                  (elim (Bool-cases (is_rate_limited l now c g).0) [
                    | inl e' ↦
                        rw (e', handle_message)
                          (room, is_rate_limited_objects now c g r ∙ h, refl, refl, p)
                    | inr e' ↦
                        let h' : get r (is_rate_limited l now c g).1.objects ≡ some room =
                          is_rate_limited_objects now c g r ∙ h in
                        rw (e', handle_message)
                          (rw (h', handle_message)
                            (dispatch-Kept c r room frame (l.decode_frame frame) _ h' gated p))
                  ])
          ]

      -- Take any predicate on documents that each update the gate accepts keeps. A room object that
      -- is checked (its epoch is above 0 and it is not the default room) and whose document
      -- satisfies the predicate still exists, with the same epoch and a document that satisfies it,
      -- after any frames from its sockets at any times.
      pub gated_history :
          (r : ℕ) (frames : Frames) (g : Gateway l) (room : RoomState l)
          → get r g.objects ≡ some room
          → is_gated l room ≡ true
          → P room.doc
          → Kept r room (receive_all r frames g)
      unfolding receive_all
      gated_history r [] g room h gated p = (room, h, refl, refl, p)
      gated_history r ((now, c, frame) ∷ frames) g room h gated p =
          let (room', h', same_id, same_key, p') =
            handle_message-Kept now c r frame g room h gated p in
          let gated' : is_gated l room' ≡ true = rw (same_id, same_key) gated in
          let (last, h'', id'', key'', p'') =
            gated_history r frames (handle_message l now c r frame g).0 room' h' gated' p' in
          (last, h'', id'' ∙ same_id, key'' ∙ same_key, p'')
