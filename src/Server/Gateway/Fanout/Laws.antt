-- ===== src/Server/Gateway/Fanout/Laws.antt =====
-- Who gets an update of a room's document.
use chat_crdt.Prelude.{
  ℕ, ◌≡◌, refl, true, not, ◌&&◌, Option, none, some, List, [], ◌∷◌, ◌++◌, Text, get, contains, ◌==◌,
  eq_iff, if◌then◌else◌, nat_Eq, arith,
}
use chat_crdt.Server.Gateway.{
  Library, Gateway, RoomState, Bytes, Frame, update, Effect, send, publish_update, count,
  send_others, is_origin,
}
use chat_crdt.Server.Gateway.Fanout.{
  Origin, client, redis, disconnect, local, origin_socket, is_redis, apply_to_room, on_doc_update,
}

-- The frames that some effects send to one socket.
abbrev pub frames_to : ℕ → List Effect → List Frame
frames_to x [] = []
frames_to x (send c f ∷ es) = let rest = frames_to x es in if c == x then f ∷ rest else rest
frames_to x (_ ∷ es) = frames_to x es

-- The updates that some effects publish.
abbrev pub updates_published : List Effect → List (Text × Bytes)
updates_published [] = []
updates_published (publish_update name u ∷ es) = (name, u) ∷ updates_published es
updates_published (_ ∷ es) = updates_published es

-- One copy of a frame for each time that a socket stands in the list.
abbrev pub copies : ℕ → Frame → List ℕ → List Frame
copies x f [] = []
copies x f (c ∷ clients) = let rest = copies x f clients in if c == x then f ∷ rest else rest

frames_to-send_others :
    (x : ℕ) (f : Frame) (o : Option ℕ) (sockets clients : List ℕ) (n : Text) (u : Bytes) (k : _)
    → frames_to x (send_others f o sockets clients ++ publish_update n u ∷ count k ∷ [])
      ≡ (if not (is_origin o x) && contains x sockets then copies x f clients else [])
frames_to-send_others x f o sockets [] n u k = ground arith
frames_to-send_others x f o sockets (c ∷ clients) n u k =
    ground (arith, eq_iff c x, frames_to-send_others x f o sockets clients n u k)

frames_to-send_others_only :
    (x : ℕ) (f : Frame) (o : Option ℕ) (sockets clients : List ℕ)
    → frames_to x (send_others f o sockets clients)
      ≡ (if not (is_origin o x) && contains x sockets then copies x f clients else [])
frames_to-send_others_only x f o sockets [] = ground arith
frames_to-send_others_only x f o sockets (c ∷ clients) =
    ground (arith, eq_iff c x, frames_to-send_others_only x f o sockets clients)

updates_published-send_others :
    (f : Frame) (o : Option ℕ) (sockets clients : List ℕ) (rest : List Effect)
    → updates_published (send_others f o sockets clients ++ rest) ≡ updates_published rest
updates_published-send_others f o sockets [] rest = refl
updates_published-send_others f o sockets (c ∷ clients) rest =
    ground (arith, updates_published-send_others f o sockets clients rest)

updates_published-send_others_only :
    (f : Frame) (o : Option ℕ) (sockets clients : List ℕ)
    → updates_published (send_others f o sockets clients) ≡ []
updates_published-send_others_only f o sockets [] = refl
updates_published-send_others_only f o sockets (c ∷ clients) =
    ground (arith, updates_published-send_others_only f o sockets clients)

module _ (l : Library) where
  -- Take a loaded room and an update that changes its document by some delta. A socket gets the
  -- delta once for each time it stands among the room's clients if it is open and not the update's
  -- origin, and no frame otherwise; and the delta is published to the other instances, once, if and
  -- only if the update did not come from one.
  pub fanout_once :
      (r x : ℕ) (u delta : Bytes) (o : Origin) (g : Gateway l) (room : RoomState l) (doc : l.Doc)
      → get r g.objects ≡ some room
      → room.loaded ≡ true
      → l.apply_update room.doc u ≡ (doc, some delta)
      → (frames_to x (apply_to_room l r u o g).1 ≡ (
          if not (is_origin (origin_socket o) x) && contains x g.open_sockets
          then copies x (update delta) room.clients
          else []))
        × (updates_published (apply_to_room l r u o g).1
            ≡ (if is_redis o then [] else (room.room_id, delta) ∷ []))
  unfolding apply_to_room on_doc_update
  fanout_once r x u delta redis g room doc h loaded applied =
      rw (h, apply_to_room)
        (rw (applied, apply_to_room)
          (rw (loaded, apply_to_room)
            (
              frames_to-send_others_only x (update delta) none g.open_sockets room.clients,
              updates_published-send_others_only (update delta) none g.open_sockets room.clients,
            )))
  fanout_once r x u delta (client c) g room doc h loaded applied =
      rw (h, apply_to_room)
        (rw (applied, apply_to_room)
          (rw (loaded, apply_to_room)
            (
              frames_to-send_others x (update delta) (some c) g.open_sockets room.clients
                  room.room_id delta _,
              updates_published-send_others (update delta) (some c) g.open_sockets room.clients _,
            )))
  fanout_once r x u delta disconnect g room doc h loaded applied =
      rw (h, apply_to_room)
        (rw (applied, apply_to_room)
          (rw (loaded, apply_to_room)
            (
              frames_to-send_others x (update delta) none g.open_sockets room.clients room.room_id
                  delta _,
              updates_published-send_others (update delta) none g.open_sockets room.clients _,
            )))
  fanout_once r x u delta local g room doc h loaded applied =
      rw (h, apply_to_room)
        (rw (applied, apply_to_room)
          (rw (loaded, apply_to_room)
            (
              frames_to-send_others x (update delta) none g.open_sockets room.clients room.room_id
                  delta _,
              updates_published-send_others (update delta) none g.open_sockets room.clients _,
            )))
