-- ===== src/Server/RoomKeys/System.antt =====
-- The key service under concurrent requests: a request that has passed its checks waits to write,
-- while any others are served.
use chat_crdt.Prelude.{
  ℕ, ◌+◌, ◌≤◌, ◌≡◌, sym, ◌∙◌, true, inl, inr, Option, none, some, List, [], ◌∷◌, ◌++◌, Text, All,
  All-map, all-All, find, all, leb, ◌==◌, Option-cases, text_Eq, nat_Eq, arith,
}
use chat_crdt.Server.Http.{ok, err, HttpError}
use chat_crdt.Server.Db.{Db, Room, RoomKeyGrant, room_by_id}
use chat_crdt.Server.Rooms.{RoomSummary, create, join, set_public_key}
use chat_crdt.Server.RoomKeys.{GrantItem, UploadKeys, Plan, serve, claim, authorize, commit}
use chat_crdt.Server.RoomKeys.Epochs.{epoch_of, Distinct}

pub record System : Type 0 where
  pub db : Db
  -- Uploads between their checks and their writes.
  pub in_flight : List Plan

-- One request, or one half of an upload. A new room's identifier is unused: the database makes it.
pub data Step (fp : Text → Text) (s : System) : System → Type 0 where
  check :
      (room actor : Text) (dto : UploadKeys) {plan : Plan}
      → authorize room actor dto s.db ≡ ok plan
      → Step fp s (record s { in_flight = plan ∷ s.in_flight })
  write :
      (before after : List Plan) (plan : Plan) {k : ℕ} {db : Db} {event : Option (Text × ℕ)}
      → s.in_flight ≡ before ++ plan ∷ after
      → commit plan s.db ≡ ok (k, db, event)
      → Step fp s (record { db = db; in_flight = before ++ after })
  refuse :
      (before after : List Plan) (plan : Plan) {e : HttpError}
      → s.in_flight ≡ before ++ plan ∷ after
      → commit plan s.db ≡ err e
      → Step fp s (record s { in_flight = before ++ after })
  creates :
      (id name user : Text) {made : RoomSummary} {db : Db}
      → room_by_id id s.db ≡ none
      → create id name user s.db ≡ ok (made, db)
      → Step fp s (record s { db = db })
  joins :
      (name user : Text) {joined : RoomSummary} {db : Db}
      → join name user s.db ≡ ok (joined, db)
      → Step fp s (record s { db = db })
  publishes :
      (user key : Text) {result : Text × Text} {db : Db}
      → set_public_key fp user key s.db ≡ ok (result, db)
      → Step fp s (record s { db = db })

pub data Reach (fp : Text → Text) (s : System) : System → Type 0 where
  here : Reach fp s s
  next : {t u : System} → Reach fp s t → Step fp t u → Reach fp s u

-- A plan that the rooms allow: it serves reached epochs, or claims the one after its guess.
abbrev pub Allowed : List Room → Plan → Type 0
Allowed rooms (serve room gs current) = All (λ g. g.key_id ≤ epoch_of room rooms) gs
Allowed rooms (claim room gs expected) = All (λ g. g.key_id ≡ expected + 1) gs

pub record Inv (s : System) : Type 0 where
  pub keys : Distinct s.db.rooms
  pub reached : All (λ g. g.key_id ≤ epoch_of g.room_id s.db.rooms) s.db.grants
  pub allowed : All (Allowed s.db.rooms) s.in_flight

-- The rooms of a later database: every epoch as high as before.
abbrev pub Later : List Room → List Room → Type 0
Later rs ts = (id : Text) → epoch_of id rs ≤ epoch_of id ts

pub Allowed-Later : (rs ts : List Room) → Later rs ts → (p : Plan) → Allowed rs p → Allowed ts p
Allowed-Later rs ts l (serve room gs c) h = All-map (λ g q. omega (arith, l room)) gs h
Allowed-Later rs ts l (claim room gs c) h = h

pub reached-Later :
    (rs ts : List Room)
    → Later rs ts
    → (gs : List RoomKeyGrant) → All (λ g. g.key_id ≤ epoch_of g.room_id rs) gs
    → All (λ g. g.key_id ≤ epoch_of g.room_id ts) gs
reached-Later rs ts l gs h = All-map (λ g q. omega (arith, l g.room_id)) gs h

epoch_of-find :
    (id : Text) (rs : List Room) (r : Room)
    → find (λ x. x.id == id) rs ≡ some r
    → epoch_of id rs ≡ r.current_key_id
unfolding epoch_of
epoch_of-find id [] r h = cc
epoch_of-find id (x ∷ rs) r h = ground (arith, epoch_of-find id rs r)

-- What an admitted upload without a claim has shown.
authorized_serve :
    (room actor : Text) (dto : UploadKeys) (db : Db) (room' : Text) (gs : List GrantItem) (c : ℕ)
    → authorize room actor dto db ≡ ok (serve room' gs c)
    → (r : Room) × (room_by_id room db ≡ some r)
      × (room' ≡ room)
      × (c ≡ r.current_key_id)
      × (all (λ g. leb g.key_id c) gs ≡ true)
unfolding authorize
authorized_serve room actor dto db room' gs c h = elim (Option-cases (room_by_id room db)) [
  | inl e ↦ ground arith
  | inr (r, e) ↦ (r, e, ground arith, ground arith, ground arith)
]

authorized_claim :
    (room actor : Text) (dto : UploadKeys) (db : Db) (room' : Text) (gs : List GrantItem) (c : ℕ)
    → authorize room actor dto db ≡ ok (claim room' gs c)
    → all (λ g. g.key_id == c + 1) gs ≡ true
unfolding authorize
authorized_claim room actor dto db room' gs c h = ground arith

-- A request that passes its checks is allowed by the database that it was checked against.
pub authorize-Allowed :
    (room actor : Text) (dto : UploadKeys) (db : Db) (plan : Plan)
    → authorize room actor dto db ≡ ok plan
    → Allowed db.rooms plan
authorize-Allowed room actor dto db (serve room' gs c) h =
    let (r, found, same, current, below) = authorized_serve room actor dto db room' gs c h in
    let epoch : epoch_of room' db.rooms ≡ c =
      rw same (epoch_of-find room db.rooms r found ∙ sym current) in
    All-map (λ g q. ground arith) gs (all-All (λ g. leb g.key_id c) gs below)
authorize-Allowed room actor dto db (claim room' gs c) h =
    All-map (λ g q. ground arith) gs
      (all-All (λ g. g.key_id == c + 1) gs (authorized_claim room actor dto db room' gs c h))
