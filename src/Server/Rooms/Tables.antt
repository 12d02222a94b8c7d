-- ===== src/Server/Rooms/Tables.antt =====
-- What the operations of rooms.service.ts and users.service.ts change in the tables.
use chat_crdt.Prelude.{
  ◌≡◌, true, none, some, not, any, map, if◌then◌else◌, [], ◌∷◌, ◌++◌, Text, filter, ◌==◌, text_Eq,
  arith,
}
use chat_crdt.Server.Http.{ok}
use chat_crdt.Server.Db.{Db}
use chat_crdt.Server.Rooms.{RoomSummary, create, join, set_public_key}

pub create_tables :
    (id name user : Text) (db db' : Db) (made : RoomSummary)
    → create id name user db ≡ ok (made, db')
    → (db'.rooms
        ≡ db.rooms ++ record { id = id; name = name; yjs_state = none; current_key_id = 0 } ∷ [])
      × (db'.grants ≡ db.grants)
unfolding create
create_tables id name user db db' made h = ground arith

pub join_tables :
    (name user : Text) (db db' : Db) (joined : RoomSummary)
    → join name user db ≡ ok (joined, db')
    → (db'.rooms ≡ db.rooms) × (db'.grants ≡ db.grants)
unfolding join
join_tables name user db db' joined h = ground arith

pub publish_tables :
    (fp : Text → Text) (user key : Text) (db db' : Db) (result : Text × Text)
    → set_public_key fp user key db ≡ ok (result, db')
    → (db'.rooms ≡ db.rooms) × (db'.grants ≡ filter (λ g. not (g.user_id == user)) db.grants)
unfolding set_public_key
publish_tables fp user key db db' result h = ground arith

pub publish_users :
    (fp : Text → Text) (user key : Text) (db db' : Db) (result : Text × Text)
    → set_public_key fp user key db ≡ ok (result, db')
    → (any (λ u. u.id == user) db.users ≡ true)
      × (db'.users
          ≡ map
              (λ u.
                if u.id == user
                then record u { public_key = some key; public_key_fp = some (fp key) }
                else u)
              db.users)
unfolding set_public_key
publish_users fp user key db db' result h = ground arith

pub publish_members :
    (fp : Text → Text) (user key : Text) (db db' : Db) (result : Text × Text)
    → set_public_key fp user key db ≡ ok (result, db')
    → db'.members ≡ db.members
unfolding set_public_key
publish_members fp user key db db' result h = ground arith
