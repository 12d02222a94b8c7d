-- ===== src/Server/Db.antt =====
-- apps/server/prisma/schema.prisma: the tables, and the queries that the services make of them.
-- Timestamps are left out; the services never read them.
use chat_crdt.Prelude.{
  ℕ, Bool, ◌&&◌, Option, List, [], ◌∷◌, Text, codes, filter, find, ◌==◌, if◌then◌else◌, text_Eq,
  nat_Eq,
}

pub record User : Type 0 where
  pub id : Text
  pub email : Text
  pub username : Text
  pub password : Text
  pub public_key : Option Text
  pub public_key_fp : Option Text

pub record Room : Type 0 where
  pub id : Text
  pub name : Text
  pub yjs_state : Option (List ℕ)
  pub current_key_id : ℕ

pub record RoomMember : Type 0 where
  pub room_id : Text
  pub user_id : Text
  pub role : Text

pub record RoomKeyGrant : Type 0 where
  pub room_id : Text
  pub user_id : Text
  pub key_id : ℕ
  pub wrapped_key : Text
  pub recipient_key_fp : Text

pub record Db : Type 0 where
  pub users : List User
  pub rooms : List Room
  pub members : List RoomMember
  pub grants : List RoomKeyGrant

abbrev pub member_role : Text
member_role = codes "member"

abbrev pub admin_role : Text
admin_role = codes "admin"

-- `room.findUnique({ where: { id } })`
abbrev pub room_by_id : Text → Db → Option Room
room_by_id id db = find (λ r. r.id == id) db.rooms

-- `room.findUnique({ where: { name } })`
abbrev pub room_by_name : Text → Db → Option Room
room_by_name name db = find (λ r. r.name == name) db.rooms

-- `roomMember.findUnique({ where: { roomId_userId } })`
abbrev pub find_member : Text → Text → Db → Option RoomMember
find_member room user db = find (λ m. m.room_id == room && m.user_id == user) db.members

-- `roomMember.findMany({ where: { roomId } })`
abbrev pub members_of : Text → Db → List RoomMember
members_of room db = filter (λ m. m.room_id == room) db.members

-- `roomKeyGrant.findMany({ where: { roomId } })`
abbrev pub grants_of : Text → Db → List RoomKeyGrant
grants_of room db = filter (λ g. g.room_id == room) db.grants

abbrev pub user_by_id : Text → Db → Option User
user_by_id id db = find (λ u. u.id == id) db.users

-- The primary key (roomId, userId, keyId).
abbrev pub same_key : RoomKeyGrant → RoomKeyGrant → Bool
same_key g h = g.room_id == h.room_id && (g.user_id == h.user_id && g.key_id == h.key_id)

-- `roomKeyGrant.upsert`: the row of that key takes the new payload, or a new row is made.
unfoldable pub upsert_grant : RoomKeyGrant → List RoomKeyGrant → List RoomKeyGrant
upsert_grant g [] = g ∷ []
upsert_grant g (h ∷ hs) =
    let rest = upsert_grant g hs in
    if same_key h g
    then record h { wrapped_key = g.wrapped_key; recipient_key_fp = g.recipient_key_fp } ∷ hs
    else h ∷ rest
