-- ===== src/Server/Rooms.antt =====
-- apps/server/src/rooms/rooms.service.ts, rooms/dto/create-room.dto.ts and users/users.service.ts.
pub mod Tables
pub mod Membership
use chat_crdt.Prelude.{
  ℕ, Bool, not, ◌&&◌, ◌||◌, Option, none, some, List, [], ◌∷◌, ◌++◌, map, Text, codes, all, any,
  filter, leb, length, ◌==◌, if◌then◌else◌, text_Eq, nat_Eq,
}
use chat_crdt.Server.Http.{
  Result, ok, err, ◌>>=◌, ◌>>◌, require, not_found, conflict, record_not_found,
}
use chat_crdt.Server.Db.{
  Db, User, Room, RoomMember, member_role, admin_role, room_by_id, room_by_name, find_member,
  user_by_id,
}

-- What `listForUser`, `create` and `join` return.
pub record RoomSummary : Type 0 where
  pub id : Text
  pub name : Text
  pub role : Text
  pub current_key_id : ℕ

abbrev pub default_room : Text
default_room = codes "default"

-- `RESERVED_ROOM_NAMES`
abbrev pub reserved_room_names : List Text
reserved_room_names = codes "rooms" ∷ codes "account" ∷ default_room ∷ []

-- `[a-z0-9-]`
abbrev pub is_name_char : ℕ → Bool
is_name_char c = (leb b'a' c && leb c b'z') || ((leb b'0' c && leb c b'9') || c == b'-')

-- `CreateRoomDto`
unfoldable pub is_valid_room_name : Text → Bool
is_valid_room_name name =
    leb 2 (length name)
    && (leb (length name) 64
        && (all is_name_char name && not (any (λ r. r == name) reserved_room_names)))

abbrev pub summary : Room → Text → RoomSummary
summary r role = record { id = r.id; name = r.name; role = role; current_key_id = r.current_key_id }

-- The memberships of one user, each with its room.
unfoldable pub summaries : Text → Db → List RoomMember → List RoomSummary
summaries user db [] = []
summaries user db (m ∷ ms) =
    let rest = summaries user db ms in
    if m.user_id == user
    then (elim (room_by_id m.room_id db) [ none ↦ rest | some r ↦ summary r m.role ∷ rest ])
    else rest

abbrev pub lobby : RoomSummary
lobby = record { id = default_room; name = default_room; role = member_role; current_key_id = 0 }

pub list_for_user : Text → Db → List RoomSummary
unfolding summaries
list_for_user user db =
    let rooms = summaries user db db.members in
    if any (λ r. r.name == default_room) rooms then rooms else rooms ++ lobby ∷ []

-- `create`. `id` is the identifier that the database makes for the new row.
pub create : Text → Text → Text → Db → Result (RoomSummary × Db)
create id name user db = elim (room_by_name name db) [
  | some r ↦ err conflict
  | none ↦
      let room : Room = record { id = id; name = name; yjs_state = none; current_key_id = 0 } in
      ok (
        summary room admin_role,
        record db {
          rooms = db.rooms ++ room ∷ [];
          members = db.members ++ record { room_id = id; user_id = user; role = admin_role } ∷ [];
        },
      )
]

pub join : Text → Text → Db → Result (RoomSummary × Db)
join name user db = elim (room_by_name name db) [
  | none ↦ err not_found
  | some r ↦ elim (find_member r.id user db) [
    | some m ↦ ok (summary r m.role, db)
    | none ↦ ok (
      summary r member_role,
      record db {
        members = db.members ++ record { room_id = r.id; user_id = user; role = member_role } ∷ [];
      },
    )
  ]
]

-- `isMember`: a membership row of this user whose room has this name.
pub is_member : Text → Text → Db → Bool
is_member name user db =
    any (λ m. m.user_id == user && any (λ r. r.id == m.room_id && r.name == name) db.rooms)
      db.members

-- `UsersService.setPublicKey`. `fp` is the BLAKE2b-512 of the key, from Node's crypto.
unfoldable pub set_public_key : (Text → Text) → Text → Text → Db → Result ((Text × Text) × Db)
set_public_key fp user key db =
    if any (λ u. u.id == user) db.users
    then ok (
      (key, fp key),
      record db {
        grants = filter (λ g. not (g.user_id == user)) db.grants;
        users =
            map
              (λ u.
                if u.id == user
                then record u { public_key = some key; public_key_fp = some (fp key) }
                else u)
              db.users;
      },
    )
    else err record_not_found
