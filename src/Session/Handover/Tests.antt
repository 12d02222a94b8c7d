-- ===== src/Session/Handover/Tests.antt =====
-- A handover at a concrete input.
use chat_crdt.Prelude.{ℕ, none, some, [], ◌∷◌, Text, codes, nat_Eq}
use chat_crdt.Server.Db.{Db, User, Room, RoomMember, RoomKeyGrant, admin_role, member_role}
use chat_crdt.Server.RoomKeys.{PendingGrant}
use chat_crdt.Mobile.Samples.{sodium}
use chat_crdt.Mobile.Cipher.{Cipher}
use chat_crdt.Mobile.Keys.{Identity, KeyStore}
use chat_crdt.Mobile.Keys.Samples.{key_of}

abbrev user : Text → ℕ → User
user name c = record {
  id = name;
  email = name;
  username = name;
  password = name;
  public_key = some (key_of c);
  public_key_fp = some name;
}

abbrev room : Room
room = record { id = codes "r"; name = codes "ops"; yjs_state = none; current_key_id = 2 }

abbrev helper : RoomMember
helper = record { room_id = codes "r"; user_id = codes "a"; role = admin_role }

-- The helper's own grants are there.
abbrev own_grant : ℕ → RoomKeyGrant
own_grant n = record {
  room_id = codes "r";
  user_id = codes "a";
  key_id = n;
  wrapped_key = codes "x";
  recipient_key_fp = codes "a";
}

abbrev db : Db
db = record {
  users = user (codes "a") b'A' ∷ user (codes "b") b'B' ∷ [];
  rooms = room ∷ [];
  members = helper ∷ record { room_id = codes "r"; user_id = codes "b"; role = member_role } ∷ [];
  grants = own_grant 1 ∷ own_grant 2 ∷ [];
}

abbrev entry : ℕ → PendingGrant
entry n = record { user_id = codes "b"; key_id = n; public_key = key_of b'B' }

-- The helper's device has the key of the second epoch alone.
abbrev store : KeyStore
store = record { identity = none; room_keys = (2, key_of b'K') ∷ [] }

abbrev newcomer : Identity
newcomer = record { public_key = key_of b'B'; private_key = codes "s" }

abbrev mine : KeyStore
mine = record { identity = some newcomer; room_keys = [] }

abbrev cipher : Cipher sodium
cipher = record { keys_by_epoch = []; current_key_id = none; expected_current_epoch = none }
