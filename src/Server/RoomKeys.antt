-- ===== src/Server/RoomKeys.antt =====
-- apps/server/src/rooms/room-keys.service.ts: who may upload which key grants, and the epoch claim.
pub mod Epochs
pub mod System
pub mod Claims
pub mod Counters
pub mod Pending
pub mod Mine
pub mod Upload
pub mod Republish
mod Tests
use chat_crdt.Prelude.{
  ℕ, suc, ◌+◌, Bool, true, false, not, ◌&&◌, Option, none, some, List, [], ◌∷◌, ◌++◌, map, Text,
  all, any, filter, leb, ◌==◌, if◌then◌else◌, text_Eq, nat_Eq, length,
}
use chat_crdt.Server.Http.{
  Result, ok, err, ◌>>=◌, ◌>>◌, require, not_found, forbidden, conflict, record_not_found,
}
use chat_crdt.Server.Db.{
  Db, User, Room, RoomMember, RoomKeyGrant, admin_role, room_by_id, find_member, members_of,
  grants_of, user_by_id, upsert_grant,
}

-- `GrantUploadItemDto`
pub record GrantItem : Type 0 where
  pub user_id : Text
  pub key_id : ℕ
  pub wrapped_key : Text
  pub recipient_key_fp : Text

-- `UploadKeysDto`; `claim_epoch` is its `claimEpoch.expectedCurrentKeyId`.
pub record UploadKeys : Type 0 where
  pub claim_epoch : Option ℕ
  pub grants : List GrantItem

pub record PendingGrant : Type 0 where
  pub user_id : Text
  pub key_id : ℕ
  pub public_key : Text

pub record MemberPublicKey : Type 0 where
  pub user_id : Text
  pub public_key : Text

unfoldable pub assert_member : Text → Text → Db → Result RoomMember
assert_member room user db = elim (find_member room user db) [
  | none ↦ err forbidden
  | some m ↦ ok m
]

-- `keyId` from 1 up to the room's epoch, those below first.
unfoldable pub epochs : ℕ → List ℕ
epochs ℕ.zero = []
epochs (suc n) = epochs n ++ suc n ∷ []

-- A grant for this user and epoch that is sealed to the fingerprint published now.
abbrev pub has_current_grant : Text → ℕ → Text → List RoomKeyGrant → Bool
has_current_grant user key_id fp grants =
    any (λ g. g.user_id == user && (g.key_id == key_id && g.recipient_key_fp == fp)) grants

-- A member whose user has published a key and its fingerprint.
unfoldable pub published : Option User → Option (Text × Text)
published none = none
published (some u) = elim u.public_key [
  | none ↦ none
  | some [] ↦ none
  | some (c ∷ key) ↦ elim u.public_key_fp [
    | none ↦ none
    | some [] ↦ none
    | some (d ∷ fp) ↦ some (c ∷ key, d ∷ fp)
  ]
]

-- The inner loop of `getPending`, for one member.
unfoldable pub pending_for :
    Text → List RoomKeyGrant → Option (Text × Text) → List ℕ → List PendingGrant
pending_for user grants none ks = []
pending_for user grants (some (key, fp)) ks =
    map (λ k. record { user_id = user; key_id = k; public_key = key })
      (filter (λ k. not (has_current_grant user k fp grants)) ks)

unfoldable pub pending_all : Db → List RoomKeyGrant → List ℕ → List RoomMember → List PendingGrant
pending_all db grants ks [] = []
pending_all db grants ks (m ∷ ms) =
    pending_for m.user_id grants (published (user_by_id m.user_id db)) ks
    ++ pending_all db grants ks ms

-- `getPending`
unfoldable pub get_pending : Text → Text → Db → Result (List PendingGrant)
get_pending room requester db = elim (room_by_id room db) [
  | none ↦ err not_found
  | some r ↦ do
    assert_member room requester db
    if r.current_key_id == 0
        then ok []
        else ok (pending_all db (grants_of room db) (epochs r.current_key_id) (members_of room db))
]

-- `getMembersWithPublicKeys`, whose test is of the key alone.
unfoldable pub with_public_keys : Db → List RoomMember → List MemberPublicKey
with_public_keys db [] = []
with_public_keys db (m ∷ ms) = elim (user_by_id m.user_id db) [
  | none ↦ with_public_keys db ms
  | some u ↦ elim u.public_key [
    | none ↦ with_public_keys db ms
    | some [] ↦ with_public_keys db ms
    | some (c ∷ key) ↦ record { user_id = m.user_id; public_key = c ∷ key } ∷ with_public_keys db ms
  ]
]

pub get_members_with_public_keys : Text → Text → Db → Result (List MemberPublicKey)
get_members_with_public_keys room requester db = do
  assert_member room requester db
  ok (with_public_keys db (members_of room db))

-- What an upload has been allowed to write: the grants, and for a claim the epoch that it expects.
pub data Plan : Type 0 where
  serve : Text → List GrantItem → ℕ → Plan
  claim : Text → List GrantItem → ℕ → Plan

abbrev pub is_member : Text → Db → Text → Bool
is_member room db user = any (λ m. m.user_id == user) (members_of room db)

-- `uploadGrants` up to its first write: every check that it makes.
unfoldable pub authorize : Text → Text → UploadKeys → Db → Result Plan
unfolding assert_member
authorize room actor dto db = do
  member ← assert_member room actor db
  require (all (λ g. is_member room db g.user_id) dto.grants) forbidden
  elim dto.claim_epoch [
    | none ↦ elim (room_by_id room db) [
      | none ↦ err record_not_found
      | some r ↦ do
        require (all (λ g. leb g.key_id r.current_key_id) dto.grants) forbidden
        ok (serve room dto.grants r.current_key_id)
    ]
    | some expected ↦ do
      require (member.role == admin_role) forbidden
      require (all (λ g. g.key_id == expected + 1) dto.grants) forbidden
      ok (claim room dto.grants expected)
  ]

abbrev pub to_row : Text → GrantItem → RoomKeyGrant
to_row room g = record {
  room_id = room;
  user_id = g.user_id;
  key_id = g.key_id;
  wrapped_key = g.wrapped_key;
  recipient_key_fp = g.recipient_key_fp;
}

-- `upsertGrants`
unfoldable pub upsert_grants : Text → List GrantItem → List RoomKeyGrant → List RoomKeyGrant
upsert_grants room [] rows = rows
upsert_grants room (g ∷ gs) rows = upsert_grants room gs (upsert_grant (to_row room g) rows)

-- `room.updateMany({ where: { id, currentKeyId }, data: { currentKeyId: { increment: 1 } } })`
abbrev pub matches : Text → ℕ → Room → Bool
matches room expected r = r.id == room && r.current_key_id == expected

unfoldable pub advance : Text → ℕ → List Room → List Room
advance room expected =
    map (λ r.
      if matches room expected r then record r { current_key_id = suc r.current_key_id } else r)

-- The writes of `uploadGrants`; those of a claim are one transaction. The second part is the
-- event that a committed claim emits.
pub commit : Plan → Db → Result (ℕ × Db × Option (Text × ℕ))
unfolding upsert_grants advance
commit (serve room grants current) db =
    ok (current, record db { grants = upsert_grants room grants db.grants }, none)
commit (claim room grants expected) db = do
  require (length (filter (matches room expected) db.rooms) == 1) conflict
  ok (
    expected + 1,
    record db {
      rooms = advance room expected db.rooms;
      grants = upsert_grants room grants db.grants;
    },
    some (room, expected + 1),
  )

-- `uploadGrants` with no other request between its checks and its writes.
pub upload_grants : Text → Text → UploadKeys → Db → Result (ℕ × Db × Option (Text × ℕ))
unfolding authorize commit
upload_grants room actor dto db = do plan ← authorize room actor dto db; commit plan db
