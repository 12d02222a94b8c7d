-- ===== src/Session/Handover.antt =====
-- A room key on its way from a member's device over the server to the device of a member who lacks it:
-- servePendingGrants and fetchAndLoadMyGrants of apps/mobile/src/crypto/keyFlows.ts with getPending, uploadGrants and
-- getMyGrants of apps/server/src/rooms/room-keys.service.ts.
mod Tests
use chat_crdt.Prelude.{◌≡◌, Bool, false, some, Text, all, if◌then◌else◌, text_Eq, nat_Eq}
use chat_crdt.Server.Db.{Db, RoomKeyGrant}
use chat_crdt.Server.RoomKeys.{epochs, pending_all, authorize, assert_member, commit, upload_grants}
use chat_crdt.Server.RoomKeys.Pending.{Unserved}
use chat_crdt.Mobile.Cipher.{Sodium, Cipher}
use chat_crdt.Mobile.Keys.{Box, MyGrant, Identity}

-- A row as the app reads it.
abbrev pub my_grant : RoomKeyGrant → MyGrant
my_grant g = record { key_id = g.key_id; wrapped_key = g.wrapped_key }

module _ (s : Sodium) (box : Box s) where
  -- The pair opens what is sealed with this key for this public key.
  abbrev pub Opens : Text → Text → Identity → Type 0
  Opens key public me =
      (wrapped : Text)
      → box.seal key public ≡ some wrapped
      → (opened : s.Key) × (box.seal_open wrapped me ≡ some opened)
