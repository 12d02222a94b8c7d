-- ===== src/Server/RoomKeys/Tests.antt =====
-- Runs of the key service, and its theorems at concrete inputs.
use chat_crdt.Prelude.{
  ℕ, ◌+◌, ◌≤◌, ◌≡◌, refl, ◌↔◌, true, Option, none, some, [], ◌∷◌, Text, codes, All, In, arith,
  text_eq, text_Eq, nat_Eq,
}
use chat_crdt.Server.Http.{ok, err, forbidden, conflict}
use chat_crdt.Server.Db.{Db, User, RoomMember, admin_role, member_role, grants_of, upsert_grant}
use chat_crdt.Server.Rooms.{set_public_key}
use chat_crdt.Server.RoomKeys.{
  GrantItem, UploadKeys, PendingGrant, claim, commit, upload_grants, get_pending, assert_member,
  is_member, epochs, pending_for, pending_all, published, to_row,
}
use chat_crdt.Server.RoomKeys.Epochs.{epoch_of}
use chat_crdt.Server.RoomKeys.System.{System, write, Reach, here, next, Inv}
use chat_crdt.Server.RoomKeys.Counters.{counters, run_counters, announced, announced_refines}
use chat_crdt.Server.RoomKeys.Claims.{grants_reached, claim_once}
use chat_crdt.Server.RoomKeys.Pending.{Unserved, get_pending_iff}
use chat_crdt.Server.RoomKeys.Republish.{republish_pending}

abbrev room : Text
room = codes "r"

abbrev alice : Text
alice = codes "a"

abbrev bob : Text
bob = codes "b"

abbrev user : Text → User
user id = record {
  id = id;
  email = id;
  username = id;
  password = [];
  public_key = some (codes "k");
  public_key_fp = some (codes "f");
}

abbrev start_db : Db
start_db = record {
  users = user alice ∷ user bob ∷ [];
  rooms = record { id = room; name = codes "ops"; yjs_state = none; current_key_id = 0 } ∷ [];
  members =
      record { room_id = room; user_id = alice; role = admin_role }
      ∷ record { room_id = room; user_id = bob; role = member_role }
      ∷ [];
  grants = [];
}

abbrev grant : ℕ → GrantItem
grant k = record {
  user_id = bob;
  key_id = k;
  wrapped_key = codes "w";
  recipient_key_fp = codes "f";
}

abbrev enable : UploadKeys
enable = record { claim_epoch = some 0; grants = grant 1 ∷ [] }

abbrev enabled_db : Db
enabled_db = record start_db {
  rooms = record { id = room; name = codes "ops"; yjs_state = none; current_key_id = 1 } ∷ [];
  grants = to_row room (grant 1) ∷ [];
}

abbrev started : System
started = record { db = start_db; in_flight = claim room (grant 1 ∷ []) 0 ∷ [] }

abbrev enabled : System
enabled = record { db = enabled_db; in_flight = [] }

started-Inv : Inv started
unfolding epoch_of
started-Inv = omega arith

-- An admin enables encryption; a member who is no admin may not.
upload_grants_test :
    (upload_grants room alice enable start_db ≡ ok (1, enabled_db, some (room, 1)))
    × (upload_grants room bob enable start_db ≡ err forbidden)
    × (upload_grants room alice enable enabled_db ≡ err conflict)
unfolding upload_grants text_eq upsert_grant
upload_grants_test = (refl, refl, refl)

abbrev fp : Text → Text
fp key = codes "g"

claimed_first : Reach fp started enabled
unfolding commit text_eq upsert_grant
claimed_first =
    next here (write [] [] (claim room (grant 1 ∷ []) 0) {k = 1} {event = some (room, 1)} refl refl)

grants_reached_example : All (λ g. g.key_id ≤ epoch_of g.room_id enabled.db.rooms) enabled.db.grants
grants_reached_example = grants_reached fp started enabled started-Inv claimed_first

claim_once_example :
    (epoch_of room started.db.rooms ≡ 0)
    × (epoch_of room enabled.db.rooms ≡ 0 + 1)
    × (◌≡◌ {A = Option (Text × ℕ)} (some (room, 1)) (some (room, 0 + 1)))
    × (commit (claim room [] 0) enabled.db ≡ err conflict)
unfolding commit text_eq upsert_grant
claim_once_example =
    claim_once fp started enabled room (grant 1 ∷ []) [] 0 [] [] {k = 1} {event = some (room, 1)}
      started-Inv refl refl here

abbrev bob_member : RoomMember
bob_member = record { room_id = room; user_id = bob; role = member_role }

abbrev asked : PendingGrant
asked = record { user_id = alice; key_id = 1; public_key = codes "k" }

pending_test : get_pending room bob enabled_db ≡ ok (asked ∷ [])
unfolding get_pending assert_member epochs pending_for pending_all published text_eq
pending_test = refl

get_pending_iff_example : In asked (asked ∷ []) ↔ (
    (is_member room enabled_db alice ≡ true)
    × Unserved enabled_db (grants_of room enabled_db) 1 asked)
unfolding text_eq
get_pending_iff_example =
    get_pending_iff room bob enabled_db
      (record { id = room; name = codes "ops"; yjs_state = none; current_key_id = 1 }) bob_member
      (asked ∷ []) asked refl refl pending_test

-- Bob publishes a new key, and his grant is gone.
abbrev republished : Db
republished = record enabled_db {
  users =
      user alice
      ∷ record (user bob) { public_key = some (codes "n"); public_key_fp = some (codes "g") }
      ∷ [];
  grants = [];
}

abbrev asked_again : PendingGrant
asked_again = record { user_id = bob; key_id = 1; public_key = codes "n" }

republished_test :
    (set_public_key fp bob (codes "n") enabled_db ≡ ok ((codes "n", codes "g"), republished))
    × (get_pending room bob republished ≡ ok (asked ∷ asked_again ∷ []))
unfolding set_public_key get_pending assert_member epochs pending_for pending_all published text_eq
republished_test = (refl, refl)

republish_pending_example : In asked_again (asked ∷ asked_again ∷ [])
unfolding text_eq
republish_pending_example =
    republish_pending fp room bob (codes "n") bob enabled_db republished (codes "n", codes "g")
      (record { id = room; name = codes "ops"; yjs_state = none; current_key_id = 1 }) bob_member
      (asked ∷ asked_again ∷ []) 1 republished_test.0 (λ e. cc) (λ e. cc) refl refl (omega arith)
      (omega arith) refl republished_test.1

announced_refines_example :
    run_counters (announced claimed_first) (counters started) ≡ some (counters enabled)
announced_refines_example = announced_refines fp started enabled claimed_first started-Inv
