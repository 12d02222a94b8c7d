-- ===== src/Server/RoomKeys/Republish.antt =====
-- users.service.ts against room-keys.service.ts: a new public key makes every epoch pending again.
use chat_crdt.Prelude.{
  ℕ, ◌≤◌, ◌≡◌, refl, ◌≢◌, true, false, not, inl, inr, some, List, [], ◌∷◌, map, Text, In, filter,
  any, find, ◌==◌, Bool-cases, if◌then◌else◌, text_Eq, nat_Eq, arith,
}
use chat_crdt.Server.Http.{ok}
use chat_crdt.Server.Db.{Db, User, Room, RoomMember, RoomKeyGrant, room_by_id, find_member}
use chat_crdt.Server.Rooms.{set_public_key}
use chat_crdt.Server.Rooms.Tables.{publish_tables, publish_users, publish_members}
use chat_crdt.Server.RoomKeys.{PendingGrant, has_current_grant, published, get_pending, is_member}
use chat_crdt.Server.RoomKeys.Pending.{get_pending_iff}

none_left :
    (room user fp : Text) (k : ℕ) (gs : List RoomKeyGrant)
    → has_current_grant user k fp
        (filter (λ g. g.room_id == room) (filter (λ g. not (g.user_id == user)) gs))
      ≡ false
none_left room user fp k [] = refl
none_left room user fp k (g ∷ gs) = ground (arith, none_left room user fp k gs)

abbrev with_key : (Text → Text) → Text → Text → List User → List User
with_key fp user key = map (λ u.
    if u.id == user then record u { public_key = some key; public_key_fp = some (fp key) } else u)

published_key :
    (u : User) (key f : Text)
    → key ≢ []
    → f ≢ []
    → published (some (record u { public_key = some key; public_key_fp = some f })) ≡ some (key, f)
unfolding published
published_key u [] f p q = absurd (p refl)
published_key u (c ∷ key) [] p q = absurd (q refl)
published_key u (c ∷ key) (d ∷ f) p q = refl

published_now :
    (fp : Text → Text) (user key : Text) (us : List User)
    → any (λ u. u.id == user) us ≡ true
    → key ≢ []
    → fp key ≢ []
    → published (find (λ u. u.id == user) (with_key fp user key us)) ≡ some (key, fp key)
published_now fp user key [] h p q = cc
published_now fp user key (u ∷ us) h p q = elim (Bool-cases (u.id == user)) [
  | inl e ↦ rw e (rw e (published_key u key (fp key) p q))
  | inr e ↦ rw e (rw e (published_now fp user key us (ground arith) p q))
]

-- After a member publishes a new key, each epoch that the room has reached is pending for that
-- member under the new key, in whatever member's answer, if key and fingerprint are not empty.
pub republish_pending :
    (fp : Text → Text) (room user key requester : Text) (db db' : Db) (result : Text × Text)
    (r : Room) (m : RoomMember) (ps : List PendingGrant) (k : ℕ)
    → set_public_key fp user key db ≡ ok (result, db')
    → key ≢ []
    → fp key ≢ []
    → room_by_id room db ≡ some r
    → is_member room db user ≡ true
    → 1 ≤ k
    → k ≤ r.current_key_id
    → find_member room requester db ≡ some m
    → get_pending room requester db' ≡ ok ps
    → In (record { user_id = user; key_id = k; public_key = key }) ps
republish_pending fp room user key requester db db' result r m ps k h p q found member low high by
      a =
    let (rooms, grants) = publish_tables fp user key db db' result h in
    let members = publish_members fp user key db db' result h in
    let (listed, users) = publish_users fp user key db db' result h in
    (get_pending_iff room requester db' r m ps _ (rw rooms found) (rw members by) a).1 (
      rw members member,
      (
        low,
        high,
        (
          fp key,
          rw users (published_now fp user key db.users listed p q),
          rw grants (none_left room user (fp key) k db.grants),
        ),
      ),
    )
