-- ===== src/Server/RoomKeys/Claims.antt =====
-- What every history of concurrent requests keeps, and the race between two epoch claims.
use chat_crdt.Prelude.{
  ℕ, ◌+◌, ◌≤◌, ◌≡◌, refl, sym, subst, ◌≢◌, not, Option, none, some, List, [], ◌∷◌, ◌++◌, Text, All,
  All-append, All-map, All-filter, filter, find, length, ◌==◌, text_Eq, nat_Eq, arith, text_eq_iff,
}
use chat_crdt.Server.Http.{ok, err, conflict}
use chat_crdt.Server.Db.{Db, Room}
use chat_crdt.Server.Rooms.Tables.{create_tables, join_tables, publish_tables}
use chat_crdt.Server.RoomKeys.{
  GrantItem, Plan, serve, claim, commit, upsert_grants, advance, matches,
}
use chat_crdt.Server.RoomKeys.Epochs.{
  epoch_of, Distinct, epoch_of-advance, claimed, spent, advance-Distinct, All-upsert_grants,
}
use chat_crdt.Server.RoomKeys.System.{
  System, Step, check, write, refuse, creates, joins, publishes, Reach, here, next, Allowed, Inv,
  Later, Allowed-Later, reached-Later, authorize-Allowed,
}

module _ {ℓ κ} {A : Type ℓ} (P : A → Type κ) where
  All-split : (xs ys : List A) → All P (xs ++ ys) → All P xs × All P ys
  All-split [] ys h = (tt, h)
  All-split (x ∷ xs) ys (p, h) = let (a, b) = All-split xs ys h in ((p, a), b)

-- A committed write raises epochs or leaves them.
commit-Later :
    (plan : Plan) (db db' : Db) (k : ℕ) (event : Option (Text × ℕ))
    → commit plan db ≡ ok (k, db', event)
    → Later db.rooms db'.rooms
unfolding commit
commit-Later (serve room gs c) db db' k event h id = ground arith
commit-Later (claim room gs e) db db' k event h id =
    ground (arith, epoch_of-advance id room e db.rooms)

commit-Distinct :
    (plan : Plan) (db db' : Db) (k : ℕ) (event : Option (Text × ℕ))
    → commit plan db ≡ ok (k, db', event)
    → Distinct db.rooms
    → Distinct db'.rooms
unfolding commit
commit-Distinct (serve room gs c) db db' k event h d = subst Distinct (ground arith) d
commit-Distinct (claim room gs e) db db' k event h d =
    subst Distinct (ground arith) (advance-Distinct room e db.rooms d)

abbrev Reached : Db → Type 0
Reached db = All (λ g. g.key_id ≤ epoch_of g.room_id db.rooms) db.grants

-- Grants written by an allowed plan are of epochs that the rooms have reached after the write.
commit-Reached :
    (plan : Plan) (db db' : Db) (k : ℕ) (event : Option (Text × ℕ))
    → commit plan db ≡ ok (k, db', event)
    → Distinct db.rooms
    → Allowed db.rooms plan
    → Reached db
    → Reached db'
unfolding commit
commit-Reached (serve room gs c) db db' k event h d a r =
    let rooms : db'.rooms ≡ db.rooms = ground arith in
    let grants : db'.grants ≡ upsert_grants room gs db.grants = ground arith in
    rw (rooms, grants) (All-upsert_grants (λ id n. n ≤ epoch_of id db.rooms) room gs db.grants a r)
commit-Reached (claim room gs e) db db' k event h d a r =
    let one : length (filter (matches room e) db.rooms) ≡ 1 = ground arith in
    let (_, after) = claimed room e db.rooms d one in
    let rooms : db'.rooms ≡ advance room e db.rooms = ground arith in
    let grants : db'.grants ≡ upsert_grants room gs db.grants = ground arith in
    rw (rooms, grants)
      (All-upsert_grants (λ id n. n ≤ epoch_of id (advance room e db.rooms)) room gs db.grants
        (All-map (λ g q. omega arith) gs a)
        (reached-Later db.rooms (advance room e db.rooms)
          (λ id. epoch_of-advance id room e db.rooms) db.grants r))

All-Allowed :
    (rs ts : List Room) → Later rs ts → (ps : List Plan) → All (Allowed rs) ps → All (Allowed ts) ps
All-Allowed rs ts l ps h = All-map (Allowed-Later rs ts l) ps h

-- Taking a plan out of those in flight.
drop_plan :
    (P : Plan → Type 0) (before after : List Plan) (plan : Plan) {all : List Plan}
    → all ≡ before ++ plan ∷ after
    → All P all
    → P plan × All P (before ++ after)
drop_plan P before after plan e h =
    let (b, a) = All-split P before (plan ∷ after) (subst (All P) e h) in
    (a.0, All-append P before after b a.1)

epoch_of-append :
    (id : Text) (rs : List Room) (r : Room) → epoch_of id rs ≤ epoch_of id (rs ++ r ∷ [])
unfolding epoch_of
epoch_of-append id [] r = omega arith
epoch_of-append id (x ∷ rs) r = ground (arith, epoch_of-append id rs r)

All-ids : (id : Text) (rs : List Room) → find (λ x. x.id == id) rs ≡ none → All (λ s. s.id ≢ id) rs
All-ids id [] h = tt
All-ids id (x ∷ rs) h = (ground (arith, text_eq_iff x.id id), All-ids id rs (ground arith))

append-Distinct :
    (rs : List Room) (r : Room) → All (λ s. s.id ≢ r.id) rs → Distinct rs → Distinct (rs ++ r ∷ [])
append-Distinct [] r h d = (tt, tt)
append-Distinct (x ∷ rs) r (p, h) (q, d) =
    (All-append (λ s. s.id ≢ x.id) rs (r ∷ []) q ((λ e. p (sym e)), tt), append-Distinct rs r h d)

-- Every step keeps the invariant, and lowers no epoch.
Step-Inv :
    {fp : Text → Text} {s t : System} → Step fp s t → Inv s → Inv t × Later s.db.rooms t.db.rooms
Step-Inv {s} (check room actor dto h) v = (
  record {
    keys = v.keys;
    reached = v.reached;
    allowed = (authorize-Allowed room actor dto s.db _ h, v.allowed);
  },
  λ id. omega arith,
)
Step-Inv {s} (write before after plan {k} {db} {event} e h) v =
    let (p, rest) = drop_plan (Allowed s.db.rooms) before after plan e v.allowed in
    let later = commit-Later plan s.db db k event h in
    (
      record {
        keys = commit-Distinct plan s.db db k event h v.keys;
        reached = commit-Reached plan s.db db k event h v.keys p v.reached;
        allowed = All-Allowed s.db.rooms db.rooms later (before ++ after) rest;
      },
      later,
    )
Step-Inv {s} (refuse before after plan e h) v = (
  record {
    keys = v.keys;
    reached = v.reached;
    allowed = (drop_plan (Allowed s.db.rooms) before after plan e v.allowed).1;
  },
  λ id. omega arith,
)
Step-Inv {s} (creates id name user {made} {db} fresh h) v =
    let room : Room = record { id = id; name = name; yjs_state = none; current_key_id = 0 } in
    let (rooms, grants) = create_tables id name user s.db db made h in
    let later : Later s.db.rooms db.rooms = λ j. rw rooms (epoch_of-append j s.db.rooms room) in
    (
      record {
        keys = rw rooms (append-Distinct s.db.rooms room (All-ids id s.db.rooms fresh) v.keys);
        reached = rw grants (reached-Later s.db.rooms db.rooms later s.db.grants v.reached);
        allowed = All-Allowed s.db.rooms db.rooms later s.in_flight v.allowed;
      },
      later,
    )
Step-Inv {s} (joins name user {joined} {db} h) v =
    let (rooms, grants) = join_tables name user s.db db joined h in
    (
      record {
        keys = rw rooms v.keys;
        reached = rw (rooms, grants) v.reached;
        allowed = rw rooms v.allowed;
      },
      λ id. rw rooms (omega arith),
    )
Step-Inv {fp} {s} (publishes user key {result} {db} h) v =
    let (rooms, grants) = publish_tables fp user key s.db db result h in
    (
      record {
        keys = rw rooms v.keys;
        reached =
            rw (rooms, grants) (All-filter _ (λ g. not (g.user_id == user)) s.db.grants v.reached);
        allowed = rw rooms v.allowed;
      },
      λ id. rw rooms (omega arith),
    )

pub Reach-Inv :
    {fp : Text → Text} {s t : System} → Reach fp s t → Inv s → Inv t × Later s.db.rooms t.db.rooms
Reach-Inv here v = (v, λ id. omega arith)
Reach-Inv {s} (next {t} {u} r st) v =
    let (vt, before) = Reach-Inv r v in
    let (vu, after) = Step-Inv st vt in (vu, λ id. omega (arith, before id, after id))

-- Whatever requests run, in whatever order their checks and writes fall: no room's epoch is ever
-- lowered.
pub epoch_monotone :
    (fp : Text → Text) (s t : System) (id : Text)
    → Inv s
    → Reach fp s t
    → epoch_of id s.db.rooms ≤ epoch_of id t.db.rooms
epoch_monotone fp s t id v r = (Reach-Inv r v).1 id

-- From any state that satisfies the invariant, each grant stored after any interleaving of
-- requests is of an epoch that its room has reached.
pub grants_reached :
    (fp : Text → Text) (s t : System)
    → Inv s
    → Reach fp s t
    → All (λ g. g.key_id ≤ epoch_of g.room_id t.db.rooms) t.db.grants
grants_reached fp s t v r = (Reach-Inv r v).0.reached

pub claim_commits :
    (room : Text) (gs : List GrantItem) (e : ℕ) (db db' : Db) (k : ℕ) (event : Option (Text × ℕ))
    → commit (claim room gs e) db ≡ ok (k, db', event)
    → (length (filter (matches room e) db.rooms) ≡ 1)
      × (db'.rooms ≡ advance room e db.rooms)
      × (k ≡ e + 1)
      × (event ≡ some (room, e + 1))
unfolding commit
claim_commits room gs e db db' k event h = ground arith

-- A claim in flight that expects epoch `e` and commits moves its room from `e` to `e + 1` and
-- announces that epoch; from then on, after any further requests, every other claim that expects
-- `e` in that room is refused with a conflict, also one whose checks passed before.
pub claim_once :
    (fp : Text → Text) (s t : System) (room : Text) (gs gs' : List GrantItem) (e : ℕ)
    (before after : List Plan) {k : ℕ} {db : Db} {event : Option (Text × ℕ)}
    → Inv s
    → s.in_flight ≡ before ++ claim room gs e ∷ after
    → commit (claim room gs e) s.db ≡ ok (k, db, event)
    → Reach fp (record { db = db; in_flight = before ++ after }) t
    → (epoch_of room s.db.rooms ≡ e)
      × (epoch_of room db.rooms ≡ e + 1)
      × (event ≡ some (room, e + 1))
      × (commit (claim room gs' e) t.db ≡ err conflict)
unfolding commit
claim_once fp s t room gs gs' e before after {k} {db} {event} v w h r =
    let (one, rooms, _, said) = claim_commits room gs e s.db db k event h in
    let (was, now) = claimed room e s.db.rooms v.keys one in
    let (v', _) = Step-Inv {fp = fp} (write before after (claim room gs e) w h) v in
    let (vt, later) = Reach-Inv r v' in
    let now' : epoch_of room db.rooms ≡ e + 1 = rw rooms now in
    let none_left = spent room e t.db.rooms vt.keys (omega (arith, later room)) in
    (was, now', said, rw none_left refl)
