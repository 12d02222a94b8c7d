-- ===== src/Server/RoomKeys/Counters.antt =====
-- What clients may rely on: a room's epoch is a counter, and each announced epoch is the next one.
use mathlib.Core.Path.{fun_ext}
use chat_crdt.Prelude.{
  ℕ, ◌+◌, nat_eq_iff, ◌≡◌, ◌≢◌, refl, sym, ap, subst, ◌∙◌, inl, inr, Bool-cases, Option, none, some,
  List, [], ◌∷◌, ◌++◌, Text, filter, length, ◌==◌, if◌then◌else◌, text_Eq, nat_Eq, arith,
  text_eq_iff,
}
use chat_crdt.Server.Http.{ok}
use chat_crdt.Server.Db.{Db, Room}
use chat_crdt.Server.Rooms.Tables.{create_tables, join_tables, publish_tables}
use chat_crdt.Server.RoomKeys.{GrantItem, Plan, serve, claim, commit, advance, matches}
use chat_crdt.Server.RoomKeys.Epochs.{epoch_of, Distinct, claimed}
use chat_crdt.Server.RoomKeys.System.{
  System, Step, check, write, refuse, creates, joins, publishes, Reach, here, next, Inv,
}
use chat_crdt.Server.RoomKeys.Claims.{claim_commits, Reach-Inv}

-- The abstract service: a counter for each room.
abbrev pub Counters : Type 0
Counters = Text → ℕ

unfoldable pub raise : Text → Counters → Counters
raise room c id = if room == id then c id + 1 else c id

-- Announcements that count up by one in each room, and the counters after them.
unfoldable pub run_counters : List (Text × ℕ) → Counters → Option Counters
unfolding raise
run_counters [] c = some c
run_counters ((room, k) ∷ es) c =
    let rest = run_counters es (raise room c) in if k == c room + 1 then rest else none

abbrev pub counters : System → Counters
counters s id = epoch_of id s.db.rooms

abbrev pub listed {ℓ} : {A : Type ℓ} → Option A → List A
listed none = []
listed (some a) = a ∷ []

-- The 'room.epoch' events of a history, in order.
abbrev pub said : {fp : Text → Text} {s t : System} → Step fp s t → List (Text × ℕ)
said (check room actor dto h) = []
said (write before after plan {k} {db} {event} e h) = listed event
said (refuse before after plan e h) = []
said (creates id name user fresh h) = []
said (joins name user h) = []
said (publishes user key h) = []

unfoldable pub announced : {fp : Text → Text} {s t : System} → Reach fp s t → List (Text × ℕ)
announced here = []
announced (next r st) = announced r ++ said st

run_counters-append :
    (xs ys : List (Text × ℕ)) (c : Counters) {d : Counters}
    → run_counters xs c ≡ some d
    → run_counters (xs ++ ys) c ≡ run_counters ys d
unfolding run_counters
run_counters-append [] ys c h =
    ap (λ (o : Option Counters). elim o [ none ↦ none | some e ↦ run_counters ys e ]) h
run_counters-append ((room, k) ∷ xs) ys c h = elim (Bool-cases (k == c room + 1)) [
  | inl e ↦ rw (e, run_counters) (run_counters-append xs ys (raise room c) (ground arith))
  | inr e ↦ ground arith
]

-- A claim raises its own room's epoch only.
epoch_of-advance_other :
    (id room : Text) (e : ℕ) (rs : List Room)
    → room ≢ id
    → epoch_of id (advance room e rs) ≡ epoch_of id rs
unfolding epoch_of advance
epoch_of-advance_other id room e [] h = refl
epoch_of-advance_other id room e (r ∷ rs) h =
    ground
      (arith, text_eq_iff r.id id, text_eq_iff r.id room, epoch_of-advance_other id room e rs h)

epoch_of-new :
    (id : Text) (rs : List Room) (r : Room)
    → r.current_key_id ≡ 0
    → epoch_of id (rs ++ r ∷ []) ≡ epoch_of id rs
unfolding epoch_of
epoch_of-new id [] r h = ground arith
epoch_of-new id (x ∷ rs) r h = ground (arith, epoch_of-new id rs r h)

advance-raise :
    (id room : Text) (e : ℕ) (rs : List Room)
    → Distinct rs
    → length (filter (matches room e) rs) ≡ 1
    → raise room (λ i. epoch_of i rs) id ≡ epoch_of id (advance room e rs)
unfolding raise
advance-raise id room e rs d one = elim (Bool-cases (room == id)) [
  | inl t ↦
      let same = (text_eq_iff room id).0 t in
      let (was, now) = claimed room e rs d one in
      subst
        (λ i.
          (if room == i then epoch_of i rs + 1 else epoch_of i rs) ≡ epoch_of i (advance room e rs))
        same (ground (arith, text_eq_iff room room))
  | inr t ↦ ground (arith, epoch_of-advance_other id room e rs, text_eq_iff room id)
]

abbrev at : List Room → Counters
at rs id = epoch_of id rs

same_counters :
    (rs ts : List Room)
    → ((id : Text) → epoch_of id rs ≡ epoch_of id ts)
    → run_counters [] (at rs) ≡ some (at ts)
unfolding run_counters
same_counters rs ts h = ap (λ (c : Counters). some c) (fun_ext h)

commit_serve :
    (room : Text) (gs : List GrantItem) (c : ℕ) (db db' : Db) (k : ℕ) (event : Option (Text × ℕ))
    → commit (serve room gs c) db ≡ ok (k, db', event)
    → (event ≡ none) × (db'.rooms ≡ db.rooms)
unfolding commit
commit_serve room gs c db db' k event h = ground arith

announce_one :
    (room : Text) (k : ℕ) (c : Counters)
    → k ≡ c room + 1
    → run_counters ((room, k) ∷ []) c ≡ some (raise room c)
unfolding run_counters
announce_one room k c h = ground (arith, nat_eq_iff k (c room + 1))

commit_run :
    (plan : Plan) (db db' : Db) (k : ℕ) (event : Option (Text × ℕ))
    → commit plan db ≡ ok (k, db', event)
    → Distinct db.rooms
    → run_counters (listed event) (at db.rooms) ≡ some (at db'.rooms)
commit_run (serve room gs c) db db' k event h d =
    let (nothing, rooms) = commit_serve room gs c db db' k event h in
    rw (nothing, rooms) (same_counters db.rooms db.rooms (λ id. refl))
commit_run (claim room gs e) db db' k event h d =
    let (one, rooms, _, event_said) = claim_commits room gs e db db' k event h in
    let (was, now) = claimed room e db.rooms d one in
    rw (event_said, rooms)
      (announce_one room (e + 1) (at db.rooms) (omega arith)
        ∙ ap (λ (c : Counters). some c) (fun_ext (λ id. advance-raise id room e db.rooms d one)))

Step-run :
    {fp : Text → Text} {s t : System} (st : Step fp s t)
    → Inv s
    → run_counters (said st) (counters s) ≡ some (counters t)
Step-run {s} (check room actor dto h) v = same_counters s.db.rooms s.db.rooms (λ id. refl)
Step-run {s} (write before after plan {k} {db} {event} e h) v =
    commit_run plan s.db db k event h v.keys
Step-run {s} (refuse before after plan e h) v = same_counters s.db.rooms s.db.rooms (λ id. refl)
Step-run {s} (creates id name user {made} {db} fresh h) v =
    let room : Room = record { id = id; name = name; yjs_state = none; current_key_id = 0 } in
    same_counters s.db.rooms db.rooms (λ j.
      rw (create_tables id name user s.db db made h).0 (sym (epoch_of-new j s.db.rooms room refl)))
Step-run {s} (joins name user {joined} {db} h) v =
    same_counters s.db.rooms db.rooms (λ id. rw (join_tables name user s.db db joined h).0 refl)
Step-run {fp} {s} (publishes user key {result} {db} h) v =
    same_counters s.db.rooms db.rooms
      (λ id. rw (publish_tables fp user key s.db db result h).0 refl)

-- Over any history of concurrent requests, the rooms' epochs are counters that only announced
-- claims move: the 'room.epoch' events, in the order of their commits, name in each room the epochs
-- that follow its first one by one, with none left out or repeated, and the epochs that the database
-- ends with are those that these announcements lead to.
pub announced_refines :
    (fp : Text → Text) (s t : System) (r : Reach fp s t)
    → Inv s
    → run_counters (announced r) (counters s) ≡ some (counters t)
unfolding announced
announced_refines fp s _ here v = same_counters s.db.rooms s.db.rooms (λ id. refl)
announced_refines fp s _ (next {t} r st) v =
    run_counters-append (announced r) (said st) (counters s) (announced_refines fp s t r v)
    ∙ Step-run st (Reach-Inv r v).0
