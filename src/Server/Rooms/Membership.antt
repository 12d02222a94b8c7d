-- ===== src/Server/Rooms/Membership.antt =====
-- Who is a member after `create` and `join`.
use chat_crdt.Prelude.{
  ◌≡◌, refl, subst, ◌∙◌, Bool, true, ◌&&◌, ◌||◌, none, some, List, [], ◌∷◌, ◌++◌, Text, any, find,
  find_sound, ◌==◌, eq_iff, text_Eq, Option-cases, Bool-cases, inl, inr, arith,
}
use chat_crdt.Server.Http.{ok}
use chat_crdt.Server.Db.{Db, Room, RoomMember, room_by_name, find_member, admin_role, member_role}
use chat_crdt.Server.Rooms.{
  RoomSummary, default_room, lobby, summaries, summary, list_for_user, create, join, is_member,
}

module _ {A : Type 0} (p : A → Bool) where
  any-append : (xs ys : List A) → any p (xs ++ ys) ≡ (any p xs || any p ys)
  any-append [] ys = refl
  any-append (x ∷ xs) ys = ground (arith, any-append xs ys)

  find-append :
      (xs : List A) (a : A) → find p xs ≡ none → p a ≡ true → find p (xs ++ a ∷ []) ≡ some a
  find-append [] a h t = ground arith
  find-append (x ∷ xs) a h t = elim (Bool-cases (p x)) [
    | inl e ↦ ground arith
    | inr e ↦ rw e (find-append xs a (ground arith) t)
  ]

  any-find :
      (q : A → Bool) (xs : List A) (a : A) → find p xs ≡ some a → q a ≡ true → any q xs ≡ true
  any-find q [] a h t = ground arith
  any-find q (x ∷ xs) a h t = elim (Bool-cases (p x)) [
    | inl e ↦ let same : some x ≡ some a = ground arith in ground (arith, same)
    | inr e ↦ let rest = any-find q xs a (ground arith) t in ground arith
  ]

member_lem :
    (name user : Text) (db : Db) (r : Room) (m : RoomMember)
    → room_by_name name db ≡ some r
    → find_member r.id user db ≡ some m
    → is_member name user db ≡ true
unfolding is_member
member_lem name user db r m at_name found =
    let named : (r.name == name) ≡ true =
      find_sound (λ x. x.name == name) db.rooms {a = r} at_name in
    let mine : (m.room_id == r.id && m.user_id == user) ≡ true =
      find_sound (λ x. x.room_id == r.id && x.user_id == user) db.members {a = m} found in
    let here : any (λ x. x.id == m.room_id && x.name == name) db.rooms ≡ true =
      any-find (λ x. x.name == name) (λ x. x.id == m.room_id && x.name == name) db.rooms r at_name
        (ground (arith, eq_iff m.room_id r.id, eq_iff r.id m.room_id)) in
    any-find (λ x. x.room_id == r.id && x.user_id == user)
      (λ x. x.user_id == user && any (λ y. y.id == x.room_id && y.name == name) db.rooms) db.members
      m found (ground (arith, here))

abbrev new_room : Text → Text → Room
new_room id name = record { id = id; name = name; yjs_state = none; current_key_id = 0 }

abbrev member_row : Text → Text → Text → RoomMember
member_row room user role = record { room_id = room; user_id = user; role = role }

abbrev created_db : Text → Text → Text → Db → Db
created_db id name user db = record db {
  rooms = db.rooms ++ new_room id name ∷ [];
  members = db.members ++ member_row id user admin_role ∷ [];
}

abbrev joined_db : Room → Text → Db → Db
joined_db r user db = record db { members = db.members ++ member_row r.id user member_role ∷ [] }

created_lem :
    (id name user : Text) (db : Db)
    → find_member id user db ≡ none
    → (find_member id user (created_db id name user db) ≡ some (member_row id user admin_role))
      × (is_member name user (created_db id name user db) ≡ true)
unfolding is_member
created_lem id name user db fresh =
    let here : any (λ x. x.id == id && x.name == name) (db.rooms ++ new_room id name ∷ []) ≡ true =
      any-append (λ x. x.id == id && x.name == name) db.rooms (new_room id name ∷ [])
      ∙ ground (arith, eq_iff id id, eq_iff name name) in
    (
      find-append (λ x. x.room_id == id && x.user_id == user) db.members
          (member_row id user admin_role) fresh (ground (arith, eq_iff id id, eq_iff user user)),
      any-append
            (λ x.
              x.user_id == user
              && any (λ y. y.id == x.room_id && y.name == name) (db.rooms ++ new_room id name ∷ []))
            db.members (member_row id user admin_role ∷ [])
          ∙ ground (arith, here, eq_iff user user),
    )

-- The user who creates a room, under an identifier that no membership has yet, is its admin and may
-- enter it.
pub created_admin :
    (id name user : Text) (db db' : Db) (s : RoomSummary)
    → create id name user db ≡ ok (s, db')
    → find_member id user db ≡ none
    → (find_member id user db' ≡ some (record { room_id = id; user_id = user; role = admin_role }))
      × (is_member name user db' ≡ true)
unfolding create is_member
created_admin id name user db db' s h fresh = elim (Option-cases (room_by_name name db)) [
  | inr (r, e) ↦ ground arith
  | inl e ↦
      let same : created_db id name user db ≡ db' = ground arith in
      subst
        (λ d.
          (find_member id user d ≡ some (member_row id user admin_role))
          × (is_member name user d ≡ true))
        same (created_lem id name user db fresh)
]

-- The list of rooms of a user always has the default room.
pub default_listed :
    (user : Text) (db : Db) → any (λ r. r.name == default_room) (list_for_user user db) ≡ true
unfolding list_for_user
default_listed user db =
    elim (Bool-cases (any (λ r. r.name == default_room) (summaries user db db.members))) [
      | inl e ↦ rw e e
      | inr e ↦ rw e (
          any-append (λ r. r.name == default_room) (summaries user db db.members) (lobby ∷ [])
          ∙ ground (arith, eq_iff default_room default_room))
    ]

-- Who has joined a room may enter it, and joining again changes nothing and answers the same.
pub joined_member :
    (name user : Text) (db db' : Db) (s : RoomSummary)
    → join name user db ≡ ok (s, db')
    → (is_member name user db' ≡ true) × (join name user db' ≡ ok (s, db'))
unfolding join is_member
joined_member name user db db' s h = elim (Option-cases (room_by_name name db)) [
  | inl e ↦ ground arith
  | inr (r, e) ↦ elim (Option-cases (find_member r.id user db)) [
    | inr (m, e') ↦
        let same : db ≡ db' = ground arith in
        (
          subst (λ d. is_member name user d ≡ true) same (member_lem name user db r m e e'),
          subst (λ d. join name user d ≡ ok (s, db')) same h,
        )
    | inl e' ↦
        let joined = joined_db r user db in
        let same : joined ≡ db' = ground arith in
        let found : find_member r.id user joined ≡ some (member_row r.id user member_role) =
          find-append (λ x. x.room_id == r.id && x.user_id == user) db.members
            (member_row r.id user member_role) e'
            (ground (arith, eq_iff r.id r.id, eq_iff user user)) in
        let answer : ok (summary r member_role, joined) ≡ ok (s, db') = ground arith in
        (
          subst (λ d. is_member name user d ≡ true) same
              (member_lem name user joined r (member_row r.id user member_role) e found),
          subst (λ d. join name user d ≡ ok (s, db')) same (rw (e, join) (rw (found, join) answer)),
        )
  ]
]
