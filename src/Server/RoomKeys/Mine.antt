-- ===== src/Server/RoomKeys/Mine.antt =====
-- room-keys.service.ts: `getMyGrants`, and that it answers with what was written.
use chat_crdt.Prelude.{
  all, none, ◌≡◌, refl, sym, ap, subst, ◌∙◌, Bool, true, false, ◌&&◌, inl, inr, List, [], ◌∷◌, Text,
  All, In, In-filter, filter, leb, ◌==◌, Bool-cases, if◌then◌else◌, text_Eq, nat_Eq, text_eq_iff,
  nat_eq_iff, arith, some,
}
use chat_crdt.Server.Http.{Result, ok, ◌>>◌}
use chat_crdt.Server.Db.{
  Room, room_by_id, Db, RoomMember, RoomKeyGrant, find_member, same_key, upsert_grant,
}
use chat_crdt.Server.RoomKeys.{
  is_member, authorize, commit, upload_grants, GrantItem, to_row, upsert_grants, assert_member,
}

-- `orderBy: { keyId: 'asc' }`
abbrev pub insert_by_epoch : RoomKeyGrant → List RoomKeyGrant → List RoomKeyGrant
insert_by_epoch g [] = g ∷ []
insert_by_epoch g (h ∷ hs) =
    let rest = insert_by_epoch g hs in if leb g.key_id h.key_id then g ∷ h ∷ hs else h ∷ rest

abbrev pub by_epoch : List RoomKeyGrant → List RoomKeyGrant
by_epoch [] = []
by_epoch (g ∷ gs) = insert_by_epoch g (by_epoch gs)

-- `getMyGrants`
unfoldable pub get_my_grants : Text → Text → Db → Result (List RoomKeyGrant)
unfolding assert_member
get_my_grants room requester db = do
  assert_member room requester db
  ok (by_epoch (filter (λ g. g.room_id == room && g.user_id == requester) db.grants))

In-insert_here : (g : RoomKeyGrant) (gs : List RoomKeyGrant) → In g (insert_by_epoch g gs)
In-insert_here g [] = inl refl
In-insert_here g (h ∷ hs) = elim (Bool-cases (leb g.key_id h.key_id)) [
  | inl e ↦ rw e (inl refl)
  | inr e ↦ rw e (inr (In-insert_here g hs))
]

In-insert : (x g : RoomKeyGrant) (gs : List RoomKeyGrant) → In x gs → In x (insert_by_epoch g gs)
In-insert x g [] i = elim i [ ]
In-insert x g (h ∷ hs) i = elim (Bool-cases (leb g.key_id h.key_id)) [
  | inl e ↦ rw e (inr i)
  | inr e ↦ rw e (elim i [ inl same ↦ inl same | inr later ↦ inr (In-insert x g hs later) ])
]

In-by_epoch : (x : RoomKeyGrant) (gs : List RoomKeyGrant) → In x gs → In x (by_epoch gs)
In-by_epoch x [] i = elim i [ ]
In-by_epoch x (g ∷ gs) (inl e) =
    subst (λ y. In y (insert_by_epoch g (by_epoch gs))) e (In-insert_here g (by_epoch gs))
In-by_epoch x (g ∷ gs) (inr i) = In-insert x g (by_epoch gs) (In-by_epoch x gs i)

-- A row of the requester is in the answer.
pub In-get_my_grants :
    (room requester : Text) (db : Db) (m : RoomMember) (row : RoomKeyGrant)
    → find_member room requester db ≡ some m
    → row.room_id ≡ room
    → row.user_id ≡ requester
    → In row db.grants
    → (rows : List RoomKeyGrant) × (get_my_grants room requester db ≡ ok rows) × In row rows
unfolding get_my_grants assert_member
In-get_my_grants room requester db m row found there own i =
    let asked : RoomKeyGrant → Bool = λ g. g.room_id == room && g.user_id == requester in
    let rows = by_epoch (filter asked db.grants) in
    (
      rows,
      rw (found, get_my_grants, assert_member) refl,
      In-by_epoch row (filter asked db.grants) (
          In-filter asked db.grants i
            (ground (arith, text_eq_iff row.room_id room, text_eq_iff row.user_id requester))),
    )

-- The row that `upsert` leaves has what it was given.
upserted :
    (h y : RoomKeyGrant)
    → same_key h y ≡ true
    → record h { wrapped_key = y.wrapped_key; recipient_key_fp = y.recipient_key_fp } ≡ y
upserted h y e =
    let a : h.room_id ≡ y.room_id = ground (arith, text_eq_iff h.room_id y.room_id) in
    let b : h.user_id ≡ y.user_id = ground (arith, text_eq_iff h.user_id y.user_id) in
    let c : h.key_id ≡ y.key_id = ground (arith, nat_eq_iff h.key_id y.key_id) in cc

In-upsert_own : (y : RoomKeyGrant) (rows : List RoomKeyGrant) → In y (upsert_grant y rows)
unfolding upsert_grant
In-upsert_own y [] = inl refl
In-upsert_own y (h ∷ hs) = elim (Bool-cases (same_key h y)) [
  | inl e ↦ rw e (inl (upserted h y e))
  | inr e ↦ rw e (inr (In-upsert_own y hs))
]

apart : {b : Bool} → b ≡ true → b ≡ false → ⊥
apart e d = cc

In-upsert_other :
    (x y : RoomKeyGrant) (rows : List RoomKeyGrant)
    → same_key x y ≡ false
    → In x rows
    → In x (upsert_grant y rows)
unfolding upsert_grant
In-upsert_other x y [] d i = elim i [ ]
In-upsert_other x y (h ∷ hs) d i = elim (Bool-cases (same_key h y)) [
  | inl e ↦ rw e (elim i [
    | inl same ↦ absurd (apart e (ap (λ (z : RoomKeyGrant). same_key z y) same ∙ d))
    | inr later ↦ inr later
  ])
  | inr e ↦ rw e (elim i [ inl same ↦ inl same | inr later ↦ inr (In-upsert_other x y hs d later) ])
]

-- Every grant for the user and the epoch of `g` is `g`.
abbrev pub Agree : Text → GrantItem → List GrantItem → Type 0
Agree room g gs = All (λ x. same_key (to_row room g) (to_row room x) ≡ true → x ≡ g) gs

In-upsert :
    (room : Text) (g x : GrantItem) (rows : List RoomKeyGrant)
    → (same_key (to_row room g) (to_row room x) ≡ true → x ≡ g)
    → In (to_row room g) rows
    → In (to_row room g) (upsert_grant (to_row room x) rows)
In-upsert room g x rows agree i = elim (Bool-cases (same_key (to_row room g) (to_row room x))) [
  | inl e ↦
      subst (λ (z : GrantItem). In (to_row room g) (upsert_grant (to_row room z) rows))
        (sym (agree e)) (In-upsert_own (to_row room g) rows)
  | inr e ↦ In-upsert_other (to_row room g) (to_row room x) rows e i
]

upserts-keep :
    (room : Text) (g : GrantItem) (gs : List GrantItem) (rows : List RoomKeyGrant)
    → Agree room g gs
    → In (to_row room g) rows
    → In (to_row room g) (upsert_grants room gs rows)
unfolding upsert_grants
upserts-keep room g [] rows agree i = i
upserts-keep room g (x ∷ gs) rows (a, agree) i =
    upserts-keep room g gs (upsert_grant (to_row room x) rows) agree (In-upsert room g x rows a i)

-- After an upload that holds `g`, and holds nothing else for its user and epoch, its row is there.
pub In-upsert_grants :
    (room : Text) (g : GrantItem) (gs : List GrantItem) (rows : List RoomKeyGrant)
    → Agree room g gs
    → In g gs
    → In (to_row room g) (upsert_grants room gs rows)
unfolding upsert_grants
In-upsert_grants room g [] rows agree i = elim i [ ]
In-upsert_grants room g (x ∷ gs) rows (a, agree) (inl e) =
    upserts-keep room g gs (upsert_grant (to_row room x) rows) agree (
      subst (λ (z : GrantItem). In (to_row room g) (upsert_grant (to_row room z) rows)) (sym e)
        (In-upsert_own (to_row room g) rows))
In-upsert_grants room g (x ∷ gs) rows (a, agree) (inr i) =
    In-upsert_grants room g gs (upsert_grant (to_row room x) rows) agree i

-- The server takes what meets its two checks.
pub served_upload :
    (room helper : Text) (db : Db) (r : Room) (m : RoomMember) (gs : List GrantItem)
    → room_by_id room db ≡ some r
    → find_member room helper db ≡ some m
    → all (λ g. is_member room db g.user_id) gs ≡ true
    → all (λ g. leb g.key_id r.current_key_id) gs ≡ true
    → upload_grants room helper (record { claim_epoch = none; grants = gs }) db
      ≡ ok (r.current_key_id, record db { grants = upsert_grants room gs db.grants }, none)
unfolding upload_grants authorize assert_member commit
served_upload room helper db r m gs there found a b =
    rw (found, upload_grants, authorize, assert_member)
      (rw (a, upload_grants, authorize)
        (rw (there, upload_grants, authorize) (rw (b, upload_grants, authorize) refl)))
