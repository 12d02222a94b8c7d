-- ===== src/Server/RoomKeys/Pending.antt =====
-- Which grants `getPending` asks for.
use chat_crdt.Prelude.{
  ℕ, zero, suc, ◌≤◌, ◌≡◌, refl, sym, subst, ◌↔◌, Bool, true, false, not, inl, inr, Option, none,
  some, List, [], ◌∷◌, Text, All, All-append, All-map, All-filter, All-filter_self, All-zip,
  All-of_map, All-In, In, In-append_left, In-append_right, In-filter, In-map, filter, any, ◌==◌,
  eq_iff, Bool-cases, text_Eq, nat_Eq, arith, text_eq_iff,
}
use chat_crdt.Server.Http.{ok}
use chat_crdt.Server.Db.{
  Db, Room, RoomMember, RoomKeyGrant, room_by_id, find_member, members_of, grants_of, user_by_id,
}
use chat_crdt.Server.RoomKeys.{
  PendingGrant, epochs, has_current_grant, published, pending_for, pending_all, get_pending,
  is_member, assert_member,
}

In-epochs : (n k : ℕ) → 1 ≤ k → k ≤ n → In k (epochs n)
unfolding epochs
In-epochs zero k h l = absurd (omega arith)
In-epochs (suc n) k h l = elim (Bool-cases (k == suc n)) [
  | inl e ↦ In-append_right k (epochs n) _ (inl (ground arith))
  | inr e ↦ In-append_left k (epochs n) _ (In-epochs n k h (ground arith))
]

epochs_range : (n : ℕ) → All (λ k. (1 ≤ k) × (k ≤ n)) (epochs n)
unfolding epochs
epochs_range zero = tt
epochs_range (suc n) =
    All-append (λ k. (1 ≤ k) × (k ≤ suc n)) (epochs n) (suc n ∷ [])
      (All-map (λ k h. omega arith) (epochs n) (epochs_range n)) (omega arith)

-- The member's user has published this key, and no grant of this epoch is sealed to it.
abbrev pub Unserved : Db → List RoomKeyGrant → ℕ → PendingGrant → Type 0
Unserved db grants n p =
    (1 ≤ p.key_id)
    × (p.key_id ≤ n)
    × ((fp : Text) × (published (user_by_id p.user_id db) ≡ some (p.public_key, fp))
        × (has_current_grant p.user_id p.key_id fp grants ≡ false))

pending_for_sound :
    (db : Db) (user : Text) (grants : List RoomKeyGrant) (n : ℕ) (key : Option (Text × Text))
    → published (user_by_id user db) ≡ key
    → All
        (λ p. (p.user_id ≡ user) × Unserved db grants n p)
        (pending_for user grants key (epochs n))
unfolding pending_for
pending_for_sound db user grants n none e = tt
pending_for_sound db user grants n (some (key, fp)) e =
    let asked : ℕ → Bool = λ k. not (has_current_grant user k fp grants) in
    All-of_map _ _ (filter asked (epochs n)) (
      All-map (λ k h. (refl, (h.0.0, h.0.1, (fp, e, ground arith)))) (filter asked (epochs n))
        (All-zip _ _ (filter asked (epochs n))
          (All-filter (λ k. (1 ≤ k) × (k ≤ n)) asked (epochs n) (epochs_range n))
          (All-filter_self asked (epochs n))))

pending_for_complete :
    (db : Db) (grants : List RoomKeyGrant) (n : ℕ) (p : PendingGrant)
    → Unserved db grants n p
    → In p (pending_for p.user_id grants (published (user_by_id p.user_id db)) (epochs n))
unfolding pending_for
pending_for_complete db grants n p (low, high, (fp, e, missing)) =
    let asked : ℕ → Bool = λ k. not (has_current_grant p.user_id k fp grants) in
    rw e (
      In-map (λ k. record { user_id = p.user_id; key_id = k; public_key = p.public_key }) p.key_id
        (filter asked (epochs n))
        (In-filter asked (epochs n) (In-epochs n p.key_id low high) (rw missing)))

abbrev listed : List RoomMember → Text → Bool
listed ms user = any (λ m. m.user_id == user) ms

pub pending_all_sound :
    (db : Db) (grants : List RoomKeyGrant) (n : ℕ) (ms : List RoomMember)
    → All
        (λ p. (listed ms p.user_id ≡ true) × Unserved db grants n p)
        (pending_all db grants (epochs n) ms)
unfolding pending_all
pending_all_sound db grants n [] = tt
pending_all_sound db grants n (m ∷ ms) =
    All-append _ _ _
      (All-map (λ p h. (ground (arith, text_eq_iff m.user_id p.user_id), h.1)) _
        (pending_for_sound db m.user_id grants n _ refl))
      (All-map (λ p h. (ground arith, h.1)) _ (pending_all_sound db grants n ms))

pending_all_complete :
    (db : Db) (grants : List RoomKeyGrant) (n : ℕ) (ms : List RoomMember) (p : PendingGrant)
    → listed ms p.user_id ≡ true
    → Unserved db grants n p
    → In p (pending_all db grants (epochs n) ms)
unfolding pending_all
pending_all_complete db grants n [] p l h = cc
pending_all_complete db grants n (m ∷ ms) p l h = elim (Bool-cases (m.user_id == p.user_id)) [
  | inl e ↦ In-append_left p _ _ (
      subst (λ u. In p (pending_for u grants (published (user_by_id u db)) (epochs n)))
        (sym ((eq_iff m.user_id p.user_id).0 e)) (pending_for_complete db grants n p h))
  | inr e ↦ In-append_right p _ _ (pending_all_complete db grants n ms p (ground arith) h)
]

pending_for_nil :
    (user : Text) (grants : List RoomKeyGrant) (key : Option (Text × Text))
    → pending_for user grants key [] ≡ []
unfolding pending_for
pending_for_nil user grants none = refl
pending_for_nil user grants (some (key, fp)) = refl

pending_all_nil :
    (db : Db) (grants : List RoomKeyGrant) (ms : List RoomMember)
    → pending_all db grants (epochs 0) ms ≡ []
unfolding pending_all epochs
pending_all_nil db grants [] = refl
pending_all_nil db grants (m ∷ ms) =
    rw (pending_for_nil m.user_id grants (published (user_by_id m.user_id db)))
      (pending_all_nil db grants ms)

pub get_pending_answer :
    (room requester : Text) (db : Db) (r : Room) (m : RoomMember) (ps : List PendingGrant)
    → room_by_id room db ≡ some r
    → find_member room requester db ≡ some m
    → get_pending room requester db ≡ ok ps
    → ps ≡ pending_all db (grants_of room db) (epochs r.current_key_id) (members_of room db)
unfolding get_pending assert_member
get_pending_answer room requester db r m ps found member h =
    elim (Bool-cases (r.current_key_id == 0)) [
      | inl e ↦
          let zero_epoch : r.current_key_id ≡ 0 = ground arith in
          ground (arith, pending_all_nil db (grants_of room db) (members_of room db))
      | inr e ↦ ground arith
    ]

-- The answer to a member of an existing room holds exactly the (user, epoch, public key) for which
-- the user is a member of the room with that key published, the epoch is one that the room has
-- reached, and no stored grant is sealed to the key's fingerprint.
pub get_pending_iff :
    (room requester : Text) (db : Db) (r : Room) (m : RoomMember) (ps : List PendingGrant)
    (p : PendingGrant)
    → room_by_id room db ≡ some r
    → find_member room requester db ≡ some m
    → get_pending room requester db ≡ ok ps
    → In p ps
      ↔ ((is_member room db p.user_id ≡ true) × Unserved db (grants_of room db) r.current_key_id p)
get_pending_iff room requester db r m ps p found member h =
    rw (get_pending_answer room requester db r m ps found member h) (
      All-In _ p _ (pending_all_sound db (grants_of room db) r.current_key_id (members_of room db)),
      λ (l, u).
          pending_all_complete db (grants_of room db) r.current_key_id (members_of room db) p l u,
    )
