-- ===== src/Server/RoomKeys/Epochs.antt =====
-- The epochs of the rooms under a claim, and the grant table under upserts.
use chat_crdt.Prelude.{
  ℕ, ◌+◌, ◌≤◌, ◌<◌, ◌≡◌, refl, subst, ◌≢◌, inl, inr, List, [], ◌∷◌, Text, All, filter, length, ◌==◌,
  eq_iff, if◌then◌else◌, Bool-cases, text_Eq, nat_Eq, arith, text_eq_iff,
}
use chat_crdt.Server.Db.{Room, RoomKeyGrant, same_key, upsert_grant}
use chat_crdt.Server.RoomKeys.{GrantItem, to_row, upsert_grants, matches, advance}

-- The epoch of the room of this id, 0 if there is none.
unfoldable pub epoch_of : Text → List Room → ℕ
epoch_of id [] = 0
epoch_of id (r ∷ rs) = if r.id == id then r.current_key_id else epoch_of id rs

-- `Room.id` is a primary key.
abbrev pub Distinct : List Room → Type 0
Distinct [] = Unit
Distinct (r ∷ rs) = All (λ s. s.id ≢ r.id) rs × Distinct rs

pub epoch_of-advance :
    (id room : Text) (e : ℕ) (rs : List Room) → epoch_of id rs ≤ epoch_of id (advance room e rs)
unfolding epoch_of advance
epoch_of-advance id room e [] = omega arith
epoch_of-advance id room e (r ∷ rs) = ground (arith, epoch_of-advance id room e rs)

no_match :
    (room : Text) (e : ℕ) (rs : List Room)
    → All (λ s. s.id ≢ room) rs
    → filter (matches room e) rs ≡ []
no_match room e [] h = refl
no_match room e (r ∷ rs) h = ground (arith, text_eq_iff r.id room, no_match room e rs)

pub claimed :
    (room : Text) (e : ℕ) (rs : List Room)
    → Distinct rs
    → length (filter (matches room e) rs) ≡ 1
    → (epoch_of room rs ≡ e) × (epoch_of room (advance room e rs) ≡ e + 1)
unfolding epoch_of advance
claimed room e [] d h = absurd (omega arith)
claimed room e (r ∷ rs) d h = elim (Bool-cases (r.id == room)) [
  | inl same ↦
      let others : All (λ s. s.id ≢ room) rs =
        subst (λ x. All (λ s. s.id ≢ x) rs) ((eq_iff r.id room).0 same) d.0 in
      ground (arith, no_match room e rs others)
  | inr other ↦ ground (arith, claimed room e rs d.1)
]

-- Once the epoch has passed `e`, no row is left for a claim of `e`.
pub spent :
    (room : Text) (e : ℕ) (rs : List Room)
    → Distinct rs
    → e < epoch_of room rs
    → filter (matches room e) rs ≡ []
unfolding epoch_of
spent room e [] d h = refl
spent room e (r ∷ rs) d h = elim (Bool-cases (r.id == room)) [
  | inl same ↦
      let others : All (λ s. s.id ≢ room) rs =
        subst (λ x. All (λ s. s.id ≢ x) rs) ((eq_iff r.id room).0 same) d.0 in
      ground (arith, no_match room e rs others)
  | inr other ↦ ground (arith, spent room e rs d.1)
]

distinct_from-advance :
    (id room : Text) (e : ℕ) (rs : List Room)
    → All (λ s. s.id ≢ id) rs
    → All (λ s. s.id ≢ id) (advance room e rs)
unfolding advance
distinct_from-advance id room e [] h = tt
distinct_from-advance id room e (r ∷ rs) (p, h) =
    (ground arith, distinct_from-advance id room e rs h)

pub advance-Distinct :
    (room : Text) (e : ℕ) (rs : List Room) → Distinct rs → Distinct (advance room e rs)
unfolding advance
advance-Distinct room e [] d = tt
advance-Distinct room e (r ∷ rs) (p, d) = elim (Bool-cases (matches room e r)) [
  | inl t ↦ rw t (distinct_from-advance r.id room e rs p, advance-Distinct room e rs d)
  | inr t ↦ rw t (distinct_from-advance r.id room e rs p, advance-Distinct room e rs d)
]

-- An upsert writes the payload of a row and never its key.
module _ {ℓ} (P : Text → ℕ → Type ℓ) where
  pub All-upsert_grant :
      (g : RoomKeyGrant) (rows : List RoomKeyGrant)
      → P g.room_id g.key_id
      → All (λ h. P h.room_id h.key_id) rows
      → All (λ h. P h.room_id h.key_id) (upsert_grant g rows)
  unfolding upsert_grant
  All-upsert_grant g [] p h = (p, tt)
  All-upsert_grant g (r ∷ rows) p (q, h) = elim (Bool-cases (same_key r g)) [
    | inl t ↦ rw t (q, h)
    | inr t ↦ rw t (q, All-upsert_grant g rows p h)
  ]

  pub All-upsert_grants :
      (room : Text) (gs : List GrantItem) (rows : List RoomKeyGrant)
      → All (λ g. P room g.key_id) gs
      → All (λ h. P h.room_id h.key_id) rows
      → All (λ h. P h.room_id h.key_id) (upsert_grants room gs rows)
  unfolding upsert_grants
  All-upsert_grants room [] rows p h = h
  All-upsert_grants room (g ∷ gs) rows (p, ps) h =
      All-upsert_grants room gs (upsert_grant (to_row room g) rows) ps
        (All-upsert_grant (to_row room g) rows p h)
