-- ===== src/Mobile/Keys/Served.antt =====
-- What a member's app posts for those who wait for a key, against the answer that it is made from.
use chat_crdt.Prelude.{
  ℕ, ◌≤◌, ◌≡◌, refl, sym, ap, ◌∙◌, true, inl, inr, Option, none, some, List, [], ◌∷◌, Text, All, In,
  get, length, leb, text_Eq, nat_Eq, text_eq_iff, nat_eq_iff, Option-cases, arith,
}
use chat_crdt.Server.Db.{Db, RoomKeyGrant, user_by_id, same_key}
use chat_crdt.Server.RoomKeys.{PendingGrant, GrantItem, published, to_row, is_member}
use chat_crdt.Server.RoomKeys.Pending.{Unserved}
use chat_crdt.Server.RoomKeys.Upload.{max_key_id, is_valid_item, is_unpadded}
use chat_crdt.Mobile.Cipher.{Sodium}
use chat_crdt.Mobile.Keys.{Box, KeyStore, present, item, served_grants}
use chat_crdt.Mobile.Keys.Sealed.{IsBox, grant_for_valid}

-- What the server says of an entry of its answer.
abbrev pub Offered : Text → Db → List RoomKeyGrant → ℕ → PendingGrant → Type 0
Offered room db grants n p = (is_member room db p.user_id ≡ true) × Unserved db grants n p

-- The key that the device holds for the entry, if any, and the entry's public key have 32 bytes.
abbrev pub IsProper : (Text → ℕ) → KeyStore → PendingGrant → Type 0
IsProper decoded_length store p =
    (key : Text)
    → present (get p.key_id store.room_keys) ≡ some key
    → (is_unpadded decoded_length 32 key ≡ true)
      × (is_unpadded decoded_length 32 p.public_key ≡ true)

-- The entry `p` of a member's answer, and the key that the device holds for its epoch, sealed for it.
module _ (s : Sodium) (box : Box s) (decoded_length : Text → ℕ) (law : IsBox s box decoded_length)
    (room : Text) (db : Db) (grants : List RoomKeyGrant) (n : ℕ) (small : n ≤ max_key_id)
    (store : KeyStore) (p : PendingGrant) (key wrapped : Text)
    (held : present (get p.key_id store.room_keys) ≡ some key)
    (made : box.seal key p.public_key ≡ some wrapped) where
  abbrev own : GrantItem
  own = item s box p.user_id p.public_key p.key_id wrapped

  -- A grant that the server takes, and that is `own` if it is for the same user and epoch.
  abbrev pub Fits : GrantItem → Type 0
  Fits g =
      (is_member room db g.user_id ≡ true)
      × (leb g.key_id n ≡ true)
      × (is_valid_item decoded_length g ≡ true)
      × (same_key (to_row room own) (to_row room g) ≡ true → g ≡ own)

  same_grant :
      (q : PendingGrant) (key' wrapped' fp fp' : Text)
      → published (user_by_id p.user_id db) ≡ some (p.public_key, fp)
      → published (user_by_id q.user_id db) ≡ some (q.public_key, fp')
      → present (get q.key_id store.room_keys) ≡ some key'
      → box.seal key' q.public_key ≡ some wrapped'
      → p.user_id ≡ q.user_id
      → p.key_id ≡ q.key_id
      → item s box q.user_id q.public_key q.key_id wrapped' ≡ own
  same_grant q key' wrapped' fp fp' pp pq hq sq u k =
      let one : ◌≡◌ {A = Option (Text × Text)} (some (p.public_key, fp))
          (some (q.public_key, fp')) =
        sym pp ∙ ap (λ (z : Text). published (user_by_id z db)) u ∙ pq in
      let two : ◌≡◌ {A = Option Text} (some key) (some key') =
        sym held ∙ ap (λ (z : ℕ). present (get z store.room_keys)) k ∙ hq in
      let public : p.public_key ≡ q.public_key = cc in
      let keys : key ≡ key' = cc in
      let three : ◌≡◌ {A = Option Text} (some wrapped) (some wrapped') =
        sym made
        ∙ ap (λ (z : Text). box.seal z p.public_key) keys
        ∙ ap (λ (z : Text). box.seal key' z) public
        ∙ sq in
      cc

  -- The loop ends, and what it makes of these entries fits and has `own`, if `p` is among them.
  pub served_all :
      (fp : Text) (ps : List PendingGrant)
      → published (user_by_id p.user_id db) ≡ some (p.public_key, fp)
      → All (Offered room db grants n) ps
      → All (IsProper decoded_length store) ps
      → (gs : List GrantItem) × (served_grants s box ps store ≡ some gs)
        × (length gs ≤ length ps)
        × All Fits gs
        × (In p ps → In own gs)
  unfolding served_grants
  served_all fp [] pp offered proper = ([], refl, omega arith, tt, λ i. elim i [ ])
  served_all fp (q ∷ ps) pp ((member, (low, high, (fp', pq, w))), offered) (proper_q, proper) =
      let (gs, e, shorter, fits, has) = served_all fp ps pp offered proper in
      elim (Option-cases (present (get q.key_id store.room_keys))) [
        | inl missing ↦ (
          gs,
          rw (missing, served_grants) e,
          omega (arith, shorter),
          fits,
          λ i. elim i [
            | inl same ↦ absurd (
                no_key (
                  sym
                    (ap (λ (z : PendingGrant). present (get z.key_id store.room_keys)) same ∙ held)
                  ∙ missing))
            | inr later ↦ has later
          ],
        )
        | inr (key', h) ↦
            let (a, b) = proper_q key' h in
            let (wrapped', sq, given, valid) =
              grant_for_valid s box decoded_length law q.user_id q.public_key key' q.key_id a b low
                (omega (arith, high, small)) in
            let mine = item s box q.user_id q.public_key q.key_id wrapped' in
            (
              mine ∷ gs,
              rw (h, served_grants) (rw given (rw e refl)),
              omega (arith, shorter),
              (
                (
                  member,
                  ground arith,
                  valid,
                  λ t.
                      same_grant q key' wrapped' fp fp' pp pq h sq
                        (ground (arith, text_eq_iff p.user_id q.user_id))
                        (ground (arith, nat_eq_iff p.key_id q.key_id)),
                ),
                fits,
              ),
              λ i. elim i [
                | inl same ↦ inl (
                    same_grant q key' wrapped' fp fp' pp pq h sq
                      (sym (ap (λ (z : PendingGrant). z.user_id) same))
                      (sym (ap (λ (z : PendingGrant). z.key_id) same)))
                | inr later ↦ inr (has later)
              ],
            )
      ]
    where
      no_key : ¬ (◌≡◌ {A = Option Text} (some key) none)
      no_key e = cc
