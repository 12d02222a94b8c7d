-- ===== src/Mobile/Sync/Rejected.antt =====
-- What the screen does with a refusal that the connection has repaired.
use chat_crdt.Prelude.{
  ℕ, ◌≡◌, refl, sym, ap, ◌∙◌, true, false, not, ◌||◌, List, [], ◌∷◌, ◌++◌, Text, codes, filter,
  contains, contains-append, length, ltb, ◌==◌, Bool-cases, by_test, inl, inr, text_Eq, text_eq_iff,
  arith,
}
use chat_crdt.Shared.Message.{Message}
use chat_crdt.Engine.Messages.{YArray, ids_of}
use chat_crdt.Mobile.Cipher.{Sodium}
use chat_crdt.Mobile.Render.{e2ee_room}
use chat_crdt.Mobile.Chat.{claim_restored_messages, note_e2ee_rejection}
use chat_crdt.Mobile.Rooms.{note_room_epoch, use_room_e2ee_state, noted, run, step}
use chat_crdt.Mobile.Rooms.Seen.{never_downgraded}
use chat_crdt.Mobile.Sync.{Screen, App, Step, on_e2ee_rejected}

unclaimed : List Text → List Text → List Text
unclaimed seen ids = filter (λ i. not (contains i seen)) ids

none_left :
    (seen ids : List Text)
    → ((i : Text) → contains i ids ≡ true → contains i seen ≡ true)
    → unclaimed seen ids ≡ []
unfolding unclaimed
none_left seen [] h = refl
none_left seen (x ∷ ids) h =
    let here : contains x seen ≡ true = h x (ground (arith, text_eq_iff x x)) in
    rw here (none_left seen ids (λ i e. h i (ground arith)))

claimed_then :
    (seen ids : List Text) (i : Text)
    → contains i ids ≡ true
    → (contains i seen || contains i (unclaimed seen ids)) ≡ true
unfolding unclaimed
claimed_then seen [] i h = cc
claimed_then seen (x ∷ ids) i h = elim (Bool-cases (x == i)) [
  | inl e ↦
      let same = (text_eq_iff x i).0 e in
      elim (Bool-cases (contains x seen)) [
        | inl t ↦
            let t' : contains i seen ≡ true = ap (λ z. contains z seen) (sym same) ∙ t in rw t' refl
        | inr t ↦ rw (t, e) (ground arith)
      ]
  | inr e ↦
      let rest = claimed_then seen ids i (ground arith) in
      elim (Bool-cases (contains x seen)) [ inl t ↦ rw t rest | inr t ↦ rw (t, e) rest ]
]

-- What was claimed once is not claimed again.
claimed_again : (seen ids : List Text) → unclaimed (seen ++ unclaimed seen ids) ids ≡ []
claimed_again seen ids =
    none_left (seen ++ unclaimed seen ids) ids
      (λ i h. contains-append i seen (unclaimed seen ids) ∙ claimed_then seen ids i h)

module _ (y : YArray) (s : Sodium) (c : Screen s) where
  abbrev ours : List Message → List Message
  ours ms = filter (λ m. m.user_id == c.user_id) ms

  abbrev fresh : List Message → App y s → List Text
  fresh ms a = (claim_restored_messages s (ids_of (ours ms)) a.chat).0

  abbrev pub SameNotice : App y s → App y s → Type 0
  SameNotice a b =
      (b.chat.e2ee_rejection_by_room ≡ a.chat.e2ee_rejection_by_room)
      × (b.chat.e2ee_rejection_seq ≡ a.chat.e2ee_rejection_seq)

  nothing_new :
      (key_id : ℕ) (ms : List Message) (a : App y s)
      → (ltb 0 (length (ours ms)) ≡ true → ltb 0 (length (fresh ms a)) ≡ false)
      → SameNotice a (on_e2ee_rejected y s c key_id ms a).0
  unfolding on_e2ee_rejected claim_restored_messages
  nothing_new key_id ms a h =
      by_test (λ (r : Step y s). SameNotice a r.0) (not (ltb 0 (length (ours ms)))) _ _
        (λ t. (refl, refl))
        λ t.
          by_test (λ (r : Step y s). SameNotice a r.0) (not (ltb 0 (length (fresh ms a)))) _ _
            (λ u. (refl, refl)) λ u. absurd (let n = h (ground arith) in ground arith)

  claims_noted :
      (key_id : ℕ) (ms : List Message) (a : App y s)
      → ltb 0 (length (ours ms)) ≡ true
      → (on_e2ee_rejected y s c key_id ms a).0.chat.restored_message_ids
        ≡ a.chat.restored_message_ids ++ fresh ms a
  unfolding on_e2ee_rejected claim_restored_messages note_e2ee_rejection
  claims_noted key_id ms a h =
      let P = λ (r : Step y s).
        r.0.chat.restored_message_ids ≡ a.chat.restored_message_ids ++ fresh ms a in
      by_test P (not (ltb 0 (length (ours ms)))) _ _ (λ t. absurd (ground arith))
        λ t. by_test P (not (ltb 0 (length (fresh ms a)))) _ _ (λ u. refl) (λ u. refl)

  rooms_noted :
      (key_id : ℕ) (ms : List Message) (a : App y s)
      → (on_e2ee_rejected y s c key_id ms a).0.rooms ≡ note_room_epoch c.room_id key_id a.rooms
  unfolding on_e2ee_rejected
  rooms_noted key_id ms a =
      let P = λ (r : Step y s). r.0.rooms ≡ note_room_epoch c.room_id key_id a.rooms in
      by_test P (not (ltb 0 (length (ours ms)))) _ _ (λ t. refl)
        λ t. by_test P (not (ltb 0 (length (fresh ms a)))) _ _ (λ u. refl) (λ u. refl)

  -- In a room other than the default one, a refusal of a positive epoch makes the app take the room
  -- as encrypted at once, and hands the refused messages of this user back only once: when the same
  -- messages are refused again, there is no new notice for the composer.
  pub rejected_once :
      (key_id again : ℕ) (ms : List Message) (a : App y s)
      → (c.room_id == codes "default") ≡ false
      → ltb 0 key_id ≡ true
      → let first = (on_e2ee_rejected y s c key_id ms a).0 in
        (use_room_e2ee_state c.room_id first.rooms ≡ e2ee_room)
        × SameNotice first (on_e2ee_rejected y s c again ms first).0
  unfolding claim_restored_messages unclaimed run step
  rejected_once key_id again ms a d h =
      let first = (on_e2ee_rejected y s c key_id ms a).0 in
      (
        ap (use_room_e2ee_state c.room_id) (rooms_noted key_id ms a)
            ∙ never_downgraded [] [] (noted c.room_id key_id) c.room_id a.rooms d
                (ground (arith, text_eq_iff c.room_id c.room_id)),
        nothing_new again ms first (λ t.
            let e : fresh ms first ≡ [] =
              ap (λ (seen : List Text). unclaimed seen (ids_of (ours ms)))
                (claims_noted key_id ms a t)
              ∙ claimed_again a.chat.restored_message_ids (ids_of (ours ms)) in
            ap (λ (l : List Text). ltb 0 (length l)) e),
      )
