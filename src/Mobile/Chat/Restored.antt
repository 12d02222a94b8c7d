-- ===== src/Mobile/Chat/Restored.antt =====
-- Which refused messages are handed back to the composer.
use chat_crdt.Prelude.{
  ◌≡◌, false, not, List, [], ◌∷◌, Text, filter, contains, contains-append, All, All-map, Bool-cases,
  inl, inr, text_Eq, arith,
}
use chat_crdt.Mobile.Cipher.{Sodium}
use chat_crdt.Mobile.Chat.{ChatState, claim_restored_messages}

module _ (s : Sodium) where
  -- The ids that each of these calls in turn returns.
  abbrev pub claims : List (List Text) → ChatState s → List (List Text)
  claims [] c = []
  claims (ids ∷ calls) c =
      let (fresh, c') = claim_restored_messages s ids c in fresh ∷ claims calls c'

  -- None of these ids is in the list.
  abbrev pub Fresh : List Text → List Text → Type 0
  Fresh seen ids = All (λ i. contains i seen ≡ false) ids

  filter-Fresh : (seen ids : List Text) → Fresh seen (filter (λ i. not (contains i seen)) ids)
  filter-Fresh seen [] = tt
  filter-Fresh seen (i ∷ ids) = elim (Bool-cases (contains i seen)) [
    | inl e ↦ rw e (filter-Fresh seen ids)
    | inr e ↦ rw e (e, filter-Fresh seen ids)
  ]

  claims-Fresh :
      (calls : List (List Text)) (c : ChatState s)
      → All (Fresh c.restored_message_ids) (claims calls c)
  unfolding claim_restored_messages
  claims-Fresh [] c = tt
  claims-Fresh (ids ∷ calls) c =
      let seen = c.restored_message_ids in
      let (fresh, c') = claim_restored_messages s ids c in
      (
        filter-Fresh seen ids,
        All-map {P = Fresh c'.restored_message_ids} {Q = Fresh seen}
            (λ js h.
              All-map {P = λ i. contains i c'.restored_message_ids ≡ false}
                {Q = λ i. contains i seen ≡ false}
                (λ i p. ground (arith, contains-append i seen fresh)) js h)
            (claims calls c') (claims-Fresh calls c'),
      )

  -- The ids that a call returns are returned by no later call, however often they are refused again.
  pub claimed_once :
      (ids : List Text) (calls : List (List Text)) (c : ChatState s)
      → All
          (λ later. Fresh (claim_restored_messages s ids c).0 later)
          (claims calls (claim_restored_messages s ids c).1)
  unfolding claim_restored_messages
  claimed_once ids calls c =
      let seen = c.restored_message_ids in
      let (fresh, c') = claim_restored_messages s ids c in
      All-map {P = Fresh c'.restored_message_ids} {Q = Fresh fresh}
        (λ js h.
          All-map {P = λ i. contains i c'.restored_message_ids ≡ false}
            {Q = λ i. contains i fresh ≡ false}
            (λ i p. ground (arith, contains-append i seen fresh)) js h)
        (claims calls c') (claims-Fresh calls c')
