-- ===== src/Engine/Messages/Reinsert.antt =====
-- What `reinsertMessages` leaves in the document.
use chat_crdt.Prelude.{
  ◌≡◌, refl, ap, ◌∙◌, Bool, true, false, not, ◌||◌, List, [], ◌∷◌, ◌++◌, Text, length, ltb, filter,
  contains, contains-append, eq_iff, if◌then◌else◌, text_Eq, nat_Eq, arith, All, All-map,
}
use chat_crdt.Shared.Message.{Message}
use chat_crdt.Engine.Messages.{YArray, IsArray, ids_of, reinsert_messages}

ids_of-append : (xs ys : List Message) → ids_of (xs ++ ys) ≡ ids_of xs ++ ids_of ys
ids_of-append [] ys = refl
ids_of-append (x ∷ xs) ys = ap (λ l. x.id ∷ l) (ids_of-append xs ys)

abbrev missing : List Text → List Message → List Message
missing present ms = filter (λ m. not (contains m.id present)) ms

abbrev Covered : List Text → List Message → Message → Type 0
Covered present ms m = (contains m.id present || contains m.id (ids_of (missing present ms))) ≡ true

missing_lem : (present : List Text) (ms : List Message) → All (Covered present ms) ms
missing_lem present [] = tt
missing_lem present (m ∷ ms) = (
  ground (arith, eq_iff m.id m.id),
  All-map {P = Covered present ms} {Q = Covered present (m ∷ ms)} (λ n c. ground arith) ms
      (missing_lem present ms),
)

none_missing :
    (ids : List Text) (ms : List Message)
    → All (λ m. contains m.id ids ≡ true) ms
    → missing ids ms ≡ []
none_missing ids [] h = refl
none_missing ids (m ∷ ms) (p, h) = ground (arith, none_missing ids ms h)

grown :
    (b : Bool) (y : YArray) (array : IsArray y) (ms : List Message) (d : y.Doc)
    → b ≡ ltb 0 (length ms)
    → y.to_array (if b then y.push d ms else d) ≡ y.to_array d ++ ms
grown true y array ms d h = array.push_lem d ms
grown false y array [] d h = append_nil (y.to_array d)
  where
    append_nil : (xs : List Message) → xs ≡ xs ++ []
    append_nil [] = refl
    append_nil (x ∷ xs) = ap (λ l. x ∷ l) (append_nil xs)
grown false y array (m ∷ ms) d h = ground arith

-- Reinserting appends, after the messages that the document holds, the given ones whose id it does
-- not hold, and returns them; the document then holds the id of every given message, so that
-- reinserting the same messages again inserts nothing.
pub reinsert_idempotent :
    (y : YArray) (array : IsArray y) (ms : List Message) (d : y.Doc)
    → (y.to_array (reinsert_messages y ms d).1 ≡ y.to_array d ++ (reinsert_messages y ms d).0)
      × All (λ m. contains m.id (ids_of (y.to_array (reinsert_messages y ms d).1)) ≡ true) ms
      × ((reinsert_messages y ms (reinsert_messages y ms d).1).0 ≡ [])
unfolding reinsert_messages
reinsert_idempotent y array ms d =
    let present = ids_of (y.to_array d) in
    let new = missing present ms in
    let d' = (reinsert_messages y ms d).1 in
    let array_after : y.to_array d' ≡ y.to_array d ++ new = grown _ y array new d refl in
    let ids_after : ids_of (y.to_array d') ≡ present ++ ids_of new =
      ap ids_of array_after ∙ ids_of-append (y.to_array d) new in
    let covered : All (λ m. contains m.id (ids_of (y.to_array d')) ≡ true) ms =
      All-map {P = Covered present ms} {Q = λ m. contains m.id (ids_of (y.to_array d')) ≡ true}
        (λ m c. ap (contains m.id) ids_after ∙ contains-append m.id present (ids_of new) ∙ c) ms
        (missing_lem present ms) in
    (array_after, covered, none_missing (ids_of (y.to_array d')) ms covered)
