-- ===== src/Session/Distinct.antt =====
-- Documents whose messages have different ids, and what is left when some are taken out.
use chat_crdt.Prelude.{
  ◌≡◌, refl, ◌+◌, Bool, true, false, not, ◌||◌, List, [], ◌∷◌, ◌++◌, Text, All, All-filter,
  contains, contains-append, filter, length, ◌==◌, inl, inr, Bool-cases, text_Eq, text_eq_iff,
  arith,
}
use chat_crdt.Shared.Message.{Message}
use chat_crdt.Engine.Messages.{ids_of}
use chat_crdt.Engine.Provider.{Library, add_all}

abbrev pub IsDistinct : List Message → Type 0
IsDistinct [] = Unit
IsDistinct (m ∷ ms) = (contains m.id (ids_of ms) ≡ false) × IsDistinct ms

-- No message has one of these ids.
abbrev pub Without : List Text → List Message → Type 0
Without ids ms = All (λ m. contains m.id ids ≡ false) ms

pub Without-contains :
    (id : Text) (ids : List Text) (ms : List Message)
    → Without ids ms
    → contains id (ids_of ms) ≡ true
    → contains id ids ≡ false
Without-contains id ids [] w h = cc
Without-contains id ids (m ∷ ms) (p, w) h =
    ground (arith, text_eq_iff m.id id, Without-contains id ids ms w)

contains-filter :
    (id : Text) (p : Message → Bool) (ms : List Message)
    → contains id (ids_of ms) ≡ false
    → contains id (ids_of (filter p ms)) ≡ false
contains-filter id p [] h = refl
contains-filter id p (m ∷ ms) h = ground (arith, contains-filter id p ms)

pub filter-IsDistinct :
    (p : Message → Bool) (ms : List Message) → IsDistinct ms → IsDistinct (filter p ms)
filter-IsDistinct p [] d = tt
filter-IsDistinct p (m ∷ ms) (h, d) = elim (Bool-cases (p m)) [
  | inl e ↦ rw e (contains-filter m.id p ms h, filter-IsDistinct p ms d)
  | inr e ↦ rw e (filter-IsDistinct p ms d)
]

-- A message that is not there has another id than each that is.
others_differ :
    (id : Text) (ms : List Message)
    → contains id (ids_of ms) ≡ false
    → All (λ m. (id == m.id) ≡ false) ms
others_differ id [] h = tt
others_differ id (m ∷ ms) h =
    (ground (arith, text_eq_iff m.id id, text_eq_iff id m.id), others_differ id ms (ground arith))

Without-cons :
    (id : Text) (ids : List Text) (ms : List Message)
    → All (λ m. (id == m.id) ≡ false) ms
    → Without ids ms
    → Without (id ∷ ids) ms
Without-cons id ids [] h w = tt
Without-cons id ids (m ∷ ms) (h, hs) (p, w) = (ground arith, Without-cons id ids ms hs w)

-- What stays has none of the ids of what is taken out.
pub left-Without :
    (p : Message → Bool) (ms : List Message)
    → IsDistinct ms
    → Without (ids_of (filter p ms)) (filter (λ m. not (p m)) ms)
left-Without p [] d = tt
left-Without p (m ∷ ms) (h, d) = elim (Bool-cases (p m)) [
  | inl e ↦ rw e (
      Without-cons m.id (ids_of (filter p ms)) (filter (λ x. not (p x)) ms)
        (All-filter (λ x. (m.id == x.id) ≡ false) (λ x. not (p x)) ms (others_differ m.id ms h))
        (left-Without p ms d))
  | inr e ↦ rw e (contains-filter m.id p ms h, left-Without p ms d)
]

pub length-split :
    (p : Message → Bool) (ms : List Message)
    → length (filter p ms) + length (filter (λ m. not (p m)) ms) ≡ length ms
length-split p [] = omega arith
length-split p (m ∷ ms) = ground (arith, length-split p ms)

module _ (l : Library) where
  pub contains-add_all :
      (i : Text) (ids set : List Text)
      → contains i (add_all l ids set) ≡ (contains i ids || contains i set)
  contains-add_all i [] set = refl
  contains-add_all i (a ∷ ids) set = elim (Bool-cases (contains a set)) [
    | inl e ↦ ground (arith, contains-add_all i ids set, text_eq_iff a i)
    | inr e ↦ ground (arith, contains-add_all i ids (set ++ a ∷ []), contains-append i set (a ∷ []))
  ]
