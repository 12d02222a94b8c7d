-- ===== src/Mobile/Conversation/Labels.antt =====
-- The author names above the message bubbles.
use chat_crdt.Prelude.{
  ℕ, ◌≡◌, refl, ◌⊎◌, inl, inr, true, Option, none, some, List, [], ◌∷◌, Text, All, ◌==◌, Bool-cases,
  if◌then◌else◌, text_Eq, text_eq_iff, arith,
}
use chat_crdt.Shared.Message.{Message}
use chat_crdt.Mobile.Conversation.{GroupPosition, group_position, same_group}

-- The author name that a reader has last seen: a name above a bubble replaces it, and an own bubble,
-- which stands on the other side, ends it.
abbrev pub label_at : Text → Message → GroupPosition → Option Text → Option Text
label_at me m g seen =
    if g.show_author then some m.user_id else if m.user_id == me then none else seen

abbrev pub first_of : List Message → Option Message
first_of [] = none
first_of (m ∷ ms) = some m

-- Each message of the list, from top to bottom, with the name that was last seen at it.
abbrev pub captions :
    ℕ → Text → Option Message → Option Text → List Message → List (Message × Option Text)
captions gap me prev seen [] = []
captions gap me prev seen (m ∷ ms) =
    let seen' = label_at me m (group_position prev m (first_of ms) gap me) seen in
    (m, seen') ∷ captions gap me (some m) seen' ms

-- A message of somebody else stands under its author's name.
abbrev pub IsLabelled : Text → Message × Option Text → Type 0
IsLabelled me r = ((r.0.user_id == me) ≡ true) ⊎ (r.1 ≡ some r.0.user_id)

-- What was seen above: nothing is owed at the top of the list.
abbrev Above : Text → Option Message → Option Text → Type 0
Above me none seen = Unit
Above me (some p) seen = IsLabelled me (p, seen)

label_at-IsLabelled :
    (gap : ℕ) (me : Text) (prev next : Option Message) (m : Message) (seen : Option Text)
    → Above me prev seen
    → IsLabelled me (m, label_at me m (group_position prev m next gap me) seen)
unfolding group_position same_group
label_at-IsLabelled gap me none next m seen h = elim (Bool-cases (m.user_id == me)) [
  | inl e ↦ inl e
  | inr e ↦ inr (rw e refl)
]
label_at-IsLabelled gap me (some p) next m seen (inl own) = elim (Bool-cases (m.user_id == me)) [
  | inl e ↦ inl e
  | inr e ↦ inr (
      ground (
        arith,
        text_eq_iff p.user_id m.user_id,
        text_eq_iff p.user_id me,
        text_eq_iff m.user_id me,
      ))
]
label_at-IsLabelled gap me (some p) next m seen (inr said) = elim (Bool-cases (m.user_id == me)) [
  | inl e ↦ inl e
  | inr e ↦ inr (ground (arith, text_eq_iff p.user_id m.user_id))
]

captions-IsLabelled :
    (gap : ℕ) (me : Text) (prev : Option Message) (seen : Option Text) (ms : List Message)
    → Above me prev seen
    → All (IsLabelled me) (captions gap me prev seen ms)
captions-IsLabelled gap me prev seen [] h = tt
captions-IsLabelled gap me prev seen (m ∷ ms) h =
    let here = label_at-IsLabelled gap me prev (first_of ms) m seen h in
    (here, captions-IsLabelled gap me (some m) _ ms here)

-- Names are shown above the first bubble of a group only, and still no message is taken for another
-- author's: read from top to bottom, the name last shown at each message of somebody else is its
-- author's, with no own bubble since, whatever the times and the gap are.
pub authors-IsLabelled :
    (gap : ℕ) (me : Text) (ms : List Message) → All (IsLabelled me) (captions gap me none none ms)
authors-IsLabelled gap me ms = captions-IsLabelled gap me none none ms tt
