-- ===== src/Mobile/Render/Draft.antt =====
-- What goes back into the composer.
use chat_crdt.Prelude.{
  ◌≡◌, refl, false, ◌⊎◌, inl, inr, Option, none, some, List, [], ◌∷◌, Text, starts_with, ◌==◌,
  text_Eq, eq_iff, All, All-map, In, Bool-cases, Option-cases,
}
use chat_crdt.Shared.Message.{Message}
use chat_crdt.Engine.Messages.{Aad}
use chat_crdt.Mobile.Cipher.{e2ee_prefix}
use chat_crdt.Mobile.Render.{ad_of, rejected_texts}

-- A text that the user typed: it is the content of an own message that is no envelope, or what an
-- own message decrypts to.
abbrev pub IsTyped : Text → Option (Text → Aad → Option Text) → List Message → Text → Type 0
IsTyped me decrypt ms text =
    (m : Message) × In m ms
    × (m.user_id ≡ me)
    × (((m.content ≡ text) × (starts_with e2ee_prefix m.content ≡ false))
        ⊎ ((f : Text → Aad → Option Text) × (decrypt ≡ some f)
            × (f m.content (ad_of m) ≡ some text)))

others_IsTyped :
    (m : Message) (ms : List Message) (me : Text) (decrypt : Option (Text → Aad → Option Text))
    → All (IsTyped me decrypt ms) (rejected_texts ms me decrypt)
    → All (IsTyped me decrypt (m ∷ ms)) (rejected_texts ms me decrypt)
others_IsTyped m ms me decrypt h =
    All-map {P = IsTyped me decrypt ms} {Q = IsTyped me decrypt (m ∷ ms)}
      (λ t (n, i, o, w). (n, inr i, o, w)) (rejected_texts ms me decrypt) h

-- Every text that is restored after a refusal is one that this user typed: the content of an own
-- message that does not start like an envelope, or the decryption of an own message. Other users'
-- messages and envelopes that do not decrypt are left out.
pub restored_IsTyped :
    (ms : List Message) (me : Text) (decrypt : Option (Text → Aad → Option Text))
    → All (IsTyped me decrypt ms) (rejected_texts ms me decrypt)
unfolding rejected_texts
restored_IsTyped [] me decrypt = tt
restored_IsTyped (m ∷ ms) me none =
    let rest = others_IsTyped m ms me none (restored_IsTyped ms me none) in
    elim (Bool-cases (m.user_id == me)) [
      | inr e ↦ rw e rest
      | inl e ↦ rw e (elim (Bool-cases (starts_with e2ee_prefix m.content)) [
        | inr p ↦ rw p ((m, inl refl, (eq_iff m.user_id me).0 e, inl (refl, p)), rest)
        | inl p ↦ rw p rest
      ])
    ]
restored_IsTyped (m ∷ ms) me (some f) =
    let rest = others_IsTyped m ms me (some f) (restored_IsTyped ms me (some f)) in
    elim (Bool-cases (m.user_id == me)) [
      | inr e ↦ rw e rest
      | inl e ↦ rw e (elim (Bool-cases (starts_with e2ee_prefix m.content)) [
        | inr p ↦ rw p ((m, inl refl, (eq_iff m.user_id me).0 e, inl (refl, p)), rest)
        | inl p ↦ rw p (elim (Option-cases (f m.content (ad_of m))) [
          | inl n ↦ rw n rest
          | inr (text, n) ↦ rw n ((m, inl refl, (eq_iff m.user_id me).0 e, inr (f, refl, n)), rest)
        ])
      ])
    ]
