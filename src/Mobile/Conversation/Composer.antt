-- ===== src/Mobile/Conversation/Composer.antt =====
-- A refused text comes back into the composer.
use chat_crdt.Prelude.{
  ℕ, ◌≡◌, refl, sym, ap, ◌∙◌, true, false, not, Option, none, some, ◌∷◌, ◌++◌, Text, nat_eq_iff,
  by_test, if◌then◌else◌, nat_Eq, arith,
}
use chat_crdt.Engine.Messages.{trim, is_blank}
use chat_crdt.Mobile.Conversation.{
  Restore, ComposerState, is_seen, draft_after_restore, write_draft, apply_draft_restore,
}

-- The draft that a restore makes of what is in the composer.
abbrev pub merged : Text → Text → Text
merged current text =
    if is_blank text
    then current
    else if is_blank (trim current)
    then text
    else trim current ++ 10 ∷ text

seen_self :
    (c : ComposerState) (r : Restore)
    → c.restored_seq ≡ some r.seq
    → apply_draft_restore (some r) c ≡ c
unfolding apply_draft_restore draft_after_restore
seen_self c r h =
    let seen : is_seen r.seq c.restored_seq ≡ true =
      ap (is_seen r.seq) h ∙ ground (arith, nat_eq_iff r.seq r.seq) in
    ap (λ o. write_draft o c)
      (by_test (λ (o : Option (Text × ℕ)). o ≡ none) (is_seen r.seq c.restored_seq) _ _ (λ t. refl)
        (λ t. cc))

new_applied :
    (c : ComposerState) (r : Restore)
    → is_seen r.seq c.restored_seq ≡ false
    → apply_draft_restore (some r) c ≡ write_draft (some (merged c.draft r.text, r.seq)) c
unfolding apply_draft_restore draft_after_restore
new_applied c r h =
    ap (λ o. write_draft o c)
      (by_test (λ (o : Option (Text × ℕ)). o ≡ some (merged c.draft r.text, r.seq))
        (is_seen r.seq c.restored_seq) _ _ (λ t. cc)
        (λ t.
          by_test (λ (o : Option (Text × ℕ)). o ≡ some (merged c.draft r.text, r.seq))
            (is_blank r.text) _ _ (λ u. ground arith) (λ u. ground arith)))

-- A restore that the composer has not seen puts its text behind what was being typed, on a line of
-- its own, or alone where nothing was typed, and leaves the draft where it has no text; the flag that
-- enables Send agrees with the new draft. The same restore again changes nothing.
pub restored_into_draft :
    (c : ComposerState) (r : Restore)
    → is_seen r.seq c.restored_seq ≡ false
    → let c' = apply_draft_restore (some r) c in
      (c'.draft ≡ merged c.draft r.text)
      × (c'.has_text ≡ not (is_blank (trim c'.draft)))
      × (apply_draft_restore (some r) c' ≡ c')
restored_into_draft c r h =
    let e = new_applied c r h in
    let c' = apply_draft_restore (some r) c in
    (
      ap (λ (d : ComposerState). d.draft) e,
      ap (λ (d : ComposerState). d.has_text) e
          ∙ ap (λ (d : ComposerState). not (is_blank (trim d.draft))) (sym e),
      seen_self c' r (ap (λ (d : ComposerState). d.restored_seq) e),
    )
