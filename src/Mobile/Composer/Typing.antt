-- ===== src/Mobile/Composer/Typing.antt =====
-- What the peers are shown of a user's typing.
use chat_crdt.Prelude.{
  ℕ, ◌-◌, ◌≡◌, refl, ap, ◌∙◌, Bool, true, false, not, ◌&&◌, ◌||◌, Option, none, some, List, [], ◌∷◌,
  ◌++◌, Text, ltb, by_test, if◌then◌else◌, Bool-cases, inl, inr, nat_Eq, arith,
}
use chat_crdt.Engine.Messages.{trim, is_blank}
use chat_crdt.Engine.Messages.Trimmed.{trim-Starts, trim-append}
use chat_crdt.Mobile.Conversation.{
  ComposerState, Restore, is_seen, draft_after_restore, write_draft, apply_draft_restore,
}
use chat_crdt.Mobile.Composer.{
  Composer, differs, typing_throttle_ms, handle_change, on_restore, on_sent,
}

-- The user types, a restore comes, or a send has ended well.
pub data Event : Type 0 where
  types : Text → ℕ → Event
  restores : Option Restore → Event
  sends : Event

unfoldable pub step : Event → Composer → Composer × List Bool
unfolding handle_change on_restore on_sent
step (types text now) c = handle_change text now c
step (restores r) c = (on_restore r c, [])
step sends c = on_sent c

unfoldable pub steps : List Event → Composer → Composer × List Bool
unfolding step
steps [] c = (c, [])
steps (e ∷ es) c = let (c', now) = step e c in let (c'', later) = steps es c' in (c'', now ++ later)

-- What the peers show after these frames.
abbrev pub shown : Bool → List Bool → Bool
shown b [] = b
shown b (f ∷ fs) = shown f fs

abbrev pub fresh : Composer
fresh = record {
  held = record { draft = []; has_text = false; restored_seq = none };
  last_active = false;
  last_typing_at = 0;
}

-- Send is enabled exactly when there is text, and typing is shown only then.
abbrev Agrees : Composer → Type 0
Agrees c =
    (c.held.has_text ≡ not (is_blank (trim c.held.draft)))
    × ((c.last_active && is_blank (trim c.held.draft)) ≡ false)

shown-append : (b : Bool) (xs ys : List Bool) → shown b (xs ++ ys) ≡ shown (shown b xs) ys
shown-append b [] ys = refl
shown-append b (x ∷ xs) ys = shown-append x xs ys

differs-same : (a b : Bool) → differs a b ≡ false → b ≡ a
differs-same true true h = refl
differs-same false false h = refl
differs-same true false h = cc
differs-same false true h = cc

active_typed : (b : Bool) → (not b && b) ≡ false
active_typed true = refl
active_typed false = refl

typed_lem :
    (text : Text) (now : ℕ) (c : Composer)
    → let (c', frames) = handle_change text now c in
      Agrees c'
      × ((shown c.last_active frames ≡ c'.last_active)
          × (c'.last_active ≡ not (is_blank (trim text))))
unfolding handle_change
typed_lem text now c =
    let active = not (is_blank (trim text)) in
    let b = differs active c.last_active || ltb typing_throttle_ms (now - c.last_typing_at) in
    let held : ComposerState = record c.held { draft = text; has_text = active } in
    let frame : Composer × List Bool =
      (record { held = held; last_active = active; last_typing_at = now }, active ∷ []) in
    let none_sent : Composer × List Bool = (record c { held = held }, []) in
    let P = λ (r : Composer × List Bool).
      Agrees r.0 × ((shown c.last_active r.1 ≡ r.0.last_active) × (r.0.last_active ≡ active)) in
    by_test P b frame none_sent (λ t. ((refl, active_typed (is_blank (trim text))), (refl, refl)))
      λ t.
        let same = differs-same active c.last_active (ground arith) in
        (
          (refl, ap (λ z. z && is_blank (trim text)) same ∙ active_typed (is_blank (trim text))),
          (refl, same),
        )

restored_lem : (r : Option Restore) (c : Composer) → Agrees c → Agrees (on_restore r c)
unfolding on_restore apply_draft_restore draft_after_restore
restored_lem none c h = h
restored_lem (some r) c h =
    by_test (λ (o : Option (Text × ℕ)). Agrees (record c { held = write_draft o c.held }))
      (is_seen r.seq c.held.restored_seq) none _ (λ t. h)
      λ t.
        by_test (λ (o : Option (Text × ℕ)). Agrees (record c { held = write_draft o c.held }))
          (is_blank r.text) (some (c.held.draft, r.seq)) _ (λ u. (refl, h.1))
          λ u. (refl, not_blanked)
  where
    not_blanked :
        (c.last_active
          && is_blank (
              trim (
                if is_blank (trim c.held.draft) then r.text else trim c.held.draft ++ 10 ∷ r.text)))
        ≡ false
    not_blanked = elim (Bool-cases (is_blank (trim c.held.draft))) [
      | inl e ↦ ground (arith, h.1)
      | inr e ↦
          let k = trim-append (trim c.held.draft) (10 ∷ r.text) (trim-Starts c.held.draft) e in
          ground (arith, k)
    ]

steps_lem :
    (es : List Event) (c : Composer)
    → Agrees c
    → let (c', frames) = steps es c in Agrees c' × (shown c.last_active frames ≡ c'.last_active)
unfolding steps step on_sent
steps_lem [] c h = (h, refl)
steps_lem (types text now ∷ es) c h =
    let (c1, now_sent) = handle_change text now c in
    let (agrees, (last, _)) = typed_lem text now c in
    let (rest, end) = steps_lem es c1 agrees in
    (
      rest,
      shown-append c.last_active now_sent (steps es c1).1
          ∙ ap (λ b. shown b (steps es c1).1) last
          ∙ end,
    )
steps_lem (restores r ∷ es) c h = steps_lem es (on_restore r c) (restored_lem r c h)
steps_lem (sends ∷ es) c h = steps_lem es (on_sent c).0 (refl, refl)

-- From a fresh composer, after any typing, restores and sends: the peers are shown that the user is
-- typing only while the draft is not blank; Send has text exactly when the draft is not blank; and
-- after the next change, throttled or not, the peers are shown whether what was typed is not blank.
pub typing_shown :
    (es : List Event) (text : Text) (now : ℕ)
    → let (c, frames) = steps es fresh in
      ((shown false frames && is_blank (trim c.held.draft)) ≡ false)
      × (c.held.has_text ≡ not (is_blank (trim c.held.draft)))
      × (shown false (frames ++ (handle_change text now c).1) ≡ not (is_blank (trim text)))
typing_shown es text now =
    let (c, frames) = steps es fresh in
    let ((has, active), last) = steps_lem es fresh (refl, refl) in
    let (_, (then_last, typed)) = typed_lem text now c in
    let more = (handle_change text now c).1 in
    (
      ap (λ b. b && is_blank (trim c.held.draft)) last ∙ active,
      has,
      shown-append false frames more ∙ ap (λ b. shown b more) last ∙ then_last ∙ typed,
    )
