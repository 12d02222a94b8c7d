-- ===== src/Mobile/Composer/Sending.antt =====
-- What pressing Send does with the draft.
use chat_crdt.Prelude.{
  ℕ, ◌≡◌, refl, sym, ap, ◌∙◌, ◌⊎◌, inl, inr, Bool, true, false, ◌||◌, none, some, List, [], ◌∷◌,
  Text, ltb, length, delete, Bool-cases, Option-cases, arith, text_Eq, subst,
}
use chat_crdt.Shared.Message.{Message, max_message_length}
use chat_crdt.Engine.Messages.{
  YArray, Config, SendError, thrown, sent, empty_message, too_long, encrypt_failed, trim, is_blank,
  send_message, stored_content,
}
use chat_crdt.Engine.Messages.Trimmed.{trim_twice}
use chat_crdt.Mobile.Cipher.{Sodium}
use chat_crdt.Mobile.Cipher.Passes.{aad}
use chat_crdt.Mobile.Chat.{clear_e2ee_rejection}
use chat_crdt.Mobile.Composer.{
  ChatScreen, press_send, hand_over, sent_or_thrown, after_send, on_sent,
}

module _ (y : YArray) (s : Sodium) (config : Config) (id : Text) (now : ℕ) where
  -- Send is gated, or there is nothing to send: nothing happens.
  abbrev pub Idle : Bool → ChatScreen y s → Type 0
  Idle disabled c =
      ((disabled || is_blank (trim c.composer.held.draft)) ≡ true)
      × (press_send y s disabled config id now c ≡ (c, []))

  -- The engine throws: the error is shown, and the draft stays.
  abbrev pub Refused : Bool → ChatScreen y s → Type 0
  Refused disabled c =
      (e : SendError) × (press_send y s disabled config id now c
        ≡ (record c { send_error = some e }, []))

  -- The trimmed draft is in the document, encrypted if the engine encrypts, as one message behind the
  -- others; the field is empty, the peers are told, and what was shown of errors and refusals is gone.
  abbrev pub SentBy : Bool → y.Doc → ChatScreen y s → ChatScreen y s × List Bool → Type 0
  SentBy disabled d c (c', frames) =
      (disabled ≡ false)
      × ((m : Message) × (stored_content config.encrypt (trim c.composer.held.draft)
              (aad config id now)
            ≡ some m.content)
          × ((m.id ≡ id) × (m.user_id ≡ config.user_id))
          × (c'.engine ≡ some (y.push d (m ∷ []))))
      × (c'.composer.held.draft ≡ [])
      × (frames ≡ false ∷ [])
      × (c'.send_error ≡ none)
      × (c'.chat.e2ee_rejection_by_room ≡ delete config.room_id c.chat.e2ee_rejection_by_room)

  abbrev pub Sent : Bool → y.Doc → ChatScreen y s → Type 0
  Sent disabled d c = SentBy disabled d c (press_send y s disabled config id now c)

  abbrev message : Text → Message
  message stored = record {
    id = id;
    room_id = config.room_id;
    user_id = config.user_id;
    username = config.username;
    content = stored;
    created_at = now;
  }

  send_message-cases :
      (text : Text) (d : y.Doc)
      → trim text ≡ text
      → ((e : SendError) × (send_message y config id now text d ≡ thrown e))
        ⊎ ((stored : Text) × (stored_content config.encrypt text (aad config id now) ≡ some stored)
            × (send_message y config id now text d
                ≡ sent (message stored) (y.push d (message stored ∷ []))))
  unfolding send_message
  send_message-cases text d h = elim (Bool-cases (is_blank text)) [
    | inl e ↦ inl (empty_message, rw (send_message, h, e) refl)
    | inr e ↦ elim (Bool-cases (ltb max_message_length (length text))) [
      | inl l ↦ inl (too_long, rw (send_message, h, e, l) refl)
      | inr l ↦ elim (Option-cases (stored_content config.encrypt text (aad config id now))) [
        | inl n ↦ inl (encrypt_failed, rw (send_message, h, e, l, n) refl)
        | inr (stored, n) ↦ inr (stored, n, rw (send_message, h, e, l, n) refl)
      ]
    ]
  ]

  press_idle :
      (disabled : Bool) (c : ChatScreen y s)
      → (disabled || is_blank (trim c.composer.held.draft)) ≡ true
      → press_send y s disabled config id now c ≡ (c, [])
  unfolding press_send
  press_idle disabled c e = rw (press_send, e) refl

  press_open :
      (disabled : Bool) (d : y.Doc) (c : ChatScreen y s)
      → c.engine ≡ some d
      → (disabled || is_blank (trim c.composer.held.draft)) ≡ false
      → press_send y s disabled config id now c
        ≡ after_send y s (
            sent_or_thrown y s config.room_id
              (send_message y config id now (trim c.composer.held.draft) d)
              c)
  unfolding press_send
  press_open disabled d c h e =
      rw (press_send, e)
        (ap (λ o. after_send y s (hand_over y s config id now (trim c.composer.held.draft) o c)) h)

-- Send is pressed while an engine with the document `d` runs. Either Send is gated or the draft is blank,
-- and nothing changes; or the engine throws, the error is shown and everything else stays; or the trimmed
-- draft is in the document, as one message of this user behind the others, encrypted if the engine
-- encrypts, and the field, the error and the notice of a refusal are cleared. No other end is possible:
-- a draft is only cleared when its message is in the document.
pub draft_never_lost :
    (y : YArray) (s : Sodium) (config : Config) (id : Text) (now : ℕ) (disabled : Bool) (d : y.Doc)
    (c : ChatScreen y s)
    → c.engine ≡ some d
    → Idle y s config id now disabled c
      ⊎ (Refused y s config id now disabled c ⊎ Sent y s config id now disabled d c)
unfolding on_sent clear_e2ee_rejection
draft_never_lost y s config id now disabled d c h =
    let text = trim c.composer.held.draft in
    elim (Bool-cases (disabled || is_blank text)) [
      | inl e ↦ inl (e, press_idle y s config id now disabled c e)
      | inr e ↦
          let pressed = press_open y s config id now disabled d c h e in
          elim (send_message-cases y s config id now text d (trim_twice c.composer.held.draft)) [
            | inl (err, t) ↦ inr (
                inl (
                  err,
                  pressed ∙ ap (λ r. after_send y s (sent_or_thrown y s config.room_id r c)) t,
                ))
            | inr (stored, kept, t) ↦
                let done =
                  pressed ∙ ap (λ r. after_send y s (sent_or_thrown y s config.room_id r c)) t in
                inr (
                  inr (
                    subst (SentBy y s config id now disabled d c) (sym done) (
                      ground arith,
                      (message y s config id now stored, kept, (refl, refl), refl),
                      refl,
                      refl,
                      refl,
                      refl,
                    )))
          ]
    ]
