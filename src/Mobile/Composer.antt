-- ===== src/Mobile/Composer.antt =====
-- apps/mobile/src/components/Composer.tsx, and the part of apps/mobile/app/(chat)/[roomId].tsx that
-- sends what it holds and follows the list's end.
pub mod Sending
pub mod Typing
mod Tests
use chat_crdt.Prelude.{
  ℕ, ◌-◌, Bool, true, false, not, ◌&&◌, ◌||◌, Option, none, some, List, [], ◌∷◌, Text, leb, ltb,
  ◌==◌, if◌then◌else◌, nat_Eq,
}
use chat_crdt.Engine.Messages.{
  YArray, Config, SendError, SendResult, thrown, sent, trim, is_blank, send_message,
}
use chat_crdt.Mobile.Cipher.{Sodium}
use chat_crdt.Mobile.Chat.{ChatState, clear_e2ee_rejection}
use chat_crdt.Mobile.Conversation.{ComposerState, Restore, apply_draft_restore}

abbrev pub typing_throttle_ms : ℕ
typing_throttle_ms = 300

-- The draft and the refs of a Composer.
pub record Composer : Type 0 where
  pub held : ComposerState
  pub last_active : Bool
  pub last_typing_at : ℕ

abbrev pub differs : Bool → Bool → Bool
differs true b = not b
differs false b = b

-- `handleChange`, after the native field has taken the text, and the calls of `sendTyping`.
unfoldable pub handle_change : Text → ℕ → Composer → Composer × List Bool
handle_change text now c =
    let active = not (is_blank (trim text)) in
    let held : ComposerState = record c.held { draft = text; has_text = active } in
    if differs active c.last_active || ltb typing_throttle_ms (now - c.last_typing_at)
    then (record { held = held; last_active = active; last_typing_at = now }, active ∷ [])
    else (record c { held = held }, [])

-- The effect that applies a restore.
unfoldable pub on_restore : Option Restore → Composer → Composer
unfolding apply_draft_restore
on_restore restore c = record c { held = apply_draft_restore restore c.held }

-- What `handleSend` does once `onSend` has returned.
unfoldable pub on_sent : Composer → Composer × List Bool
on_sent c = (
  record c { held = record c.held { draft = []; has_text = false }; last_active = false },
  false ∷ [],
)

unfoldable pub should_follow_new_messages : Bool → ℕ → ℕ → Bool → Bool
should_follow_new_messages at_end prev_count next_count sent_by_me =
    if leb next_count prev_count then false else sent_by_me || at_end

module _ (y : YArray) (s : Sodium) where
  -- The room's screen. `engine` is empty while no generation of `useSync` runs.
  pub record ChatScreen : Type 0 where
    pub composer : Composer
    pub chat : ChatState s
    pub engine : Option y.Doc
    pub send_error : Option SendError
    pub sent_by_me : Bool
    pub prev_count : ℕ

  abbrev pub accepted : Text → ChatScreen → ChatScreen
  accepted room c = record c {
    sent_by_me = true;
    send_error = none;
    chat = clear_e2ee_rejection s room c.chat;
  }

  abbrev pub sent_or_thrown : Text → SendResult y.Doc → ChatScreen → ChatScreen × Bool
  sent_or_thrown room (thrown e) c = (record c { send_error = some e }, false)
  sent_or_thrown room (sent m d) c = (record (accepted room c) { engine = some d }, true)

  -- The content is handed to the engine, if there is one.
  abbrev pub hand_over : Config → Text → ℕ → Text → Option y.Doc → ChatScreen → ChatScreen × Bool
  unfolding send_message clear_e2ee_rejection
  hand_over config id now content none c = (accepted config.room_id c, true)
  hand_over config id now content (some d) c =
      sent_or_thrown config.room_id (send_message y config id now content d) c

  -- `handleSend` of the screen. The flag says that it did not throw.
  abbrev pub screen_send : Config → Text → ℕ → Text → ChatScreen → ChatScreen × Bool
  screen_send config id now content c = hand_over config id now content c.engine c

  abbrev pub after_send : ChatScreen × Bool → ChatScreen × List Bool
  after_send (c, false) = (c, [])
  after_send (c, true) =
      let (composer, frames) = on_sent c.composer in (record c { composer = composer }, frames)

  -- `handleSend` of the composer: Send is pressed.
  unfoldable pub press_send : Bool → Config → Text → ℕ → ChatScreen → ChatScreen × List Bool
  unfolding send_message clear_e2ee_rejection on_sent
  press_send disabled config id now c =
      let content = trim c.composer.held.draft in
      if disabled || is_blank content
      then (c, [])
      else after_send (screen_send config id now content c)

  -- The effect on a new number of messages: is the list scrolled to its end?
  unfoldable pub on_count : Bool → ℕ → ChatScreen → ChatScreen × Bool
  unfolding should_follow_new_messages
  on_count at_end count c = (
    record c { prev_count = count; sent_by_me = false },
    should_follow_new_messages at_end c.prev_count count c.sent_by_me,
  )
