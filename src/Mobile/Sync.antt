-- ===== src/Mobile/Sync.antt =====
-- apps/mobile/src/hooks/useSync.ts: what a room's screen does with the events of its engine and its
-- connection. One generation of the screen is an engine, a local copy and a connection; the stash and
-- the stores outlive it.
pub mod Resynced
pub mod Rejected
mod Tests
use chat_crdt.Prelude.{
  ℕ, zero, suc, Bool, true, false, not, ◌&&◌, ◌||◌, Option, none, some, List, [], ◌∷◌, ◌++◌, map,
  Text, codes, Map, get, put, delete, find, filter, contains, length, starts_with, ltb, ◌==◌, any,
  if◌then◌else◌, text_Eq, nat_Eq,
}
use chat_crdt.Shared.Message.{Message}
use chat_crdt.Engine.Messages.{YArray, Aad, ids_of, reinsert_messages}
use chat_crdt.Engine.Provider.{Status, is_connected}
use chat_crdt.Mobile.Cipher.{Sodium, Cipher, e2ee_prefix, decrypt}
use chat_crdt.Mobile.Render.{rejected_draft_text}
use chat_crdt.Mobile.Chat.{
  ChatState, RoomCryptoState, restored, resynced, set_messages, set_ws_status, register_mount,
  clear_room, note_e2ee_rejection, claim_restored_messages,
}
use chat_crdt.Mobile.Rooms.{RoomsState, cached_key_id, note_room_epoch}

abbrev pub not_member_close_code : ℕ
not_member_close_code = 4003

pub data MembershipStatus : Type 0 where
  unknown member not_a_member : MembershipStatus

-- The calls that leave the screen: requests of the rooms store, the local copy, and the account.
pub data Effect : Type 0 where
  refresh_room stop_room_refresh : Text → Effect
  fetch_rooms discard_copy destroy_copy destroy_provider logout : Effect

-- What a screen is made for.
pub record Screen (s : Sodium) : Type 0 where
  pub room_id : Text
  pub user_id : Text
  pub content_cipher : Option (Cipher s)

module _ (y : YArray) (s : Sodium) where
  pub record App : Type 0 where
    pub chat : ChatState s
    pub rooms : RoomsState
    -- The module's `reinsertStash`, by account and room.
    pub reinsert_stash : Map Text (List Message)
    -- The engine's document.
    pub doc : y.Doc
    pub membership : MembershipStatus
    pub doc_generation : ℕ

  abbrev pub Step : Type 0
  Step = App × List Effect

  abbrev pub is_default : Text → Bool
  is_default room = room == codes "default"

  -- `${user.id}:${roomId}`
  abbrev pub stash_key : Screen s → Text
  stash_key c = c.user_id ++ (codes ":" ++ c.room_id)

  abbrev pub is_encrypted : Message → Bool
  is_encrypted m = starts_with e2ee_prefix m.content

  abbrev pub or_nothing : Option (List Message) → List Message
  or_nothing none = []
  or_nothing (some ms) = ms

  -- Does the cached summary say that encryption is off?
  abbrev pub reads_disabled : Text → RoomsState → Bool
  reads_disabled room r = elim (find (λ x. x.name == room) r.rooms) [
    | none ↦ false
    | some summary ↦ summary.current_key_id == 0
  ]

  -- The first effect, on entering a room with a token, and its cleanup.
  unfoldable pub on_enter : Text → List Effect
  on_enter room = if is_default room then [] else refresh_room room ∷ []

  unfoldable pub on_leave : Text → List Effect
  on_leave room = if is_default room then [] else stop_room_refresh room ∷ []

  -- The subscription to the engine's messages.
  unfoldable pub on_messages : Screen s → List Message → App → Step
  unfolding set_messages
  on_messages c ms a = (
    record a { chat = set_messages s c.room_id ms a.chat },
    if not (is_default c.room_id) && (reads_disabled c.room_id a.rooms && any is_encrypted ms)
        then fetch_rooms ∷ []
        else [],
  )

  unfoldable pub on_status_change : Screen s → Status → App → Step
  unfolding set_ws_status
  on_status_change c status a = (
    record a { chat = set_ws_status s c.room_id status a.chat },
    if is_connected status && not (is_default c.room_id) then refresh_room c.room_id ∷ [] else [],
  )

  unfoldable pub on_room_epoch : Screen s → ℕ → App → Step
  unfolding note_room_epoch
  on_room_epoch c key_id a =
      if is_default c.room_id
      then (a, [])
      else (record a { rooms = note_room_epoch c.room_id key_id a.rooms }, [])

  abbrev pub cipher_or : Option (RoomCryptoState s) → Option (Cipher s) → Option (Cipher s)
  cipher_or none c = c
  cipher_or (some r) c = some r.cipher

  abbrev pub decrypt_with : Option (Cipher s) → Option (Text → Aad → Option Text)
  decrypt_with none = none
  decrypt_with (some c) = some (decrypt s c)

  abbrev pub or_empty : Option Text → Text
  or_empty none = []
  or_empty (some t) = t

  -- `onE2eeRejected`
  unfoldable pub on_e2ee_rejected : Screen s → ℕ → List Message → App → Step
  unfolding note_room_epoch get claim_restored_messages rejected_draft_text note_e2ee_rejection
  on_e2ee_rejected c key_id retracted a =
      let noted : App = record a { rooms = note_room_epoch c.room_id key_id a.rooms } in
      let cipher = cipher_or (get c.room_id a.chat.room_crypto_by_room) c.content_cipher in
      let ours = filter (λ m. m.user_id == c.user_id) retracted in
      let (fresh, chat) = claim_restored_messages s (ids_of ours) a.chat in
      let text =
        rejected_draft_text (filter (λ m. contains m.id fresh) ours) c.user_id
          (decrypt_with cipher) in
      if not (ltb 0 (length ours))
      then (noted, [])
      else if not (ltb 0 (length fresh))
      then (record noted { chat = chat }, [])
      else (
        record noted { chat = note_e2ee_rejection s c.room_id (or_empty text) restored chat },
        [],
      )

  -- `onUnrecoverableE2eeRejection`
  unfoldable pub on_unrecoverable : Screen s → ℕ → App → Step
  unfolding note_room_epoch get put note_e2ee_rejection
  on_unrecoverable c key_id a =
      let ours = filter (λ m. m.user_id == c.user_id && is_encrypted m) (y.to_array a.doc) in
      let stashed = or_nothing (get (stash_key c) a.reinsert_stash) ++ ours in
      (
        record a {
          rooms = note_room_epoch c.room_id key_id a.rooms;
          reinsert_stash = put (stash_key c) stashed a.reinsert_stash;
          chat = note_e2ee_rejection s c.room_id [] resynced a.chat;
        },
        discard_copy ∷ [],
      )

  -- The local copy is discarded. Each generation has a flag of its own, `cancelled`, which its cleanup
  -- sets: what ends after the cleanup, of whichever generation, gets `true`.
  unfoldable pub on_discarded : Bool → App → App
  on_discarded cancelled a =
      if cancelled then a else record a { doc_generation = suc a.doc_generation }

  -- `onSynced`
  unfoldable pub on_synced : Screen s → App → Step
  unfolding get delete reinsert_messages on_messages
  on_synced c a = elim (get (stash_key c) a.reinsert_stash) [
    | none ↦ (a, [])
    | some stash ↦
        let (inserted, d) = reinsert_messages y stash a.doc in
        let a' : App = record a {
          reinsert_stash = delete (stash_key c) a.reinsert_stash;
          doc = d;
        } in
        if ltb 0 (length inserted) then on_messages c (y.to_array d) a' else (a', [])
  ]

  unfoldable pub on_auth_error : ℕ → App → Step
  on_auth_error code a =
      if code == not_member_close_code
      then (record a { membership = not_a_member }, [])
      else (a, logout ∷ [])

  -- The effect that makes a generation: its engine has the new document `d`, and the rest waits for
  -- the local copy.
  unfoldable pub on_mount : Screen s → y.Doc → App → App
  unfolding register_mount
  on_mount c d a = record a { chat = register_mount s c.room_id a.chat; doc = d }

  -- The local copy is loaded, which made the document `d`.
  unfoldable pub on_loaded : Bool → Screen s → y.Doc → App → App
  unfolding set_messages
  on_loaded cancelled c d a = if cancelled then a else record a {
    doc = d;
    chat = set_messages s c.room_id (y.to_array d) a.chat;
    membership = member;
  }

  -- The cleanup of a generation.
  unfoldable pub on_unmount : Screen s → App → Step
  unfolding clear_room
  on_unmount c a =
      (record a { chat = clear_room s c.room_id a.chat }, destroy_provider ∷ destroy_copy ∷ [])
