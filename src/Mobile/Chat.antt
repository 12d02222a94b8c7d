-- ===== src/Mobile/Chat.antt =====
-- apps/mobile/src/store/chat.store.ts: the per-room state of the chat screens.
pub mod Mounts
pub mod Restored
use chat_crdt.Prelude.{
  ℕ, zero, suc, ◌-◌, ◌+◌, Bool, true, false, not, Option, none, some, List, [], ◌∷◌, ◌++◌, Text,
  Map, get, put, delete, filter, contains, ltb, ◌==◌, if◌then◌else◌, text_Eq, nat_Eq,
}
use chat_crdt.Shared.Message.{Message}
use chat_crdt.Engine.Provider.{Status}
use chat_crdt.Mobile.Cipher.{Sodium, Cipher}

pub data RejectionKind : Type 0 where
  restored resynced : RejectionKind

pub record E2eeRejection : Type 0 where
  pub text : Text
  pub seq : ℕ
  pub kind : RejectionKind

module _ (s : Sodium) where
  pub record RoomCryptoState : Type 0 where
    pub cipher : Cipher s
    pub pending_epochs_for_me : List ℕ
    pub version : ℕ

  -- The store, with the two variables of the module.
  pub record ChatState : Type 0 where
    pub messages_by_room : Map Text (List Message)
    pub ws_status_by_room : Map Text Status
    pub mount_counts : Map Text ℕ
    pub room_crypto_by_room : Map Text RoomCryptoState
    pub e2ee_rejection_by_room : Map Text E2eeRejection
    pub e2ee_rejection_seq : ℕ
    pub restored_message_ids : List Text

  unfoldable pub set_messages : Text → List Message → ChatState → ChatState
  unfolding put
  set_messages room messages c = record c {
    messages_by_room = put room messages c.messages_by_room;
  }

  unfoldable pub set_ws_status : Text → Status → ChatState → ChatState
  unfolding put
  set_ws_status room status c = record c { ws_status_by_room = put room status c.ws_status_by_room }

  abbrev pub or_else : Option ℕ → ℕ → ℕ
  or_else none d = d
  or_else (some n) d = n

  unfoldable pub register_mount : Text → ChatState → ChatState
  unfolding get put
  register_mount room c = record c {
    mount_counts = put room (suc (or_else (get room c.mount_counts) 0)) c.mount_counts;
  }

  -- The count of a missing room is 1, so that nothing remains of it.
  unfoldable pub clear_room : Text → ChatState → ChatState
  unfolding get put delete
  clear_room room c =
      let remaining = or_else (get room c.mount_counts) 1 - 1 in
      if ltb 0 remaining
      then record c { mount_counts = put room remaining c.mount_counts }
      else record c {
        messages_by_room = delete room c.messages_by_room;
        ws_status_by_room = delete room c.ws_status_by_room;
        mount_counts = delete room c.mount_counts;
        room_crypto_by_room = delete room c.room_crypto_by_room;
      }

  abbrev pub pending_of : Option RoomCryptoState → List ℕ
  pending_of none = []
  pending_of (some r) = r.pending_epochs_for_me

  unfoldable pub set_room_cipher : Text → Cipher s → ChatState → ChatState
  unfolding get put
  set_room_cipher room cipher c =
      let r : RoomCryptoState = record {
        cipher = cipher;
        pending_epochs_for_me = pending_of (get room c.room_crypto_by_room);
        version = 0;
      } in
      record c { room_crypto_by_room = put room r c.room_crypto_by_room }

  unfoldable pub set_pending_epochs_for_me : Text → List ℕ → ChatState → ChatState
  unfolding get put
  set_pending_epochs_for_me room epochs c = elim (get room c.room_crypto_by_room) [
    | none ↦ c
    | some r ↦
        let r' : RoomCryptoState = record r {
          pending_epochs_for_me = epochs;
          version = suc r.version;
        } in
        record c { room_crypto_by_room = put room r' c.room_crypto_by_room }
  ]

  unfoldable pub bump_room_crypto : Text → ChatState → ChatState
  unfolding get put
  bump_room_crypto room c = elim (get room c.room_crypto_by_room) [
    | none ↦ c
    | some r ↦
        let r' : RoomCryptoState = record r { version = suc r.version } in
        record c { room_crypto_by_room = put room r' c.room_crypto_by_room }
  ]

  unfoldable pub note_e2ee_rejection : Text → Text → RejectionKind → ChatState → ChatState
  unfolding put
  note_e2ee_rejection room text kind c =
      let seq = suc c.e2ee_rejection_seq in
      let r : E2eeRejection = record { text = text; seq = seq; kind = kind } in
      record c {
        e2ee_rejection_by_room = put room r c.e2ee_rejection_by_room;
        e2ee_rejection_seq = seq;
      }

  unfoldable pub clear_e2ee_rejection : Text → ChatState → ChatState
  unfolding delete
  clear_e2ee_rejection room c = record c {
    e2ee_rejection_by_room = delete room c.e2ee_rejection_by_room;
  }

  unfoldable pub clear_all_e2ee_rejections : ChatState → ChatState
  clear_all_e2ee_rejections c = record c { restored_message_ids = []; e2ee_rejection_by_room = [] }

  unfoldable pub claim_restored_messages : List Text → ChatState → List Text × ChatState
  claim_restored_messages ids c =
      let fresh = filter (λ i. not (contains i c.restored_message_ids)) ids in
      (fresh, record c { restored_message_ids = c.restored_message_ids ++ fresh })
