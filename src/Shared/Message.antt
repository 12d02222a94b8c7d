-- ===== src/Shared/Message.antt =====
-- packages/shared/src/types.ts: a chat message, and the bound on what a user types.
use chat_crdt.Prelude.{ℕ, Text}

pub record Message : Type 0 where
  pub id : Text
  pub room_id : Text
  pub user_id : Text
  pub username : Text
  pub content : Text
  pub created_at : ℕ

abbrev pub max_message_length : ℕ
max_message_length = 4000
