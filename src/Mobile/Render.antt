-- ===== src/Mobile/Render.antt =====
-- apps/mobile/src/crypto/renderState.ts, roomE2eeState.ts, composerGate.ts and rejectedDraft.ts: what the
-- app shows of a message, when it may send, and what it puts back into the composer.
pub mod Shown
pub mod Draft
use chat_crdt.Prelude.{
  ℕ, Bool, true, false, not, ◌&&◌, ◌||◌, Option, none, some, List, [], ◌∷◌, ◌++◌, Text, get,
  starts_with, ltb, ◌==◌, if◌then◌else◌, text_Eq, nat_Eq,
}
use chat_crdt.Shared.Value.{Number, pos}
use chat_crdt.Shared.Message.{Message}
use chat_crdt.Engine.Messages.{Aad}
use chat_crdt.Mobile.Cipher.{
  Sodium, Cipher, Parsed, no_prefix, malformed, envelope, e2ee_prefix, parse_envelope, has_key,
  decrypt,
}

pub data RenderState : Type 0 where
  plaintext decrypted : Text → RenderState
  key_unavailable waiting_for_key : RenderState

pub data RoomE2eeState : Type 0 where
  plaintext_room e2ee_room unknown_room : RoomE2eeState

pub data RefreshState : Type 0 where
  pending offline failed : RefreshState
  ok : ℕ → RefreshState

abbrev pub ad_of : Message → Aad
ad_of m = record {
  id = m.id;
  room_id = m.room_id;
  user_id = m.user_id;
  username = m.username;
  created_at = m.created_at;
}

-- `refresh` is none where none was started.
unfoldable pub resolve_room_e2ee_state : ℕ → Option RefreshState → Bool → RoomE2eeState
resolve_room_e2ee_state cached_key_id refresh ever_e2ee =
    if ltb 0 cached_key_id || ever_e2ee then e2ee_room else elim refresh [
      | none ↦ unknown_room
      | some pending ↦ unknown_room
      | some (ok current) ↦ if ltb 0 current then e2ee_room else plaintext_room
      | some offline ↦ plaintext_room
      | some failed ↦ unknown_room
    ]

-- The array that `rejectedDraftText` builds. `decrypt` is none where there is no cipher, and gives
-- none where it throws.
unfoldable pub rejected_texts : List Message → Text → Option (Text → Aad → Option Text) → List Text
rejected_texts [] me decrypt = []
rejected_texts (m ∷ ms) me decrypt =
    let rest = rejected_texts ms me decrypt in
    if not (m.user_id == me)
    then rest
    else if not (starts_with e2ee_prefix m.content)
    then m.content ∷ rest
    else elim decrypt [
      | none ↦ rest
      | some f ↦ elim (f m.content (ad_of m)) [ none ↦ rest | some text ↦ text ∷ rest ]
    ]

-- `texts.join('\n')`
abbrev pub join_lines : Text → List Text → Text
join_lines t [] = t
join_lines t (u ∷ us) = t ++ 10 ∷ join_lines u us

abbrev pub joined : List Text → Option Text
joined [] = none
joined (t ∷ ts) = some (join_lines t ts)

unfoldable pub rejected_draft_text :
    List Message → Text → Option (Text → Aad → Option Text) → Option Text
unfolding rejected_texts
rejected_draft_text ms me decrypt = joined (rejected_texts ms me decrypt)

module _ (s : Sodium) where
  -- What is shown where there is no key.
  abbrev pub without_key : Bool → RenderState
  without_key is_waiting = if is_waiting then waiting_for_key else key_unavailable

  abbrev pub shown : Option Text → RenderState
  shown none = key_unavailable
  shown (some text) = decrypted text

  -- `resolveMessageRenderState`; `is_waiting` is `hasPendingGrantFor`.
  unfoldable pub resolve_message_render_state :
      Message → Option (Cipher s) → (Number → Bool) → Bool → RenderState
  unfolding parse_envelope has_key decrypt
  resolve_message_render_state m cipher is_waiting enabled =
      if not enabled then plaintext m.content else elim (parse_envelope s m.content) [
        | malformed ↦ key_unavailable
        | no_prefix ↦ plaintext m.content
        | envelope e ↦ elim cipher [
          | none ↦ without_key (is_waiting e.key_id)
          | some c ↦
              if has_key s e.key_id c
              then shown (decrypt s c m.content (ad_of m))
              else without_key (is_waiting e.key_id)
        ]
      ]

  abbrev pub holds : Option (Cipher s) → ℕ → Bool
  holds none k = false
  holds (some c) k = has_key s (pos k) c

  unfoldable pub is_composer_ready : RoomE2eeState → ℕ → Option (Cipher s) → Bool
  unfolding has_key
  is_composer_ready plaintext_room current cipher = true
  is_composer_ready unknown_room current cipher = false
  is_composer_ready e2ee_room current cipher = ltb 0 current && holds cipher current
