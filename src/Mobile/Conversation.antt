-- ===== src/Mobile/Conversation.antt =====
-- apps/mobile/src/chat (groupMessages.ts, conversationCopy.ts, headerPill.ts, emptyRoomGate.ts, composerState.ts,
-- authorColor.ts) and apps/mobile/src/utils/draftRestore.ts: what a room's screen derives from its
-- messages, from the peers' presence and from a refused draft.
pub mod Labels
pub mod Typing
pub mod Composer
mod Tests
use Prim.Native.Nat.{bit_xor}
use chat_crdt.Prelude.{
  ℕ, zero, suc, ◌+◌, ◌-◌, ◌*◌, ◌%◌, ◌^◌, Bool, true, false, not, ◌&&◌, ◌||◌, Option, none, some,
  List, [], ◌∷◌, ◌++◌, Text, codes, length, contains, ltb, leb, ◌==◌, if◌then◌else◌, text_Eq,
  nat_Eq,
}
use chat_crdt.Shared.Message.{Message}
use chat_crdt.Engine.Messages.{trim, is_blank}
use chat_crdt.Engine.Provider.{Status, connected, connecting, disconnected}

-- groupMessages.ts
abbrev pub group_gap_ms : ℕ
group_gap_ms = 300_000

pub record GroupPosition : Type 0 where
  pub show_author : Bool
  pub is_first : Bool
  pub is_last : Bool

-- The difference without its sign is the sum of the two that stop at 0.
unfoldable pub same_group : Message → Message → ℕ → Bool
same_group a b gap =
    a.user_id == b.user_id
    && leb ((b.created_at - a.created_at) + (a.created_at - b.created_at)) gap

abbrev pub starts_group : Option Message → Message → ℕ → Bool
starts_group none curr gap = true
starts_group (some prev) curr gap = not (same_group prev curr gap)

abbrev pub ends_group : Message → Option Message → ℕ → Bool
ends_group curr none gap = true
ends_group curr (some next) gap = not (same_group curr next gap)

unfoldable pub group_position : Option Message → Message → Option Message → ℕ → Text → GroupPosition
unfolding same_group
group_position prev curr next gap me = record {
  show_author = starts_group prev curr gap && not (curr.user_id == me);
  is_first = starts_group prev curr gap;
  is_last = ends_group curr next gap;
}

-- conversationCopy.ts; a missing user name is none.
unfoldable pub greeting : Option Text → Text
greeting none = codes "Welcome back"
greeting (some username) =
    let name = trim username in
    if is_blank name then codes "Welcome back" else codes "Welcome back, " ++ name

-- `show` is the decimal form of a number.
unfoldable pub typing_label : (ℕ → Text) → List Text → Text
typing_label show [] = []
typing_label show (a ∷ []) = a ++ codes " is typing…"
typing_label show (a ∷ b ∷ []) = a ++ (codes " and " ++ (b ++ codes " are typing…"))
typing_label show (a ∷ b ∷ c ∷ users) =
    let rest = suc (length users) in
    a
    ++ (codes ", "
        ++ (b
            ++ (codes " and "
                ++ (show rest
                    ++ (codes " "
                        ++ ((if rest == 1 then codes "other" else codes "others")
                            ++ codes " are typing…"))))))

-- What the awareness says of a client: whether `isTyping` is true, and `username` if it is a text.
pub record PeerState : Type 0 where
  pub client_id : ℕ
  pub is_typing : Bool
  pub username : Option Text

abbrev pub is_self : Text → Option Text → Bool
is_self name none = false
is_self name (some self) = name == self

-- A peer's name, if it is to be shown as typing.
abbrev pub typing_name : ℕ → Option Text → PeerState → Option Text
typing_name self_client self_username p =
    if p.client_id == self_client || not p.is_typing then none else elim p.username [
      | none ↦ none
      | some name ↦ if is_self name self_username then none else some name
    ]

abbrev pub add_name : Option Text → List Text → List Text
add_name none peers = peers
add_name (some name) peers = if contains name peers then peers else peers ++ name ∷ []

-- The loop of `typingPeers` over the states.
unfoldable pub typing_loop : ℕ → Option Text → List PeerState → List Text → List Text
typing_loop self_client self_username [] peers = peers
typing_loop self_client self_username (p ∷ states) peers =
    typing_loop self_client self_username states
      (add_name (typing_name self_client self_username p) peers)

unfoldable pub typing_peers : List PeerState → ℕ → Option Text → List Text
unfolding typing_loop
typing_peers states self_client self_username = typing_loop self_client self_username states []

-- headerPill.ts
unfoldable pub room_label : Text → Text
room_label room = if room == codes "default" then codes "# general" else codes "# " ++ room

unfoldable pub status_tone : Status → Text
status_tone connected = codes "connected"
status_tone connecting = codes "connecting"
status_tone disconnected = codes "offline"

unfoldable pub header_pill_a11y_label : (ℕ → Text) → Text → Status → ℕ → Text
unfolding room_label status_tone
header_pill_a11y_label show room status online =
    room_label room
    ++ (codes ", " ++ (status_tone status ++ (codes ", " ++ (show online ++ codes " online"))))

-- emptyRoomGate.ts and composerState.ts
unfoldable pub show_empty_room : Bool → ℕ → Status → Bool
show_empty_room loaded message_count connected = loaded && message_count == 0
show_empty_room loaded message_count _ = false

pub data ComposerMode : Type 0 where
  pill card : ComposerMode

pub data SendButtonState : Type 0 where
  empty ready gated : SendButtonState

unfoldable pub composer_mode : Bool → Bool → ComposerMode
composer_mode focused has_draft = if focused || has_draft then card else pill

unfoldable pub send_button_state : Bool → Bool → SendButtonState
send_button_state has_text is_gated = if is_gated then gated else if has_text then ready else empty

-- authorColor.ts: FNV-1a of code units, on 32 bits.
unfoldable pub fnv_loop : ℕ → Text → ℕ
fnv_loop hash [] = hash
fnv_loop hash (c ∷ s) = fnv_loop (bit_xor hash c * 0x0100_0193 % 2 ^ 32) s

unfoldable pub fnv1a32 : Text → ℕ
unfolding fnv_loop
fnv1a32 input = fnv_loop 0x811c_9dc5 input

unfoldable pub author_color_index : Text → ℕ
unfolding fnv1a32
author_color_index user_id = fnv1a32 user_id % 8

-- draftRestore.ts: a restore has a text and a number.
pub record Restore : Type 0 where
  pub text : Text
  pub seq : ℕ

abbrev pub is_seen : ℕ → Option ℕ → Bool
is_seen seq none = false
is_seen seq (some last) = seq == last

unfoldable pub draft_after_restore : Text → Option Restore → Option ℕ → Option (Text × ℕ)
draft_after_restore current none last = none
draft_after_restore current (some r) last =
    let typed = trim current in
    if is_seen r.seq last
    then none
    else if is_blank r.text
    then some (current, r.seq)
    else some (if is_blank typed then r.text else typed ++ 10 ∷ r.text, r.seq)

-- The composer, with the number of the last restore that it applied.
pub record ComposerState : Type 0 where
  pub draft : Text
  pub has_text : Bool
  pub restored_seq : Option ℕ

abbrev pub write_draft : Option (Text × ℕ) → ComposerState → ComposerState
write_draft none c = c
write_draft (some (draft, seq)) c = record {
  draft = draft;
  has_text = not (is_blank (trim draft));
  restored_seq = some seq;
}

-- `applyDraftRestore`, and the effect of Composer.tsx that keeps what it returns. Writing a value that
-- is there already changes nothing.
unfoldable pub apply_draft_restore : Option Restore → ComposerState → ComposerState
unfolding draft_after_restore
apply_draft_restore restore c = write_draft (draft_after_restore c.draft restore c.restored_seq) c
