-- ===== src/Mobile/Sync/Tests.antt =====
-- The screen's handlers at concrete inputs.
use chat_crdt.Prelude.{
  ◌≡◌, refl, true, none, List, [], ◌∷◌, ◌++◌, codes, All, contains, get, text_eq, text_Eq,
  starts_with,
}
use chat_crdt.Shared.Message.{Message}
use chat_crdt.Engine.Messages.{IsArray, ids_of}
use chat_crdt.Mobile.Samples.{sodium, list_array, chat, plain, nothing_known}
use chat_crdt.Mobile.Render.{e2ee_room}
use chat_crdt.Mobile.Rooms.{use_room_e2ee_state}
use chat_crdt.Mobile.Sync.{
  Screen, App, unknown, stash_key, on_unrecoverable, on_synced, on_e2ee_rejected,
}
use chat_crdt.Mobile.Sync.Resynced.{
  saved, stashed, rebuilt, new_to, own_messages_kept, refused_twice_duplicates,
}
use chat_crdt.Mobile.Sync.Rejected.{SameNotice, rejected_once}

array : IsArray list_array
array = record { push_lem = λ d ms. refl; delete_lem = λ d i. refl }

abbrev screen : Screen sodium
screen = record { room_id = codes "ops"; user_id = codes "a"; content_cipher = none }

abbrev mine : Message
mine = record plain { id = codes "m2"; content = codes "E2E1{}" }

-- The document has another user's plaintext, which cannot be repaired, and an encrypted message.
abbrev app : App list_array sodium
app = record {
  chat = chat;
  rooms = nothing_known;
  reinsert_stash = [];
  doc = record plain { user_id = codes "b" } ∷ mine ∷ [];
  membership = unknown;
  doc_generation = 0;
}

abbrev served : List Message
served = record plain { id = codes "m3"; user_id = codes "b" } ∷ []

own_messages_kept_example :
    let r =
      (on_synced list_array sodium screen (
        rebuilt list_array sodium screen [] [] served
          (on_unrecoverable list_array sodium screen 1 app).0)).0 in
    let ours = stashed list_array sodium screen app ++ saved list_array sodium screen app in
    All (λ m. contains m.id (ids_of r.doc) ≡ true) ours
    × (r.doc ≡ served ++ new_to served ours)
    × (get (stash_key list_array sodium screen) r.reinsert_stash ≡ none)
own_messages_kept_example = own_messages_kept list_array sodium screen array 1 [] [] served app

refused_twice_duplicates_example :
    (on_synced list_array sodium screen (
      rebuilt list_array sodium screen [] [] served
        (on_unrecoverable list_array sodium screen 1
          (on_unrecoverable list_array sodium screen 1 app).0).0)).0.doc
    ≡ served ++ (mine ∷ mine ∷ [])
unfolding get text_eq starts_with
refused_twice_duplicates_example =
    refused_twice_duplicates list_array sodium screen array 1 [] [] served app

rejected_once_example :
    let first = (on_e2ee_rejected list_array sodium screen 3 (plain ∷ []) app).0 in
    (use_room_e2ee_state (codes "ops") first.rooms ≡ e2ee_room)
    × SameNotice list_array sodium screen first
        (on_e2ee_rejected list_array sodium screen 3 (plain ∷ []) first).0
unfolding text_eq
rejected_once_example = rejected_once list_array sodium screen 3 3 (plain ∷ []) app refl refl
