-- ===== src/Mobile/Tests.antt =====
-- The theorems of the app at concrete inputs.
use chat_crdt.Prelude.{
  ◌≡◌, refl, ◌⊎◌, true, none, some, List, [], ◌∷◌, codes, text_eq, text_Eq, nat_Eq, arith,
}
use chat_crdt.Engine.Messages.{send_message}
use chat_crdt.Server.Gate.{is_enveloped_message}
use chat_crdt.Mobile.Cipher.{IsSealing, ad_value, encrypt, decrypt}
use chat_crdt.Mobile.Cipher.Roundtrip.{decrypt-encrypt}
use chat_crdt.Mobile.Cipher.Passes.{message_value, sent_passes_gate}
use chat_crdt.Mobile.Render.{e2ee_room, offline}
use chat_crdt.Mobile.Rooms.{refreshed, listed, noted, step, run, use_room_e2ee_state}
use chat_crdt.Mobile.Rooms.Seen.{never_downgraded}
use chat_crdt.Server.Db.{Db, admin_role}
use chat_crdt.Server.RoomKeys.{MemberPublicKey}
use chat_crdt.Mobile.Keys.Samples.{key_of}
use chat_crdt.Mobile.Refresher.{Refresher}
use chat_crdt.Mobile.Samples.{
  content, ad, bytes, cipher, config, hello, list_array, message, nonce, nothing_known,
  other_device, parse, print, sodium, stale,
}

sealing : IsSealing sodium 2 nonce hello (print (ad_value ad)) 5
sealing = record {
  bytes = bytes;
  is_bytes = refl;
  opened = refl;
  least = omega arith;
  most = omega arith;
  parsed = refl;
  nonce_back = refl;
  nonce_length = refl;
  nonce_url = ground arith;
  bytes_back = refl;
  bytes_length = refl;
  bytes_url = ground arith;
}

decrypt-encrypt_example :
    ((cipher.expected_current_epoch ≡ none) ⊎ (cipher.expected_current_epoch ≡ some 2))
    × (decrypt sodium other_device content ad ≡ some hello)
unfolding encrypt
decrypt-encrypt_example =
    decrypt-encrypt sodium cipher other_device 2 5 nonce hello ad content sealing refl refl refl
      refl

sent_passes_gate_example : is_enveloped_message parse (message_value message) ≡ true
unfolding send_message encrypt
sent_passes_gate_example =
    sent_passes_gate sodium list_array cipher 2 5 nonce config (codes "m") 7 (32 ∷ 3 ∷ 5 ∷ 32 ∷ [])
      [] (message ∷ []) message sealing refl (omega arith) refl refl refl refl

never_downgraded_example :
    use_room_e2ee_state (codes "ops") (
      run
        (listed stale ∷ refreshed (codes "ops") (some offline) ∷ [])
        (step (noted (codes "ops") 1) (run [] nothing_known)))
    ≡ e2ee_room
unfolding text_eq
never_downgraded_example =
    never_downgraded [] (listed stale ∷ refreshed (codes "ops") (some offline) ∷ [])
      (noted (codes "ops") 1) (codes "ops") nothing_known refl refl

abbrev admin_db : Db
admin_db = record {
  users = [];
  rooms = record { id = codes "r"; name = codes "ops"; yjs_state = none; current_key_id = 0 } ∷ [];
  members = record { room_id = codes "r"; user_id = codes "a"; role = admin_role } ∷ [];
  grants = [];
}

abbrev recipients : List MemberPublicKey
recipients = record { user_id = codes "a"; public_key = key_of b'P' } ∷ []

-- The room `ops` is being refreshed under the entry 0.
abbrev refreshing : Refresher
refreshing = record {
  objects = (0, record { in_flight = true; retry_timer = none; failures = 2 }) ∷ [];
  next_object = 1;
  entries = (codes "ops", 0) ∷ [];
}
