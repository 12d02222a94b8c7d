-- ===== src/Mobile/Samples.antt =====
-- What the tests of the app share: a small libsodium, its ciphers, messages and stores.
use chat_crdt.Prelude.{
  ℕ, zero, suc, ◌+◌, ◌-◌, ◌%◌, Option, none, some, List, [], ◌∷◌, ◌++◌, map, Text, codes, length,
  drop, filter, text_Eq, nat_Eq, not, ◌==◌,
}
use chat_crdt.Shared.Value.{Value, num, str, obj, field, end, pos}
use chat_crdt.Shared.Message.{Message}
use chat_crdt.Engine.Messages.{YArray, Aad, Config, remove_at}
use chat_crdt.Mobile.Cipher.{Sodium, Cipher, base64_length, envelope_value, build_envelope, encrypt}
use chat_crdt.Mobile.Cipher.Passes.{aad}
use chat_crdt.Mobile.Rooms.{RoomSummary, RoomsState}
use chat_crdt.Mobile.Chat.{ChatState}

abbrev pub repeat : ℕ → ℕ → List ℕ
repeat zero x = []
repeat (suc n) x = x ∷ repeat n x

abbrev pub take : ℕ → List ℕ → List ℕ
take zero xs = []
take (suc n) [] = []
take (suc n) (x ∷ xs) = x ∷ take n xs

-- JSON for envelopes alone: the epoch, the length of the nonce, the nonce and the ciphertext.
abbrev pub text_of : Value → Text
text_of (str t) = t
text_of _ = []

abbrev pub number_of : Value → ℕ
number_of (num (pos n)) = n
number_of _ = 0

abbrev pub print : Value → Text
print (obj (field v one (field k epoch (field n nonce (field c ciphertext end))))) =
    number_of epoch ∷ length (text_of nonce) ∷ text_of nonce ++ text_of ciphertext
print _ = []

abbrev pub parse : Text → Option Value
parse (k ∷ n ∷ rest) = some (envelope_value k (take n rest) (drop n rest))
parse _ = none

-- Base64 for bytes below 16: a letter for each byte, then underscores up to the length.
abbrev pub to_text : List ℕ → Text
to_text bytes = map (λ b. 65 + b) bytes ++ repeat (base64_length (length bytes) - length bytes) b'_'

abbrev pub from_text : Text → Option (List ℕ)
from_text t = some (map (λ c. c - 65) (filter (λ c. not (c == b'_')) t))

-- A cipher that shifts each code unit by the key, and adds 16 bytes.
abbrev pub sodium : Sodium
sodium = record {
  Key = ℕ;
  json_parse = parse;
  json_stringify = print;
  to_base64 = to_text;
  from_base64 = from_text;
  aead_encrypt = λ p ad nonce key. to_text (map (λ c. (c + key) % 16) p ++ repeat 16 0);
  aead_decrypt =
      λ bytes ad nonce key. some (map (λ c. (c + 16 - key) % 16) (take (length bytes - 16) bytes));
}

abbrev pub cipher : Cipher sodium
cipher = record {
  keys_by_epoch = (1, 4) ∷ (2, 5) ∷ [];
  current_key_id = some 2;
  expected_current_epoch = some 2;
}

abbrev pub other_device : Cipher sodium
other_device = record {
  keys_by_epoch = (2, 5) ∷ [];
  current_key_id = some 2;
  expected_current_epoch = none;
}

abbrev pub nonce : List ℕ
nonce = repeat 24 1

abbrev pub hello : Text
hello = 3 ∷ 5 ∷ []

abbrev pub bytes : List ℕ
bytes = 8 ∷ 10 ∷ repeat 16 0

abbrev pub config : Config
config = record {
  room_id = codes "r";
  user_id = codes "a";
  username = codes "al";
  encrypt = some (encrypt sodium cipher nonce);
}

abbrev pub ad : Aad
ad = aad config (codes "m") 7

abbrev pub list_array : YArray
list_array = record {
  Doc = List Message;
  to_array = λ d. d;
  push = λ d ms. d ++ ms;
  delete_at = λ d i. remove_at i d;
}

abbrev pub content : Text
content = build_envelope sodium 2 (to_text nonce) (to_text bytes)

abbrev pub message : Message
message = record {
  id = codes "m";
  room_id = codes "r";
  user_id = codes "a";
  username = codes "al";
  content = content;
  created_at = 7;
}

abbrev pub plain : Message
plain = record message { content = codes "plain" }

abbrev pub stale : List RoomSummary
stale =
    record { id = codes "1"; name = codes "ops"; role = codes "member"; current_key_id = 0 } ∷ []

abbrev pub nothing_known : RoomsState
nothing_known = record { rooms = stale; refresh_by_room = []; ever_e2ee_by_room = [] }

abbrev pub chat : ChatState sodium
chat = record {
  messages_by_room = (codes "ops", message ∷ []) ∷ [];
  ws_status_by_room = [];
  mount_counts = (codes "ops", 1) ∷ [];
  room_crypto_by_room = [];
  e2ee_rejection_by_room = [];
  e2ee_rejection_seq = 0;
  restored_message_ids = codes "m1" ∷ [];
}
