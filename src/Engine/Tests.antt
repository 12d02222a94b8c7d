-- ===== src/Engine/Tests.antt =====
-- The theorems of the engine at concrete inputs.
use chat_crdt.Prelude.{
  ◌≡◌, refl, true, false, none, some, List, [], ◌∷◌, ◌++◌, Text, codes, text_eq, text_Eq,
}
use chat_crdt.Shared.Message.{Message}
use chat_crdt.Engine.Messages.{YArray, IsArray, remove_at, retract_messages}
use chat_crdt.Engine.Messages.Retract.{retract_exact}
use chat_crdt.Engine.Provider.{
  Library, Provider, sync, send, on_status_change, connected, disconnected, update, step1, presence,
  on_open, Event, edit, opened, retry, closed, received,
}
use chat_crdt.Engine.Provider.Offline.{updated, offline_in_order}

-- A document that is its list of messages.
abbrev list_array : YArray
list_array = record {
  Doc = List Message;
  to_array = λ d. d;
  push = λ d ms. d ++ ms;
  delete_at = λ d i. remove_at i d;
}

list_array-IsArray : IsArray list_array
list_array-IsArray = record { push_lem = λ d ms. refl; delete_lem = λ d i. refl }

abbrev message : Text → Text → Message
message id user = record {
  id = id;
  room_id = codes "r";
  user_id = user;
  username = user;
  content = codes "hello";
  created_at = 5;
}

abbrev three : List Message
three =
    message (codes "1") (codes "a")
    ∷ message (codes "2") (codes "b")
    ∷ message (codes "3") (codes "a")
    ∷ []

-- The second message is named too, but is another user's.
retract_exact_example :
    ((retract_messages list_array (codes "a") (codes "2" ∷ codes "3" ∷ []) three).1
      ≡ message (codes "3") (codes "a") ∷ [])
    × ((retract_messages list_array (codes "a") (codes "2" ∷ codes "3" ∷ []) three).0
        ≡ message (codes "1") (codes "a") ∷ message (codes "2") (codes "b") ∷ [])
unfolding text_eq
retract_exact_example =
    retract_exact list_array list_array-IsArray (codes "a") (codes "2" ∷ codes "3" ∷ []) three

abbrev back : List Message
back = message (codes "3") (codes "a") ∷ message (codes "4") (codes "a") ∷ []

abbrev library : Library
library = record {
  y = list_array;
  read_sync = λ frame d. some (d, some frame, true);
  state_vector = λ d. 0 ∷ [];
  changed = λ before after. some (9 ∷ []);
  decode = λ frame. sync frame;
  own_presence = 7 ∷ [];
}

abbrev fresh : Provider library
fresh = record {
  doc = three;
  user_id = codes "a";
  status = disconnected;
  is_open = false;
  pending_updates = [];
  retry_timer = none;
  retry_count = 0;
  destroyed = false;
  synced = false;
  retracted_ids = [];
  state_refused = false;
}

offline_in_order_example :
    ((on_open library (updated library ((1 ∷ []) ∷ (2 ∷ []) ∷ []) fresh)).1
      ≡ on_status_change connected
        ∷ send (step1 (0 ∷ []))
        ∷ send (update (1 ∷ []))
        ∷ send (update (2 ∷ []))
        ∷ send (presence (7 ∷ []))
        ∷ [])
    × ((on_open library (updated library ((1 ∷ []) ∷ (2 ∷ []) ∷ []) fresh)).0.pending_updates ≡ [])
offline_in_order_example = offline_in_order library ((1 ∷ []) ∷ (2 ∷ []) ∷ []) fresh refl refl refl

abbrev refused : Provider library
refused = record fresh { state_refused = true }

abbrev later : List (Event library)
later = edit [] ∷ opened ∷ received (5 ∷ []) ∷ closed 1006 ∷ retry ∷ []
