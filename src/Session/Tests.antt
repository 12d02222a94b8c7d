-- ===== src/Session/Tests.antt =====
-- The exchange at a concrete input.
use chat_crdt.Prelude.{
  refl, arith, true, false, none, some, List, [], ◌∷◌, ◌++◌, map, Text, codes, All, All-map,
  contains, ap, ◌≡◌, text_Eq, text_eq_iff, text_eq,
}
use chat_crdt.Shared.Message.{Message}
use chat_crdt.Shared.Value.{Value, str, id_field, field_of}
use chat_crdt.Server.Gate.{Struct, item, any, other_content}
use chat_crdt.Engine.Messages.{YArray, IsArray, remove_at, ids_of}
use chat_crdt.Engine.Provider.{Library, Provider, sync, connected}
use chat_crdt.Mobile.Cipher.Passes.{message_value}
use chat_crdt.Session.{resync}
use chat_crdt.Session.Parts.{IsPartOf}
use chat_crdt.Session.Resync.{Ended, resync_ends}

-- A document that is its list of messages.
abbrev list_array : YArray
list_array = record {
  Doc = List Message;
  to_array = λ d. d;
  push = λ d ms. d ++ ms;
  delete_at = λ d i. remove_at i d;
}

list_array-IsArray : IsArray list_array
list_array-IsArray = record { push_lem = λ d ms. refl; delete_lem = λ d i. refl }

abbrev library : Library
library = record {
  y = list_array;
  read_sync = λ frame d. some (d, some frame, true);
  state_vector = λ d. 0 ∷ [];
  changed = λ before after. some (9 ∷ []);
  decode = λ frame. sync frame;
  own_presence = 7 ∷ [];
}

abbrev message : Text → Text → Message
message id user = record {
  id = id;
  room_id = codes "r";
  user_id = user;
  username = user;
  content = codes "hello";
  created_at = 5;
}

abbrev provider : List Message → Provider library
provider ms = record {
  doc = ms;
  user_id = codes "a";
  status = connected;
  is_open = true;
  pending_updates = [];
  retry_timer = none;
  retry_count = 0;
  destroyed = false;
  synced = true;
  retracted_ids = [];
  state_refused = false;
}

-- The client answers with its whole document, and with a value and content that have no id.
abbrev whole : List Message → List Struct
whole ms =
    item (any (map message_value ms)) ∷ item (any (str (codes "x") ∷ [])) ∷ item other_content ∷ []

abbrev text_of : Value → Text
text_of (str t) = t
text_of _ = []

present :
    (ms : List Message)
    → All
        (λ v. (id : Text) → id_field (codes "id") v ≡ str id → contains id (ids_of ms) ≡ true)
        (map message_value ms)
unfolding field_of text_eq
present [] = tt
present (m ∷ ms) = (
  λ id e. let same : m.id ≡ id = ap text_of e in ground (arith, text_eq_iff m.id id),
  All-map (λ v h id e. ground (arith, h id e)) (map message_value ms) (present ms),
)

whole_parts : (ms : List Message) → All (IsPartOf ms) (whole ms)
whole_parts ms = (present ms, ((λ id e. cc, tt), (tt, tt)))

abbrev two : List Message
two = message (codes "1") (codes "a") ∷ message (codes "2") (codes "b") ∷ []

resync_ends_example :
    Ended
      (λ s. none)
      library
      whole
      (provider two)
      (resync (λ s. none) library whole 1 4 (provider two))
unfolding text_eq
resync_ends_example =
    resync_ends (λ s. none) library list_array-IsArray whole whole_parts 1 4 (provider two)
      ((refl, (refl, tt)), (refl, (refl, tt))) (omega arith)
