-- ===== src/Mobile/LegacyPolicy/Tests.antt =====
-- The policy at concrete inputs.
use chat_crdt.Prelude.{
  ◌≡◌, refl, true, false, some, List, [], ◌∷◌, Text, codes, text_eq, starts_with,
}
use chat_crdt.Shared.Message.{Message}
use chat_crdt.Engine.Persistence.{Documents, Persistence, new_persistence}
use chat_crdt.Mobile.LegacyPolicy.{should_adopt_legacy_doc}

abbrev message : Text → Text → Message
message user content = record {
  id = codes "1";
  room_id = codes "r";
  user_id = user;
  username = user;
  content = content;
  created_at = 5;
}

abbrev held : List Message
held = message (codes "a") (codes "hello") ∷ message (codes "b") (codes "E2E1{}") ∷ []

-- A document that holds these messages, whatever its bytes are.
abbrev documents : Documents
documents = record {
  Doc = List Message;
  empty = [];
  apply_update = λ d u. some held;
  encode_state = λ d. 0 ∷ [];
  emits = λ d u. true;
  messages = λ d. d;
  btoa = λ s. some s;
  atob = λ s. some s;
}

abbrev copy : Text → Persistence documents
copy me =
    new_persistence documents (codes "r") (some me) (some (should_adopt_legacy_doc me)) true
      ((codes "yjs:r", codes "x") ∷ [])

policy_test :
    (should_adopt_legacy_doc (codes "a") held ≡ true)
    × (should_adopt_legacy_doc (codes "b") held ≡ false)
unfolding should_adopt_legacy_doc text_eq starts_with
policy_test = (refl, refl)
