-- ===== src/Server/Gate/Tests.antt =====
-- The theorems on the gate at concrete inputs.
use chat_crdt.Prelude.{
  ℕ, ◌≡◌, refl, ◌↔◌, true, Option, none, some, List, [], ◌∷◌, Text, codes, All, In, text_eq,
}
use chat_crdt.Shared.Value.{Value, str, obj, field, end, field_of}
use chat_crdt.Shared.Sorting.{sort}
use chat_crdt.Server.Gate.{
  Struct, item, gc, any, deleted, accepted, rejected, is_enveloped_message, check_enveloped_update,
  check_structs, check_values, has_exact_keys,
}
use chat_crdt.Server.Gate.Envelope.{IsEnvelopedMessage, is_enveloped_message_iff}
use chat_crdt.Server.Gate.Verdict.{IsClean, Offends, check_enveloped_update_iff, rejected_ids_iff}

-- JSON that never parses: a message with an id and plain content then has to go.
abbrev no_json : Text → Option Value
no_json text = none

abbrev plain : Value
plain = obj (field (codes "id") (str (codes "m1")) (field (codes "content") (str (codes "hi")) end))

abbrev structs : List Struct
structs = gc ∷ item deleted ∷ item (any (plain ∷ [])) ∷ []

abbrev decode : ℕ → Option (List Struct)
decode u = some structs

is_enveloped_message_iff_example :
    (is_enveloped_message no_json plain ≡ true) ↔ IsEnvelopedMessage no_json plain
is_enveloped_message_iff_example = is_enveloped_message_iff no_json plain

check_enveloped_update_iff_example :
    (check_enveloped_update no_json decode 0 ≡ accepted)
    ↔ ((ss : List Struct) × (decode 0 ≡ some ss) × All (IsClean no_json) ss)
check_enveloped_update_iff_example = check_enveloped_update_iff no_json decode 0

plain_rejected : check_enveloped_update no_json decode 0 ≡ rejected (codes "m1" ∷ [])
unfolding check_enveloped_update check_structs check_values is_enveloped_message has_exact_keys sort
    text_eq field_of
plain_rejected = refl

rejected_ids_iff_example : In (codes "m1") (codes "m1" ∷ []) ↔ Offends no_json (codes "m1") structs
rejected_ids_iff_example =
    rejected_ids_iff no_json decode 0 structs (codes "m1" ∷ []) (codes "m1") refl plain_rejected
