-- ===== src/Session/Parts.antt =====
-- What the gate may name of a client's answer.
use chat_crdt.Prelude.{
  ◌≡◌, refl, true, Option, some, List, Text, codes, All, All-In, In, contains, text_Eq,
}
use chat_crdt.Shared.Message.{Message}
use chat_crdt.Shared.Value.{Value, str, id_field}
use chat_crdt.Server.Gate.{any, Struct, item, rejected, check_enveloped_update}
use chat_crdt.Server.Gate.Verdict.{Offends, offends, rejected_ids_iff}
use chat_crdt.Engine.Messages.{ids_of}

-- A struct of an update: each of its values that has an id has that of one of these messages. Values
-- without an id and contents of other kinds may stand beside them.
abbrev pub IsPartOf : List Message → Struct → Type 0
IsPartOf ms (item (any vs)) =
    All (λ v. (id : Text) → id_field (codes "id") v ≡ str id → contains id (ids_of ms) ≡ true) vs
IsPartOf ms _ = Unit

-- An id that a refusal names is that of a message of the client's document.
pub named_present :
    (json_parse : Text → Option Value) (ms : List Message) (ss : List Struct) (ids : List Text)
    (id : Text)
    → All (IsPartOf ms) ss
    → check_enveloped_update json_parse (λ (x : List Struct). some x) ss ≡ rejected ids
    → In id ids
    → contains id (ids_of ms) ≡ true
named_present json_parse ms ss ids id parts h i =
    by_offence ((rejected_ids_iff json_parse (λ (x : List Struct). some x) ss ss ids id refl h).0 i)
  where
    by_offence : Offends json_parse id ss → contains id (ids_of ms) ≡ true
    by_offence (offends vs v i j p q) =
        All-In
          (λ v. (id : Text) → id_field (codes "id") v ≡ str id → contains id (ids_of ms) ≡ true) v
          vs (All-In (IsPartOf ms) (item (any vs)) ss parts i) j id q
