-- ===== src/Server/Gate/Loops.antt =====
-- The loops of `checkEnvelopedUpdate`, which update two variables, as recursions.
use chat_crdt.Prelude.{
  ◌≡◌, ◌∙◌, Bool, true, false, ◌&&◌, inl, inr, Option, List, [], ◌∷◌, ◌++◌, Text, codes, Bool-cases,
  if◌then◌else◌, arith,
}
use mathlib.Core.List.{append-nil, append_assoc}
use chat_crdt.Shared.Value.{Value, id_field}
use chat_crdt.Server.Gate.{
  Struct, item, gc, skip, deleted, any, other_content, named, is_enveloped_message, check_values,
  check_structs,
}

module _ (json_parse : Text → Option Value) where
  unfoldable pub values_ok : List Value → Bool
  values_ok [] = true
  values_ok (v ∷ vs) = is_enveloped_message json_parse v && values_ok vs

  unfoldable pub values_ids : List Value → List Text
  values_ids [] = []
  values_ids (v ∷ vs) =
      (if is_enveloped_message json_parse v then [] else named (id_field (codes "id") v))
      ++ values_ids vs

  unfoldable pub structs_ok : List Struct → Bool
  structs_ok [] = true
  structs_ok (item deleted ∷ ss) = structs_ok ss
  structs_ok (item (any vs) ∷ ss) = values_ok vs && structs_ok ss
  structs_ok (item other_content ∷ ss) = false
  structs_ok (gc ∷ ss) = structs_ok ss
  structs_ok (skip ∷ ss) = structs_ok ss

  unfoldable pub structs_ids : List Struct → List Text
  structs_ids [] = []
  structs_ids (item deleted ∷ ss) = structs_ids ss
  structs_ids (item (any vs) ∷ ss) = values_ids vs ++ structs_ids ss
  structs_ids (item other_content ∷ ss) = structs_ids ss
  structs_ids (gc ∷ ss) = structs_ids ss
  structs_ids (skip ∷ ss) = structs_ids ss

  -- The loops, which update two variables, against these recursions.
  check_values_lem :
      (ok : Bool) (ids : List Text) (vs : List Value)
      → check_values json_parse ok ids vs ≡ (ok && values_ok vs, ids ++ values_ids vs)
  unfolding check_values values_ok values_ids
  check_values_lem ok ids [] = ground (arith, append-nil ids)
  check_values_lem ok ids (v ∷ vs) = elim (Bool-cases (is_enveloped_message json_parse v)) [
    | inl e ↦ rw e (check_values_lem (ok && true) ids vs ∙ ground arith)
    | inr e ↦ rw e (
        check_values_lem (ok && false) (ids ++ named (id_field (codes "id") v)) vs
        ∙ ground (arith, append_assoc ids (named (id_field (codes "id") v)) (values_ids vs)))
  ]

  pub check_structs_lem :
      (ok : Bool) (ids : List Text) (ss : List Struct)
      → check_structs json_parse ok ids ss ≡ (ok && structs_ok ss, ids ++ structs_ids ss)
  unfolding check_structs structs_ok structs_ids
  check_structs_lem ok ids [] = ground (arith, append-nil ids)
  check_structs_lem ok ids (item deleted ∷ ss) = check_structs_lem ok ids ss
  check_structs_lem ok ids (item (any vs) ∷ ss) = rw (check_values_lem ok ids vs) (
      check_structs_lem (ok && values_ok vs) (ids ++ values_ids vs) ss
      ∙ ground (arith, append_assoc ids (values_ids vs) (structs_ids ss)))
  check_structs_lem ok ids (item other_content ∷ ss) = check_structs_lem false ids ss ∙ ground arith
  check_structs_lem ok ids (gc ∷ ss) = check_structs_lem ok ids ss
  check_structs_lem ok ids (skip ∷ ss) = check_structs_lem ok ids ss
