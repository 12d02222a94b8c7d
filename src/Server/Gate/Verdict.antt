-- ===== src/Server/Gate/Verdict.antt =====
-- The gate's verdict on a whole update.
use chat_crdt.Prelude.{
  ◌≡◌, refl, ap, ◌↔◌, ◌⊎◌, true, false, inl, inr, Option, some, List, [], ◌∷◌, ◌++◌, Text, codes,
  All, In, In-append_left, In-append_right, Bool-cases, Option-cases, arith,
}
use chat_crdt.Shared.Value.{Value, str, id_field}
use chat_crdt.Server.Gate.{
  Struct, item, gc, skip, deleted, any, other_content, accepted, rejected, named,
  is_enveloped_message, check_enveloped_update,
}
use chat_crdt.Server.Gate.Loops.{values_ok, values_ids, structs_ok, structs_ids, check_structs_lem}
use chat_crdt.Server.Gate.Envelope.{IsEnvelopedMessage, is_enveloped_message_iff}

module _ (json_parse : Text → Option Value) where
  -- A struct that carries no content, or only encrypted messages.
  abbrev pub IsClean : Struct → Type 0
  IsClean (item deleted) = Unit
  IsClean (item (any vs)) = All (IsEnvelopedMessage json_parse) vs
  IsClean (item other_content) = ⊥
  IsClean gc = Unit
  IsClean skip = Unit

  -- The messages that have to go: where an id stands in a value that is no encrypted message.
  pub data Offends (id : Text) (ss : List Struct) : Type 0 where
    offends :
        (vs : List Value) (v : Value)
        → In (item (any vs)) ss
        → In v vs
        → is_enveloped_message json_parse v ≡ false
        → id_field (codes "id") v ≡ str id
        → Offends id ss

  values_ok_iff :
      (vs : List Value) → (values_ok json_parse vs ≡ true) ↔ All (IsEnvelopedMessage json_parse) vs
  unfolding values_ok
  values_ok_iff [] = (λ h. tt, λ h. refl)
  values_ok_iff (v ∷ vs) =
      let (to, from) = is_enveloped_message_iff json_parse v in
      let (to', from') = values_ok_iff vs in
      (λ h. (to (ground arith), to' (ground arith)), λ (p, ps). rw (from p) (from' ps))

  structs_ok_iff : (ss : List Struct) → (structs_ok json_parse ss ≡ true) ↔ All IsClean ss
  unfolding structs_ok
  structs_ok_iff [] = (λ h. tt, λ h. refl)
  structs_ok_iff (item deleted ∷ ss) =
      let (to, from) = structs_ok_iff ss in (λ h. (tt, to h), λ (p, ps). from ps)
  structs_ok_iff (item (any vs) ∷ ss) =
      let (to, from) = values_ok_iff vs in
      let (to', from') = structs_ok_iff ss in
      (λ h. (to (ground arith), to' (ground arith)), λ (p, ps). rw (from p) (from' ps))
  structs_ok_iff (item other_content ∷ ss) = (λ h. cc, λ (p, ps). absurd p)
  structs_ok_iff (gc ∷ ss) =
      let (to, from) = structs_ok_iff ss in (λ h. (tt, to h), λ (p, ps). from ps)
  structs_ok_iff (skip ∷ ss) =
      let (to, from) = structs_ok_iff ss in (λ h. (tt, to h), λ (p, ps). from ps)

  In-named : (id : Text) (v : Value) → In id (named v) → v ≡ str id
  In-named id (str s) (inl e) = ap str e
  In-named id (str s) (inr h) = elim h [ ]
  In-named id _ h = elim h [ ]

  In-append : (a : Text) (xs ys : List Text) → In a (xs ++ ys) → In a xs ⊎ In a ys
  In-append a [] ys h = inr h
  In-append a (x ∷ xs) ys (inl e) = inl (inl e)
  In-append a (x ∷ xs) ys (inr h) = elim (In-append a xs ys h) [
    | inl p ↦ inl (inr p)
    | inr p ↦ inr p
  ]

  -- A value of a list that is refused and has this id.
  OffendsIn : Text → List Value → Type 0
  OffendsIn id vs =
      (v : Value) × In v vs
      × (is_enveloped_message json_parse v ≡ false)
      × (id_field (codes "id") v ≡ str id)

  values_ids_sound :
      (id : Text) (vs : List Value) → In id (values_ids json_parse vs) → OffendsIn id vs
  unfolding values_ids OffendsIn
  values_ids_sound id [] h = elim h [ ]
  values_ids_sound id (v ∷ vs) h = elim (Bool-cases (is_enveloped_message json_parse v)) [
    | inl e ↦ let (w, i, p, q) = values_ids_sound id vs (rw e at h) in (w, inr i, p, q)
    | inr e ↦
        elim (In-append id (named (id_field (codes "id") v)) (values_ids json_parse vs)
          (rw e at h)) [
            | inl i ↦ (v, inl refl, e, In-named id _ i)
            | inr i ↦ let (w, j, p, q) = values_ids_sound id vs i in (w, inr j, p, q)
          ]
  ]

  values_ids_complete :
      (id : Text) (vs : List Value) (v : Value)
      → In v vs
      → is_enveloped_message json_parse v ≡ false
      → id_field (codes "id") v ≡ str id
      → In id (values_ids json_parse vs)
  unfolding values_ids
  values_ids_complete id [] v h p q = elim h [ ]
  values_ids_complete id (w ∷ vs) v (inl e) p q = rw (e, p, q) (inl refl)
  values_ids_complete id (w ∷ vs) v (inr i) p q =
      In-append_right id _ _ (values_ids_complete id vs v i p q)

  Offends-cons : (id : Text) (s : Struct) (ss : List Struct) → Offends id ss → Offends id (s ∷ ss)
  Offends-cons id s ss (offends vs v i j p q) = offends vs v (inr i) j p q

  structs_ids_sound :
      (id : Text) (ss : List Struct) → In id (structs_ids json_parse ss) → Offends id ss
  unfolding structs_ids OffendsIn
  structs_ids_sound id [] h = elim h [ ]
  structs_ids_sound id (item (any vs) ∷ ss) h =
      elim (In-append id (values_ids json_parse vs) (structs_ids json_parse ss) h) [
        | inl i ↦ let (v, j, p, q) = values_ids_sound id vs i in offends vs v (inl refl) j p q
        | inr i ↦ Offends-cons id (item (any vs)) ss (structs_ids_sound id ss i)
      ]
  structs_ids_sound id (item deleted ∷ ss) h = Offends-cons id _ ss (structs_ids_sound id ss h)
  structs_ids_sound id (item other_content ∷ ss) h =
      Offends-cons id _ ss (structs_ids_sound id ss h)
  structs_ids_sound id (gc ∷ ss) h = Offends-cons id _ ss (structs_ids_sound id ss h)
  structs_ids_sound id (skip ∷ ss) h = Offends-cons id _ ss (structs_ids_sound id ss h)

  -- The ids of one struct come before the rest.
  structs_ids_cons :
      (id : Text) (s : Struct) (ss : List Struct)
      → In id (structs_ids json_parse ss)
      → In id (structs_ids json_parse (s ∷ ss))
  unfolding structs_ids
  structs_ids_cons id (item (any vs)) ss h = In-append_right id (values_ids json_parse vs) _ h
  structs_ids_cons id (item deleted) ss h = h
  structs_ids_cons id (item other_content) ss h = h
  structs_ids_cons id gc ss h = h
  structs_ids_cons id skip ss h = h

  structs_ids_first :
      (id : Text) (vs : List Value) (ss : List Struct)
      → In id (values_ids json_parse vs)
      → In id (structs_ids json_parse (item (any vs) ∷ ss))
  unfolding structs_ids
  structs_ids_first id vs ss h = In-append_left id (values_ids json_parse vs) _ h

  structs_ids_complete :
      (id : Text) (ss : List Struct) (vs : List Value) (v : Value)
      → In (item (any vs)) ss
      → In v vs
      → is_enveloped_message json_parse v ≡ false
      → id_field (codes "id") v ≡ str id
      → In id (structs_ids json_parse ss)
  structs_ids_complete id [] vs v i j p q = elim i [ ]
  structs_ids_complete id (s ∷ ss) vs v (inl e) j p q =
      rw e (structs_ids_first id vs ss (values_ids_complete id vs v j p q))
  structs_ids_complete id (s ∷ ss) vs v (inr i) j p q =
      structs_ids_cons id s ss (structs_ids_complete id ss vs v i j p q)

  -- An update is accepted exactly when it decodes, and each struct in it is a deletion, a collected
  -- or skipped range, or plain values that are all encrypted messages.
  pub check_enveloped_update_iff {ℓ} :
      {Update : Type ℓ} (decode_update : Update → Option (List Struct)) (u : Update)
      → (check_enveloped_update json_parse decode_update u ≡ accepted)
        ↔ ((ss : List Struct) × (decode_update u ≡ some ss) × All IsClean ss)
  unfolding check_enveloped_update
  check_enveloped_update_iff decode_update u = (
    λ h. elim (Option-cases (decode_update u)) [
      | inl e ↦ ground arith
      | inr (ss, e) ↦
          (ss, e, (structs_ok_iff ss).0 (ground (arith, check_structs_lem json_parse true [] ss)))
    ],
    λ (ss, e, clean).
        let ok = (structs_ok_iff ss).1 clean in
        ground (arith, check_structs_lem json_parse true [] ss),
  )

  -- The ids that a refusal names are exactly the text ids of the values in the update that are no
  -- encrypted messages.
  pub rejected_ids_iff {ℓ} :
      {Update : Type ℓ} (decode_update : Update → Option (List Struct)) (u : Update)
      (ss : List Struct) (ids : List Text) (id : Text)
      → decode_update u ≡ some ss
      → check_enveloped_update json_parse decode_update u ≡ rejected ids
      → In id ids ↔ Offends id ss
  unfolding check_enveloped_update
  rejected_ids_iff decode_update u ss ids id e h =
      let same : ids ≡ structs_ids json_parse ss =
        ground (arith, check_structs_lem json_parse true [] ss) in
      rw same (structs_ids_sound id ss, complete)
    where
      complete : Offends id ss → In id (structs_ids json_parse ss)
      complete (offends vs v i j p q) = structs_ids_complete id ss vs v i j p q
