-- ===== src/Server/Gate.antt =====
-- apps/server/src/sync/e2ee-update-gate.ts: may this Yjs update enter an encrypted room?
-- `Y.decodeUpdate` and `JSON.parse` are parameters; either may throw, which is `none`.
pub mod Envelope
pub mod Loops
pub mod Verdict
mod Tests
use chat_crdt.Prelude.{
  ℕ, ◌+◌, ◌%◌, Bool, true, false, not, ◌&&◌, ◌||◌, Option, none, some, List, [], ◌∷◌, ◌++◌, Text,
  codes, starts_with, drop, length, all, leb, ltb, ◌==◌, if◌then◌else◌, text_Eq, nat_Eq,
}
use chat_crdt.Shared.Value.{
  Value, Fields, Number, pos, neg, other, num, str, obj, keys, field_of, as_object, as_string,
  id_field,
}
use chat_crdt.Shared.Sorting.{sort}

abbrev pub e2ee_prefix : Text
e2ee_prefix = codes "E2E1"

abbrev pub nonce_chars : ℕ
nonce_chars = 32

abbrev pub min_ciphertext_chars : ℕ
min_ciphertext_chars = 23

abbrev pub max_ciphertext_chars : ℕ
max_ciphertext_chars = 21_355

abbrev pub envelope_keys : List Text
envelope_keys = codes "ciphertext" ∷ codes "keyId" ∷ codes "nonce" ∷ codes "v" ∷ []

abbrev pub message_keys : List Text
message_keys =
    codes "content"
    ∷ codes "createdAt"
    ∷ codes "id"
    ∷ codes "roomId"
    ∷ codes "userId"
    ∷ codes "username"
    ∷ []

-- The content of a Yjs item; `other` is any that is neither ContentDeleted nor ContentAny.
pub data Content : Type 0 where
  deleted : Content
  any : List Value → Content
  other_content : Content

pub data Struct : Type 0 where
  item : Content → Struct
  gc skip : Struct

pub data GateResult : Type 0 where
  accepted : GateResult
  rejected : List Text → GateResult

-- `[A-Za-z0-9_-]`
abbrev pub is_base64url_char : ℕ → Bool
is_base64url_char c =
    (leb b'A' c && leb c b'Z')
    || ((leb b'a' c && leb c b'z') || ((leb b'0' c && leb c b'9') || (c == b'_' || c == b'-')))

abbrev pub same_texts : List Text → List Text → Bool
same_texts [] [] = true
same_texts (x ∷ xs) (y ∷ ys) = x == y && same_texts xs ys
same_texts _ _ = false

-- `own.length === keys.length && own.every((k, i) => k === keys[i])` of the sorted keys
unfoldable pub has_exact_keys : Fields → List Text → Bool
unfolding sort
has_exact_keys fs ks = same_texts (sort (keys fs)) ks

-- `BASE64URL.test` holds of no empty text, but `minChars` is never 0 here.
unfoldable pub is_base64url : Value → ℕ → ℕ → Bool
is_base64url (str s) lo hi =
    leb lo (length s)
    && (leb (length s) hi
        && (not (length s % 4 == 1) && (ltb 0 (length s) && all is_base64url_char s)))
is_base64url _ lo hi = false

-- `v === 1`
abbrev pub is_one : Value → Bool
is_one (num (pos n)) = n == 1
is_one _ = false

-- `typeof keyId === 'number' && Number.isInteger(keyId) && keyId > 0`
abbrev pub is_positive_int : Value → Bool
is_positive_int (num (pos n)) = ltb 0 n
is_positive_int _ = false

-- The tests on a parsed envelope.
unfoldable pub well_formed_fields : Fields → Bool
well_formed_fields fs =
    has_exact_keys fs envelope_keys
    && (is_one (field_of (codes "v") fs)
        && (is_positive_int (field_of (codes "keyId") fs)
            && (is_base64url (field_of (codes "nonce") fs) nonce_chars nonce_chars
                && is_base64url (field_of (codes "ciphertext") fs) min_ciphertext_chars
                    max_ciphertext_chars)))

-- `if (typeof id === 'string') rejectedMessageIds.push(id)`
abbrev pub named : Value → List Text
named (str id) = id ∷ []
named _ = []

module _ (json_parse : Text → Option Value) where
  pub is_well_formed_envelope : Text → Bool
  unfolding well_formed_fields
  is_well_formed_envelope content =
      if starts_with e2ee_prefix content
      then (elim (json_parse (drop (length e2ee_prefix) content)) [
        | none ↦ false
        | some v ↦ elim (as_object v) [ none ↦ false | some fs ↦ well_formed_fields fs ]
      ])
      else false

  pub is_enveloped_message : Value → Bool
  is_enveloped_message v = elim (as_object v) [
    | none ↦ false
    | some fs ↦
        has_exact_keys fs message_keys && (elim (as_string (field_of (codes "content") fs)) [
          | none ↦ false
          | some content ↦ is_well_formed_envelope content
        ])
  ]

  -- The loop over the values of one ContentAny, with the two variables that it updates.
  unfoldable pub check_values : Bool → List Text → List Value → Bool × List Text
  check_values ok ids [] = (ok, ids)
  check_values ok ids (v ∷ vs) =
      check_values (ok && is_enveloped_message v)
        (if is_enveloped_message v then ids else ids ++ named (id_field (codes "id") v)) vs

  -- The loop over the structs.
  unfoldable pub check_structs : Bool → List Text → List Struct → Bool × List Text
  unfolding check_values
  check_structs ok ids [] = (ok, ids)
  check_structs ok ids (item deleted ∷ ss) = check_structs ok ids ss
  check_structs ok ids (item (any vs) ∷ ss) =
      check_structs (check_values ok ids vs).0 (check_values ok ids vs).1 ss
  check_structs ok ids (item other_content ∷ ss) = check_structs false ids ss
  check_structs ok ids (gc ∷ ss) = check_structs ok ids ss
  check_structs ok ids (skip ∷ ss) = check_structs ok ids ss

  -- `checkEnvelopedUpdate`
  unfoldable pub check_enveloped_update {ℓ} :
      {Update : Type ℓ} → (Update → Option (List Struct)) → Update → GateResult
  unfolding check_structs
  check_enveloped_update decode_update u = elim (decode_update u) [
    | none ↦ rejected []
    | some structs ↦
        if (check_structs true [] structs).0
        then accepted
        else rejected (check_structs true [] structs).1
  ]
