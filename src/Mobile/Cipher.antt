-- ===== src/Mobile/Cipher.antt =====
-- apps/mobile/src/crypto/e2eeEnvelope.ts and LibsodiumContentCipher.ts. Libsodium and JSON are the record
-- `Sodium`, with what a call relies on in `IsSealing`.
pub mod Roundtrip
pub mod Passes
use chat_crdt.Prelude.{
  ℕ, ◌+◌, ◌*◌, ◌/◌, ◌≤◌, ◌≡◌, Bool, true, false, not, ◌&&◌, ◌||◌, Option, none, some, List, [], ◌∷◌,
  ◌++◌, Text, codes, Map, get, put, starts_with, drop, length, ltb, All, ◌==◌, if◌then◌else◌,
  text_Eq, nat_Eq,
}
use chat_crdt.Shared.Value.{
  Value, Fields, Number, pos, neg, other, num, str, obj, end, field, field_of, as_object, as_string,
}
use chat_crdt.Engine.Messages.{Aad}
use chat_crdt.Server.Gate.{is_one, is_base64url_char}

abbrev pub e2ee_prefix : Text
e2ee_prefix = codes "E2E1"

abbrev pub nonce_bytes : ℕ
nonce_bytes = 24

pub record Envelope : Type 0 where
  pub key_id : Number
  pub nonce : Text
  pub ciphertext : Text

-- `parseEnvelope`: null, an exception, or the envelope.
pub data Parsed : Type 0 where
  no_prefix malformed : Parsed
  envelope : Envelope → Parsed

-- The object that `buildEnvelope` and the additional data are made of.
abbrev pub envelope_value : ℕ → Text → Text → Value
envelope_value key_id nonce ciphertext = obj (
    field (codes "v") (num (pos 1)) (
      field (codes "keyId") (num (pos key_id))
        (field (codes "nonce") (str nonce) (field (codes "ciphertext") (str ciphertext) end))))

-- `adToJson`, before it is printed.
abbrev pub ad_value : Aad → Value
ad_value ad = obj (
    field (codes "id") (str ad.id) (
      field (codes "roomId") (str ad.room_id) (
        field (codes "userId") (str ad.user_id) (
          field (codes "username") (str ad.username)
            (field (codes "createdAt") (num (pos ad.created_at)) end)))))

abbrev pub as_number : Value → Option Number
as_number (num n) = some n
as_number _ = none

pub record Sodium : Type 1 where
  pub Key : Type 0
  pub json_parse : Text → Option Value
  pub json_stringify : Value → Text
  pub to_base64 : List ℕ → Text
  pub from_base64 : Text → Option (List ℕ)
  -- The plaintext, the additional data, the nonce and the key, to base64.
  pub aead_encrypt : Text → Text → List ℕ → Key → Text
  pub aead_decrypt : List ℕ → Text → List ℕ → Key → Option Text

-- The length of the unpadded base64 of so many bytes.
abbrev pub base64_length : ℕ → ℕ
base64_length n = (4 * n + 2) / 3

-- What the code relies on when it encrypts this text, with this nonce, additional data and key, for
-- this epoch: the envelope can be parsed, base64 can be read back and is unpadded and URL-safe, and
-- the ciphertext is that of some bytes which decrypt with the same nonce, data and key.
pub record IsSealing (s : Sodium) (k : ℕ) (nonce : List ℕ) (p ad : Text) (key : s.Key)
    : Type 0 where
  pub bytes : List ℕ
  pub is_bytes : s.aead_encrypt p ad nonce key ≡ s.to_base64 bytes
  pub opened : s.aead_decrypt bytes ad nonce key ≡ some p
  -- The text's UTF-8, of one to three bytes for each code unit, and a tag of 16 bytes.
  pub least : length p + 16 ≤ length bytes
  pub most : length bytes ≤ 3 * length p + 16
  pub parsed :
      s.json_parse (s.json_stringify (envelope_value k (s.to_base64 nonce) (s.to_base64 bytes)))
      ≡ some (envelope_value k (s.to_base64 nonce) (s.to_base64 bytes))
  pub nonce_back : s.from_base64 (s.to_base64 nonce) ≡ some nonce
  pub nonce_length : length (s.to_base64 nonce) ≡ base64_length (length nonce)
  pub nonce_url : All (λ c. is_base64url_char c ≡ true) (s.to_base64 nonce)
  pub bytes_back : s.from_base64 (s.to_base64 bytes) ≡ some bytes
  pub bytes_length : length (s.to_base64 bytes) ≡ base64_length (length bytes)
  pub bytes_url : All (λ c. is_base64url_char c ≡ true) (s.to_base64 bytes)

module _ (s : Sodium) where
  open s use {Key, json_parse, json_stringify, to_base64, from_base64, aead_encrypt, aead_decrypt}

  unfoldable pub build_envelope : ℕ → Text → Text → Text
  build_envelope key_id nonce ciphertext =
      e2ee_prefix ++ json_stringify (envelope_value key_id nonce ciphertext)

  -- The tests of `parseEnvelope` on the fields of an object.
  unfoldable pub envelope_of : Fields → Parsed
  unfolding field_of
  envelope_of fs =
      if is_one (field_of (codes "v") fs)
      then (elim (as_number (field_of (codes "keyId") fs)) [
        | none ↦ malformed
        | some key_id ↦ elim (as_string (field_of (codes "nonce") fs)) [
          | none ↦ malformed
          | some nonce ↦ elim (as_string (field_of (codes "ciphertext") fs)) [
            | none ↦ malformed
            | some ciphertext ↦
                envelope (record { key_id = key_id; nonce = nonce; ciphertext = ciphertext })
          ]
        ]
      ])
      else malformed

  unfoldable pub parse_envelope : Text → Parsed
  unfolding envelope_of
  parse_envelope content =
      if starts_with e2ee_prefix content
      then (elim (json_parse (drop (length e2ee_prefix) content)) [
        | none ↦ malformed
        | some v ↦ elim (as_object v) [ none ↦ malformed | some fs ↦ envelope_of fs ]
      ])
      else no_prefix

  pub record Cipher : Type 0 where
    pub keys_by_epoch : Map ℕ Key
    pub current_key_id : Option ℕ
    pub expected_current_epoch : Option ℕ

  -- `this.currentKeyId === null || keyId > this.currentKeyId`
  abbrev pub is_higher : ℕ → Option ℕ → Bool
  is_higher key_id none = true
  is_higher key_id (some k) = ltb k key_id

  unfoldable pub set_key : ℕ → Key → Cipher → Cipher
  unfolding put
  set_key key_id key c = record c {
    keys_by_epoch = put key_id key c.keys_by_epoch;
    current_key_id = if is_higher key_id c.current_key_id then some key_id else c.current_key_id;
  }

  -- `keysByEpoch.get`, for any number.
  unfoldable pub key_for : Number → Cipher → Option Key
  unfolding get
  key_for (pos n) c = get n c.keys_by_epoch
  key_for (neg n) c = none
  key_for (other n) c = none

  abbrev pub is_some {ℓ} : {A : Type ℓ} → Option A → Bool
  is_some none = false
  is_some (some a) = true

  unfoldable pub has_key : Number → Cipher → Bool
  unfolding key_for
  has_key n c = is_some (key_for n c)

  unfoldable pub set_expected_current_epoch : ℕ → Cipher → Cipher
  set_expected_current_epoch n c = record c { expected_current_epoch = some n }

  -- `expected !== null && current !== expected`
  abbrev pub is_stale : Option ℕ → ℕ → Bool
  is_stale none k = false
  is_stale (some e) k = not (k == e)

  -- `encrypt`; `none` is an exception, and the nonce is what `randombytes_buf` gives.
  unfoldable pub encrypt : Cipher → List ℕ → Text → Aad → Option Text
  unfolding get build_envelope
  encrypt c nonce plaintext ad = elim c.current_key_id [
    | none ↦ none
    | some k ↦ if is_stale c.expected_current_epoch k then none else elim (get k c.keys_by_epoch) [
      | none ↦ none
      | some key ↦
          let sealed = aead_encrypt plaintext (json_stringify (ad_value ad)) nonce key in
          some (build_envelope k (to_base64 nonce) sealed)
    ]
  ]

  -- `decrypt` of an envelope, once the key is found.
  abbrev pub open_envelope : Envelope → Key → Aad → Option Text
  open_envelope e key ad = elim (from_base64 e.nonce) [
    | none ↦ none
    | some nonce ↦ elim (from_base64 e.ciphertext) [
      | none ↦ none
      | some ciphertext ↦ aead_decrypt ciphertext (json_stringify (ad_value ad)) nonce key
    ]
  ]

  unfoldable pub decrypt : Cipher → Text → Aad → Option Text
  unfolding parse_envelope key_for
  decrypt c content ad = elim (parse_envelope content) [
    | no_prefix ↦ some content
    | malformed ↦ none
    | envelope e ↦ elim (key_for e.key_id c) [ none ↦ none | some key ↦ open_envelope e key ad ]
  ]
