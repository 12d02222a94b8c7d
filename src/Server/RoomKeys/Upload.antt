-- ===== src/Server/RoomKeys/Upload.antt =====
-- apps/server/src/rooms/dto/upload-keys.dto.ts and e2ee-validators.ts, and the handler of room-keys.controller.ts
-- behind them. Node's decoder of base64 is the parameter `decoded_length`, which gives a text's number of bytes.
use chat_crdt.Prelude.{
  ℕ, ◌≡◌, refl, Bool, true, ◌&&◌, ◌||◌, Option, none, some, [], ◌∷◌, Text, all, length, leb, ltb,
  ◌==◌, text_Eq, nat_Eq, arith,
}
use chat_crdt.Server.Http.{Result, ◌>>◌, require, bad_request}
use chat_crdt.Server.Db.{Db}
use chat_crdt.Server.Gate.{is_base64url_char}
use chat_crdt.Server.RoomKeys.{GrantItem, UploadKeys, upload_grants}

abbrev pub max_key_id : ℕ
max_key_id = 100_000

abbrev pub max_grants_per_request : ℕ
max_grants_per_request = 1_000

-- A character of `/^[A-Za-z0-9_=-]+$/`.
abbrev pub is_base64_char : ℕ → Bool
is_base64_char c = is_base64url_char c || c == b'='

abbrev pub is_hex_char : ℕ → Bool
is_hex_char c = (leb b'0' c && leb c b'9') || (leb b'a' c && leb c b'f')

-- `/^[0-9a-f]{128}$/`
abbrev pub is_fingerprint : Text → Bool
is_fingerprint t = length t == 128 && all is_hex_char t

module _ (decoded_length : Text → ℕ) where
  -- `exactDecodedLengthValidator`
  abbrev pub has_decoded_length : ℕ → Text → Bool
  has_decoded_length expected t =
      ltb 0 (length t) && (all is_base64_char t && decoded_length t == expected)

  -- `GrantUploadItemDto`
  unfoldable pub is_valid_item : GrantItem → Bool
  is_valid_item g =
      (leb 1 g.key_id && leb g.key_id max_key_id)
      && (has_decoded_length 80 g.wrapped_key && is_fingerprint g.recipient_key_fp)

  -- `ClaimEpochDto`, which is optional.
  abbrev pub is_valid_claim : Option ℕ → Bool
  is_valid_claim none = true
  is_valid_claim (some expected) = leb expected max_key_id

  -- `UploadKeysDto`
  unfoldable pub is_valid_upload : UploadKeys → Bool
  unfolding is_valid_item
  is_valid_upload dto =
      is_valid_claim dto.claim_epoch
      && (leb (length dto.grants) max_grants_per_request && all is_valid_item dto.grants)

  -- `upload`, behind the ValidationPipe.
  unfoldable pub upload : Text → Text → UploadKeys → Db → Result (ℕ × Db × Option (Text × ℕ))
  unfolding is_valid_upload
  upload room actor dto db = do
    require (is_valid_upload dto) bad_request
    upload_grants room actor dto db

  -- Unpadded base64 of this many bytes.
  abbrev pub is_unpadded : ℕ → Text → Bool
  is_unpadded n t = ltb 0 (length t) && (all is_base64url_char t && decoded_length t == n)

  all_chars : (t : Text) → all is_base64url_char t ≡ true → all is_base64_char t ≡ true
  all_chars [] h = refl
  all_chars (c ∷ t) h = ground (arith, all_chars t)

  pub unpadded_length : (n : ℕ) (t : Text) → is_unpadded n t ≡ true → has_decoded_length n t ≡ true
  unpadded_length n t h = ground (arith, all_chars t)

  pub upload_lem :
      (room actor : Text) (dto : UploadKeys) (db : Db)
      → is_valid_upload dto ≡ true
      → upload room actor dto db ≡ upload_grants room actor dto db
  unfolding upload
  upload_lem room actor dto db h = rw (h, upload) refl
