-- ===== src/Mobile/Keys/Sealed.antt =====
-- What the keys' box is relied on for.
use chat_crdt.Prelude.{ℕ, ◌≤◌, ◌≡◌, refl, ap, true, ◌&&◌, some, Text, leb, text_Eq, nat_Eq, arith}
use chat_crdt.Server.RoomKeys.Upload.{
  max_key_id, is_fingerprint, is_valid_item, is_unpadded, unpadded_length,
}
use chat_crdt.Mobile.Cipher.{Sodium}
use chat_crdt.Mobile.Keys.{Box, item, item_of, grant_for}

-- Libsodium's base64 is URL-safe and unpadded. A key of 32 bytes is sealed for a public key of 32
-- bytes in 80 bytes, and a fingerprint is 64 bytes in hexadecimal.
pub record IsBox (s : Sodium) (box : Box s) (decoded_length : Text → ℕ) : Type 0 where
  pub sealed :
      (key public : Text)
      → is_unpadded decoded_length 32 key ≡ true
      → is_unpadded decoded_length 32 public ≡ true
      → (wrapped : Text) × (box.seal key public ≡ some wrapped)
        × (is_unpadded decoded_length 80 wrapped ≡ true)
  pub fingerprint : (public : Text) → is_fingerprint (box.compute_public_key_fp public) ≡ true

module _ (s : Sodium) (box : Box s) (decoded_length : Text → ℕ)
    (law : IsBox s box decoded_length) where
  -- A proper key is sealed, in a grant that meets the server's checks of it.
  pub grant_for_valid :
      (user public key : Text) (k : ℕ)
      → is_unpadded decoded_length 32 key ≡ true
      → is_unpadded decoded_length 32 public ≡ true
      → 1 ≤ k
      → k ≤ max_key_id
      → (wrapped : Text) × (box.seal key public ≡ some wrapped)
        × (grant_for s box user public k key ≡ some (item s box user public k wrapped))
        × (is_valid_item decoded_length (item s box user public k wrapped) ≡ true)
  unfolding is_valid_item
  grant_for_valid user public key k a b low high =
      let (wrapped, made, proper) = law.sealed key public a b in
      let fp = law.fingerprint public in
      let long = unpadded_length decoded_length 80 wrapped proper in
      let ranged : (leb 1 k && leb k max_key_id) ≡ true = ground arith in
      (wrapped, made, ap (item_of s box user public k) made, rw ranged (rw long (rw fp refl)))
