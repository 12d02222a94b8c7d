-- ===== src/Mobile/Cipher/Roundtrip.antt =====
-- What is encrypted can be read back, and only the room's epoch is encrypted under.
use chat_crdt.Prelude.{
  ℕ, ◌≡◌, refl, ◌⊎◌, inl, inr, false, Option, none, some, List, Text, get, starts_with,
  starts_with-append, eq_iff, nat_Eq, arith, text_Eq, text_eq,
}
use chat_crdt.Shared.Value.{pos, field_of}
use chat_crdt.Engine.Messages.{Aad}
use chat_crdt.Mobile.Cipher.{
  Sodium, IsSealing, Cipher, envelope, e2ee_prefix, envelope_value, ad_value, build_envelope,
  parse_envelope, envelope_of, key_for, is_stale, encrypt, decrypt, open_envelope,
}

module _ (s : Sodium) where
  -- What `encrypt` returns, where the cipher has a highest epoch and its key.
  pub encrypt_lem :
      (c : Cipher s) (k : ℕ) (key : s.Key) (nonce : List ℕ) (p : Text) (ad : Aad) (content : Text)
      → c.current_key_id ≡ some k
      → get k c.keys_by_epoch ≡ some key
      → encrypt s c nonce p ad ≡ some content
      → (is_stale s c.expected_current_epoch k ≡ false)
        × (content
            ≡ build_envelope s k
                (s.to_base64 nonce)
                (s.aead_encrypt p (s.json_stringify (ad_value ad)) nonce key))
  unfolding encrypt
  encrypt_lem c k key nonce p ad content i j h = ground arith

  pub parse-build_envelope :
      (k : ℕ) (n c : Text)
      → s.json_parse (s.json_stringify (envelope_value k n c)) ≡ some (envelope_value k n c)
      → parse_envelope s (build_envelope s k n c)
        ≡ envelope (record { key_id = pos k; nonce = n; ciphertext = c })
  unfolding parse_envelope build_envelope envelope_of field_of text_eq
  parse-build_envelope k n c parsed =
      rw (starts_with-append e2ee_prefix (s.json_stringify (envelope_value k n c))) (rw parsed refl)

  not_stale :
      (expected : Option ℕ) (k : ℕ)
      → is_stale s expected k ≡ false
      → (expected ≡ none) ⊎ (expected ≡ some k)
  not_stale none k t = inl refl
  not_stale (some x) k t = inr (ground (arith, eq_iff k x))

  -- Take a cipher with a highest epoch and the key of that epoch, which encrypts a message. Then that
  -- epoch is the room's, if the room's has been set, and every cipher that holds this key for the
  -- epoch decrypts the message, with the same additional data, to the text.
  pub decrypt-encrypt :
      (c d : Cipher s) (k : ℕ) (key : s.Key) (nonce : List ℕ) (p : Text) (ad : Aad) (content : Text)
      → IsSealing s k nonce p (s.json_stringify (ad_value ad)) key
      → c.current_key_id ≡ some k
      → get k c.keys_by_epoch ≡ some key
      → get k d.keys_by_epoch ≡ some key
      → encrypt s c nonce p ad ≡ some content
      → ((c.expected_current_epoch ≡ none) ⊎ (c.expected_current_epoch ≡ some k))
        × (decrypt s d content ad ≡ some p)
  unfolding decrypt key_for starts_with
  decrypt-encrypt c d k key nonce p ad content law i j held h =
      let (t, e) = encrypt_lem c k key nonce p ad content i j h in
      (
        not_stale c.expected_current_epoch k t,
        rw e (
            rw law.is_bytes (
              rw
                (
                  parse-build_envelope k (s.to_base64 nonce) (s.to_base64 law.bytes) law.parsed,
                  decrypt,
                )
                (rw (held, decrypt, key_for)
                  (rw (law.nonce_back, open_envelope)
                    (rw (law.bytes_back, open_envelope) law.opened))))),
      )
