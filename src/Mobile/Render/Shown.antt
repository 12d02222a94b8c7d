-- ===== src/Mobile/Render/Shown.antt =====
-- What the app shows of a message in an encrypted room.
use chat_crdt.Prelude.{ℕ, ◌≡◌, refl, ap, ◌∙◌, Bool, true, some, List, Text, get, nat_Eq}
use chat_crdt.Shared.Value.{Number}
use chat_crdt.Shared.Message.{Message}
use chat_crdt.Mobile.Cipher.{
  Sodium, IsSealing, ad_value, build_envelope, Cipher, envelope, parse_envelope, has_key, key_for,
  encrypt,
}
use chat_crdt.Mobile.Cipher.Roundtrip.{encrypt_lem, parse-build_envelope, decrypt-encrypt}
use chat_crdt.Mobile.Render.{decrypted, ad_of, resolve_message_render_state}

module _ (s : Sodium) where
  -- A message whose content a cipher encrypted under its highest epoch, with the message's own fields
  -- as additional data, shows the text that was encrypted, in an encrypted room, to every device
  -- whose cipher holds the same key for that epoch.
  pub render-encrypt :
      (c d : Cipher s) (k : ℕ) (key : s.Key) (nonce : List ℕ) (p : Text) (m : Message)
      (waits : Number → Bool)
      → IsSealing s k nonce p (s.json_stringify (ad_value (ad_of m))) key
      → c.current_key_id ≡ some k
      → get k c.keys_by_epoch ≡ some key
      → get k d.keys_by_epoch ≡ some key
      → encrypt s c nonce p (ad_of m) ≡ some m.content
      → resolve_message_render_state s m (some d) waits true ≡ decrypted p
  unfolding resolve_message_render_state has_key key_for
  render-encrypt c d k key nonce p m waits law i j held h =
      let (t, e) = encrypt_lem s c k key nonce p (ad_of m) m.content i j h in
      let read = (decrypt-encrypt s c d k key nonce p (ad_of m) m.content law i j held h).1 in
      let parsed : parse_envelope s m.content ≡ envelope _ =
        ap (parse_envelope s) (e ∙ ap (build_envelope s k (s.to_base64 nonce)) law.is_bytes)
        ∙ parse-build_envelope s k (s.to_base64 nonce) (s.to_base64 law.bytes) law.parsed in
      rw (parsed, resolve_message_render_state)
        (rw (held, has_key, key_for) (rw (read, resolve_message_render_state) refl))
