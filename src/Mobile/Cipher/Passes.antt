-- ===== src/Mobile/Cipher/Passes.antt =====
-- What the client sends, against the server's gate.
use chat_crdt.Prelude.{
  ℕ, ◌%◌, ◌≤◌, ◌<◌, ◌≡◌, ◌≢◌, refl, ap, ◌∙◌, true, false, Option, some, List, [], ◌∷◌, Text, codes,
  length, ltb, get, All, Option-cases, Bool-cases, inl, inr, nat_Eq, text_Eq, text_eq, arith,
}
use chat_crdt.Shared.Value.{Value, pos, num, str, obj, end, field, field_of}
use chat_crdt.Shared.Message.{Message}
use chat_crdt.Shared.Sorting.{sort, sort_iff_perm}
use chat_crdt.Engine.Messages.{
  YArray, Aad, Config, sent, trim, is_blank, send_message, stored_content,
}
use chat_crdt.Server.Gate.{is_enveloped_message, envelope_keys, message_keys, is_base64url_char}
use chat_crdt.Server.Gate.Envelope.{IsBase64url, IsEnvelopeText, is_enveloped_message_iff}
use chat_crdt.Mobile.Cipher.{
  Sodium, IsSealing, Cipher, base64_length, envelope_value, ad_value, build_envelope, encrypt,
}
use chat_crdt.Mobile.Cipher.Roundtrip.{encrypt_lem}

-- A message as a value of the document, with the fields in the order of `sendMessage`.
abbrev pub message_value : Message → Value
message_value m = obj (
    field (codes "id") (str m.id) (
      field (codes "roomId") (str m.room_id) (
        field (codes "userId") (str m.user_id) (
          field (codes "username") (str m.username) (
            field (codes "content") (str m.content)
              (field (codes "createdAt") (num (pos m.created_at)) end))))))

-- No number of bytes takes 1 more than a multiple of 4 characters.
base64_length-unpadded : (n : ℕ) → base64_length n % 4 ≢ 1
base64_length-unpadded n = omega arith

-- What `sendMessage` gives to the cipher beside the text.
abbrev pub aad : Config → Text → ℕ → Aad
aad config id now = record {
  id = id;
  room_id = config.room_id;
  user_id = config.user_id;
  username = config.username;
  created_at = now;
}

module _ (s : Sodium) where
  sealed-IsBase64url :
      (text : Text) (n lo hi : ℕ)
      → length text ≡ base64_length n
      → All (λ c. is_base64url_char c ≡ true) text
      → lo ≤ base64_length n
      → base64_length n ≤ hi
      → 0 < lo
      → IsBase64url (str text) lo hi
  sealed-IsBase64url text n lo hi e url l h z = record {
    text = text;
    is_text = refl;
    long = rw e l;
    short = rw e h;
    unpadded = rw e (base64_length-unpadded n);
    nonempty = rw e (omega arith);
    alphabet = url;
  }

  encrypted-IsEnvelopeText :
      (c : Cipher s) (k : ℕ) (key : s.Key) (nonce : List ℕ) (p : Text) (ad : Aad) (content : Text)
      → IsSealing s k nonce p (s.json_stringify (ad_value ad)) key
      → length nonce ≡ 24
      → 1 ≤ length p
      → length p ≤ 4000
      → 0 < k
      → c.current_key_id ≡ some k
      → get k c.keys_by_epoch ≡ some key
      → encrypt s c nonce p ad ≡ some content
      → IsEnvelopeText s.json_parse content
  unfolding build_envelope field_of sort text_eq
  encrypted-IsEnvelopeText c k key nonce p ad content law n short long positive i j h =
      let (t, e) = encrypt_lem s c k key nonce p ad content i j h in
      let least = law.least in
      let most = law.most in
      record {
        json = s.json_stringify (envelope_value k (s.to_base64 nonce) (s.to_base64 law.bytes));
        prefixed = e ∙ ap (build_envelope s k (s.to_base64 nonce)) law.is_bytes;
        fields = _;
        parses = law.parsed;
        envelope = record {
          exact = (sort_iff_perm _ envelope_keys refl).0 refl;
          version = refl;
          epoch = k;
          is_epoch = refl;
          positive = positive;
          nonce =
              sealed-IsBase64url (s.to_base64 nonce) (length nonce) 32 32 law.nonce_length
                law.nonce_url (rw n (omega arith)) (rw n (omega arith)) (omega arith);
          ciphertext =
              sealed-IsBase64url (s.to_base64 law.bytes) (length law.bytes) 23 21_355
                law.bytes_length law.bytes_url (omega arith) (omega arith) (omega arith);
        };
      }

  blank_or_long : (t : Text) → is_blank t ≡ false → 1 ≤ length t
  blank_or_long [] h = cc
  blank_or_long (x ∷ t) h = omega arith

  sent_lem :
      (y : YArray) (f : Text → Aad → Option Text) (config : Config) (id : Text) (now : ℕ)
      (text : Text) (d d' : y.Doc) (m : Message)
      → config.encrypt ≡ some f
      → send_message y config id now text d ≡ sent m d'
      → (f (trim text) (aad config id now) ≡ some m.content)
        × (1 ≤ length (trim text))
        × (length (trim text) ≤ 4000)
  unfolding send_message
  sent_lem y f config id now text d d' m ciphered h =
      let ad = aad config id now in
      let is_f : stored_content config.encrypt (trim text) ad ≡ f (trim text) ad =
        ap (λ g. stored_content g (trim text) ad) ciphered in
      elim (Bool-cases (is_blank (trim text))) [
        | inl e ↦ ground arith
        | inr e ↦ elim (Bool-cases (ltb 4000 (length (trim text)))) [
          | inl e' ↦ ground arith
          | inr e' ↦ elim (Option-cases (f (trim text) ad)) [
            | inl n ↦ ground arith
            | inr (stored, n) ↦ (ground arith, blank_or_long (trim text) e, ground arith)
          ]
        ]
      ]

  -- Take a room whose cipher has a highest epoch, above 0, and its key, and a nonce of 24 bytes. A
  -- message that `sendMessage` puts into the document is one that the server's gate lets in: its six
  -- fields, and an envelope with all that the gate asks for.
  pub sent_passes_gate :
      (y : YArray) (c : Cipher s) (k : ℕ) (key : s.Key) (nonce : List ℕ) (config : Config)
      (id : Text) (now : ℕ) (text : Text) (d d' : y.Doc) (m : Message)
      → IsSealing s k nonce (trim text) (s.json_stringify (ad_value (aad config id now))) key
      → length nonce ≡ 24
      → 0 < k
      → c.current_key_id ≡ some k
      → get k c.keys_by_epoch ≡ some key
      → config.encrypt ≡ some (encrypt s c nonce)
      → send_message y config id now text d ≡ sent m d'
      → is_enveloped_message s.json_parse (message_value m) ≡ true
  unfolding field_of sort text_eq
  sent_passes_gate y c k key nonce config id now text d d' m law n positive i j ciphered h =
      let (encrypted, short, long) =
        sent_lem y (encrypt s c nonce) config id now text d d' m ciphered h in
      (is_enveloped_message_iff s.json_parse (message_value m)).1 (record {
        fields = _;
        is_object = refl;
        exact = (sort_iff_perm _ message_keys refl).0 refl;
        content = m.content;
        is_content = refl;
        encrypted =
            encrypted-IsEnvelopeText c k key nonce (trim text) (aad config id now) m.content law n
              short long positive i j encrypted;
      })
