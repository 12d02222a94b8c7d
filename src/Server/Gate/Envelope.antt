-- ===== src/Server/Gate/Envelope.antt =====
-- What a well-formed envelope is, apart from the code that tests for it.
use chat_crdt.Prelude.{
  ℕ, ◌%◌, ◌≤◌, ◌<◌, ◌≡◌, ◌≢◌, refl, ap, ◌∙◌, ◌↔◌, true, inl, inr, Option, some, List, [], ◌∷◌, ◌++◌,
  Text, codes, starts_with, starts_with-append, drop, length, all, All, all-All, All-all,
  text_eq_iff, Option-cases, text_Eq, nat_Eq, arith,
}
use mathlib.Core.List.{Perm}
use chat_crdt.Shared.Value.{Value, Fields, pos, num, str, obj, keys, field_of, as_object, as_string}
use chat_crdt.Shared.Sorting.{sort, sort_iff_perm}
use chat_crdt.Server.Gate.{
  e2ee_prefix, envelope_keys, message_keys, same_texts, has_exact_keys, is_base64url,
  is_base64url_char, is_one, is_positive_int, well_formed_fields, is_well_formed_envelope,
  is_enveloped_message,
}

same_texts_iff : (xs ys : List Text) → (same_texts xs ys ≡ true) ↔ (xs ≡ ys)
same_texts_iff [] [] = ground arith
same_texts_iff [] (y ∷ ys) = ground arith
same_texts_iff (x ∷ xs) [] = ground arith
same_texts_iff (x ∷ xs) (y ∷ ys) =
    ground (arith, text_eq_iff x y, (same_texts_iff xs ys).0, (same_texts_iff xs ys).1)

-- The order in which an object lists its keys does not matter.
has_exact_keys_iff :
    (fs : Fields) (ks : List Text)
    → sort ks ≡ ks
    → (has_exact_keys fs ks ≡ true) ↔ Perm (keys fs) ks
unfolding has_exact_keys
has_exact_keys_iff fs ks s =
    let (to, from) = same_texts_iff (sort (keys fs)) ks in
    let (to', from') = sort_iff_perm (keys fs) ks s in (λ h. to' (to h), λ p. from (from' p))

-- Unpadded base64url text of at least `lo` and at most `hi` characters.
pub record IsBase64url (v : Value) (lo hi : ℕ) : Type 0 where
  pub text : Text
  pub is_text : v ≡ str text
  pub long : lo ≤ length text
  pub short : length text ≤ hi
  pub unpadded : length text % 4 ≢ 1
  pub nonempty : 0 < length text
  pub alphabet : All (λ c. is_base64url_char c ≡ true) text

-- The fields of an envelope, in any order and with no others beside them.
pub record IsEnvelope (fs : Fields) : Type 0 where
  pub exact : Perm (keys fs) envelope_keys
  pub version : field_of (codes "v") fs ≡ num (pos 1)
  pub epoch : ℕ
  pub is_epoch : field_of (codes "keyId") fs ≡ num (pos epoch)
  pub positive : 0 < epoch
  pub nonce : IsBase64url (field_of (codes "nonce") fs) 32 32
  pub ciphertext : IsBase64url (field_of (codes "ciphertext") fs) 23 21_355

is_base64url_sound : (v : Value) (lo hi : ℕ) → is_base64url v lo hi ≡ true → IsBase64url v lo hi
unfolding is_base64url
is_base64url_sound (str s) lo hi h = record {
  text = s;
  is_text = refl;
  long = ground arith;
  short = ground arith;
  unpadded = ground arith;
  nonempty = ground arith;
  alphabet = all-All is_base64url_char s (ground arith);
}
is_base64url_sound _ lo hi h = cc

is_base64url_complete : (v : Value) (lo hi : ℕ) → IsBase64url v lo hi → is_base64url v lo hi ≡ true
unfolding is_base64url
is_base64url_complete v lo hi b =
    let full : all is_base64url_char b.text ≡ true = All-all is_base64url_char b.text b.alphabet in
    rw b.is_text (ground (arith, b.long, b.short, b.unpadded, b.nonempty))

is_one_iff : (v : Value) → is_one v ≡ true → v ≡ num (pos 1)
is_one_iff v h = ground arith

is_positive_int_sound :
    (v : Value) → is_positive_int v ≡ true → (n : ℕ) × (v ≡ num (pos n)) × (0 < n)
is_positive_int_sound (num (pos n)) h = (n, refl, ground arith)
is_positive_int_sound _ h = cc

envelope_keys_sorted : sort envelope_keys ≡ envelope_keys
unfolding sort
envelope_keys_sorted = refl

message_keys_sorted : sort message_keys ≡ message_keys
unfolding sort
message_keys_sorted = refl

well_formed_fields_sound : (fs : Fields) → well_formed_fields fs ≡ true → IsEnvelope fs
unfolding well_formed_fields
well_formed_fields_sound fs h =
    let (n, e, p) = is_positive_int_sound (field_of (codes "keyId") fs) (ground arith) in
    record {
      exact = (has_exact_keys_iff fs envelope_keys envelope_keys_sorted).0 (ground arith);
      version = is_one_iff (field_of (codes "v") fs) (ground arith);
      epoch = n;
      is_epoch = e;
      positive = p;
      nonce = is_base64url_sound _ 32 32 (ground arith);
      ciphertext = is_base64url_sound _ 23 21_355 (ground arith);
    }

well_formed_fields_complete : (fs : Fields) → IsEnvelope fs → well_formed_fields fs ≡ true
unfolding well_formed_fields
well_formed_fields_complete fs e =
    rw
      (
        (has_exact_keys_iff fs envelope_keys envelope_keys_sorted).1 e.exact,
        e.version,
        e.is_epoch,
        is_base64url_complete _ 32 32 e.nonce,
        is_base64url_complete _ 23 21_355 e.ciphertext,
      )
      (ground (arith, e.positive))

-- The prefix `E2E1`, then the JSON of an envelope.
pub record IsEnvelopeText (json_parse : Text → Option Value) (content : Text) : Type 0 where
  pub json : Text
  pub prefixed : content ≡ e2ee_prefix ++ json
  pub fields : Fields
  pub parses : json_parse json ≡ some (obj fields)
  pub envelope : IsEnvelope fields

-- A message object: its six keys in any order, and encrypted content.
pub record IsEnvelopedMessage (json_parse : Text → Option Value) (v : Value) : Type 0 where
  pub fields : Fields
  pub is_object : v ≡ obj fields
  pub exact : Perm (keys fields) message_keys
  pub content : Text
  pub is_content : field_of (codes "content") fields ≡ str content
  pub encrypted : IsEnvelopeText json_parse content

starts_with-split : (p s : Text) → starts_with p s ≡ true → s ≡ p ++ drop (length p) s
unfolding starts_with
starts_with-split [] s h = refl
starts_with-split (c ∷ p) [] h = cc
starts_with-split (c ∷ p) (d ∷ s) h = ground (arith, starts_with-split p s)

drop-append : (p s : Text) → drop (length p) (p ++ s) ≡ s
drop-append [] s = refl
drop-append (c ∷ p) s = drop-append p s

as_object_sound : (v : Value) (fs : Fields) → as_object v ≡ some fs → v ≡ obj fs
as_object_sound v fs h = ground arith

as_string_sound : (v : Value) (s : Text) → as_string v ≡ some s → v ≡ str s
as_string_sound v s h = ground arith

module _ (json_parse : Text → Option Value) where
  envelope_sound :
      (content : Text)
      → is_well_formed_envelope json_parse content ≡ true
      → IsEnvelopeText json_parse content
  unfolding is_well_formed_envelope
  envelope_sound content h = elim (Option-cases (json_parse (drop 4 content))) [
    | inl e ↦ ground arith
    | inr (v, e) ↦ elim (Option-cases (as_object v)) [
      | inl f ↦ ground arith
      | inr (fs, f) ↦ record {
        json = drop 4 content;
        prefixed = starts_with-split e2ee_prefix content (ground arith);
        fields = fs;
        parses = e ∙ ap some (as_object_sound v fs f);
        envelope = well_formed_fields_sound fs (ground arith);
      }
    ]
  ]

  envelope_complete :
      (content : Text)
      → IsEnvelopeText json_parse content
      → is_well_formed_envelope json_parse content ≡ true
  unfolding is_well_formed_envelope
  envelope_complete content t =
      rw
        (
          t.prefixed,
          starts_with-append e2ee_prefix t.json,
          drop-append e2ee_prefix t.json,
          t.parses,
        )
        (well_formed_fields_complete t.fields t.envelope)

  message_sound :
      (v : Value) → is_enveloped_message json_parse v ≡ true → IsEnvelopedMessage json_parse v
  unfolding is_enveloped_message
  message_sound v h = elim (Option-cases (as_object v)) [
    | inl e ↦ ground arith
    | inr (fs, e) ↦ elim (Option-cases (as_string (field_of (codes "content") fs))) [
      | inl f ↦ ground arith
      | inr (s, f) ↦ record {
        fields = fs;
        is_object = as_object_sound v fs e;
        exact = (has_exact_keys_iff fs message_keys message_keys_sorted).0 (ground arith);
        content = s;
        is_content = as_string_sound _ s f;
        encrypted = envelope_sound s (ground arith);
      }
    ]
  ]

  message_complete :
      (v : Value) → IsEnvelopedMessage json_parse v → is_enveloped_message json_parse v ≡ true
  unfolding is_enveloped_message
  message_complete v m = rw (m.is_object) (
      rw ((has_exact_keys_iff m.fields message_keys message_keys_sorted).1 m.exact, m.is_content)
        (envelope_complete m.content m.encrypted))

  -- The gate's test accepts exactly the message objects: an object with the six keys of a message
  -- in any order and no other, whose content is `E2E1` and then JSON that parses to an object
  -- with the four keys of an envelope in any order and no other: version 1, a positive whole epoch,
  -- a nonce of 32 and a ciphertext of 23 to 21355 characters, both unpadded base64url.
  pub is_enveloped_message_iff :
      (v : Value) → (is_enveloped_message json_parse v ≡ true) ↔ IsEnvelopedMessage json_parse v
  is_enveloped_message_iff v = (message_sound v, message_complete v)
