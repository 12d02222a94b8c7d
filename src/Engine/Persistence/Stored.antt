-- ===== src/Engine/Persistence/Stored.antt =====
-- What a local copy has stored, and what that restores.
use chat_crdt.Prelude.{
  ℕ, ◌%◌, ◌≡◌, ◌≢◌, refl, ap, Bool, true, false, ◌&&◌, Option, none, some, List, [], ◌∷◌, ◌++◌, map,
  all, leb, Text, Map, get, put, get-put, length, length-append, codes, if◌then◌else◌, text_Eq,
  text_eq_iff, arith,
}
use chat_crdt.Engine.Messages.{is_blank}
use chat_crdt.Engine.Persistence.{
  Documents, key_of, legacy_key, has_scope, apply_raw, uint8_to_base64, base64_to_uint8,
}
use chat_crdt.Engine.Persistence.Events.{Event, fails, begins_discard, ends_discard, destroys}

-- What the copy relies on: a document's state, applied to a new document, gives the document; it is
-- not empty and consists of bytes; `atob` undoes `btoa` on bytes.
pub record IsFaithful (l : Documents) : Type 0 where
  pub restores : (d : l.Doc) → l.apply_update l.empty (l.encode_state d) ≡ some d
  pub some_state : (d : l.Doc) → is_blank (l.encode_state d) ≡ false
  pub state_bytes : (d : l.Doc) → all (λ c. leb c 255) (l.encode_state d) ≡ true
  pub base64 :
      (xs : Text)
      → all (λ c. leb c 255) xs ≡ true
      → (s : Text) × (l.btoa xs ≡ some s) × (l.atob s ≡ some xs)
  pub no_text : l.atob [] ≡ some []

pub bytes_kept : (xs : List ℕ) → all (λ c. leb c 255) xs ≡ true → map (λ c. c % 256) xs ≡ xs
bytes_kept [] h = refl
bytes_kept (x ∷ xs) h = ground (arith, bytes_kept xs)

-- The value after the writes.
abbrev pub last_of : List Text → Option Text → Option Text
last_of [] o = o
last_of (w ∷ ws) o = last_of ws (some w)

pub last_of-append :
    (ws : List Text) (w : Text) (o : Option Text) → last_of (ws ++ w ∷ []) o ≡ some w
last_of-append [] w o = refl
last_of-append (v ∷ ws) w o = last_of-append ws w (some v)

abbrev pub is_some {ℓ} : {A : Type ℓ} → Option A → Bool
is_some none = false
is_some (some a) = true

-- Does `load` look at a document from before the scopes?
abbrev pub has_legacy : Option Text → Text → Map Text Text → Bool
has_legacy scope room storage = has_scope scope && is_some (get (legacy_key room) storage)

module _ (l : Documents) where
  abbrev pub restored : Option Text → Option l.Doc
  restored none = some l.empty
  restored (some b64) =
      if is_blank b64 then some l.empty else apply_raw l l.empty (base64_to_uint8 l b64)

  -- What `persist` writes restores the document.
  pub stored_state :
      (f : IsFaithful l) (d : l.Doc)
      → (s : Text) × (uint8_to_base64 l (l.encode_state d) ≡ some s) × (restored (some s) ≡ some d)
  unfolding uint8_to_base64 base64_to_uint8
  stored_state f d =
      let (s, encoded, decoded) = f.base64 (l.encode_state d) (f.state_bytes d) in
      (s, encoded, go s decoded)
    where
      go : (s : Text) → l.atob s ≡ some (l.encode_state d) → restored (some s) ≡ some d
      go [] e = absurd (ground (arith, f.no_text, f.some_state d))
      go (c ∷ s) e = rw (e, bytes_kept (l.encode_state d) (f.state_bytes d)) (f.restores d)

  -- An edit, the timer, the end of a write, or a further call of `load`.
  abbrev pub is_working : Event l → Bool
  is_working fails = false
  is_working begins_discard = false
  is_working ends_discard = false
  is_working destroys = false
  is_working _ = true

pub key-ne-legacy_key :
    (scope : Option Text) (room : Text)
    → has_scope scope ≡ true
    → key_of scope room ≢ legacy_key room
key-ne-legacy_key none room h e = cc
key-ne-legacy_key (some []) room h e = cc
key-ne-legacy_key (some (c ∷ s)) room h e =
    omega (arith, ap length e, length-append s (codes ":" ++ room))

pub has_legacy-put :
    (scope : Option Text) (room w : Text) (storage : Map Text Text)
    → has_legacy scope room storage ≡ false
    → has_legacy scope room (put (key_of scope room) w storage) ≡ false
has_legacy-put scope room w storage h = ground (
  arith,
  get-put (key_of scope room) (legacy_key room) w storage,
  text_eq_iff (key_of scope room) (legacy_key room),
  key-ne-legacy_key scope room,
)
