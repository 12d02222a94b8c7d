-- ===== src/Mobile/Account/History.antt =====
-- What happens on a device, and what it leaves of the entry of the login.
use chat_crdt.Prelude.{
  ℕ, ◌≡◌, refl, ap, ◌∙◌, Bool, true, false, Option, none, some, List, [], ◌∷◌, ◌++◌, Text, get, put,
  get-put, ◌==◌, text_Eq, text_eq, if◌then◌else◌,
}
use chat_crdt.Mobile.Cipher.{Sodium}
use chat_crdt.Mobile.Keys.{Identity}
use chat_crdt.Mobile.Chat.{ChatState}
use chat_crdt.Mobile.KeyCache.{
  Forms, Backend, identity_storage_key, room_key_storage_key, current_epoch_storage_key, is_newer,
  get_identity, get_cached_current_epoch, cache_room_key, persist_if, set_identity,
  ensure_identity_published,
}
use chat_crdt.Mobile.Account.{
  AuthJson, token_key, initial_auth, AuthAnswer, Device, login_end, sign_up_end, load_from_storage,
  logout, open_encrypted_room,
}

-- What happens on the device: an answer to a login or a registration, a logout, the reading of the
-- storage, a new start of the app, the opening of an encrypted room, or a room key that is cached.
pub data Happening (s : Sodium) : Type 0 where
  logs_in registers : AuthAnswer → Bool → Happening s
  logs_out loads : Bool → Happening s
  starts : ChatState s → Happening s
  opens : Identity → Bool → Happening s
  caches : Text → ℕ → Text → Happening s

module _ (s : Sodium) (j : AuthJson) (f : Forms) where
  -- The keys that are published, each with its user, and the device afterwards.
  unfoldable pub happen : Happening s → Device s → List (Text × Text) × Device s
  unfolding login_end sign_up_end logout load_from_storage open_encrypted_room cache_room_key
  happen (logs_in answer stored) d = ([], (login_end s j answer stored d).1)
  happen (registers answer stored) d = ([], (sign_up_end s j answer stored d).1)
  happen (logs_out deleted) d = ([], (logout s deleted d).1)
  happen (loads readable) d = ([], load_from_storage s j readable d)
  happen (starts chat) d = ([], record d { auth = initial_auth; chat = chat })
  happen (opens i taken) d = open_encrypted_room s f i taken d
  happen (caches room key_id key) d =
      ([], record d { storage = cache_room_key f room key_id key d.storage })

  unfoldable pub history : List (Happening s) → Device s → List (Text × Text) × Device s
  unfolding happen
  history [] d = ([], d)
  history (h ∷ hs) d =
      let (keys, d1) = happen h d in let (rest, d2) = history hs d1 in (keys ++ rest, d2)

  -- The token's entry is left alone by whatever stands under another key.
  token-put :
      (k v : Text) (b : Backend)
      → (k == token_key) ≡ false
      → get token_key (put k v b) ≡ get token_key b
  token-put k v b h =
      get-put k token_key v b ∙ ap (λ (t : Bool). if t then some v else get token_key b) h

  token-ensure :
      (i : Identity) (taken : Bool) (o : Option Identity) (b : Backend)
      → get token_key (
          let (key, storage) : Option Text × Backend = elim o [
            | some existing ↦ (none, b)
            | none ↦ (some i.public_key, persist_if f taken i b)
          ] in
          storage)
        ≡ get token_key b
  unfolding set_identity text_eq
  token-ensure i taken (some existing) b = refl
  token-ensure i true none b = token-put identity_storage_key (f.json_of_identity i) b refl
  token-ensure i false none b = refl

  token-newer :
      (newer : Bool) (room : Text) (shown : Text) (b : Backend)
      → get token_key (if newer then put (current_epoch_storage_key room) shown b else b)
        ≡ get token_key b
  unfolding text_eq
  token-newer true room shown b = token-put (current_epoch_storage_key room) shown b refl
  token-newer false room shown b = refl

  pub token-cache_room_key :
      (room : Text) (key_id : ℕ) (key : Text) (b : Backend)
      → get token_key (cache_room_key f room key_id key b) ≡ get token_key b
  unfolding cache_room_key text_eq
  token-cache_room_key room key_id key b =
      let b' = put (room_key_storage_key f room key_id) key b in
      token-newer (is_newer key_id (get_cached_current_epoch f room b')) room (f.show key_id) b'
      ∙ token-put (room_key_storage_key f room key_id) key b refl

  pub token-ensured :
      (i : Identity) (taken : Bool) (b : Backend)
      → get token_key (ensure_identity_published f i taken b).1 ≡ get token_key b
  unfolding ensure_identity_published
  token-ensured i taken b = token-ensure i taken (get_identity f b) b
