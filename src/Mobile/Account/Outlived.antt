-- ===== src/Mobile/Account/Outlived.antt =====
-- The key pair of a device and those who log in on it.
use chat_crdt.Prelude.{
  ℕ, ◌≡◌, refl, ap, ◌∙◌, Bool, true, false, Option, none, some, List, [], ◌∷◌, ◌++◌, Text, get, put,
  delete, get-put, get-delete, ◌==◌, text_Eq, text_eq, if◌then◌else◌, codes,
}
use chat_crdt.Server.Auth.{UserDto}
use chat_crdt.Mobile.Cipher.{Sodium}
use chat_crdt.Mobile.Keys.{Identity, present}
use chat_crdt.Mobile.KeyCache.{
  Forms, Backend, identity_storage_key, room_key_storage_key, current_epoch_storage_key, is_newer,
  parse_identity, get_identity, get_cached_current_epoch, cache_room_key, ensure_identity_published,
}
use chat_crdt.Mobile.Account.History.{
  Happening, logs_in, registers, logs_out, loads, starts, opens, caches, happen, history,
}
use chat_crdt.Mobile.Account.{
  AuthJson, token_key, AuthAnswer, lost, rejected, accepted, Device, sign_in_end, login_end,
  sign_up_end, load_from_storage, logout, publish_with, open_encrypted_room,
}

module _ (f : Forms) where
  identity-put :
      (k v : Text) (b : Backend)
      → (k == identity_storage_key) ≡ false
      → get_identity f (put k v b) ≡ get_identity f b
  unfolding get_identity
  identity-put k v b h =
      ap (λ (o : Option Text). parse_identity f (present o))
        (get-put k identity_storage_key v b
          ∙ ap (λ (t : Bool). if t then some v else get identity_storage_key b) h)

  identity-logout : (b : Backend) → get_identity f (delete token_key b) ≡ get_identity f b
  unfolding get_identity text_eq
  identity-logout b =
      ap (λ (o : Option Text). parse_identity f (present o))
        (get-delete token_key identity_storage_key b)

  identity-newer :
      (newer : Bool) (room : Text) (shown : Text) (b : Backend)
      → get_identity f (if newer then put (current_epoch_storage_key room) shown b else b)
        ≡ get_identity f b
  unfolding text_eq
  identity-newer true room shown b = identity-put (current_epoch_storage_key room) shown b refl
  identity-newer false room shown b = refl

  identity-cache_room_key :
      (room : Text) (key_id : ℕ) (key : Text) (b : Backend)
      → get_identity f (cache_room_key f room key_id key b) ≡ get_identity f b
  unfolding cache_room_key text_eq
  identity-cache_room_key room key_id key b =
      let b' = put (room_key_storage_key f room key_id) key b in
      identity-newer (is_newer key_id (get_cached_current_epoch f room b')) room (f.show key_id) b'
      ∙ identity-put (room_key_storage_key f room key_id) key b refl

  silent :
      (i mine : Identity) (taken : Bool) (b : Backend)
      → get_identity f b ≡ some mine
      → ensure_identity_published f i taken b ≡ (none, b)
  unfolding ensure_identity_published
  silent i mine taken b h = rw (h, ensure_identity_published) refl

  module _ (s : Sodium) (j : AuthJson) where
    abbrev IsSilent : Identity → List (Text × Text) × Device s → Type 0
    IsSilent mine (keys, d) = (keys ≡ []) × (get_identity f d.storage ≡ some mine)

    abbrev HasIdentity : Identity → Device s → Type 0
    HasIdentity mine d = get_identity f d.storage ≡ some mine

    sign_in-HasIdentity :
        (fallback : Text) (answer : AuthAnswer) (stored : Bool) (mine : Identity) (d : Device s)
        → HasIdentity mine d
        → HasIdentity mine (sign_in_end s j fallback answer stored d).1
    unfolding text_eq
    sign_in-HasIdentity fallback lost stored mine d h = h
    sign_in-HasIdentity fallback (rejected body) stored mine d h = h
    sign_in-HasIdentity fallback (accepted a) false mine d h = h
    sign_in-HasIdentity fallback (accepted a) true mine d h =
        identity-put token_key (j.stringify a) d.storage refl ∙ h

    publish-IsSilent :
        (o : Option Text) (u : Option UserDto) (i mine : Identity) (taken : Bool) (d : Device s)
        → HasIdentity mine d
        → IsSilent mine (publish_with s f o u i taken d)
    unfolding publish_with
    publish-IsSilent none u i mine taken d h = (refl, h)
    publish-IsSilent (some t) none i mine taken d h = (refl, h)
    publish-IsSilent (some t) (some u) i mine taken d h =
        let e = silent i mine taken d.storage h in
        (
          ap (λ (r : Option Text × Backend). elim r.0 [ none ↦ [] | some k ↦ (u.id, k) ∷ [] ]) e,
          ap (λ (r : Option Text × Backend). get_identity f r.1) e ∙ h,
        )

    happen-IsSilent :
        (h : Happening s) (mine : Identity) (d : Device s)
        → HasIdentity mine d
        → IsSilent mine (happen s j f h d)
    unfolding happen login_end sign_up_end logout load_from_storage open_encrypted_room
    happen-IsSilent (logs_in answer stored) mine d h =
        (refl, sign_in-HasIdentity (codes "Login failed") answer stored mine d h)
    happen-IsSilent (registers answer stored) mine d h =
        (refl, sign_in-HasIdentity (codes "Register failed") answer stored mine d h)
    happen-IsSilent (logs_out false) mine d h = (refl, h)
    happen-IsSilent (logs_out true) mine d h = (refl, identity-logout d.storage ∙ h)
    happen-IsSilent (loads false) mine d h = (refl, h)
    happen-IsSilent (loads true) mine d h = (refl, h)
    happen-IsSilent (starts chat) mine d h = (refl, h)
    happen-IsSilent (opens i taken) mine d h =
        publish-IsSilent d.auth.token d.auth.user i mine taken d h
    happen-IsSilent (caches room key_id key) mine d h =
        (refl, identity-cache_room_key room key_id key d.storage ∙ h)

    -- Once the storage of a device holds a key pair, no public key is ever published from it again, for
    -- whomever logs in there after others have logged out: the pair stays, and every opening of an
    -- encrypted room takes it for published.
    pub account_outlived :
        (hs : List (Happening s)) (mine : Identity) (d : Device s)
        → get_identity f d.storage ≡ some mine
        → let (published, later) = history s j f hs d in
          (published ≡ []) × (get_identity f later.storage ≡ some mine)
    unfolding history
    account_outlived [] mine d h = (refl, h)
    account_outlived (h ∷ hs) mine d i =
        let (keys, same) = happen-IsSilent h mine d i in
        let (rest, still) = account_outlived hs mine (happen s j f h d).1 same in
        (
          ap (λ (l : List (Text × Text)). l ++ (history s j f hs (happen s j f h d).1).0) keys
              ∙ rest,
          still,
        )
