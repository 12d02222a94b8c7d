-- ===== src/Mobile/Keys.antt =====
-- apps/mobile/src/crypto/keyFlows.ts, for one room: handing out the keys of its epochs, claiming an epoch, and loading
-- the own grants. The sealed boxes and the fingerprint are the record `Box`. The device's key store
-- is taken to answer.
pub mod Sealed
pub mod Samples
pub mod Accepted
pub mod Loaded
pub mod Served
pub mod Opened
use chat_crdt.Prelude.{
  ℕ, ◌+◌, Bool, true, false, Option, none, some, List, [], ◌∷◌, Text, Map, get, put, map, nat_Eq,
}
use chat_crdt.Server.RoomKeys.{GrantItem, UploadKeys, PendingGrant, MemberPublicKey}
use chat_crdt.Mobile.Cipher.{Sodium, Cipher, set_key}

-- A row of the own grants, as the server sends it.
pub record MyGrant : Type 0 where
  pub key_id : ℕ
  pub wrapped_key : Text

pub record Identity : Type 0 where
  pub public_key : Text
  pub private_key : Text

pub record Box (s : Sodium) : Type 0 where
  -- `crypto_box_seal`, of the base64 of a key for that of a public key. Their decoding or the call may
  -- throw.
  pub seal : Text → Text → Option Text
  -- `crypto_box_seal_open` and the decoding of its input, which may throw.
  pub seal_open : Text → Identity → Option s.Key
  pub key_of_base64 : Text → Option s.Key
  pub base64_of_key : s.Key → Text
  pub compute_public_key_fp : Text → Text

pub record KeyStore : Type 0 where
  pub identity : Option Identity
  pub room_keys : Map ℕ Text

-- `if (!keyBase64)`: an empty text is no key.
abbrev pub present : Option Text → Option Text
present none = none
present (some []) = none
present (some (c ∷ t)) = some (c ∷ t)

module _ (s : Sodium) (box : Box s) where
  abbrev pub item : Text → Text → ℕ → Text → GrantItem
  item user public_key key_id wrapped = record {
    user_id = user;
    key_id = key_id;
    wrapped_key = wrapped;
    recipient_key_fp = box.compute_public_key_fp public_key;
  }

  abbrev pub item_of : Text → Text → ℕ → Option Text → Option GrantItem
  item_of user public_key key_id none = none
  item_of user public_key key_id (some wrapped) = some (item user public_key key_id wrapped)

  -- A grant of the key, or none where sealing it throws.
  abbrev pub grant_for : Text → Text → ℕ → Text → Option GrantItem
  grant_for user public_key key_id key = item_of user public_key key_id (box.seal key public_key)

  -- One grant more, unless something has thrown.
  abbrev pub add : Option GrantItem → Option (List GrantItem) → Option (List GrantItem)
  add none gs = none
  add (some g) none = none
  add (some g) (some gs) = some (g ∷ gs)

  -- The loop of `servePendingGrants`, or none where it throws.
  unfoldable pub served_grants : List PendingGrant → KeyStore → Option (List GrantItem)
  unfolding get
  served_grants [] store = some []
  served_grants (p ∷ ps) store =
      let rest = served_grants ps store in
      elim (present (get p.key_id store.room_keys)) [
        | none ↦ rest
        | some key ↦ add (grant_for p.user_id p.public_key p.key_id key) rest
      ]

  -- What `servePendingGrants` posts, if anything.
  abbrev pub post_unless_empty : List GrantItem → Option UploadKeys
  post_unless_empty [] = none
  post_unless_empty (g ∷ gs) = some (record { claim_epoch = none; grants = g ∷ gs })

  abbrev pub post_or_throw : Option (List GrantItem) → Option (Option UploadKeys)
  post_or_throw none = none
  post_or_throw (some gs) = some (post_unless_empty gs)

  -- `servePendingGrants` up to its post; none where it throws.
  unfoldable pub serve_pending_grants : List PendingGrant → KeyStore → Option (Option UploadKeys)
  unfolding served_grants
  serve_pending_grants pending store = post_or_throw (served_grants pending store)

  -- The grants of `enableOrRotateRoomKey`, or none where wrapping the key throws.
  unfoldable pub member_grants : ℕ → Text → List MemberPublicKey → Option (List GrantItem)
  member_grants key_id room_key [] = some []
  member_grants key_id room_key (m ∷ ms) =
      add (grant_for m.user_id m.public_key key_id room_key) (member_grants key_id room_key ms)

  abbrev pub claim_with : ℕ → Option (List GrantItem) → Option UploadKeys
  claim_with expected none = none
  claim_with expected (some gs) = some (record { claim_epoch = some expected; grants = gs })

  -- What `enableOrRotateRoomKey` posts for a fresh key.
  unfoldable pub claim_request : ℕ → Text → List MemberPublicKey → Option UploadKeys
  unfolding member_grants
  claim_request expected room_key members =
      claim_with expected (member_grants (expected + 1) room_key members)

  -- `enableOrRotateRoomKey` once the server has answered.
  unfoldable pub claimed : ℕ → Text → s.Key → KeyStore × Cipher s → KeyStore × Cipher s
  unfolding put set_key
  claimed expected room_key key (store, cipher) = (
    record store { room_keys = put (expected + 1) room_key store.room_keys },
    set_key s (expected + 1) key cipher,
  )

  abbrev pub loaded_if : ℕ → Option s.Key → KeyStore → Cipher s → KeyStore × Cipher s
  loaded_if key_id none store cipher = (store, cipher)
  loaded_if key_id (some key) store cipher = (store, set_key s key_id key cipher)

  abbrev pub unwrapped_if : ℕ → Option s.Key → KeyStore → Cipher s → KeyStore × Cipher s
  unwrapped_if key_id none store cipher = (store, cipher)
  unwrapped_if key_id (some key) store cipher = (
    record store { room_keys = put key_id (box.base64_of_key key) store.room_keys },
    set_key s key_id key cipher,
  )

  -- The body of the loop of `fetchAndLoadMyGrants`, a `try` around all of it.
  unfoldable pub load_grant : Identity → MyGrant → KeyStore × Cipher s → KeyStore × Cipher s
  unfolding get
  load_grant identity g (store, cipher) = elim (present (get g.key_id store.room_keys)) [
    | some cached ↦ loaded_if g.key_id (box.key_of_base64 cached) store cipher
    | none ↦ unwrapped_if g.key_id (box.seal_open g.wrapped_key identity) store cipher
  ]

  unfoldable pub load_grants : Identity → List MyGrant → KeyStore × Cipher s → KeyStore × Cipher s
  unfolding load_grant
  load_grants identity [] held = held
  load_grants identity (g ∷ gs) held = load_grants identity gs (load_grant identity g held)

  -- `fetchAndLoadMyGrants`
  unfoldable pub fetch_and_load_my_grants : List MyGrant → KeyStore × Cipher s → KeyStore × Cipher s
  unfolding load_grants
  fetch_and_load_my_grants grants (store, cipher) = elim store.identity [
    | none ↦ (store, cipher)
    | some identity ↦ load_grants identity grants (store, cipher)
  ]
