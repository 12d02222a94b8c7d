-- ===== src/Mobile/KeyCache.antt =====
-- apps/mobile/src/crypto/keyStore.ts and e2eeStickyStore.ts: the keys and flags that a device keeps. The secure
-- storage is a map; JSON and the decimal form of numbers are parameters.
pub mod Separate
pub mod Cached
pub mod Published
mod Tests
use chat_crdt.Prelude.{
  ℕ, Bool, true, false, ◌||◌, Option, none, some, List, [], ◌∷◌, ◌++◌, Text, codes, Map, get, put,
  delete, ltb, ◌==◌, if◌then◌else◌, text_Eq,
}
use chat_crdt.Mobile.Keys.{Identity, present}

-- `String(n)`, `Number(s)`, and the JSON of a key pair.
pub record Forms : Type 0 where
  pub show : ℕ → Text
  pub read : Text → ℕ
  pub json_of_identity : Identity → Text
  pub identity_of_json : Text → Option Identity

abbrev pub identity_storage_key : Text
identity_storage_key = codes "e2ee.identity"

abbrev pub current_epoch_storage_key : Text → Text
current_epoch_storage_key room = codes "e2ee.currentEpoch." ++ room

abbrev pub sticky_key : Text → Text
sticky_key room = codes "e2ee-ever." ++ room

abbrev pub Backend : Type 0
Backend = Map Text Text

-- `markE2ee`
unfoldable pub mark_e2ee : Text → Backend → Backend
unfolding put
mark_e2ee room b = put (sticky_key room) (codes "1") b

abbrev pub is_marked : Option Text → Bool
is_marked none = false
is_marked (some t) = t == codes "1"

-- `wasEverE2ee`; a storage that cannot be read counts as marked.
unfoldable pub was_ever_e2ee : Text → Option Backend → Bool
unfolding get
was_ever_e2ee room none = true
was_ever_e2ee room (some b) = is_marked (get (sticky_key room) b)

abbrev pub is_newer : ℕ → Option ℕ → Bool
is_newer key_id none = true
is_newer key_id (some current) = ltb current key_id

module _ (f : Forms) where
  abbrev pub room_key_storage_key : Text → ℕ → Text
  room_key_storage_key room key_id = codes "e2ee.roomKey." ++ (room ++ (codes "." ++ f.show key_id))

  abbrev pub parse_identity : Option Text → Option Identity
  parse_identity none = none
  parse_identity (some raw) = f.identity_of_json raw

  -- `getIdentity`; it throws where the JSON does not parse, which is none here too.
  unfoldable pub get_identity : Backend → Option Identity
  unfolding get
  get_identity b = parse_identity (present (get identity_storage_key b))

  unfoldable pub set_identity : Identity → Backend → Backend
  unfolding put
  set_identity i b = put identity_storage_key (f.json_of_identity i) b

  unfoldable pub clear_identity : Backend → Backend
  unfolding delete
  clear_identity b = delete identity_storage_key b

  abbrev pub read_epoch : Option Text → Option ℕ
  read_epoch none = none
  read_epoch (some raw) = some (f.read raw)

  unfoldable pub get_cached_current_epoch : Text → Backend → Option ℕ
  unfolding get
  get_cached_current_epoch room b = read_epoch (get (current_epoch_storage_key room) b)

  unfoldable pub get_room_key : Text → ℕ → Backend → Option Text
  unfolding get
  get_room_key room key_id b = get (room_key_storage_key room key_id) b

  -- `cacheRoomKey`, with no other call between its reads and writes.
  unfoldable pub cache_room_key : Text → ℕ → Text → Backend → Backend
  unfolding get_cached_current_epoch put
  cache_room_key room key_id key b =
      let b' = put (room_key_storage_key room key_id) key b in
      if is_newer key_id (get_cached_current_epoch room b')
      then put (current_epoch_storage_key room) (f.show key_id) b'
      else b'

  -- What the server answers to the publishing of a key: accepted, or a failed request.
  abbrev pub persist_if : Bool → Identity → Backend → Backend
  persist_if true i b = set_identity i b
  persist_if false i b = b

  -- `ensureIdentityPublished` of apps/mobile/src/crypto/keyFlows.ts with the fresh key pair `i`: the
  -- key that it publishes, if any, and the storage once the server has answered.
  unfoldable pub ensure_identity_published : Identity → Bool → Backend → Option Text × Backend
  unfolding get_identity set_identity
  ensure_identity_published i accepted b = elim (get_identity b) [
    | some existing ↦ (none, b)
    | none ↦ (some i.public_key, persist_if accepted i b)
  ]
