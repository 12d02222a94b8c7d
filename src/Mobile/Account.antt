-- ===== src/Mobile/Account.antt =====
-- apps/mobile/src/store/auth.store.ts: who is logged in on the device, and what the secure storage keeps of it. The
-- key store (KeyCache) has its entries in the same storage.
pub mod History
pub mod Kept
pub mod Outlived
mod Tests
use chat_crdt.Prelude.{
  Bool, true, false, Option, none, some, List, [], ◌∷◌, Text, codes, get, put, delete, text_Eq,
}
use chat_crdt.Shared.Value.{Value, undefined, null, str, obj, field_of}
use chat_crdt.Server.Auth.{AuthResponse, UserDto}
use chat_crdt.Mobile.Cipher.{Sodium}
use chat_crdt.Mobile.Keys.{Identity, present}
use chat_crdt.Mobile.Chat.{ChatState, clear_all_e2ee_rejections}
use chat_crdt.Mobile.KeyCache.{Forms, Backend, ensure_identity_published}

-- `JSON.stringify` of an answer, and what `const { token, user } = JSON.parse(raw)` binds; none where it
-- throws, and `none` for a field that is missing.
pub record AuthJson : Type 0 where
  pub stringify : AuthResponse → Text
  pub destructure : Text → Option (Option Text × Option UserDto)

abbrev pub token_key : Text
token_key = codes "auth_token"

pub record AuthState : Type 0 where
  pub token : Option Text
  pub user : Option UserDto
  pub is_loading : Bool

abbrev pub initial_auth : AuthState
initial_auth = record { token = none; user = none; is_loading = true }

-- What comes of a POST: an error of `fetch` or of the reading of a good body, an error with the body's
-- JSON, or an account.
pub data AuthAnswer : Type 0 where
  lost : AuthAnswer
  rejected : Option Value → AuthAnswer
  accepted : AuthResponse → AuthAnswer

-- How a call ends: it returns, throws an `Error` of this value, or throws what something else threw.
pub data Ending : Type 0 where
  returned other_error : Ending
  thrown : Value → Ending

abbrev pub or_fallback : Text → Value → Value
or_fallback fallback undefined = str fallback
or_fallback fallback null = str fallback
or_fallback fallback v = v

-- `new Error((body as any).message ?? fallback)`, where a body that is no JSON is `{}`. Reading a field of
-- null throws, and a body of another type than an object has no message.
abbrev pub refusal : Text → Option Value → Ending
refusal fallback none = thrown (str fallback)
refusal fallback (some null) = other_error
refusal fallback (some (obj fs)) = thrown (or_fallback fallback (field_of (codes "message") fs))
refusal fallback (some _) = thrown (str fallback)

module _ (s : Sodium) where
  -- The stores that this one reads and changes, and the device's storage.
  pub record Device : Type 0 where
    pub auth : AuthState
    pub chat : ChatState s
    pub storage : Backend

  module _ (j : AuthJson) where
    -- The flag tells whether the storage takes the entry.
    abbrev pub keep_session : Bool → AuthResponse → Device → Ending × Device
    keep_session false auth d = (other_error, d)
    keep_session true auth d = (
      returned,
      record d {
        auth = record d.auth { token = some auth.token; user = some auth.user };
        storage = put token_key (j.stringify auth) d.storage;
      },
    )

    abbrev pub sign_in_end : Text → AuthAnswer → Bool → Device → Ending × Device
    sign_in_end fallback lost stored d = (other_error, d)
    sign_in_end fallback (rejected body) stored d = (refusal fallback body, d)
    sign_in_end fallback (accepted auth) stored d = keep_session stored auth d

    -- `login` from the answer on.
    unfoldable pub login_end : AuthAnswer → Bool → Device → Ending × Device
    unfolding put field_of
    login_end answer stored d = sign_in_end (codes "Login failed") answer stored d

    -- `register` from the answer on.
    unfoldable pub sign_up_end : AuthAnswer → Bool → Device → Ending × Device
    unfolding put field_of
    sign_up_end answer stored d = sign_in_end (codes "Register failed") answer stored d

    abbrev pub loaded_from : Option (Option Text × Option UserDto) → AuthState → AuthState
    loaded_from none a = record a { is_loading = false }
    loaded_from (some (token, user)) a = record { token = token; user = user; is_loading = false }

    abbrev pub load_raw : Option Text → AuthState → AuthState
    load_raw none a = record a { is_loading = false }
    load_raw (some raw) a = loaded_from (j.destructure raw) a

    -- `loadFromStorage`; the flag tells whether the storage can be read.
    unfoldable pub load_from_storage : Bool → Device → Device
    unfolding get
    load_from_storage false d = record d { auth = record d.auth { is_loading = false } }
    load_from_storage true d = record d {
      auth = load_raw (present (get token_key d.storage)) d.auth;
    }

  -- `logout`; the flag tells whether the entry could be deleted.
  unfoldable pub logout : Bool → Device → Ending × Device
  unfolding delete clear_all_e2ee_rejections
  logout false d = (other_error, d)
  logout true d = (
    returned,
    record d {
      storage = delete token_key d.storage;
      chat = clear_all_e2ee_rejections s d.chat;
      auth = record d.auth { token = none; user = none };
    },
  )

  module _ (f : Forms) where
    abbrev pub publish_with :
        Option Text → Option UserDto → Identity → Bool → Device → List (Text × Text) × Device
    unfolding ensure_identity_published
    publish_with (some token) (some user) i taken d =
        let (key, storage) = ensure_identity_published f i taken d.storage in
        (elim key [ none ↦ [] | some k ↦ (user.id, k) ∷ [] ], record d { storage = storage })
    publish_with _ _ i taken d = ([], d)

    -- What `useE2eeCipher` of apps/mobile/src/hooks/useE2ee.ts does first when an encrypted room is opened:
    -- which key it publishes, and for whom. The flag tells whether the server takes it.
    unfoldable pub open_encrypted_room : Identity → Bool → Device → List (Text × Text) × Device
    unfolding ensure_identity_published
    open_encrypted_room i taken d = publish_with d.auth.token d.auth.user i taken d
