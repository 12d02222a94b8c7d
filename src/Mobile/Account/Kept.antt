-- ===== src/Mobile/Account/Kept.antt =====
-- The session that a device's storage keeps.
use chat_crdt.Prelude.{
  ◌≡◌, refl, sym, ap, ◌∙◌, Bool, true, false, Option, none, some, List, [], ◌∷◌, Text, All, get,
  put, get-put, get-delete, text_Eq, text_eq, ◌⊎◌, inl, inr, codes,
}
use chat_crdt.Server.Auth.{AuthResponse, UserDto}
use chat_crdt.Mobile.Cipher.{Sodium}
use chat_crdt.Mobile.Keys.{Identity, present}
use chat_crdt.Mobile.Chat.{ChatState}
use chat_crdt.Mobile.KeyCache.{Forms, Backend, cache_room_key, ensure_identity_published}
use chat_crdt.Mobile.Account.History.{
  Happening, logs_in, registers, logs_out, loads, starts, opens, caches, happen, history,
  token-cache_room_key, token-ensured,
}
use chat_crdt.Mobile.Account.{
  AuthJson, token_key, AuthState, initial_auth, AuthAnswer, lost, rejected, accepted, Device,
  keep_session, sign_in_end, login_end, sign_up_end, loaded_from, load_raw, load_from_storage,
  logout, publish_with, open_encrypted_room,
}

-- What the store relies on: JSON reads back what it wrote, which is not empty.
pub record IsJson (j : AuthJson) : Type 0 where
  pub nonempty : (a : AuthResponse) → present (some (j.stringify a)) ≡ some (j.stringify a)
  pub destructure-stringify :
      (a : AuthResponse) → j.destructure (j.stringify a) ≡ some (some a.token, some a.user)

module _ (s : Sodium) (j : AuthJson) (f : Forms) where
  -- Can the storage be read?
  abbrev pub IsReadable : Happening s → Type 0
  IsReadable (loads false) = ⊥
  IsReadable _ = Unit

  abbrev Who : Type 0
  Who = Option Text × Option UserDto

  abbrev who : AuthState → Who
  who a = (a.token, a.user)

  abbrev or_nobody : Option Who → Who
  or_nobody none = (none, none)
  or_nobody (some w) = w

  -- Who is logged in by an entry.
  abbrev session_from : Option Text → Who
  session_from none = (none, none)
  session_from (some raw) = or_nobody (j.destructure raw)

  abbrev session : Backend → Who
  session b = session_from (present (get token_key b))

  abbrev IsKept : Device s → Type 0
  IsKept d =
      ((d.auth.is_loading ≡ true) × (who d.auth ≡ (none, none))) ⊎ (who d.auth ≡ session d.storage)

  IsKept-storage :
      (d : Device s) (b : Backend)
      → get token_key b ≡ get token_key d.storage
      → IsKept d
      → IsKept (record d { storage = b })
  IsKept-storage d b e (inl nobody) = inl nobody
  IsKept-storage d b e (inr k) =
      inr (k ∙ ap (λ (o : Option Text). session_from (present o)) (sym e))

  loaded-who :
      (o : Option Who) (a : AuthState)
      → (who a ≡ (none, none)) ⊎ (who a ≡ or_nobody o)
      → who (loaded_from s j o a) ≡ or_nobody o
  loaded-who none a (inl e) = e
  loaded-who none a (inr e) = e
  loaded-who (some w) a k = refl

  load_raw-who :
      (o : Option Text) (a : AuthState)
      → (who a ≡ (none, none)) ⊎ (who a ≡ session_from o)
      → who (load_raw s j o a) ≡ session_from o
  load_raw-who none a (inl e) = e
  load_raw-who none a (inr e) = e
  load_raw-who (some raw) a k = loaded-who (j.destructure raw) a k

  forget :
      (d : Device s) → IsKept d → (who d.auth ≡ (none, none)) ⊎ (who d.auth ≡ session d.storage)
  forget d (inl (l, e)) = inl e
  forget d (inr e) = inr e

  load-who : (d : Device s) → IsKept d → who (load_from_storage s j true d).auth ≡ session d.storage
  unfolding load_from_storage
  load-who d k = load_raw-who (present (get token_key d.storage)) d.auth (forget d k)

  module _ (json : IsJson j) where
    keep_session-IsKept :
        (stored : Bool) (a : AuthResponse) (d : Device s)
        → IsKept d
        → IsKept (keep_session s j stored a d).1
    unfolding text_eq
    keep_session-IsKept false a d k = k
    keep_session-IsKept true a d k =
        let entry : get token_key (put token_key (j.stringify a) d.storage) ≡ some (j.stringify a) =
          get-put token_key token_key (j.stringify a) d.storage in
        inr (
          sym (
            ap (λ (o : Option Text). session_from (present o)) entry
            ∙ ap session_from (json.nonempty a)
            ∙ ap or_nobody (json.destructure-stringify a)))

    sign_in-IsKept :
        (fallback : Text) (answer : AuthAnswer) (stored : Bool) (d : Device s)
        → IsKept d
        → IsKept (sign_in_end s j fallback answer stored d).1
    sign_in-IsKept fallback lost stored d k = k
    sign_in-IsKept fallback (rejected body) stored d k = k
    sign_in-IsKept fallback (accepted a) stored d k = keep_session-IsKept stored a d k

    publish-IsKept :
        (o : Option Text) (u : Option UserDto) (i : Identity) (taken : Bool) (d : Device s)
        → IsKept d
        → IsKept (publish_with s f o u i taken d).1
    unfolding publish_with
    publish-IsKept none u i taken d k = k
    publish-IsKept (some t) none i taken d k = k
    publish-IsKept (some t) (some u) i taken d k =
        IsKept-storage d (ensure_identity_published f i taken d.storage).1
          (token-ensured s j f i taken d.storage) k

    happen-IsKept :
        (h : Happening s) (d : Device s) → IsReadable h → IsKept d → IsKept (happen s j f h d).1
    unfolding happen login_end sign_up_end logout open_encrypted_room text_eq
    happen-IsKept (logs_in answer stored) d r k =
        sign_in-IsKept (codes "Login failed") answer stored d k
    happen-IsKept (registers answer stored) d r k =
        sign_in-IsKept (codes "Register failed") answer stored d k
    happen-IsKept (logs_out false) d r k = k
    happen-IsKept (logs_out true) d r k = inr (
        ap (λ (o : Option Text). session_from (present o))
          (sym (get-delete token_key token_key d.storage)))
    happen-IsKept (loads false) d r k = elim r [ ]
    happen-IsKept (loads true) d r k = inr (load-who d k)
    happen-IsKept (starts chat) d r k = inl (refl, refl)
    happen-IsKept (opens i taken) d r k = publish-IsKept d.auth.token d.auth.user i taken d k
    happen-IsKept (caches room key_id key) d r k =
        IsKept-storage d (cache_room_key f room key_id key d.storage)
          (token-cache_room_key s j f room key_id key d.storage) k

    history-IsKept :
        (hs : List (Happening s)) (d : Device s)
        → All IsReadable hs
        → IsKept d
        → IsKept (history s j f hs d).1
    unfolding history
    history-IsKept [] d r k = k
    history-IsKept (h ∷ hs) d (r, rs) k =
        history-IsKept hs (happen s j f h d).1 rs (happen-IsKept h d r k)

    same_after :
        (d : Device s) (chat : ChatState s)
        → d.auth.is_loading ≡ false
        → IsKept d
        → who (load_from_storage s j true (happen s j f (starts chat) d).1).auth ≡ who d.auth
    unfolding happen
    same_after d chat l (inl (up, e)) = cc
    same_after d chat l (inr e) =
        load-who (record d { auth = initial_auth; chat = chat }) (inl (refl, refl)) ∙ sym e

    -- Whatever happens on a device whose storage can always be read, logins and logouts that fail
    -- included: once the app has looked at its storage, a new start of the app finds there the account
    -- that is logged in, or nobody.
    pub reload_exact :
        (hs : List (Happening s)) (d : Device s) (chat : ChatState s)
        → All IsReadable hs
        → let later = (history s j f hs (record d { auth = initial_auth })).1 in
          later.auth.is_loading ≡ false
          → let again = load_from_storage s j true (happen s j f (starts chat) later).1 in
            (again.auth.token ≡ later.auth.token) × (again.auth.user ≡ later.auth.user)
    reload_exact hs d chat r l =
        let d0 : Device s = record d { auth = initial_auth } in
        let same =
          same_after (history s j f hs d0).1 chat l (history-IsKept hs d0 r (inl (refl, refl))) in
        (ap (λ (w : Who). w.0) same, ap (λ (w : Who). w.1) same)
