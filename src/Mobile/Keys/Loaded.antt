-- ===== src/Mobile/Keys/Loaded.antt =====
-- Which keys are loaded from the own grants.
use chat_crdt.Prelude.{
  ℕ, ◌≡◌, ap, ◌∙◌, true, Option, none, some, List, [], ◌∷◌, ◌++◌, get, get-put, inl, inr, ◌==◌,
  nat_Eq, nat_eq_iff, Option-cases, if◌then◌else◌, arith,
}
use chat_crdt.Shared.Value.{pos}
use chat_crdt.Mobile.Cipher.{Sodium, Cipher, has_key, key_for, set_key, is_some}
use chat_crdt.Mobile.Keys.{
  Box, MyGrant, Identity, KeyStore, present, loaded_if, unwrapped_if, load_grant, load_grants,
}

module _ (s : Sodium) (box : Box s) where
  pub set_key-has_key :
      (k n : ℕ) (key : s.Key) (c : Cipher s)
      → has_key s (pos n) (set_key s k key c) ≡ (if k == n then true else has_key s (pos n) c)
  unfolding has_key key_for set_key
  set_key-has_key k n key c = ap (is_some s) (get-put k n key c.keys_by_epoch) ∙ ground arith

  load_grant-keeps :
      (identity : Identity) (g : MyGrant) (held : KeyStore × Cipher s) (n : ℕ)
      → has_key s (pos n) held.1 ≡ true
      → has_key s (pos n) (load_grant s box identity g held).1 ≡ true
  unfolding load_grant
  load_grant-keeps identity g (store, cipher) n h =
      elim (Option-cases (present (get g.key_id store.room_keys))) [
        | inr (cached, e) ↦ rw (e, load_grant) (by_loaded (box.key_of_base64 cached))
        | inl e ↦ rw (e, load_grant) (by_unwrapped (box.seal_open g.wrapped_key identity))
      ]
    where
      by_loaded :
          (k : Option s.Key) → has_key s (pos n) (loaded_if s box g.key_id k store cipher).1 ≡ true
      by_loaded none = h
      by_loaded (some key) = set_key-has_key g.key_id n key cipher ∙ ground arith

      by_unwrapped :
          (k : Option s.Key)
          → has_key s (pos n) (unwrapped_if s box g.key_id k store cipher).1 ≡ true
      by_unwrapped none = h
      by_unwrapped (some key) = set_key-has_key g.key_id n key cipher ∙ ground arith

  pub load_grants-keeps :
      (identity : Identity) (gs : List MyGrant) (held : KeyStore × Cipher s) (n : ℕ)
      → has_key s (pos n) held.1 ≡ true
      → has_key s (pos n) (load_grants s box identity gs held).1 ≡ true
  unfolding load_grants
  load_grants-keeps identity [] held n h = h
  load_grants-keeps identity (g ∷ gs) held n h =
      load_grants-keeps identity gs (load_grant s box identity g held) n
        (load_grant-keeps identity g held n h)

  pub load_grant-opened :
      (identity : Identity) (g : MyGrant) (held : KeyStore × Cipher s) (key : s.Key)
      → present (get g.key_id held.0.room_keys) ≡ none
      → box.seal_open g.wrapped_key identity ≡ some key
      → has_key s (pos g.key_id) (load_grant s box identity g held).1 ≡ true
  unfolding load_grant
  load_grant-opened identity g (store, cipher) key missing opens =
      rw (missing, load_grant)
        (rw (opens, load_grant)
          (set_key-has_key g.key_id g.key_id key cipher
            ∙ ground (arith, nat_eq_iff g.key_id g.key_id)))

  -- A grant that opens, and whose epoch's key is not in the device's store when its turn comes, is
  -- loaded into the cipher, whatever other grants come before and after it, among them grants that
  -- do not open.
  pub good_grant_loaded :
      (identity : Identity) (before after : List MyGrant) (g : MyGrant) (held : KeyStore × Cipher s)
      (key : s.Key)
      → present (get g.key_id (load_grants s box identity before held).0.room_keys) ≡ none
      → box.seal_open g.wrapped_key identity ≡ some key
      → has_key s (pos g.key_id) (load_grants s box identity (before ++ g ∷ after) held).1 ≡ true
  unfolding load_grants
  good_grant_loaded identity [] after g held key missing opens =
      load_grants-keeps identity after (load_grant s box identity g held) g.key_id
        (load_grant-opened identity g held key missing opens)
  good_grant_loaded identity (b ∷ before) after g held key missing opens =
      good_grant_loaded identity before after g (load_grant s box identity b held) key missing opens
