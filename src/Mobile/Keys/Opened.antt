-- ===== src/Mobile/Keys/Opened.antt =====
-- A grant among the own ones, wherever it stands.
use chat_crdt.Prelude.{
  ℕ, ◌≡◌, sym, subst, ◌∙◌, true, Option, none, some, List, [], ◌∷◌, In, get, get-put, ◌⊎◌, inl, inr,
  ◌==◌, nat_Eq, Bool-cases, Option-cases, arith,
}
use chat_crdt.Shared.Value.{pos}
use chat_crdt.Mobile.Cipher.{Sodium, Cipher, has_key}
use chat_crdt.Mobile.Keys.{
  Box, MyGrant, Identity, KeyStore, present, loaded_if, unwrapped_if, load_grant, load_grants,
}
use chat_crdt.Mobile.Keys.Loaded.{set_key-has_key, load_grants-keeps, load_grant-opened}

module _ (s : Sodium) (box : Box s) where
  -- The key of the epoch is missing from the store, or the cipher has it.
  abbrev Missing : ℕ → KeyStore × Cipher s → Type 0
  Missing n held = (present (get n held.0.room_keys) ≡ none) ⊎ (has_key s (pos n) held.1 ≡ true)

  unwrapped-Missing :
      (k n : ℕ) (o : Option s.Key) (store : KeyStore) (cipher : Cipher s)
      → present (get n store.room_keys) ≡ none
      → Missing n (unwrapped_if s box k o store cipher)
  unwrapped-Missing k n none store cipher h = inl h
  unwrapped-Missing k n (some key) store cipher h = elim (Bool-cases (k == n)) [
    | inl e ↦ inr (set_key-has_key s box k n key cipher ∙ ground arith)
    | inr e ↦ inl (rw (get-put k n (box.base64_of_key key) store.room_keys) (rw e h))
  ]

  load_grant-Missing :
      (identity : Identity) (g : MyGrant) (n : ℕ) (store : KeyStore) (cipher : Cipher s)
      → present (get n store.room_keys) ≡ none
      → Missing n (load_grant s box identity g (store, cipher))
  unfolding load_grant
  load_grant-Missing identity g n store cipher h =
      elim (Option-cases (present (get g.key_id store.room_keys))) [
        | inl e ↦
            rw (e, load_grant)
              (unwrapped-Missing g.key_id n (box.seal_open g.wrapped_key identity) store cipher h)
        | inr (cached, e) ↦ rw (e, load_grant) (by_loaded (box.key_of_base64 cached))
      ]
    where
      by_loaded : (o : Option s.Key) → Missing n (loaded_if s box g.key_id o store cipher)
      by_loaded none = inl h
      by_loaded (some key) = inl h

  pub In-load_grants :
      (identity : Identity) (gs : List MyGrant) (g : MyGrant) (held : KeyStore × Cipher s)
      (key : s.Key)
      → In g gs
      → present (get g.key_id held.0.room_keys) ≡ none
      → box.seal_open g.wrapped_key identity ≡ some key
      → has_key s (pos g.key_id) (load_grants s box identity gs held).1 ≡ true
  unfolding load_grants
  In-load_grants identity [] g held key i missing opens = elim i [ ]
  In-load_grants identity (b ∷ gs) g held key (inl e) missing opens =
      load_grants-keeps s box identity gs (load_grant s box identity b held) g.key_id (
        subst
          (λ (z : MyGrant). has_key s (pos g.key_id) (load_grant s box identity z held).1 ≡ true)
          (sym e) (load_grant-opened s box identity g held key missing opens))
  In-load_grants identity (b ∷ gs) g (store, cipher) key (inr i) missing opens =
      elim (load_grant-Missing identity b g.key_id store cipher missing) [
        | inl still ↦
            In-load_grants identity gs g (load_grant s box identity b (store, cipher)) key i still
              opens
        | inr has ↦
            load_grants-keeps s box identity gs (load_grant s box identity b (store, cipher))
              g.key_id has
      ]
