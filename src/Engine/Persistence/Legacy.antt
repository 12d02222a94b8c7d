-- ===== src/Engine/Persistence/Legacy.antt =====
-- The document from before the accounts' scopes.
use chat_crdt.Prelude.{
  ◌≡◌, refl, ap, ◌∙◌, Bool, true, false, Option, none, some, [], ◌∷◌, Text, Map, get, put, delete,
  get-put, get-delete, if◌then◌else◌, text_Eq, text_eq_iff, arith,
}
use chat_crdt.Engine.Messages.{is_blank}
use chat_crdt.Engine.Persistence.{
  Documents, Persistence, key, legacy_key, has_scope, apply_raw, ask, base64_to_uint8,
  migrate_legacy, decide_legacy, migrate_found, remove_item, set_item,
}
use chat_crdt.Engine.Persistence.Stored.{key-ne-legacy_key}

abbrev pub or_else {ℓ} : {A : Type ℓ} → Option A → Option A → Option A
or_else none o = o
or_else (some a) o = some a

abbrev is_missing : Option Text → Bool
is_missing none = true
is_missing (some t) = is_blank t

missing_skipped :
    (l : Documents) (o : Option Text) (p : Persistence l)
    → is_missing o ≡ true
    → migrate_found l o p ≡ (none, p)
missing_skipped l none p h = refl
missing_skipped l (some []) p h = refl
missing_skipped l (some (c ∷ t)) p h = cc

module _ (l : Documents) (p : Persistence l) where
  -- Nothing is left to decide on.
  abbrev Decided : Option Text × Persistence l → Type 0
  Decided r =
      (is_missing (get (legacy_key p.room_id) r.1.storage) ≡ true)
      × (get (key l p) r.1.storage ≡ or_else r.0 (get (key l p) p.storage))

  -- Without its entry, the legacy document is not found, and the others are as before.
  cleaned : Map Text Text → Map Text Text
  cleaned st = if p.removes then delete (legacy_key p.room_id) st else st

  get-cleaned :
      (st : Map Text Text) → p.removes ≡ true → get (legacy_key p.room_id) (cleaned st) ≡ none
  unfolding cleaned
  get-cleaned st r =
      let k = legacy_key p.room_id in ground (arith, get-delete k k st, text_eq_iff k k)

  get-cleaned_other :
      (st : Map Text Text)
      → has_scope p.scope ≡ true
      → get (key l p) (cleaned st) ≡ get (key l p) st
  unfolding cleaned
  get-cleaned_other st s =
      let k = legacy_key p.room_id in
      ground (
        arith,
        get-delete k (key l p) st,
        text_eq_iff k (key l p),
        key-ne-legacy_key p.scope p.room_id,
      )

  branch_Decided :
      (b : Bool) (legacy : Text)
      → p.removes ≡ true
      → has_scope p.scope ≡ true
      → Decided (
        if b then some legacy else none,
        remove_item l (legacy_key p.room_id) (if b then set_item l (key l p) legacy p else p),
      )
  unfolding cleaned
  branch_Decided true legacy r s =
      let st = put (key l p) legacy p.storage in
      (
        ap is_missing (get-cleaned st r),
        get-cleaned_other st s
            ∙ get-put (key l p) (key l p) legacy p.storage
            ∙ ground (arith, text_eq_iff (key l p) (key l p)),
      )
  branch_Decided false legacy r s =
      (ap is_missing (get-cleaned p.storage r), get-cleaned_other p.storage s)

  found_Decided :
      (o : Option Text)
      → get (legacy_key p.room_id) p.storage ≡ o
      → p.removes ≡ true
      → has_scope p.scope ≡ true
      → Decided (migrate_found l o p)
  unfolding decide_legacy
  found_Decided none e r s = (ap is_missing e, refl)
  found_Decided (some []) e r s = (ap is_missing e, refl)
  found_Decided (some (c ∷ t)) e r s =
      branch_Decided (ask l p.adopt_legacy (apply_raw l l.empty (base64_to_uint8 l (c ∷ t))))
        (c ∷ t) r s

-- Take a copy with an account's scope, over a storage that can remove entries (removeItem is
-- optional). If it finds the room's document from before the scopes, it either adopts it, and then
-- the document stands under the account's own key, or does not, and then what stood there stays.
-- Either way it was the only one to decide: any copy of the room over the resulting storage, for any
-- account and policy, finds nothing to adopt and leaves the storage as it is.
pub legacy_decided_once :
    (l : Documents) (p r : Persistence l)
    → p.removes ≡ true
    → has_scope p.scope ≡ true
    → r.room_id ≡ p.room_id
    → r.storage ≡ (migrate_legacy l p).1.storage
    → (migrate_legacy l r ≡ (none, r))
      × (get (key l p) r.storage ≡ or_else (migrate_legacy l p).0 (get (key l p) p.storage))
unfolding migrate_legacy
legacy_decided_once l p r h s room same =
    let (again, kept) = found_Decided l p (get (legacy_key p.room_id) p.storage) refl h s in
    (
      missing_skipped l (get (legacy_key r.room_id) r.storage) r (
          ap (λ n. is_missing (get (legacy_key n) r.storage)) room
          ∙ ap (λ st. is_missing (get (legacy_key p.room_id) st)) same
          ∙ again),
      ap (λ st. get (key l p) st) same ∙ kept,
    )
