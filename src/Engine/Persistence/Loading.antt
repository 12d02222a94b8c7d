-- ===== src/Engine/Persistence/Loading.antt =====
-- Loading a new copy.
use chat_crdt.Prelude.{
  ℕ, ◌≡◌, refl, sym, ap, subst, ◌∙◌, Bool, true, false, Option, none, some, List, [], ◌∷◌, ◌++◌,
  Text, Map, get, inl, inr, by_test, Option-cases, text_Eq, arith,
}
use chat_crdt.Shared.Message.{Message}
use chat_crdt.Engine.Persistence.{
  Documents, Persistence, new_persistence, key_of, legacy_key, has_scope, apply_raw,
  base64_to_uint8, load_begin, load_end, hydrate, migrate_legacy, migrate_found, or_legacy, load,
  hydrate_bytes,
}
use chat_crdt.Engine.Persistence.Stored.{IsFaithful, is_some, has_legacy, restored}
use chat_crdt.Engine.Persistence.Working.{Working}

module _ (l : Documents) (room : Text) (scope : Option Text) (adopt : Option (List Message → Bool))
    (removes : Bool) (storage : Map Text Text) where
  abbrev pub fresh : Persistence l
  fresh = new_persistence l room scope adopt removes storage

  abbrev pub opened : l.Doc → Persistence l
  opened d = record fresh { doc = d; subscribed = true; loaded = true }

  pub no_migration :
      (o : Option Text) → has_legacy scope room storage ≡ false → or_legacy l o fresh ≡ (o, fresh)
  unfolding migrate_legacy
  no_migration none h =
      by_test (λ q. q ≡ (none, fresh)) (has_scope scope) _ _
        (λ t. skipped (get (legacy_key room) storage) (ground arith)) (λ t. refl)
    where
      skipped : (o : Option Text) → is_some o ≡ false → migrate_found l o fresh ≡ (none, fresh)
      skipped none e = refl
      skipped (some x) e = cc
  no_migration (some raw) h = refl

  pub hydrate_bytes-some :
      (o : Option (List ℕ)) (d : l.Doc)
      → apply_raw l l.empty o ≡ some d
      → hydrate_bytes l o fresh ≡ opened d
  hydrate_bytes-some none d e = cc
  hydrate_bytes-some (some u) d e = rw (e, hydrate_bytes) (ground arith)

  pub hydrate_bytes-none :
      (o : Option (List ℕ)) → apply_raw l l.empty o ≡ none → hydrate_bytes l o fresh ≡ fresh
  hydrate_bytes-none none e = refl
  hydrate_bytes-none (some u) e = rw (e, hydrate_bytes) refl

  pub hydrate-some :
      (o : Option Text) (d : l.Doc) → restored l o ≡ some d → hydrate l o fresh ≡ opened d
  unfolding hydrate
  hydrate-some none d e = ground arith
  hydrate-some (some []) d e = ground arith
  hydrate-some (some (c ∷ s)) d e = hydrate_bytes-some (base64_to_uint8 l (c ∷ s)) d e

  pub hydrate-none : (o : Option Text) → restored l o ≡ none → hydrate l o fresh ≡ fresh
  unfolding hydrate
  hydrate-none none e = cc
  hydrate-none (some []) e = cc
  hydrate-none (some (c ∷ s)) e = hydrate_bytes-none (base64_to_uint8 l (c ∷ s)) e

  pub load-eq :
      has_legacy scope room storage ≡ false
      → load l fresh ≡ hydrate l (get (key_of scope room) storage) fresh
  unfolding load load_begin load_end
  load-eq h =
      ap
        (λ (r : Option Text × Persistence l).
          load_end l (record r.1 { reads = r.1.reads ++ r.0 ∷ [] }))
        (no_migration (get (key_of scope room) storage) h)

  pub load-opened :
      (d : l.Doc)
      → has_legacy scope room storage ≡ false
      → restored l (get (key_of scope room) storage) ≡ some d
      → load l fresh ≡ opened d
  load-opened d h e = load-eq h ∙ hydrate-some (get (key_of scope room) storage) d e

  pub load-Working :
      (f : IsFaithful l)
      → has_legacy scope room storage ≡ false
      → (load l fresh).subscribed ≡ true
      → Working l f (scope, room) (load l fresh)
  load-Working f h s = elim (Option-cases (restored l (get (key_of scope room) storage))) [
    | inl e ↦
        let failed = load-eq h ∙ hydrate-none (get (key_of scope room) storage) e in
        absurd
          (let c : false ≡ true = sym (ap (λ (p : Persistence l). p.subscribed) failed) ∙ s in cc)
    | inr (d, e) ↦
        subst (Working l f (scope, room)) (sym (load-opened d h e))
          (refl, refl, refl, refl, h, refl, inr e)
  ]
