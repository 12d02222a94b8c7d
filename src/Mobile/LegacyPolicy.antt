-- ===== src/Mobile/LegacyPolicy.antt =====
-- apps/mobile/src/crypto/legacyDocPolicy.ts, and what it decides as the policy of the local copy.
mod Tests
use chat_crdt.Prelude.{
  ◌≡◌, ◌≢◌, refl, sym, ap, ◌∙◌, ◌↔◌, ◌⊎◌, inl, inr, Bool, true, false, ◌&&◌, ◌||◌, Option, none,
  some, List, [], ◌∷◌, Text, get, all, All, All-all, all-All, All-map, starts_with, ◌==◌, eq_iff,
  if◌then◌else◌, text_Eq, text_eq_iff, Bool-cases, by_test, arith,
}
use chat_crdt.Shared.Message.{Message}
use chat_crdt.Engine.Messages.{is_blank}
use chat_crdt.Engine.Persistence.{
  Documents, Persistence, legacy_key, apply_raw, ask, base64_to_uint8, migrate_legacy,
  decide_legacy, migrate_found,
}
use chat_crdt.Mobile.Cipher.{e2ee_prefix}

unfoldable pub should_adopt_legacy_doc : Text → List Message → Bool
should_adopt_legacy_doc me ms = all (λ m. m.user_id == me || starts_with e2ee_prefix m.content) ms

-- A message that this user wrote, or that is encrypted.
abbrev pub IsSafe : Text → Message → Type 0
IsSafe me m = (m.user_id ≡ me) ⊎ (starts_with e2ee_prefix m.content ≡ true)

IsSafe-iff :
    (me : Text) (m : Message)
    → ((m.user_id == me || starts_with e2ee_prefix m.content) ≡ true) ↔ IsSafe me m
IsSafe-iff me m = (
  λ h. elim (Bool-cases (m.user_id == me)) [
    | inl e ↦ inl ((text_eq_iff m.user_id me).0 e)
    | inr e ↦ inr (ground arith)
  ],
  λ h. elim h [ inl e ↦ ground (arith, text_eq_iff m.user_id me) | inr e ↦ ground arith ],
)

should_adopt_iff :
    (me : Text) (ms : List Message) → (should_adopt_legacy_doc me ms ≡ true) ↔ All (IsSafe me) ms
unfolding should_adopt_legacy_doc
should_adopt_iff me ms = (
  λ h. All-map (λ m. (IsSafe-iff me m).0) ms (all-All _ ms h),
  λ h. All-all _ ms (All-map (λ m. (IsSafe-iff me m).1) ms h),
)

-- On a device whose document from before the scopes can be read, the account's local copy takes it
-- over exactly when each of its messages was written by this user or is encrypted.
pub adopted_iff :
    (l : Documents) (me legacy : Text) (p : Persistence l) (probe : l.Doc)
    → p.adopt_legacy ≡ some (should_adopt_legacy_doc me)
    → get (legacy_key p.room_id) p.storage ≡ some legacy
    → is_blank legacy ≡ false
    → apply_raw l l.empty (base64_to_uint8 l legacy) ≡ some probe
    → ((migrate_legacy l p).0 ≡ some legacy) ↔ All (IsSafe me) (l.messages probe)
unfolding migrate_legacy decide_legacy
adopted_iff l me legacy p probe policy found some_text readable =
    let asked : ask l p.adopt_legacy (apply_raw l l.empty (base64_to_uint8 l legacy))
        ≡ should_adopt_legacy_doc me (l.messages probe) =
      rw (policy, readable) refl in
    let (to, from) = should_adopt_iff me (l.messages probe) in
    let result : (migrate_legacy l p).0
        ≡ (if should_adopt_legacy_doc me (l.messages probe) then some legacy else none) =
      ap (λ o. (migrate_found l o p).0) found
      ∙ by_test
          (λ (q : Option Text × Persistence l).
            q.0 ≡ (if should_adopt_legacy_doc me (l.messages probe) then some legacy else none))
          (is_blank legacy) _ _ (λ t. cc)
          (λ t. ap (λ (b : Bool). if b then some legacy else none) asked) in
    (λ h. to (ground arith), λ a. ground (arith, from a))
