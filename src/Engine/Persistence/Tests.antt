-- ===== src/Engine/Persistence/Tests.antt =====
-- The theorems of the local copy at concrete inputs. A document is a counter that only grows, and
-- base64 is the app's polyfill.
use chat_crdt.Prelude.{
  ℕ, zero, suc, ◌-◌, ◌≡◌, refl, ap, true, Option, none, some, List, [], ◌∷◌, Text, codes, all, leb,
  ltb, length, max, get, text_eq, text_Eq, arith,
}
use chat_crdt.Mobile.Base64.{poly_btoa, poly_atob}
use chat_crdt.Mobile.Base64.Roundtrip.{poly_atob-poly_btoa, nothing}
use chat_crdt.Engine.Persistence.{
  Documents, Persistence, new_persistence, key, load, destroy, discard_begin, discard_end,
  migrate_legacy,
}
use chat_crdt.Engine.Persistence.Events.{
  Event, edits, fires, lands, begins_load, ends_load, handle_all,
}
use chat_crdt.Engine.Persistence.Stored.{IsFaithful}
use chat_crdt.Engine.Persistence.Reopened.{reopened}
use chat_crdt.Engine.Persistence.Discarded.{discarded_for_good}
use chat_crdt.Engine.Persistence.Legacy.{legacy_decided_once, or_else}

abbrev ones : ℕ → List ℕ
ones zero = []
ones (suc n) = 1 ∷ ones n

abbrev counter : Documents
counter = record {
  Doc = ℕ;
  empty = 0;
  apply_update = λ d u. some (max d (length u - 1));
  encode_state = λ d. ones (suc d);
  emits = λ d u. ltb d (length u - 1);
  messages = λ d. [];
  btoa = poly_btoa;
  atob = λ s. some (poly_atob s);
}

length-ones : (n : ℕ) → length (ones n) ≡ n
length-ones zero = refl
length-ones (suc n) = ap suc (length-ones n)

ones_latin1 : (n : ℕ) → all (λ c. leb c 255) (ones n) ≡ true
ones_latin1 zero = refl
ones_latin1 (suc n) = ones_latin1 n

counter-IsFaithful : IsFaithful counter
counter-IsFaithful = record {
  restores = λ d. ap some (omega (arith, length-ones d));
  some_state = λ d. refl;
  state_bytes = λ d. ones_latin1 (suc d);
  base64 =
      λ xs h. let (s, encoded, decoded) = poly_atob-poly_btoa xs h in (s, encoded, ap some decoded);
  no_text = ap some nothing;
}

abbrev room : Text
room = codes "ops"

abbrev alice : Option Text
alice = some (codes "a")

abbrev fresh : Persistence counter
fresh = new_persistence counter room alice none true []

-- Two edits, of which the second is not yet written when the copy is destroyed.
abbrev session : List (Event counter)
session = edits 2 ∷ fires ∷ edits 3 ∷ lands ∷ []

abbrev p : Persistence counter
p = handle_all counter session (load counter fresh)

abbrev q : Persistence counter
q = handle_all counter (lands ∷ []) (destroy counter p)

reopened_example :
    (load counter (new_persistence counter room alice none true q.storage)).doc ≡ p.doc
unfolding get load handle_all poly_btoa
reopened_example =
    reopened counter room alice none none true [] session (lands ∷ []) counter-IsFaithful refl refl
      refl refl refl

discarded_for_good_example :
    get
      (key counter p)
      (handle_all counter
        (edits 9 ∷ fires ∷ begins_load ∷ ends_load ∷ [])
        (discard_end counter (handle_all counter (lands ∷ []) (discard_begin counter p)))).storage
    ≡ none
unfolding get load handle_all poly_btoa
discarded_for_good_example =
    discarded_for_good counter p (lands ∷ []) (edits 9 ∷ fires ∷ begins_load ∷ ends_load ∷ []) refl
      refl refl

-- The copy of a device that knew no accounts, which the first account adopts.
abbrev old : Persistence counter
old =
    new_persistence counter room alice (some (λ ms. true)) true
      ((codes "yjs:ops", codes "AQEB") ∷ [])

abbrev next_account : Persistence counter
next_account =
    new_persistence counter room (some (codes "b")) (some (λ ms. true)) true
      (migrate_legacy counter old).1.storage

legacy_decided_once_example :
    (migrate_legacy counter next_account ≡ (none, next_account))
    × (get (key counter old) next_account.storage
        ≡ or_else (migrate_legacy counter old).0 (get (key counter old) old.storage))
legacy_decided_once_example = legacy_decided_once counter old next_account refl refl refl refl

adopted_test : (migrate_legacy counter old).0 ≡ some (codes "AQEB")
unfolding migrate_legacy get text_eq
adopted_test = refl
