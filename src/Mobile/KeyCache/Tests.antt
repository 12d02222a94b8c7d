-- ===== src/Mobile/KeyCache/Tests.antt =====
-- The device's keys at concrete inputs. A number is written as one code unit, and of a key pair only the public key is
-- kept.
use chat_crdt.Prelude.{◌≡◌, refl, true, false, none, some, List, [], ◌∷◌, Text, codes, get, text_eq}
use chat_crdt.Mobile.Keys.{Identity}
use chat_crdt.Mobile.KeyCache.{
  Forms, mark_e2ee, was_ever_e2ee, get_cached_current_epoch, get_room_key, cache_room_key,
  get_identity, ensure_identity_published,
}
use chat_crdt.Mobile.KeyCache.Cached.{Call, cache_all}

abbrev pair : Text → Identity
pair t = record { public_key = t; private_key = [] }

abbrev forms : Forms
forms = record {
  show = λ n. 65 ∷ n ∷ [];
  read = λ t. elim t [ [] ↦ 0 | c ∷ rest ↦ elim rest [ [] ↦ 0 | n ∷ more ↦ n ] ];
  json_of_identity = λ i. 7 ∷ i.public_key;
  identity_of_json = λ t. elim t [ [] ↦ none | c ∷ rest ↦ some (pair rest) ];
}

abbrev calls : List Call
calls =
    record { room = codes "r"; key_id = 2; key = codes "x" }
    ∷ record { room = codes "s"; key_id = 9; key = codes "y" }
    ∷ record { room = codes "r"; key_id = 1; key = codes "z" }
    ∷ []

cached_test :
    (get_cached_current_epoch forms (codes "r") (cache_all forms calls []) ≡ some 2)
    × (get_room_key forms (codes "r") 1 (cache_all forms calls []) ≡ some (codes "z"))
unfolding cache_all cache_room_key get_cached_current_epoch get_room_key get text_eq
cached_test = (refl, refl)

-- A key that the server refuses leaves nothing behind, and one that it takes is kept.
published_test :
    (ensure_identity_published forms (pair (codes "a")) false [] ≡ (some (codes "a"), []))
    × (get_identity forms (ensure_identity_published forms (pair (codes "a")) true []).1
        ≡ some (pair (codes "a")))
unfolding ensure_identity_published get_identity get text_eq
published_test = (refl, refl)

sticky_test :
    (was_ever_e2ee (codes "r") (some (mark_e2ee (codes "r") [])) ≡ true)
    × (was_ever_e2ee (codes "s") (some (mark_e2ee (codes "r") [])) ≡ false)
    × (was_ever_e2ee (codes "s") none ≡ true)
unfolding was_ever_e2ee mark_e2ee get text_eq
sticky_test = (refl, refl, refl)
