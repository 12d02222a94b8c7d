-- ===== src/Mobile/Base64/Tests.antt =====
-- The polyfill at concrete inputs.
use chat_crdt.Prelude.{◌≡◌, refl, some, none, [], ◌∷◌, Text, codes}
use chat_crdt.Mobile.Base64.{poly_btoa, poly_atob}
use chat_crdt.Mobile.Base64.Roundtrip.{poly_atob-poly_btoa}

poly_atob-poly_btoa_example :
    (s : Text) × (poly_btoa (0 ∷ 255 ∷ 16 ∷ 7 ∷ []) ≡ some s)
    × (poly_atob s ≡ 0 ∷ 255 ∷ 16 ∷ 7 ∷ [])
poly_atob-poly_btoa_example = poly_atob-poly_btoa (0 ∷ 255 ∷ 16 ∷ 7 ∷ []) refl

polyfill_test :
    (poly_btoa (codes "chat!") ≡ some (codes "Y2hhdCE="))
    × (poly_btoa (256 ∷ []) ≡ none)
    × (poly_atob (codes "Y2hh\ndA==") ≡ codes "chat")
unfolding poly_btoa poly_atob
polyfill_test = (refl, refl, refl)
