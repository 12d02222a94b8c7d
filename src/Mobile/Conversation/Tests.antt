-- ===== src/Mobile/Conversation/Tests.antt =====
-- The screen's derivations at concrete inputs.
use chat_crdt.Prelude.{
  ℕ, ◌≡◌, refl, true, false, some, List, [], ◌∷◌, Text, codes, text_eq, text_Eq, nat_Eq,
}
use chat_crdt.Engine.Provider.{connected, connecting}
use chat_crdt.Mobile.Conversation.{
  PeerState, fnv1a32, greeting, typing_label, typing_peers, header_pill_a11y_label, show_empty_room,
}

abbrev typist : ℕ → Text → PeerState
typist id name = record { client_id = id; is_typing = true; username = some name }

-- The user's other device, a peer on two devices, and one that has stopped.
abbrev states : List PeerState
states =
    typist 1 (codes "me")
    ∷ typist 2 (codes "bo")
    ∷ typist 3 (codes "bo")
    ∷ record (typist 4 (codes "al")) { is_typing = false }
    ∷ []

abbrev two : ℕ → Text
two n = codes "2"

copy_test :
    (greeting (some (codes " al ")) ≡ codes "Welcome back, al")
    × (greeting (some (codes " ")) ≡ codes "Welcome back")
    × (typing_label two (typing_peers states 9 (some (codes "me"))) ≡ codes "bo is typing…")
    × (typing_label two (codes "a" ∷ codes "b" ∷ codes "c" ∷ codes "d" ∷ [])
        ≡ codes "a, b and 2 others are typing…")
    × (header_pill_a11y_label two (codes "default") connected 2
        ≡ codes "# general, connected, 2 online")
    × (show_empty_room true 0 connecting ≡ false)
unfolding greeting typing_label typing_peers header_pill_a11y_label show_empty_room text_eq
copy_test = (refl, refl, refl, refl, refl, refl)

hash_test :
    (fnv1a32 [] ≡ 0x811c_9dc5)
    × (fnv1a32 (codes "a") ≡ 0xe40c_292c)
    × (fnv1a32 (codes "foobar") ≡ 0xbf9c_f968)
unfolding fnv1a32
hash_test = (refl, refl, refl)
