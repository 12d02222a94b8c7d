-- ===== src/Mobile/Conversation/Typing.antt =====
-- Who is shown as typing.
use chat_crdt.Prelude.{
  ℕ, ◌≡◌, ◌↔◌, refl, sym, ap, ◌∙◌, inl, inr, Bool, true, false, ◌||◌, Option, none, some, List, [],
  ◌∷◌, ◌++◌, Text, In, contains, contains-append, any, ◌==◌, Bool-cases, text_Eq, nat_Eq,
  text_eq_iff, arith,
}
use chat_crdt.Mobile.Conversation.{
  PeerState, typing_name, add_name, typing_loop, typing_peers, is_self,
}

-- Every name stands in the list once.
abbrev pub IsUnique : List Text → Type 0
IsUnique [] = Unit
IsUnique (x ∷ xs) = (contains x xs ≡ false) × IsUnique xs

IsUnique-snoc :
    (x : Text) (xs : List Text) → contains x xs ≡ false → IsUnique xs → IsUnique (xs ++ x ∷ [])
IsUnique-snoc x [] h u = (refl, tt)
IsUnique-snoc x (y ∷ xs) h (p, u) = (
  ground (arith, contains-append y xs (x ∷ []), text_eq_iff x y, text_eq_iff y x),
  IsUnique-snoc x xs (ground arith) u,
)

add_name-IsUnique : (o : Option Text) (xs : List Text) → IsUnique xs → IsUnique (add_name o xs)
add_name-IsUnique none xs u = u
add_name-IsUnique (some x) xs u = elim (Bool-cases (contains x xs)) [
  | inl e ↦ rw e u
  | inr e ↦ rw e (IsUnique-snoc x xs e u)
]

abbrev is_name : Text → Option Text → Bool
is_name x none = false
is_name x (some y) = y == x

contains-add_name :
    (x : Text) (o : Option Text) (xs : List Text)
    → contains x (add_name o xs) ≡ (contains x xs || is_name x o)
contains-add_name x none xs = ground arith
contains-add_name x (some y) xs = elim (Bool-cases (contains y xs)) [
  | inl e ↦ rw e (ground (arith, text_eq_iff y x))
  | inr e ↦ rw e (contains-append x xs (y ∷ []) ∙ ground arith)
]

module _ (self_client : ℕ) (self_username : Option Text) where
  typing_loop-IsUnique :
      (states : List PeerState) (xs : List Text)
      → IsUnique xs
      → IsUnique (typing_loop self_client self_username states xs)
  unfolding typing_loop
  typing_loop-IsUnique [] xs u = u
  typing_loop-IsUnique (p ∷ states) xs u =
      typing_loop-IsUnique states _
        (add_name-IsUnique (typing_name self_client self_username p) xs u)

  abbrev pub shows : Text → PeerState → Bool
  shows x p = is_name x (typing_name self_client self_username p)

  contains-typing_loop :
      (x : Text) (states : List PeerState) (xs : List Text)
      → contains x (typing_loop self_client self_username states xs)
        ≡ (contains x xs || any (shows x) states)
  unfolding typing_loop
  contains-typing_loop x [] xs = ground arith
  contains-typing_loop x (p ∷ states) xs =
      contains-typing_loop x states (add_name (typing_name self_client self_username p) xs)
      ∙ ground (arith, contains-add_name x (typing_name self_client self_username p) xs)

  -- A client, not this one, that says it is typing, under this name, which is not the user's own.
  abbrev pub Types : Text → PeerState → Type 0
  Types x p =
      ((p.client_id == self_client) ≡ false)
      × (p.is_typing ≡ true)
      × (p.username ≡ some x)
      × (is_self x self_username ≡ false)

  shows_sound :
      (x : Text) (p : PeerState) (o : Option Text) → p.username ≡ o → shows x p ≡ true → Types x p
  shows_sound x p none e h = absurd (ground arith)
  shows_sound x p (some y) e h =
      let same : y ≡ x = ground (arith, text_eq_iff y x) in
      (
        ground arith,
        ground arith,
        e ∙ ap some same,
        ap (λ z. is_self z self_username) (sym same) ∙ ground arith,
      )

  shows_complete : (x : Text) (p : PeerState) → Types x p → shows x p ≡ true
  shows_complete x p (other, typing, named, not_self) = ground (arith, text_eq_iff x x)

  any_sound :
      (x : Text) (states : List PeerState)
      → any (shows x) states ≡ true
      → (p : PeerState) × In p states × Types x p
  any_sound x [] h = absurd (ground arith)
  any_sound x (p ∷ states) h = elim (Bool-cases (shows x p)) [
    | inl e ↦ (p, inl refl, shows_sound x p p.username refl e)
    | inr e ↦ let (q, i, t) = any_sound x states (ground arith) in (q, inr i, t)
  ]

  any_complete :
      (x : Text) (states : List PeerState) (p : PeerState)
      → In p states
      → shows x p ≡ true
      → any (shows x) states ≡ true
  any_complete x [] p i h = elim i [ ]
  any_complete x (q ∷ states) p (inl e) h =
      let here : shows x q ≡ true = ap (shows x) e ∙ h in ground arith
  any_complete x (q ∷ states) p (inr i) h = ground (arith, any_complete x states p i h)

  -- The typing line names nobody twice, and a name is on it exactly when another client than this one
  -- says that it is typing under that name, and the name is not the user's own.
  pub typing_exact :
      (states : List PeerState) (x : Text)
      → IsUnique (typing_peers states self_client self_username)
        × ((contains x (typing_peers states self_client self_username) ≡ true)
            ↔ ((p : PeerState) × In p states × Types x p))
  unfolding typing_peers
  typing_exact states x =
      let shown = contains-typing_loop x states [] in
      (
        typing_loop-IsUnique states [] tt,
        (
          λ h. any_sound x states (let e : any (shows x) states ≡ true = ground arith in e),
          λ (p, i, t).
              shown
              ∙ (let e : any (shows x) states ≡ true =
                    any_complete x states p i (shows_complete x p t) in
                  ground arith),
        ),
      )
