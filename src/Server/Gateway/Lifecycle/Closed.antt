-- ===== src/Server/Gateway/Lifecycle/Closed.antt =====
-- A socket that closes before its connection has been entered.
use chat_crdt.Prelude.{
  ℕ, ◌≡◌, refl, ap, ◌∙◌, true, false, none, some, List, [], ◌∷◌, ◌++◌, Text, get, get-put, contains,
  contains-append, eq_iff, Bool-cases, inl, inr, if◌then◌else◌, text_Eq, nat_Eq, arith,
}
use chat_crdt.Server.Gateway.{Library, Gateway, RoomState, Step}
use chat_crdt.Server.Gateway.Fanout.{is_empty}
use chat_crdt.Server.Gateway.Lifecycle.{attach, handle_disconnect, collect}

-- The clients of a room once `c` has been added.
abbrev pub entered : ℕ → List ℕ → List ℕ
entered c clients = if contains c clients then clients else clients ++ c ∷ []

pub contains-entered : (c : ℕ) (clients : List ℕ) → contains c (entered c clients) ≡ true
contains-entered c clients = elim (Bool-cases (contains c clients)) [
  | inl e ↦ rw e e
  | inr e ↦ rw e (contains-append c clients (c ∷ []) ∙ ground (arith, eq_iff c c))
]

nobody_empty : (c : ℕ) (clients : List ℕ) → contains c clients ≡ true → is_empty clients ≡ false
nobody_empty c [] h = cc
nobody_empty c (d ∷ ds) h = refl

module _ (l : Library) where
  not_collected :
      (timer : Text) (r : ℕ) (g : Gateway l) (room : RoomState l)
      → get r g.objects ≡ some room
      → is_empty room.clients ≡ false
      → collect l timer r g ≡ (g, [])
  unfolding collect
  not_collected timer r g room h full = rw (h, collect) (rw full refl)

  -- `handleConnection` waits for the database before it enters its socket into the room. If the socket
  -- closes meanwhile, handleDisconnect does nothing, and the room then gets the closed socket as a
  -- client: whichever timer of the room's object runs out next, the object is not collected.
  pub closed_socket_entered :
      (c : ℕ) (name timer : Text) (r : ℕ) (g : Gateway l) (room : RoomState l)
      → get c g.client_room ≡ none
      → get r g.objects ≡ some room
      → let (closed, sent) = handle_disconnect l c g in
        let g' = (attach l c name r closed).0 in
        (sent ≡ [])
        × ((room' : RoomState l) × (get r g'.objects ≡ some room')
            × (contains c room'.clients ≡ true))
        × (collect l timer r g' ≡ (g', []))
  unfolding handle_disconnect attach collect
  closed_socket_entered c name timer r g room h there =
      let gone : handle_disconnect l c g ≡ (g, []) = rw (handle_disconnect, h) refl in
      let room' : RoomState l = record room { clients = entered c room.clients } in
      let held : get r (attach l c name r g).0.objects ≡ some room' =
        rw (attach, there) (get-put r r room' g.objects ∙ ground (arith, eq_iff r r)) in
      let here = contains-entered c room.clients in
      let e = ap (λ (s : Step l). attach l c name r s.0) gone in
      let g' = (attach l c name r (handle_disconnect l c g).0).0 in
      let held' : get r g'.objects ≡ some room' = ap (λ (s : Step l). get r s.0.objects) e ∙ held in
      (
        ap (λ (s : Step l). s.1) gone,
        (room', held', here),
        not_collected timer r g' room' held' (nobody_empty c room'.clients here),
      )
