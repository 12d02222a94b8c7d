-- ===== src/Server/Gateway/Lifecycle/Admission.antt =====
-- Who is admitted to a room.
use chat_crdt.Prelude.{
  ℕ, ◌≡◌, refl, sym, ap, subst, ◌∙◌, true, ◌||◌, inl, inr, Option, none, some, List, [], Text, Map,
  get, put, get-put, ◌==◌, Option-cases, by_test, if◌then◌else◌, text_Eq, nat_Eq, nat_eq_iff,
  text_eq_iff, contains, Bool, arith,
}
use chat_crdt.Server.Db.{Db, Room}
use chat_crdt.Server.Rooms.{is_member}
use chat_crdt.Server.Gateway.{Library, Gateway, RoomState, Step, default_room}
use chat_crdt.Server.Gateway.Lifecycle.Closed.{entered, contains-entered}
use chat_crdt.Server.Gateway.Epochs.{finish_load}
use chat_crdt.Server.Gateway.Lifecycle.{token_of, admit, open_room, attach, handle_connection}

module _ (l : Library) where
  -- A token that the JWT check accepts, of a user who may enter this room.
  abbrev pub IsAllowed : Db → List Text → Text → Type 0
  IsAllowed db offered name =
      (user : Text) × (l.verify (token_of offered) ≡ some user)
      × ((name == default_room || is_member name user db) ≡ true)

  admit-IsAllowed :
      (db : Db) (offered : List Text) (name : Text)
      → admit l db offered name ≡ none
      → IsAllowed db offered name
  unfolding admit
  admit-IsAllowed db offered name h = elim (Option-cases (l.verify (token_of offered))) [
    | inl e ↦ ground arith
    | inr (user, e) ↦ (user, e, ground arith)
  ]

  -- What a step leaves: which socket is in which room, and which object each name stands for.
  abbrev Same : Gateway l → Gateway l → Type 0
  Same g h = (h.client_room ≡ g.client_room) × (h.room_init ≡ g.room_init)

  -- The object that a name stands for is `r`, and no socket has moved.
  abbrev Opened : Text → Gateway l → (ℕ × Bool) × Gateway l → Type 0
  Opened name g ((r, fresh), h) = (h.client_room ≡ g.client_room) × (get name h.room_init ≡ some r)

  open_room-Opened : (name : Text) (g : Gateway l) → Opened name g (open_room l name g)
  unfolding open_room
  open_room-Opened name g = elim (Option-cases (get name g.room_init)) [
    | inl e ↦
        rw (e, open_room)
          (
            refl,
            get-put name name g.next_object g.room_init ∙ ground (arith, text_eq_iff name name),
          )
    | inr (r, e) ↦ rw (e, open_room) (refl, e)
  ]

  finish_load-Same :
      (r : ℕ) (row made : Option Room) (g : Gateway l) → Same g (finish_load l r row made g).0
  unfolding finish_load
  finish_load-Same r row made g = elim (Option-cases (get r g.objects)) [
    | inl e ↦ rw (e, finish_load) (refl, refl)
    | inr (room, e) ↦ rw (e, finish_load) (refl, refl)
  ]

  -- The socket is a client of the object that the name stands for.
  abbrev pub IsEntered : ℕ → Text → Gateway l → Type 0
  IsEntered c name g =
      (r : ℕ) × (room : RoomState l) × (get name g.room_init ≡ some r)
      × (get r g.objects ≡ some room)
      × (contains c room.clients ≡ true)

  attach-IsEntered :
      (c r : ℕ) (name entered_name : Text) (g : Gateway l)
      → get c g.client_room ≡ none
      → get name g.room_init ≡ some r
      → get c (attach l c name r g).0.client_room ≡ some entered_name
      → (entered_name ≡ name) × IsEntered c name (attach l c name r g).0
  unfolding attach
  attach-IsEntered c r name entered_name g before named after =
      elim (Option-cases (get r g.objects)) [
        | inl e ↦ ground arith
        | inr (room, e) ↦
            let room' : RoomState l = record room { clients = entered c room.clients } in
            let there : get c (put c name g.client_room) ≡ some name =
              get-put c c name g.client_room ∙ ground (arith, nat_eq_iff c c) in
            let held : get r (put r room' g.objects) ≡ some room' =
              get-put r r room' g.objects ∙ ground (arith, nat_eq_iff r r) in
            (ground arith, rw (e, attach) (r, room', named, held, contains-entered c room.clients))
      ]

  -- A connection that enters a socket into a room, where the socket was in none, enters it into the
  -- room that was asked for: the socket is then a client of the object that this name stands for. It
  -- presents a token that the JWT check accepts, and that room is the default room or has the
  -- token's user as a member.
  pub connected_IsAllowed :
      (db : Db) (c : ℕ) (offered : List Text) (name entered_name : Text) (row made : Option Room)
      (g : Gateway l)
      → get c g.client_room ≡ none
      → let (later, _) = handle_connection l db c offered name row made g in
        get c later.client_room ≡ some entered_name
        → (entered_name ≡ name) × IsAllowed db offered entered_name × IsEntered c name later
  unfolding handle_connection
  connected_IsAllowed db c offered name entered_name row made g before after =
      elim (Option-cases (admit l db offered name)) [
        | inl e ↦
            let ((r, fresh), g1) = open_room l name g in
            let (sockets, named) = open_room-Opened name g in
            let g2 = (if fresh then finish_load l r row made g1 else (g1, [])).0 in
            let (kept, inits) : Same g1 g2 =
              by_test (λ (q : Step l). Same g1 q.0) fresh _ _ (λ t. finish_load-Same r row made g1)
                (λ t. (refl, refl)) in
            let empty = ap (λ (m : Map ℕ Text). get c m) (kept ∙ sockets) ∙ before in
            let init = ap (λ (m : Map Text ℕ). get name m) inits ∙ named in
            let (same, there) =
              attach-IsEntered c r name entered_name g2 empty init (ground arith) in
            (
              same,
              subst (IsAllowed db offered) (sym same) (admit-IsAllowed db offered name e),
              rw (e, handle_connection) there,
            )
        | inr (code, e) ↦ ground arith
      ]
