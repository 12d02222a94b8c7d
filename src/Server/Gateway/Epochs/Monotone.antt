-- ===== src/Server/Gateway/Epochs/Monotone.antt =====
-- The epoch of a loaded room only rises.
use chat_crdt.Prelude.{
  ℕ, ◌≤◌, ◌≡◌, ap, subst, ◌∙◌, true, inl, inr, some, List, [], ◌∷◌, Text, Map, get, put, get-put,
  max, ◌==◌, eq_iff, Bool-cases, Option-cases, text_Eq, nat_Eq, In, arith, nat_eq_iff,
}
use chat_crdt.Server.Db.{Room}
use chat_crdt.Server.Gateway.{Library, Gateway, RoomState}
use chat_crdt.Server.Gateway.Epochs.{
  or_zero, has_db_id, raise_one, raise_rooms, raise_epoch, load_room,
}

module _ (l : Library) where
  -- Two states of an object that differ in the epoch alone, which has not fallen.
  abbrev pub Raised : RoomState l → RoomState l → Type 0
  Raised a b =
      (b ≡ record a { current_key_id = b.current_key_id }) × (a.current_key_id ≤ b.current_key_id)

  raise_one-Raised :
      (db_id : Text) (k : ℕ) (room : RoomState l) → Raised room (raise_one l db_id k room).0
  unfolding raise_one
  raise_one-Raised db_id k room = ground arith

  raise_one_reaches :
      (db_id : Text) (k : ℕ) (room : RoomState l)
      → has_db_id room.db_id db_id ≡ true
      → k ≤ (raise_one l db_id k room).0.current_key_id
  unfolding raise_one
  raise_one_reaches db_id k room h = ground arith

  Raised-trans : (a b c : RoomState l) → Raised a b → Raised b c → Raised a c
  Raised-trans a b c p q = ground arith

  -- One turn of the loop, seen from any object.
  after_one :
      (db_id : Text) (k q r : ℕ) (objects : Map ℕ (RoomState l)) (found room : RoomState l)
      → get q objects ≡ some found
      → get r objects ≡ some room
      → (room' : RoomState l) × (get r (put q (raise_one l db_id k found).0 objects) ≡ some room')
        × Raised room room'
  after_one db_id k q r objects found room e h = elim (Bool-cases (q == r)) [
    | inl same ↦
        let found_is_room : found ≡ room = ground (arith, nat_eq_iff q r) in
        (
          (raise_one l db_id k found).0,
          get-put q r (raise_one l db_id k found).0 objects ∙ ground arith,
          subst (λ x. Raised x (raise_one l db_id k found).0) found_is_room
              (raise_one-Raised db_id k found),
        )
    | inr other ↦
        (room, get-put q r (raise_one l db_id k found).0 objects ∙ ground arith, ground arith)
  ]

  -- The objects after the loop: each as it was, but for an epoch that may have risen.
  raise_rooms-Raised :
      (db_id : Text) (k : ℕ) (rooms : List (Text × ℕ)) (objects : Map ℕ (RoomState l)) (r : ℕ)
      (room : RoomState l)
      → get r objects ≡ some room
      → (room' : RoomState l) × (get r (raise_rooms l db_id k rooms objects).0 ≡ some room')
        × Raised room room'
  unfolding raise_rooms
  raise_rooms-Raised db_id k [] objects r room h = (room, h, ground arith)
  raise_rooms-Raised db_id k ((name, q) ∷ rooms) objects r room h =
      elim (Option-cases (get q objects)) [
        | inl e ↦ rw (e, raise_rooms) (raise_rooms-Raised db_id k rooms objects r room h)
        | inr (found, e) ↦
            let (room₁, at_r, first) = after_one db_id k q r objects found room e h in
            let (room₂, got, later) = raise_rooms-Raised db_id k rooms _ r room₁ at_r in
            rw (e, raise_rooms) (room₂, got, Raised-trans room room₁ room₂ first later)
      ]

  raise_rooms_reaches :
      (db_id : Text) (k : ℕ) (name : Text) (rooms : List (Text × ℕ)) (objects : Map ℕ (RoomState l))
      (r : ℕ) (room : RoomState l)
      → get r objects ≡ some room
      → In (name, r) rooms
      → has_db_id room.db_id db_id ≡ true
      → (room' : RoomState l) × (get r (raise_rooms l db_id k rooms objects).0 ≡ some room')
        × (k ≤ room'.current_key_id)
  unfolding raise_rooms
  raise_rooms_reaches db_id k name [] objects r room h i d = elim i [ ]
  raise_rooms_reaches db_id k name ((n, q) ∷ rooms) objects r room h (inl same) d =
      let is_r : q ≡ r = ap (λ (p : Text × ℕ). p.1) same in
      let e : get q objects ≡ some room = ap (λ j. get j objects) is_r ∙ h in
      let room₁ : RoomState l = (raise_one l db_id k room).0 in
      let at_r : get r (put q room₁ objects) ≡ some room₁ =
        get-put q r room₁ objects ∙ ground (arith, nat_eq_iff q r) in
      let (room', got, raised) =
        raise_rooms-Raised db_id k rooms (put q room₁ objects) r room₁ at_r in
      rw (e, raise_rooms) (room', got, omega (arith, raised.1, raise_one_reaches db_id k room d))
  raise_rooms_reaches db_id k name ((n, q) ∷ rooms) objects r room h (inr i) d =
      elim (Option-cases (get q objects)) [
        | inl e ↦ rw (e, raise_rooms) (raise_rooms_reaches db_id k name rooms objects r room h i d)
        | inr (found, e) ↦
            let (room₁, at_r, first) = after_one db_id k q r objects found room e h in
            let d₁ : has_db_id room₁.db_id db_id ≡ true = rw (ap (λ x. x.db_id) first.0) d in
            rw (e, raise_rooms) (raise_rooms_reaches db_id k name rooms _ r room₁ at_r i d₁)
      ]

  -- An epoch announcement changes an object in its epoch alone, and never lowers it.
  pub raise_epoch_monotone :
      (db_id : Text) (k : ℕ) (g : Gateway l) (r : ℕ) (room : RoomState l)
      → get r g.objects ≡ some room
      → (room' : RoomState l) × (get r (raise_epoch l db_id (some k) g).0.objects ≡ some room')
        × Raised room room'
  unfolding raise_epoch
  raise_epoch_monotone db_id k g r room h = raise_rooms-Raised db_id k g.rooms g.objects r room h

  -- After an announcement, a room in the map that carries the announced identifier is at the
  -- announced epoch or above it.
  pub raise_epoch_reaches :
      (db_id name : Text) (k : ℕ) (g : Gateway l) (r : ℕ) (room : RoomState l)
      → get r g.objects ≡ some room
      → In (name, r) g.rooms
      → has_db_id room.db_id db_id ≡ true
      → (room' : RoomState l) × (get r (raise_epoch l db_id (some k) g).0.objects ≡ some room')
        × (k ≤ room'.current_key_id)
  unfolding raise_epoch
  raise_epoch_reaches db_id name k g r room h i d =
      raise_rooms_reaches db_id k name g.rooms g.objects r room h i d

  -- An announcement that comes before a room's row has been read into memory is not lost: however old
  -- the row, the room loads at the announced epoch or above, and never below the row's own.
  pub load-raise_epoch :
      (k : ℕ) (g : Gateway l) (row : Room) (room : RoomState l)
      → let g' = (raise_epoch l row.id (some k) g).0 in
        let loaded = load_room l (some row) g'.epoch_by_db_id room in
        (k ≤ loaded.current_key_id)
        × (row.current_key_id ≤ loaded.current_key_id)
        × (room.current_key_id ≤ loaded.current_key_id)
  unfolding raise_epoch load_room
  load-raise_epoch k g row room =
      let seen =
        get-put row.id row.id (max (or_zero (get row.id g.epoch_by_db_id)) k) g.epoch_by_db_id in
      ground (arith, seen, eq_iff row.id row.id)
