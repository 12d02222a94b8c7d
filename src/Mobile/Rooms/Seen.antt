-- ===== src/Mobile/Rooms/Seen.antt =====
-- A room that was once seen encrypted.
use chat_crdt.Prelude.{
  ◌≡◌, ◌∙◌, Bool, true, false, ◌&&◌, inl, inr, none, some, List, [], ◌∷◌, any, Text, codes, Map,
  get, put, get-put, ltb, leb, ◌==◌, text_Eq, arith, Bool-cases,
}
use chat_crdt.Mobile.Render.{e2ee_room, resolve_room_e2ee_state}
use chat_crdt.Mobile.Rooms.{
  RoomSummary, RoomsState, on_refresh, on_ever_e2ee, remember_e2ee_rooms, apply_rooms,
  note_room_epoch, room_created, room_joined, use_room_e2ee_state, Event, refreshed, flagged,
  listed, noted, created, joined, step, run,
}

-- The room's flag is set.
abbrev pub IsFlagged : Text → RoomsState → Type 0
IsFlagged name s = get name s.ever_e2ee_by_room ≡ some true

put-keeps :
    (name other : Text) (ever : Map Text Bool)
    → get name ever ≡ some true
    → get name (put other true ever) ≡ some true
put-keeps name other ever h = get-put other name true ever ∙ ground arith

remember-keeps :
    (name : Text) (rooms : List RoomSummary) (ever : Map Text Bool)
    → get name ever ≡ some true
    → get name (remember_e2ee_rooms rooms ever) ≡ some true
unfolding remember_e2ee_rooms
remember-keeps name [] ever h = h
remember-keeps name (r ∷ rooms) ever h = elim (Bool-cases (ltb 0 r.current_key_id)) [
  | inl e ↦ rw e (remember-keeps name rooms _ (put-keeps name r.name ever h))
  | inr e ↦ rw e (remember-keeps name rooms ever h)
]

remember-sets :
    (name : Text) (rooms : List RoomSummary) (ever : Map Text Bool)
    → any (λ r. ltb 0 r.current_key_id && r.name == name) rooms ≡ true
    → get name (remember_e2ee_rooms rooms ever) ≡ some true
unfolding remember_e2ee_rooms
remember-sets name [] ever h = ground arith
remember-sets name (r ∷ rooms) ever h =
    elim (Bool-cases (ltb 0 r.current_key_id && r.name == name)) [
      | inl e ↦
          let positive : ltb 0 r.current_key_id ≡ true = ground arith in
          let same : get name (put r.name true ever) ≡ some true =
            get-put r.name name true ever ∙ ground arith in
          rw positive (remember-keeps name rooms (put r.name true ever) same)
      | inr e ↦ remember-sets name rooms _ (ground arith)
    ]

step-IsFlagged :
    (e : Event) (name : Text) (s : RoomsState) → IsFlagged name s → IsFlagged name (step e s)
unfolding step on_refresh on_ever_e2ee apply_rooms note_room_epoch room_created room_joined
step-IsFlagged (refreshed room none) name s h = h
step-IsFlagged (refreshed room (some state)) name s h = h
step-IsFlagged (flagged room) name s h = put-keeps name room s.ever_e2ee_by_room h
step-IsFlagged (listed rooms) name s h = remember-keeps name rooms s.ever_e2ee_by_room h
step-IsFlagged (noted other key_id) name s h = elim (Bool-cases (leb key_id 0)) [
  | inl e ↦ rw e h
  | inr e ↦ rw e (put-keeps name other s.ever_e2ee_by_room h)
]
step-IsFlagged (created room) name s h = h
step-IsFlagged (joined room) name s h = h

run-IsFlagged :
    (es : List Event) (name : Text) (s : RoomsState) → IsFlagged name s → IsFlagged name (run es s)
unfolding run
run-IsFlagged [] name s h = h
run-IsFlagged (e ∷ es) name s h = run-IsFlagged es name (step e s) (step-IsFlagged e name s h)

-- Does this event show that the room is encrypted?
abbrev pub shows_e2ee : Text → Event → Bool
shows_e2ee name (refreshed room state) = false
shows_e2ee name (flagged room) = room == name
shows_e2ee name (listed rooms) = any (λ r. ltb 0 r.current_key_id && r.name == name) rooms
shows_e2ee name (noted room key_id) = ltb 0 key_id && room == name
shows_e2ee name (created room) = false
shows_e2ee name (joined room) = false

shown-IsFlagged :
    (e : Event) (name : Text) (s : RoomsState)
    → shows_e2ee name e ≡ true
    → IsFlagged name (step e s)
unfolding step on_ever_e2ee apply_rooms note_room_epoch
shown-IsFlagged (refreshed room state) name s h = ground arith
shown-IsFlagged (flagged room) name s h = get-put room name true s.ever_e2ee_by_room ∙ ground arith
shown-IsFlagged (listed rooms) name s h = remember-sets name rooms s.ever_e2ee_by_room h
shown-IsFlagged (noted room key_id) name s h =
    let positive : leb key_id 0 ≡ false = ground arith in
    rw positive (get-put room name true s.ever_e2ee_by_room ∙ ground arith)
shown-IsFlagged (created room) name s h = ground arith
shown-IsFlagged (joined room) name s h = ground arith

-- Once the app has been shown that a room other than the default one is encrypted, by an epoch frame
-- of the server, by a rooms list or by the stored flag, it takes the room as encrypted whatever
-- happens to the store from then on: stale lists, failed or offline refreshes, or none.
pub never_downgraded :
    (before after : List Event) (e : Event) (name : Text) (s : RoomsState)
    → (name == codes "default") ≡ false
    → shows_e2ee name e ≡ true
    → use_room_e2ee_state name (run after (step e (run before s))) ≡ e2ee_room
unfolding use_room_e2ee_state resolve_room_e2ee_state
never_downgraded before after e name s d h =
    let flag =
      run-IsFlagged after name (step e (run before s)) (shown-IsFlagged e name (run before s) h) in
    rw d (rw flag (ground arith))
