-- ===== src/Mobile/Requests.antt =====
-- apps/mobile/src/store/rooms.store.ts, the requests of the rooms store: what is done before a request
-- is sent, and with its answer.
pub mod Loading
mod Tests
use chat_crdt.Prelude.{
  ℕ, Bool, true, false, not, ◌&&◌, Option, none, some, List, [], ◌∷◌, ◌++◌, Text, codes,
  if◌then◌else◌,
}
use chat_crdt.Shared.Value.{Value, Items, nil, cons, str, arr, obj, field_of}
use chat_crdt.Mobile.Rooms.{
  RoomSummary, RoomsState, LatestWins, begin, try_apply, apply_rooms, room_created, room_joined,
}
use chat_crdt.Mobile.Refresher.{FetchResult, fetched, http_error, network_error}

pub record Store : Type 0 where
  -- Of the auth store.
  pub token : Option Text
  pub known : RoomsState
  pub is_loading : Bool
  pub error : Option Text
  -- `roomsRequests`
  pub requests : LatestWins

-- What comes of a GET /rooms: nothing, an error, a body that cannot be read to its end or is no JSON,
-- or a list.
pub data Answer : Type 0 where
  unreachable unreadable : Answer
  refused : ℕ → Answer
  answered : List RoomSummary → Answer

abbrev pub applied : Bool → List RoomSummary → Store → Store
applied wins rooms s = if wins then record s { known = apply_rooms rooms s.known } else s

-- What `requestRooms` returns without a token.
abbrev pub no_token : FetchResult
no_token = http_error 401

abbrev pub request_with : Option Text → Store → Option ℕ × Store
request_with none s = (none, s)
request_with (some token) s =
    let (seq, w) = begin s.requests in (some seq, record s { requests = w })

-- `requestRooms` up to the answer: the request's number, or nothing without a token, when its result is
-- `no_token`.
unfoldable pub request_begin : Store → Option ℕ × Store
request_begin s = request_with s.token s

-- `requestRooms` from the answer on: its result, or nothing where it throws.
unfoldable pub request_end : ℕ → Answer → Store → Option FetchResult × Store
unfolding try_apply apply_rooms
request_end seq unreachable s = (some network_error, s)
request_end seq (refused status) s = (some (http_error status), s)
request_end seq unreadable s = (none, s)
request_end seq (answered rooms) s =
    let (wins, w) = try_apply seq s.requests in
    (some (fetched rooms), applied wins rooms (record s { requests = w }))

abbrev pub fetch_with : Option Text → Store → Option ℕ × Store
fetch_with none s = (none, s)
fetch_with (some token) s =
    if s.is_loading then (none, s) else request_begin (record s { is_loading = true; error = none })

-- `fetchRooms` up to the answer.
unfoldable pub fetch_begin : Store → Option ℕ × Store
fetch_begin s = fetch_with s.token s

-- `show` is the decimal form of a number.
abbrev pub settled : (ℕ → Text) → Option FetchResult × Store → Store
settled show (none, s) = s
settled show (some (fetched rooms), s) = record s { is_loading = false }
settled show (some (http_error status), s) = record s {
  is_loading = false;
  error = some (codes "Failed to load rooms (" ++ (show status ++ codes ")"));
}
settled show (some network_error, s) = record s {
  is_loading = false;
  error = some (codes "Failed to load rooms");
}

-- `fetchRooms` from the answer on.
unfoldable pub fetch_end : (ℕ → Text) → ℕ → Answer → Store → Store
unfolding request_end
fetch_end show seq answer s = settled show (request_end seq answer s)

-- `message.every((m) => typeof m === 'string')`, with the strings.
abbrev pub strings : Items → Option (List Text)
strings nil = some []
strings (cons (str t) vs) = elim (strings vs) [ none ↦ none | some ts ↦ some (t ∷ ts) ]
strings (cons _ vs) = none

abbrev pub join : List Text → Text
join [] = []
join (t ∷ []) = t
join (t ∷ u ∷ ts) = t ++ (codes ", " ++ join (u ∷ ts))

abbrev pub message_or : Text → Value → Text
message_or fallback (str t) = t
message_or fallback (arr vs) = elim (strings vs) [
  | none ↦ fallback
  | some ts ↦ elim ts [ [] ↦ fallback | t ∷ rest ↦ join (t ∷ rest) ]
]
message_or fallback _ = fallback

-- `extractErrorMessage`. A body that is no JSON is none; an array has no `message`.
unfoldable pub extract_error_message : Option Value → Text → Text
unfolding field_of
extract_error_message (some (obj fs)) fallback = message_or fallback (field_of (codes "message") fs)
extract_error_message _ fallback = fallback

-- What comes of a POST: an error of `fetch` or of the reading of a good body, whose text is not the
-- store's, an error with the body's JSON, or a room.
pub data PostAnswer : Type 0 where
  lost : Text → PostAnswer
  rejected : Option Value → PostAnswer
  made : RoomSummary → PostAnswer

pub data Posted : Type 0 where
  thrown : Text → Posted
  returned : RoomSummary → Posted

-- `createRoom` and `joinRoom` from the answer on; `not_authenticated` is what they throw before a request
-- without a token.
abbrev pub not_authenticated : Posted
not_authenticated = thrown (codes "Not authenticated")

unfoldable pub create_end : PostAnswer → RoomsState → Posted × RoomsState
unfolding extract_error_message room_created
create_end (lost t) s = (thrown t, s)
create_end (rejected body) s =
    (thrown (extract_error_message body (codes "Failed to create room")), s)
create_end (made room) s = (returned room, room_created room s)

unfoldable pub join_end : PostAnswer → RoomsState → Posted × RoomsState
unfolding extract_error_message room_joined
join_end (lost t) s = (thrown t, s)
join_end (rejected body) s = (thrown (extract_error_message body (codes "Failed to join room")), s)
join_end (made room) s = (returned room, room_joined room s)
