-- ===== src/Mobile/Refresher.antt =====
-- apps/mobile/src/crypto/roomRefresher.ts, `createRoomRefresher`. A refresh is three steps: its start, the answer to
-- `wasEverE2ee`, and the answer to `fetchRooms`; the last two hold the entry that the first one made.
pub mod Stopped
use chat_crdt.Prelude.{
  ℕ, suc, Bool, true, false, not, ◌&&◌, Option, none, some, List, [], ◌∷◌, ◌++◌, Text, Map, get,
  put, delete, find, ◌==◌, if◌then◌else◌, text_Eq, nat_Eq,
}
use chat_crdt.Shared.Backoff.{backoff_delay}
use chat_crdt.Engine.Provider.{Status, disconnected, connecting, connected}
use chat_crdt.Mobile.Render.{RefreshState, pending, offline, failed, ok}
use chat_crdt.Mobile.Rooms.{RoomSummary}

-- A `fetchRooms` that throws is a network error.
pub data FetchResult : Type 0 where
  fetched : List RoomSummary → FetchResult
  http_error : ℕ → FetchResult
  network_error : FetchResult

-- `generation` is never changed, and is 0.
pub record RoomEntry : Type 0 where
  pub in_flight : Bool
  pub retry_timer : Option ℕ
  pub failures : ℕ

-- An entry is an object that pending work holds, so it has a number.
pub record Refresher : Type 0 where
  pub objects : Map ℕ RoomEntry
  pub next_object : ℕ
  pub entries : Map Text ℕ

pub data Effect : Type 0 where
  on_ever_e2ee : Text → Effect
  on_rooms : List RoomSummary → Effect
  on_refresh : Text → Option RefreshState → Effect

abbrev pub Step : Type 0
Step = Refresher × List Effect

abbrev pub is_disconnected : Option Status → Bool
is_disconnected (some disconnected) = true
is_disconnected _ = false

abbrev pub state_of : Option RoomSummary → RefreshState
state_of none = failed
state_of (some r) = ok r.current_key_id

unfoldable pub classify : Text → FetchResult → Option Status → RefreshState
classify room (fetched rooms) socket = state_of (find (λ r. r.name == room) rooms)
classify room (http_error status) socket = failed
classify room network_error socket = if is_disconnected socket then offline else failed

-- The entry of a room, made if there is none.
unfoldable pub entry_for : Text → Refresher → (ℕ × RoomEntry) × Refresher
unfolding get put
entry_for room st =
    let new : RoomEntry = record { in_flight = false; retry_timer = none; failures = 0 } in
    let made : (ℕ × RoomEntry) × Refresher = (
      (st.next_object, new),
      record {
        objects = put st.next_object new st.objects;
        next_object = suc st.next_object;
        entries = put room st.next_object st.entries;
      },
    ) in
    elim (get room st.entries) [
      | none ↦ made
      | some e ↦ elim (get e st.objects) [ none ↦ made | some entry ↦ ((e, entry), st) ]
    ]

-- `refresh` up to its first `await`.
unfoldable pub refresh : Text → Refresher → Step
unfolding entry_for put
refresh room st =
    let ((e, entry), st') = entry_for room st in
    if entry.in_flight then (st', []) else (
      record st' {
        objects = put e (record entry { in_flight = true; retry_timer = none }) st'.objects;
      },
      on_refresh room (some pending) ∷ [],
    )

-- `if (await deps.wasEverE2ee(room)) deps.onEverE2ee(room)`
abbrev pub flagged : Text → Bool → List Effect
flagged room ever = if ever then on_ever_e2ee room ∷ [] else []

-- `entries.get(room) === entry`
abbrev pub is_entry : Option ℕ → ℕ → Bool
is_entry none e = false
is_entry (some d) e = d == e

abbrev pub is_ok : RefreshState → Bool
is_ok (ok k) = true
is_ok _ = false

-- The entry after a result that is used.
unfoldable pub after_result : RefreshState → RoomEntry → RoomEntry
unfolding backoff_delay
after_result state entry =
    if is_ok state then record entry { in_flight = false; failures = 0 } else record entry {
      in_flight = false;
      failures = suc entry.failures;
      retry_timer = some (backoff_delay 1_000 30_000 entry.failures);
    }

abbrev pub rooms_told : FetchResult → List Effect
rooms_told (fetched rooms) = on_rooms rooms ∷ []
rooms_told _ = []

-- The rest of a refresh, once `fetchRooms` has answered. `e` is the entry that the refresh holds.
unfoldable pub settle : Text → ℕ → FetchResult → Option Status → Refresher → Step
unfolding classify after_result get put
settle room e result socket st = elim (get e st.objects) [
  | none ↦ (st, [])
  | some entry ↦
      if is_entry (get room st.entries) e
      then (
        record st { objects = put e (after_result (classify room result socket) entry) st.objects },
        rooms_told result ++ on_refresh room (some (classify room result socket)) ∷ [],
      )
      else (record st { objects = put e (record entry { in_flight = false }) st.objects }, [])
]

-- The retry timer of an entry runs out.
unfoldable pub retry_due : Text → ℕ → Refresher → Step
unfolding refresh get put
retry_due room e st = elim (get e st.objects) [
  | none ↦ (st, [])
  | some entry ↦
      let st' : Refresher = record st {
        objects = put e (record entry { retry_timer = none }) st.objects;
      } in
      if is_entry (get room st.entries) e then refresh room st' else (st', [])
]

-- `stop`. The timer of the entry is cleared with it.
unfoldable pub stop : Text → Refresher → Step
unfolding get put delete
stop room st =
    let objects = elim (get room st.entries) as (λ x. Map ℕ RoomEntry) [
      | none ↦ st.objects
      | some e ↦ elim (get e st.objects) as (λ x. Map ℕ RoomEntry) [
        | none ↦ st.objects
        | some entry ↦ put e (record entry { retry_timer = none }) st.objects
      ]
    ] in
    (record st { objects = objects; entries = delete room st.entries }, on_refresh room none ∷ [])
