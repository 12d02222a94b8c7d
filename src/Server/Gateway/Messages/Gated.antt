-- ===== src/Server/Gateway/Messages/Gated.antt =====
-- An encrypted room against the frames of its clients.
use chat_crdt.Prelude.{
  ℕ, ◌≡◌, refl, ap, ◌∙◌, true, inl, inr, Option, none, some, List, Text, get, All, length, ltb,
  Bool-cases, text_Eq, nat_Eq, arith,
}
use chat_crdt.Server.Gate.{rejected, check_enveloped_update}
use chat_crdt.Server.Gateway.{
  Library, Gateway, RoomState, Step, Bytes, Inbound, sync_step2, sync_update, Effect, send, close,
  count,
}
use chat_crdt.Server.Gateway.RateLimit.{is_rate_limited}
use chat_crdt.Server.Gateway.Messages.{
  is_gated, plaintext_into_e2ee_room, ask_for_resync, receive_update, dispatch, handle_message,
  max_ws_message_bytes,
}

-- The update that a frame carries.
abbrev pub carried : Inbound → Option Bytes
carried (sync_step2 u) = some u
carried (sync_update u) = some u
carried _ = none

-- An effect that reaches nobody but the socket `c`: no other client, no other instance, no table.
abbrev pub IsPrivate : ℕ → Effect → Type 0
IsPrivate c (send d f) = d ≡ c
IsPrivate c (close d code) = d ≡ c
IsPrivate c (count m) = Unit
IsPrivate c _ = ⊥

some_injective : (a b : Bytes) → some a ≡ some b → a ≡ b
some_injective a b h = cc

module _ (l : Library) where
  ask_for_resync-IsPrivate :
      (c : ℕ) (room : RoomState l) (frame : Bytes) (g : Gateway l)
      → All (IsPrivate c) (ask_for_resync l c room frame g).1
  unfolding ask_for_resync
  ask_for_resync-IsPrivate c room frame g = ground arith

  ask_for_resync_state :
      (c : ℕ) (room : RoomState l) (frame : Bytes) (g : Gateway l)
      → let g' = (ask_for_resync l c room frame g).0 in
        (g'.objects ≡ g.objects) × (g'.persist_timers ≡ g.persist_timers)
  unfolding ask_for_resync
  ask_for_resync_state c room frame g = (refl, refl)

  is_rate_limited_state :
      (now c : ℕ) (g : Gateway l)
      → let g' = (is_rate_limited l now c g).1 in
        (g'.objects ≡ g.objects) × (g'.persist_timers ≡ g.persist_timers)
  unfolding is_rate_limited
  is_rate_limited_state now c g = (refl, refl)

  -- Nothing of the gateway's documents and pending writes has changed, and only `c` hears of it.
  abbrev pub IsRefused : ℕ → Gateway l → Step l → Type 0
  IsRefused c g s =
      (s.0.objects ≡ g.objects) × (s.0.persist_timers ≡ g.persist_timers) × All (IsPrivate c) s.1

  receive_update-IsRefused :
      (c r : ℕ) (room : RoomState l) (frame u : Bytes) (ids : List Text) (g : Gateway l)
      → is_gated l room ≡ true
      → check_enveloped_update l.json_parse l.decode_structs u ≡ rejected ids
      → IsRefused c g (receive_update l c r room frame u g)
  unfolding receive_update plaintext_into_e2ee_room
  receive_update-IsRefused c r room frame u ids g gated bad =
      let (objects, timers) = ask_for_resync_state c room frame g in
      let quiet = ask_for_resync-IsPrivate c room frame g in
      rw (gated, receive_update, plaintext_into_e2ee_room)
        (rw (bad, receive_update) (objects, timers, (tt, (tt, (refl, quiet)))))

  dispatch-IsRefused :
      (c r : ℕ) (room : RoomState l) (frame u : Bytes) (ids : List Text) (m : Inbound)
      (g : Gateway l)
      → carried m ≡ some u
      → is_gated l room ≡ true
      → check_enveloped_update l.json_parse l.decode_structs u ≡ rejected ids
      → IsRefused c g (dispatch l c r room frame m g)
  unfolding dispatch
  dispatch-IsRefused c r room frame u ids (sync_step2 v) g e gated bad =
      receive_update-IsRefused c r room frame v ids g gated
        (ap (check_enveloped_update l.json_parse l.decode_structs) (some_injective v u e) ∙ bad)
  dispatch-IsRefused c r room frame u ids (sync_update v) g e gated bad =
      receive_update-IsRefused c r room frame v ids g gated
        (ap (check_enveloped_update l.json_parse l.decode_structs) (some_injective v u e) ∙ bad)
  dispatch-IsRefused c r room frame u ids _ g e gated bad = cc

  -- Into a gated room, a frame whose update the gate rejects changes no document, schedules no write,
  -- and has no effect but on the socket that sent it: nothing reaches another client, another
  -- instance or the database.
  pub handle_message-IsRefused :
      (now c r : ℕ) (room : RoomState l) (frame u : Bytes) (ids : List Text) (g : Gateway l)
      → get r g.objects ≡ some room
      → carried (l.decode_frame frame) ≡ some u
      → is_gated l room ≡ true
      → check_enveloped_update l.json_parse l.decode_structs u ≡ rejected ids
      → IsRefused c g (handle_message l now c r frame g)
  unfolding handle_message
  handle_message-IsRefused now c r room frame u ids g found e gated bad =
      elim (Bool-cases (ltb max_ws_message_bytes (length frame))) [
        | inl big ↦ rw big (refl, refl, (refl, tt))
        | inr small ↦
            let (objects, timers) = is_rate_limited_state now c g in
            elim (Bool-cases (is_rate_limited l now c g).0) [
              | inl limited ↦ rw small (rw limited (objects, timers, (refl, tt)))
              | inr free ↦
                  let g' : Gateway l = (is_rate_limited l now c g).1 in
                  let (o, t, quiet) =
                    dispatch-IsRefused c r room frame u ids (l.decode_frame frame) g' e gated bad in
                  let found' : get r g'.objects ≡ some room = ap (get r) objects ∙ found in
                  rw small (rw free (rw found' (o ∙ objects, t ∙ timers, quiet)))
            ]
      ]
