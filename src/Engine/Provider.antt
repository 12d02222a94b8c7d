-- ===== src/Engine/Provider.antt =====
-- packages/sync-engine/src/WebSocketProvider.ts: the client's connection to a room. The update handler
-- of the document, the events of the socket and the retry timer are each one step.
pub mod Offline
pub mod Refused
pub mod Retry
use chat_crdt.Prelude.{
  ℕ, zero, suc, Bool, true, false, not, ◌&&◌, ◌||◌, Option, none, some, List, [], ◌∷◌, ◌++◌, map,
  Text, length, all, contains, leb, ltb, ◌==◌, if◌then◌else◌, text_Eq, nat_Eq,
}
use chat_crdt.Shared.Message.{Message}
use chat_crdt.Shared.Backoff.{backoff_delay}
use chat_crdt.Engine.Messages.{YArray, retract_messages, retract_loop, ids_of}

abbrev pub Bytes : Type 0
Bytes = List ℕ

abbrev pub base_retry_delay_ms : ℕ
base_retry_delay_ms = 1_000

abbrev pub max_retry_delay_ms : ℕ
max_retry_delay_ms = 30_000

pub data Status : Type 0 where
  disconnected connecting connected : Status

abbrev pub is_connected : Status → Bool
is_connected connected = true
is_connected _ = false

abbrev pub is_auth_close_code : ℕ → Bool
is_auth_close_code code = leb 4000 code && leb code 4099

-- A frame from the server; `broken` is one that does not decode, or is of no known type.
pub data Incoming : Type 0 where
  sync awareness_update : Bytes → Incoming
  e2ee_rejected : ℕ → List Text → Incoming
  room_epoch : ℕ → Incoming
  broken : Incoming

-- A frame to the server, in the order of the protocol.
pub data Outgoing : Type 0 where
  step1 reply update presence : Bytes → Outgoing

-- What the provider does: frames, and calls of the functions of its configuration.
pub data Effect : Type 0 where
  send : Outgoing → Effect
  open_socket close_socket : Effect
  on_status_change : Status → Effect
  on_auth_error : ℕ → Effect
  on_e2ee_rejected : ℕ → List Message → Effect
  on_unrecoverable : ℕ → Effect
  on_room_epoch : ℕ → Effect
  on_synced : Effect

-- Yjs and y-protocols.
pub record Library : Type 1 where
  pub y : YArray
  -- `readSyncMessage`: the document, the reply if there is one, and whether it was a step2. It may throw.
  pub read_sync : Bytes → y.Doc → Option (y.Doc × Option Bytes × Bool)
  pub state_vector : y.Doc → Bytes
  -- The update that the handlers of a document get when it changes from one to the other.
  pub changed : y.Doc → y.Doc → Option Bytes
  pub decode : Bytes → Incoming
  -- The client's own awareness state, encoded.
  pub own_presence : Bytes

module _ (l : Library) where
  pub record Provider : Type 0 where
    pub doc : l.y.Doc
    pub user_id : Text
    pub status : Status
    -- Is the socket's readyState OPEN?
    pub is_open : Bool
    pub pending_updates : List Bytes
    pub retry_timer : Option ℕ
    pub retry_count : ℕ
    pub destroyed : Bool
    pub synced : Bool
    pub retracted_ids : List Text
    pub state_refused : Bool

  abbrev pub Step : Type 0
  Step = Provider × List Effect

  -- `send`
  unfoldable pub emit : Outgoing → Provider → List Effect
  emit frame p = if p.is_open then send frame ∷ [] else []

  -- `docUpdateHandler`, for an update that is not the provider's own.
  unfoldable pub on_doc_update : Bytes → Provider → Step
  unfolding emit
  on_doc_update u p =
      if p.destroyed || p.state_refused
      then (p, [])
      else if is_connected p.status
      then (p, emit (update u) p)
      else (record p { pending_updates = p.pending_updates ++ u ∷ [] }, [])

  -- The loop of `flush`.
  unfoldable pub flush_loop : List Bytes → Provider → List Effect
  unfolding emit
  flush_loop [] p = []
  flush_loop (u ∷ us) p = emit (update u) p ++ flush_loop us p

  -- `ws.onopen`
  unfoldable pub on_open : Provider → Step
  unfolding emit flush_loop
  on_open p =
      let p' : Provider = record p {
        retry_count = 0;
        status = connected;
        is_open = true;
        pending_updates = [];
      } in
      let joined = if p.destroyed then [] else emit (presence l.own_presence) p' in
      (
        p',
        on_status_change connected ∷ emit (step1 (l.state_vector p.doc)) p'
            ++ flush_loop p.pending_updates p'
            ++ joined,
      )

  -- `scheduleRetry`
  unfoldable pub schedule_retry : Provider → Provider
  unfolding backoff_delay
  schedule_retry p = record p {
    retry_timer = some (backoff_delay base_retry_delay_ms max_retry_delay_ms p.retry_count);
    retry_count = suc p.retry_count;
  }

  -- `ws.onclose`
  unfoldable pub on_close : ℕ → Provider → Step
  unfolding schedule_retry
  on_close code p =
      let p' : Provider = record p { is_open = false; status = disconnected } in
      if p.destroyed
      then (record p { is_open = false }, [])
      else if is_auth_close_code code
      then (p', on_status_change disconnected ∷ on_auth_error code ∷ [])
      else (schedule_retry p', on_status_change disconnected ∷ [])

  -- `connect`, from the constructor or from the retry timer.
  unfoldable pub connect : Provider → Step
  connect p = if p.destroyed then (p, []) else (
    record p { retry_timer = none; status = connecting },
    on_status_change connecting ∷ open_socket ∷ [],
  )

  abbrev pub changed_by_us : Option Bytes → Provider → Step
  changed_by_us none p = (p, [])
  changed_by_us (some u) p = on_doc_update u p

  abbrev pub add_all : List Text → List Text → List Text
  add_all [] set = set
  add_all (i ∷ ids) set = add_all ids (if contains i set then set else set ++ i ∷ [])

  -- Is the rejection one that retracting the named messages repairs?
  abbrev pub is_repaired : List Text → List Text → Bool
  is_repaired ids retracted = ltb 0 (length ids) && all (λ i. contains i retracted) ids

  -- The branch of MSG_E2EE_REJECTED.
  unfoldable pub on_rejection : ℕ → List Text → Provider → Step
  unfolding retract_messages on_doc_update
  on_rejection key_id ids p =
      let (doc', retracted) = retract_messages l.y p.user_id ids p.doc in
      let (p1, sent) = changed_by_us (l.changed p.doc doc') (record p { doc = doc' }) in
      let seen = add_all (ids_of retracted) p.retracted_ids in
      let told = if ltb 0 (length retracted) then on_e2ee_rejected key_id retracted ∷ [] else [] in
      let p2 : Provider = record p1 { retracted_ids = seen } in
      if is_repaired ids seen then (p2, sent ++ told) else (
        record p2 { state_refused = true; pending_updates = [] },
        sent ++ told ++ on_unrecoverable key_id ∷ [],
      )

  abbrev pub answer : Option Bytes → Provider → List Effect
  answer none p = []
  answer (some r) p = if p.state_refused then [] else emit (reply r) p

  -- `handleServerMessage`
  unfoldable pub handle_server_message : Incoming → Provider → Step
  unfolding emit on_rejection
  handle_server_message (sync frame) p = elim (l.read_sync frame p.doc) [
    | none ↦ (p, [])
    | some (doc', response, is_step2) ↦
        let p' : Provider = record p { doc = doc' } in
        if is_step2 && not p.synced
        then (record p' { synced = true }, answer response p' ++ on_synced ∷ [])
        else (p', answer response p')
  ]
  handle_server_message (awareness_update u) p = (p, [])
  handle_server_message (e2ee_rejected key_id ids) p = on_rejection key_id ids p
  handle_server_message (room_epoch key_id) p = (p, on_room_epoch key_id ∷ [])
  handle_server_message broken p = (p, [])

  -- `destroy`
  unfoldable pub destroy : Provider → Step
  destroy p = (
    record p { destroyed = true; retry_timer = none; pending_updates = []; is_open = false },
    close_socket ∷ [],
  )

  -- The events that a provider sees.
  pub data Event : Type 0 where
    edit : l.y.Doc → Event
    opened retry : Event
    closed : ℕ → Event
    received : Bytes → Event

  unfoldable pub step : Event → Provider → Step
  unfolding on_doc_update on_open on_close connect handle_server_message
  step (edit doc') p = changed_by_us (l.changed p.doc doc') (record p { doc = doc' })
  step opened p = on_open p
  step retry p = connect p
  step (closed code) p = on_close code p
  step (received frame) p = handle_server_message (l.decode frame) p

  unfoldable pub run : List Event → Provider → Step
  unfolding step
  run [] p = (p, [])
  run (e ∷ es) p = let (p1, sent) = step e p in let (p2, more) = run es p1 in (p2, sent ++ more)
