-- ===== src/Engine/Persistence.antt =====
-- packages/sync-engine/src/SQLitePersistence.ts: the local copy of a room's document. Each call, each
-- timer and each end of an awaited read or write is one step. The storage finishes its writes in the
-- order in which they were started. What `migrateLegacy` awaits is not split: a call of it runs to its
-- end in one step.
pub mod Events
pub mod Stored
pub mod Working
pub mod Loading
pub mod Reopened
pub mod Discarded
pub mod Legacy
mod Tests
use chat_crdt.Prelude.{
  ℕ, ◌%◌, Bool, true, false, not, ◌&&◌, ◌||◌, Option, none, some, List, [], ◌∷◌, ◌++◌, map, Text,
  codes, Map, get, put, delete, if◌then◌else◌, text_Eq,
}
use chat_crdt.Shared.Message.{Message}
use chat_crdt.Engine.Messages.{is_blank}

-- Yjs, and the global `btoa` and `atob`, which may throw.
pub record Documents : Type 1 where
  pub Doc : Type 0
  -- `new Y.Doc()`
  pub empty : Doc
  pub apply_update : Doc → List ℕ → Option Doc
  pub encode_state : Doc → List ℕ
  -- Does applying this update run the update handlers?
  pub emits : Doc → List ℕ → Bool
  pub messages : Doc → List Message
  pub btoa : Text → Option Text
  pub atob : Text → Option Text

-- A store into a Uint8Array takes a code unit modulo 256.
abbrev pub as_bytes : Option Text → Option (List ℕ)
as_bytes none = none
as_bytes (some binary) = some (map (λ c. c % 256) binary)

abbrev pub legacy_key : Text → Text
legacy_key room = codes "yjs:" ++ room

-- The key that the constructor computes; an empty scope is no scope.
abbrev pub key_of : Option Text → Text → Text
key_of none room = legacy_key room
key_of (some []) room = legacy_key room
key_of (some (c ∷ s)) room = codes "yjs:" ++ ((c ∷ s) ++ (codes ":" ++ room))

abbrev pub drop_first {ℓ} : {A : Type ℓ} → List A → List A
drop_first [] = []
drop_first (x ∷ xs) = xs

abbrev pub has_scope : Option Text → Bool
has_scope none = false
has_scope (some s) = not (is_blank s)

abbrev pub nothing_in_flight : List Text → Bool
nothing_in_flight [] = true
nothing_in_flight (w ∷ ws) = false

module _ (l : Documents) where
  pub record Persistence : Type 0 where
    pub room_id : Text
    pub scope : Option Text
    pub adopt_legacy : Option (List Message → Bool)
    -- `engine.doc`, and whether `docUpdateHandler` is subscribed to it.
    pub doc : l.Doc
    pub subscribed : Bool
    pub loaded : Bool
    pub destroyed : Bool
    -- Is `persistTimer` running?
    pub timer : Bool
    -- The table of the storage, and whether it has `removeItem`.
    pub storage : Map Text Text
    pub removes : Bool
    -- The writes of `persist` that were started and have not landed, the oldest first.
    pub in_flight : List Text
    -- What the running calls of `load` have read.
    pub reads : List (Option Text)

  -- The bytes as code units.
  unfoldable pub uint8_to_base64 : List ℕ → Option Text
  uint8_to_base64 bytes = l.btoa bytes

  unfoldable pub base64_to_uint8 : Text → Option (List ℕ)
  base64_to_uint8 b64 = as_bytes (l.atob b64)

  -- The constructor, over a storage and a new document.
  abbrev pub new_persistence :
      Text → Option Text → Option (List Message → Bool) → Bool → Map Text Text → Persistence
  new_persistence room scope adopt removes storage = record {
    room_id = room;
    scope = scope;
    adopt_legacy = adopt;
    doc = l.empty;
    subscribed = false;
    loaded = false;
    destroyed = false;
    timer = false;
    storage = storage;
    removes = removes;
    in_flight = [];
    reads = [];
  }

  abbrev pub key : Persistence → Text
  key p = key_of p.scope p.room_id

  -- `docUpdateHandler`: the timer starts, or starts again.
  unfoldable pub doc_update_handler : Persistence → Persistence
  doc_update_handler p = record p { timer = true }

  abbrev pub notify : Bool → Persistence → Persistence
  notify emitted p = if emitted && p.subscribed then doc_update_handler p else p

  -- A change of the document by the engine or its connection.
  unfoldable pub on_edit : l.Doc → Persistence → Persistence
  unfolding doc_update_handler
  on_edit d p = notify true (record p { doc = d })

  abbrev pub start_write : Option Text → Persistence → Persistence
  start_write none p = p
  start_write (some value) p = record p { in_flight = p.in_flight ++ value ∷ [] }

  -- `persist`
  unfoldable pub persist : Persistence → Persistence
  unfolding uint8_to_base64
  persist p = if p.destroyed then p else start_write (uint8_to_base64 (l.encode_state p.doc)) p

  -- What the timer runs.
  unfoldable pub on_timer : Persistence → Persistence
  unfolding persist
  on_timer p = if p.timer then persist (record p { timer = false }) else p

  abbrev pub set_item : Text → Text → Persistence → Persistence
  set_item k v p = record p { storage = put k v p.storage }

  -- `storage.removeItem?.(key)`
  abbrev pub remove_item : Text → Persistence → Persistence
  remove_item k p = record p { storage = if p.removes then delete k p.storage else p.storage }

  abbrev pub land : List Text → Persistence → Persistence
  land [] p = p
  land (w ∷ ws) p = set_item (key p) w (record p { in_flight = ws })

  -- The oldest write lands.
  unfoldable pub on_landed : Persistence → Persistence
  on_landed p = land p.in_flight p

  -- The oldest write fails, which `persist` catches.
  unfoldable pub on_failed : Persistence → Persistence
  on_failed p = record p { in_flight = drop_first p.in_flight }

  abbrev pub apply_raw : l.Doc → Option (List ℕ) → Option l.Doc
  apply_raw d none = none
  apply_raw d (some update) = l.apply_update d update

  abbrev pub ask : Option (List Message → Bool) → Option l.Doc → Bool
  ask policy none = false
  ask none (some probe) = false
  ask (some adopt) (some probe) = adopt (l.messages probe)

  -- `migrateLegacy` where there is a legacy document.
  unfoldable pub decide_legacy : Text → Persistence → Option Text × Persistence
  unfolding base64_to_uint8
  decide_legacy legacy p =
      let adopt = ask p.adopt_legacy (apply_raw l.empty (base64_to_uint8 legacy)) in
      let p' = if adopt then set_item (key p) legacy p else p in
      (if adopt then some legacy else none, remove_item (legacy_key p.room_id) p')

  abbrev pub migrate_found : Option Text → Persistence → Option Text × Persistence
  migrate_found none p = (none, p)
  migrate_found (some legacy) p = if is_blank legacy then (none, p) else decide_legacy legacy p

  -- `migrateLegacy`
  unfoldable pub migrate_legacy : Persistence → Option Text × Persistence
  unfolding decide_legacy
  migrate_legacy p = migrate_found (get (legacy_key p.room_id) p.storage) p

  abbrev pub or_legacy : Option Text → Persistence → Option Text × Persistence
  or_legacy none p = if has_scope p.scope then migrate_legacy p else (none, p)
  or_legacy (some raw) p = (some raw, p)

  -- `load` up to its reads.
  unfoldable pub load_begin : Persistence → Persistence
  unfolding migrate_legacy
  load_begin p =
      let (raw, p') = or_legacy (get (key p) p.storage) p in
      if p.loaded then p else record p' { reads = p'.reads ++ raw ∷ [] }

  abbrev pub subscribe : Persistence → Persistence
  subscribe p = record p { subscribed = true; loaded = true }

  -- An update that cannot be read makes `load` fail.
  abbrev pub hydrate_bytes : Option (List ℕ) → Persistence → Persistence
  hydrate_bytes none p = p
  hydrate_bytes (some update) p = elim (l.apply_update p.doc update) [
    | none ↦ p
    | some d ↦ subscribe (notify (l.emits p.doc update) (record p { doc = d }))
  ]

  unfoldable pub hydrate : Option Text → Persistence → Persistence
  unfolding doc_update_handler base64_to_uint8
  hydrate raw p = if p.destroyed then p else elim raw [
    | none ↦ subscribe p
    | some b64 ↦ if is_blank b64 then subscribe p else hydrate_bytes (base64_to_uint8 b64) p
  ]

  abbrev pub finish_read : List (Option Text) → Persistence → Persistence
  finish_read [] p = p
  finish_read (raw ∷ rest) p = hydrate raw (record p { reads = rest })

  -- `load` after its reads.
  unfoldable pub load_end : Persistence → Persistence
  unfolding hydrate
  load_end p = finish_read p.reads p

  -- `load` with nothing in between.
  unfoldable pub load : Persistence → Persistence
  unfolding load_begin load_end
  load p = load_end (load_begin p)

  -- `discard` up to its wait for the last write.
  unfoldable pub discard_begin : Persistence → Persistence
  discard_begin p = record p { subscribed = false; timer = false; destroyed = true }

  -- `discard` after that wait.
  unfoldable pub discard_end : Persistence → Persistence
  discard_end p = if nothing_in_flight p.in_flight then remove_item (key p) p else p

  -- `destroy`
  unfoldable pub destroy : Persistence → Persistence
  unfolding persist
  destroy p =
      let unsubscribed : Persistence = record p { subscribed = false } in
      record (if p.timer then persist (record unsubscribed { timer = false }) else unsubscribed) {
        destroyed = true;
      }
