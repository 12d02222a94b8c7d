-- ===== src/Lib.antt =====
-- A verification library of chat-crdt: a chat over Yjs documents with end-to-end encrypted rooms.
--
-- The program has a server (apps/server: rooms, room keys and the sync gateway), a sync engine that
-- clients embed (packages/sync-engine) and an app (apps/mobile). Clients edit a room's Yjs document
-- and exchange updates with the gateway, which passes them on to the room's other clients and, over
-- Redis, to other instances. A room is encrypted from its epoch 1 on: an admin claims epochs and
-- members hand each other the epoch's key as grants (room keys); the gateway then refuses updates
-- that hold anything but encrypted messages (the gate), tells the client which messages to take out,
-- and the client's provider retracts them, its stores put the text back into the composer and lock
-- it until a key is there.
--
-- Shared: packages/shared/src/types.ts (Message), JavaScript values and the sorting of their keys
--   (Value, Sorting), and the delays of all retries (Backoff).
-- Server.Db, Http, Rooms: the tables, apps/server/src/rooms/rooms.service.ts with its DTO, and
--   users.service.ts (setPublicKey is Rooms.set_public_key).
-- Server.Auth: apps/server/src/auth/auth.service.ts. register is split where it awaits bcrypt.
-- Server.RoomKeys: apps/server/src/rooms/room-keys.service.ts. uploadGrants is split where it awaits:
--   `authorize` reads and decides, `commit` writes, and RoomKeys.System lets any requests come
--   between them. RoomKeys.Upload has the checks of upload-keys.dto.ts before it.
-- Server.Gate: apps/server/src/sync/e2ee-update-gate.ts. Its loops are recursion over the structs.
-- Server.Gateway: apps/server/src/sync/sync.gateway.ts and room-state.ts. The state is a record, the
--   rooms' objects stand in a store under numbers, since maps, handlers and timers share them, and a
--   step gives the new state and a list of effects. handleMessage is Messages.handle_message,
--   handleConnection and handleDisconnect are in Lifecycle, raiseEpoch and loadRoomState in Epochs,
--   the document's and the awareness's update handlers in Fanout, isRateLimited in RateLimit and
--   sweepHeartbeats in Heartbeat.
-- Engine: packages/sync-engine/src. SyncEngine.ts is Messages, over an interface of a Y.Array, and
--   WebSocketProvider.ts is Provider, with one step for each event of the socket, the retry timer
--   and the document. SQLitePersistence.ts is Persistence: `load` and `discard` are split where they
--   wait, and a write that `persist` starts lands or fails in a step of its own (Events).
-- Mobile: apps/mobile/src. crypto/e2eeEnvelope.ts and LibsodiumContentCipher.ts are Cipher;
--   crypto/renderState.ts, roomE2eeState.ts, composerGate.ts and rejectedDraft.ts are Render;
--   store/rooms.store.ts with createLatestWins is Rooms, and its requests are Requests,
--   crypto/roomRefresher.ts is Refresher, crypto/keyFlows.ts is Keys, and store/chat.store.ts is Chat.
--   hooks/useSync.ts is Sync, with one function for each callback that it gives to its engine,
--   connection and local copy; the policy crypto/legacyDocPolicy.ts is LegacyPolicy, and
--   polyfills/base64.ts is Base64. crypto/keyStore.ts, e2eeStickyStore.ts and keyFlows.ts'
--   ensureIdentityPublished are KeyCache, and the derivations in chat/ and utils/draftRestore.ts are
--   Conversation.
-- Mobile.Account: store/auth.store.ts, and the publishing of a key that hooks/useE2ee.ts starts. Calls
--   are split at the server's answer.
-- Mobile.Composer: components/Composer.tsx, and handleSend of app/(chat)/[roomId].tsx.
-- Bench: apps/server/bench/raw-ws-socket.ts, a WebSocket client over TCP. Frame is the codec of its
--   frames, Socket the connection once it is open, and Connect the handshake; what comes over TCP is a
--   list of chunks. The loop of processBuffer has as many rounds as the buffer has bytes, and every
--   frame takes two at least.
-- Session: the provider of a client and the server's gate together, in the exchange of refusals and
--   answers that a plaintext message starts; Session.Handover follows a room key from one member's
--   device over the server to another's.
--
-- Numbers are natural numbers; text is a list of UTF-16 code units. Times, random values and new ids
-- are arguments. Every loop is over a list or counts down, but for Session.resync, whose fuel is a
-- number of rounds, and for which two more than the client has messages are enough. Yjs, y-protocols,
-- lib0, JSON, libsodium, JWT, hashes, UTF-8 and Unicode's case mapping are fields of records that the
-- definitions take, and what a theorem needs of them is a hypothesis. Not modelled: the app's views
-- and layout, HTTP controllers, logging, and the benchmarks but for their WebSocket client.
pub mod Prelude
pub mod Shared
pub mod Server
pub mod Engine
pub mod Mobile
pub mod Session
pub mod Bench
