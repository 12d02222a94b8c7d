-- ===== src/Session.antt =====
-- The client and the server's gate together: packages/sync-engine/src/WebSocketProvider.ts answers a
-- step1 of apps/server/src/sync/sync.gateway.ts, which refuses the answer and asks again.
pub mod Parts
pub mod Distinct
pub mod Resync
pub mod Handover
mod Tests
use chat_crdt.Prelude.{
  ℕ, zero, suc, Bool, true, false, Option, none, some, List, [], ◌∷◌, Text, if◌then◌else◌,
}
use chat_crdt.Shared.Value.{Value}
use chat_crdt.Server.Gate.{Struct, GateResult, accepted, rejected, check_enveloped_update}
use chat_crdt.Engine.Provider.{Library, Provider, on_rejection}

-- How the exchange stands: the gate took the client's state, the client has stopped pushing it, or
-- the next round is due.
pub data Outcome (l : Library) : Type 0 where
  settled stopped due : Provider l → Outcome l

module _ (json_parse : Text → Option Value) (l : Library) (structs : l.y.Doc → List Struct) where
  -- The gate on the client's answer, which is a part of its document.
  abbrev pub verdict : Provider l → GateResult
  verdict p = check_enveloped_update json_parse (λ (ss : List Struct). some ss) (structs p.doc)

  -- Rounds of the exchange: a step1, the client's answer, the gate's refusal of it with the ids it
  -- names, and the next step1. `fuel` is a number of rounds.
  unfoldable pub resync : ℕ → ℕ → Provider l → Outcome l
  resync key_id zero p = due p
  resync key_id (suc fuel) p = if p.state_refused then stopped p else elim (verdict p) [
    | accepted ↦ settled p
    | rejected ids ↦ resync key_id fuel (on_rejection l key_id ids p).0
  ]
