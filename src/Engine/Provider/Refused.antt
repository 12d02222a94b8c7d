-- ===== src/Engine/Provider/Refused.antt =====
-- After a refusal that could not be repaired.
use chat_crdt.Prelude.{◌≡◌, Bool, true, false, [], any}
use chat_crdt.Engine.Provider.{Library, Provider, Step, Effect, send, update, reply}

-- Does this effect push a part of the document to the server?
abbrev pub is_push : Effect → Bool
is_push (send (update u)) = true
is_push (send (reply u)) = true
is_push _ = false

module _ (l : Library) where
  -- The provider has stopped, and these effects push nothing.
  abbrev pub Stopped : Step l → Type 0
  Stopped s = (s.0.state_refused ≡ true) × (s.0.pending_updates ≡ []) × (any is_push s.1 ≡ false)
