-- ===== src/Engine/Persistence/Events.antt =====
-- What may happen to a local copy, in any order.
use chat_crdt.Prelude.{List, [], ◌∷◌}
use chat_crdt.Engine.Persistence.{
  Documents, Persistence, on_edit, on_timer, on_landed, on_failed, load_begin, load_end,
  discard_begin, discard_end, destroy,
}

module _ (l : Documents) where
  pub data Event : Type 0 where
    edits : l.Doc → Event
    fires lands fails begins_load ends_load begins_discard ends_discard destroys : Event

  unfoldable pub handle : Event → Persistence l → Persistence l
  unfolding on_edit on_timer on_landed on_failed load_begin load_end discard_begin discard_end
      destroy
  handle (edits d) p = on_edit l d p
  handle fires p = on_timer l p
  handle lands p = on_landed l p
  handle fails p = on_failed l p
  handle begins_load p = load_begin l p
  handle ends_load p = load_end l p
  handle begins_discard p = discard_begin l p
  handle ends_discard p = discard_end l p
  handle destroys p = destroy l p

  unfoldable pub handle_all : List Event → Persistence l → Persistence l
  unfolding handle
  handle_all [] p = p
  handle_all (e ∷ es) p = handle_all es (handle e p)
