-- ===== src/Engine/Persistence/Reopened.antt =====
-- What a later session finds.
use chat_crdt.Prelude.{
  ◌≡◌, sym, ap, ◌∙◌, Bool, true, false, Option, some, List, [], all, Text, Map, get, text_Eq,
}
use chat_crdt.Shared.Message.{Message}
use chat_crdt.Engine.Persistence.{Documents, Persistence, new_persistence, key, destroy, load}
use chat_crdt.Engine.Persistence.Events.{Event, handle_all}
use chat_crdt.Engine.Persistence.Stored.{IsFaithful, last_of, has_legacy, restored, is_working}
use chat_crdt.Engine.Persistence.Working.{
  Working, Closed, destroy-Closed, handle-Working, handle-Closed, kept_all,
}
use chat_crdt.Engine.Persistence.Loading.{load-opened, load-Working}

-- Closing and reopening a room. A copy is made and loaded, from a storage where no document from
-- before the scopes is left, and the load succeeds. Edits, runs of the timer, ends of writes, all of
-- which succeed, and further calls of `load` follow in any order, then `destroy`, then again any such
-- steps, until no write is under way; there is no discard. If Yjs and base64 read back what they
-- wrote, a new copy for the same account and room over the resulting storage loads the document as
-- it was when the first was destroyed, whether or not the timer had run for its last edits.
pub reopened :
    (l : Documents) (room : Text) (scope : Option Text)
    (adopt adopt' : Option (List Message → Bool)) (removes : Bool) (storage : Map Text Text)
    (working closing : List (Event l))
    → IsFaithful l
    → has_legacy scope room storage ≡ false
    → (load l (new_persistence l room scope adopt removes storage)).subscribed ≡ true
    → all (is_working l) working ≡ true
    → all (is_working l) closing ≡ true
    → let p = handle_all l working (load l (new_persistence l room scope adopt removes storage)) in
      let q = handle_all l closing (destroy l p) in
      q.in_flight ≡ []
      → (load l (new_persistence l room scope adopt' removes q.storage)).doc ≡ p.doc
reopened l room scope adopt adopt' removes storage working closing f h s ws cs e =
    let names : Option Text × Text = (scope, room) in
    let p0 = load l (new_persistence l room scope adopt removes storage) in
    let p = handle_all l working p0 in
    let w =
      kept_all l f names (Working l f names) (handle-Working l f names) working p0 ws
        (load-Working l room scope adopt removes storage f h s) in
    let q = handle_all l closing (destroy l p) in
    let c =
      kept_all l f names (Closed l f names p.doc) (handle-Closed l f names p.doc) closing
        (destroy l p) cs (destroy-Closed l f names p w) in
    let found : restored l (get (key l q) q.storage) ≡ some p.doc =
      ap (λ ws. restored l (last_of ws (get (key l q) q.storage))) (sym e) ∙ c.7 in
    ap
      (λ (n : Option Text × Text).
        (load l (new_persistence l n.1 n.0 adopt' removes q.storage)).doc)
      (sym c.5)
    ∙ ap (λ (r : Persistence l). r.doc)
        (load-opened l q.room_id q.scope adopt' removes q.storage p.doc c.4 found)
