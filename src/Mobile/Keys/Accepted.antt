-- ===== src/Mobile/Keys/Accepted.antt =====
-- What the app posts for a new epoch, against the server's checks.
use chat_crdt.Prelude.{nat_Eq, text_Eq}
use chat_crdt.Server.Db.{Db}
