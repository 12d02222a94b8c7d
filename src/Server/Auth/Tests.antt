-- ===== src/Server/Auth/Tests.antt =====
-- Accounts at concrete inputs.
use chat_crdt.Prelude.{
  ◌≡◌, refl, List, [], ◌∷◌, ◌++◌, Text, codes, if◌then◌else◌, ◌==◌, text_eq, text_Eq, nat_Eq,
}
use chat_crdt.Server.Http.{ok, err, conflict, unauthorized, unique_violation}
use chat_crdt.Server.Db.{Db}
use chat_crdt.Engine.Messages.{trim}
use chat_crdt.Server.Auth.{
  Crypto, RegisterDto, AuthResponse, new_user, response, register_begin, register_end, login,
}
use chat_crdt.Server.Auth.Accounts.{registers, publishes, changes, Change, registered_logs_in}

abbrev lower : Text → Text
lower [] = []
lower (x ∷ s) = (if x == b'A' then b'a' else x) ∷ lower s

-- A hash that puts its salt behind the password.
abbrev crypto : Crypto
crypto = record {
  to_lower_case = lower;
  hash = λ salt p. p ++ salt;
  compare = λ p h. h == (p ++ codes "$");
  sign = λ now id name. id;
}

abbrev dto : RegisterDto
dto = record { email = codes "A@b.c"; username = codes "ann "; password = codes "password" }

abbrev no_users : Db
no_users = record { users = []; rooms = []; members = []; grants = [] }

abbrev ann : AuthResponse
ann = response crypto 0 (new_user crypto (codes "1") (codes "$") dto)

abbrev with_ann : Db
with_ann = record no_users { users = new_user crypto (codes "1") (codes "$") dto ∷ [] }

-- A registration that fails, and a published key.
abbrev followed : List Change
followed =
    registers 1 (codes "2") (codes "$") dto ∷ (publishes (λ k. k) (codes "1") (codes "key") ∷ [])

registered_logs_in_example :
    let end = changes crypto followed with_ann in
    (login crypto 5 (record { email = codes "a@b.c"; password = codes "password" }) end ≡ (
      if crypto.compare (codes "password") (codes "password$")
      then ok (record { token = crypto.sign 5 (codes "1") (trim dto.username); user = ann.user })
      else err unauthorized))
    × ((register_begin crypto dto end ≡ err conflict)
        × (register_end crypto 5 (codes "3") (codes "$") dto end ≡ err unique_violation))
unfolding register_end text_eq
registered_logs_in_example =
    registered_logs_in crypto 0 (codes "1") (codes "$") dto no_users with_ann ann refl followed 5
      (codes "a@b.c") (codes "password") refl (codes "3") (codes "$") dto refl
