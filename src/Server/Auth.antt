-- ===== src/Server/Auth.antt =====
-- apps/server/src/auth/auth.service.ts. `register` is split where it waits for bcrypt: other requests
-- may come between the look at the table and the new row.
pub mod Rows
pub mod Accounts
mod Tests
use chat_crdt.Prelude.{
  ℕ, Bool, ◌||◌, Option, none, some, List, [], ◌∷◌, ◌++◌, Text, any, find, ◌==◌, if◌then◌else◌,
  text_Eq,
}
use chat_crdt.Server.Http.{Result, ok, err, ◌>>=◌, conflict, unauthorized, unique_violation}
use chat_crdt.Server.Db.{Db, User}
use chat_crdt.Engine.Messages.{trim}

-- What is outside: Unicode's case mapping, bcrypt, whose `hash` gets its random salt, and the signer of
-- tokens, which gets the time.
pub record Crypto : Type 0 where
  pub to_lower_case : Text → Text
  pub hash : Text → Text → Text
  pub compare : Text → Text → Bool
  pub sign : ℕ → Text → Text → Text

pub record RegisterDto : Type 0 where
  pub email : Text
  pub username : Text
  pub password : Text

pub record LoginDto : Type 0 where
  pub email : Text
  pub password : Text

pub record UserDto : Type 0 where
  pub id : Text
  pub email : Text
  pub username : Text

pub record AuthResponse : Type 0 where
  pub token : Text
  pub user : UserDto

-- `user.findUnique({ where: { email } })`
abbrev pub user_by_email : Text → List User → Option User
user_by_email email users = find (λ u. u.email == email) users

-- The unique columns.
abbrev pub clash : User → User → Bool
clash u v = v.id == u.id || (v.email == u.email || v.username == u.username)

-- `user.create`
unfoldable pub create_user : User → Db → Result Db
create_user u db =
    if any (clash u) db.users
    then err unique_violation
    else ok (record db { users = db.users ++ u ∷ [] })

module _ (c : Crypto) where
  abbrev pub normalize_email : Text → Text
  normalize_email email = c.to_lower_case (trim email)

  abbrev pub response : ℕ → User → AuthResponse
  response now u = record {
    token = c.sign now u.id u.username;
    user = record { id = u.id; email = u.email; username = u.username };
  }

  -- `register`, up to the hash.
  unfoldable pub register_begin : RegisterDto → Db → Result Text
  register_begin dto db =
      let email = normalize_email dto.email in
      elim (user_by_email email db.users) [ none ↦ ok email | some u ↦ err conflict ]

  -- The row of a registration.
  abbrev pub new_user : Text → Text → RegisterDto → User
  new_user id salt dto = record {
    id = id;
    email = normalize_email dto.email;
    username = trim dto.username;
    password = c.hash salt dto.password;
    public_key = none;
    public_key_fp = none;
  }

  -- `register`, from the hash on. `id` is the identifier that the database makes for the new row.
  unfoldable pub register_end : ℕ → Text → Text → RegisterDto → Db → Result (AuthResponse × Db)
  unfolding create_user
  register_end now id salt dto db =
      let u = new_user id salt dto in create_user u db >>= λ db'. ok (response now u, db')

  unfoldable pub login : ℕ → LoginDto → Db → Result AuthResponse
  login now dto db = elim (user_by_email (normalize_email dto.email) db.users) [
    | none ↦ err unauthorized
    | some u ↦ if c.compare dto.password u.password then ok (response now u) else err unauthorized
  ]
