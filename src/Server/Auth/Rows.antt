-- ===== src/Server/Auth/Rows.antt =====
-- The users' table: the account that an email finds, and what a new row or a changed one does to it.
use chat_crdt.Prelude.{
  ◌≡◌, refl, ◌⊎◌, ap, ◌∙◌, true, false, Option, none, some, List, [], ◌∷◌, ◌++◌, map, Text, any,
  ◌==◌, Bool-cases, inl, inr, text_Eq, text_eq_iff, arith,
}
use chat_crdt.Server.Http.{ok, err, unique_violation}
use chat_crdt.Server.Db.{Db, User}
use chat_crdt.Server.Auth.{user_by_email, create_user, clash}

abbrev pub without_key : User → User
without_key u = record u { public_key = none; public_key_fp = none }

abbrev pub keyless : Option User → Option User
keyless none = none
keyless (some u) = some (without_key u)

-- The account of an email, without the key that its user has published.
abbrev pub account : Text → List User → Option User
account e users = keyless (user_by_email e users)

pub account-append :
    (e : Text) (users : List User) (u v : User)
    → account e users ≡ some u
    → account e (users ++ v ∷ []) ≡ some u
account-append e [] u v h = ground arith
account-append e (x ∷ users) u v h = elim (Bool-cases (x.email == e)) [
  | inl t ↦ ground arith
  | inr t ↦ rw t (account-append e users u v (ground arith))
]

pub same_account :
    (f : User → User) (e : Text) (users : List User)
    → ((u : User) → (f u).email ≡ u.email)
    → ((u : User) → without_key (f u) ≡ without_key u)
    → account e (map f users) ≡ account e users
same_account f e [] h k = refl
same_account f e (u ∷ users) h k = elim (Bool-cases (u.email == e)) [
  | inl t ↦
      let t' : ((f u).email == e) ≡ true = ap (λ z. z == e) (h u) ∙ t in
      rw (t, t') (ap (λ (v : User). some v) (k u))
  | inr t ↦
      let t' : ((f u).email == e) ≡ false = ap (λ z. z == e) (h u) ∙ t in
      rw (t, t') (same_account f e users h k)
]

pub create_user-cases :
    (u : User) (db : Db)
    → (create_user u db ≡ err unique_violation)
      ⊎ (create_user u db ≡ ok (record db { users = db.users ++ u ∷ [] }))
unfolding create_user
create_user-cases u db = elim (Bool-cases (any (clash u) db.users)) [
  | inl t ↦ inl (rw t refl)
  | inr t ↦ inr (rw t refl)
]

pub account-create :
    (u : User) (users : List User)
    → any (clash u) users ≡ false
    → account u.email (users ++ u ∷ []) ≡ some (without_key u)
account-create u [] h =
    let t : (u.email == u.email) ≡ true = (text_eq_iff u.email u.email).1 refl in rw t refl
account-create u (v ∷ users) h =
    let t : (v.email == u.email) ≡ false = ground arith in
    rw t (account-create u users (ground arith))

-- A table that has an account for `u.email` lets no other user with that email in.
pub email_taken :
    (u v : User) (db : Db)
    → account v.email db.users ≡ some u
    → create_user v db ≡ err unique_violation
unfolding create_user
email_taken u v db h = rw (taken db.users h) refl
  where
    taken : (users : List User) → account v.email users ≡ some u → any (clash v) users ≡ true
    taken [] h = ground arith
    taken (x ∷ users) h = elim (Bool-cases (x.email == v.email)) [
      | inl t ↦ ground arith
      | inr t ↦ let rest = taken users (ground arith) in ground arith
    ]
