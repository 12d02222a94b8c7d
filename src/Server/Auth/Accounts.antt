-- ===== src/Server/Auth/Accounts.antt =====
-- What holds of an account after its registration, whatever other requests follow.
use chat_crdt.Prelude.{
  ℕ, ◌≡◌, refl, sym, ap, ◌∙◌, Option, none, some, List, [], ◌∷◌, ◌++◌, Text, any, ◌==◌,
  if◌then◌else◌, Bool-cases, Option-cases, inl, inr, text_Eq, arith,
}
use chat_crdt.Server.Http.{Result, ok, err, conflict, unauthorized, unique_violation}
use chat_crdt.Server.Db.{Db, User}
use chat_crdt.Server.Rooms.{set_public_key}
use chat_crdt.Engine.Messages.{trim}
use chat_crdt.Server.Auth.{
  Crypto, RegisterDto, LoginDto, AuthResponse, user_by_email, create_user, normalize_email,
  response, new_user, register_begin, register_end, login, clash,
}
use chat_crdt.Server.Auth.Rows.{
  keyless, account, account-append, same_account, create_user-cases, account-create, email_taken,
}

-- A request that changes the users' table.
pub data Change : Type 0 where
  registers : ℕ → Text → Text → RegisterDto → Change
  publishes : (Text → Text) → Text → Text → Change

abbrev pub or_same : {A : Type 0} → Db → Result (A × Db) → Db
or_same db (ok (a, db')) = db'
or_same db (err e) = db

unfoldable pub change : Crypto → Change → Db → Db
unfolding register_end set_public_key
change c (registers now id salt dto) db = or_same db (register_end c now id salt dto db)
change c (publishes fp user key) db = or_same db (set_public_key fp user key db)

unfoldable pub changes : Crypto → List Change → Db → Db
unfolding change
changes c [] db = db
changes c (x ∷ xs) db = changes c xs (change c x db)

change-account :
    (c : Crypto) (x : Change) (e : Text) (u : User) (db : Db)
    → account e db.users ≡ some u
    → account e (change c x db).users ≡ some u
unfolding change register_end set_public_key
change-account c (registers now id salt dto) e u db h =
    let v = new_user c id salt dto in
    elim (create_user-cases v db) [
      | inl t ↦ rw t h
      | inr t ↦ rw t (account-append e db.users u v h)
    ]
change-account c (publishes fp user key) e u db h =
    elim (Bool-cases (any (λ v. v.id == user) db.users)) [
      | inl t ↦
          let f = λ (v : User).
            if v.id == user
            then record v { public_key = some key; public_key_fp = some (fp key) }
            else v in
          rw t (
            same_account f e db.users
              (λ v. elim (Bool-cases (v.id == user)) [ inl q ↦ rw q refl | inr q ↦ rw q refl ])
              (λ v. elim (Bool-cases (v.id == user)) [ inl q ↦ rw q refl | inr q ↦ rw q refl ])
            ∙ h)
      | inr t ↦ rw t h
    ]

changes-account :
    (c : Crypto) (xs : List Change) (e : Text) (u : User) (db : Db)
    → account e db.users ≡ some u
    → account e (changes c xs db).users ≡ some u
unfolding changes
changes-account c [] e u db h = h
changes-account c (x ∷ xs) e u db h =
    changes-account c xs e u (change c x db) (change-account c x e u db h)

login-account :
    (c : Crypto) (now : ℕ) (dto : LoginDto) (u : User) (db : Db)
    → account (normalize_email c dto.email) db.users ≡ some u
    → login c now dto db
      ≡ (if c.compare dto.password u.password then ok (response c now u) else err unauthorized)
unfolding login
login-account c now dto u db h = by_account (user_by_email (normalize_email c dto.email) db.users) h
  where
    by_account :
        (o : Option User)
        → keyless o ≡ some u
        → (elim o [
          | none ↦ err unauthorized
          | some v ↦
              if c.compare dto.password v.password then ok (response c now v) else err unauthorized
        ])
          ≡ (if c.compare dto.password u.password then ok (response c now u) else err unauthorized)
    by_account none e = ground arith
    by_account (some v) e = ground (arith, e)

begin-taken :
    (c : Crypto) (dto : RegisterDto) (u : User) (db : Db)
    → account (normalize_email c dto.email) db.users ≡ some u
    → register_begin c dto db ≡ err conflict
unfolding register_begin
begin-taken c dto u db h =
    elim (Option-cases (user_by_email (normalize_email c dto.email) db.users)) [
      | inl e ↦ ground (arith, e)
      | inr (v, e) ↦ rw (e, register_begin) refl
    ]

abbrev given : AuthResponse × Db → Result (AuthResponse × Db) → AuthResponse × Db
given d (ok p) = p
given d (err e) = d

registered :
    (c : Crypto) (now : ℕ) (id salt : Text) (dto : RegisterDto) (db db' : Db) (r : AuthResponse)
    → register_end c now id salt dto db ≡ ok (r, db')
    → let u = new_user c id salt dto in
      (r ≡ response c now u) × (account u.email db'.users ≡ some u)
unfolding register_end create_user
registered c now id salt dto db db' r h =
    let u = new_user c id salt dto in
    elim (Bool-cases (any (clash u) db.users)) [
      | inl t ↦ ground (arith, t)
      | inr t ↦
          let made : ok (response c now u, record db { users = db.users ++ u ∷ [] }) ≡ ok (r, db') =
            sym (rw t refl) ∙ h in
          let same = ap (given (r, db')) made in
          (
            sym (ap (λ (p : AuthResponse × Db). p.0) same),
            ap (λ (p : AuthResponse × Db). account u.email p.1.users) (sym same)
                ∙ account-create u db.users t,
          )
    ]

-- Once a registration has ended well, and whatever registrations and published keys follow, a login
-- with its email, in any spelling that is normalized to the same, answers with the registration's user
-- if bcrypt takes the password for the one that was hashed, and is refused if not. Nobody else gets
-- that email: a registration that looks at the table afterwards is told of the conflict, and one that
-- had looked before fails at its insertion.
pub registered_logs_in :
    (c : Crypto) (now : ℕ) (id salt : Text) (dto : RegisterDto) (db db' : Db) (r : AuthResponse)
    → register_end c now id salt dto db ≡ ok (r, db')
    → (xs : List Change) (later : ℕ) (email password : Text)
    → normalize_email c email ≡ normalize_email c dto.email
    → (other_id other_salt : Text) (other : RegisterDto)
    → normalize_email c other.email ≡ normalize_email c dto.email
    → let end = changes c xs db' in
      (login c later (record { email = email; password = password }) end ≡ (
        if c.compare password (c.hash salt dto.password)
        then ok (record { token = c.sign later id (trim dto.username); user = r.user })
        else err unauthorized))
      × ((register_begin c other end ≡ err conflict)
          × (register_end c later other_id other_salt other end ≡ err unique_violation))
unfolding register_begin register_end
registered_logs_in c now id salt dto db db' r h xs later email password same other_id other_salt
      other e =
    let (answer, there) = registered c now id salt dto db db' r h in
    let u = new_user c id salt dto in
    let end = changes c xs db' in
    let kept : account (normalize_email c dto.email) end.users ≡ some u =
      changes-account c xs u.email u db' there in
    let asked : LoginDto = record { email = email; password = password } in
    let held = ap (λ x. account x end.users) e ∙ kept in
    (
      login-account c later asked u end (ap (λ x. account x end.users) same ∙ kept)
          ∙ ap
              (λ (a : AuthResponse).
                if c.compare password u.password
                then ok (record { token = c.sign later id (trim dto.username); user = a.user })
                else err unauthorized)
              (sym answer),
      (
        begin-taken c other u end held,
        rw (email_taken u (new_user c other_id other_salt other) end held) refl,
      ),
    )
