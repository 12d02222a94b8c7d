-- ===== src/Server/Http.antt =====
-- The exceptions that the services throw, as values.
use chat_crdt.Prelude.{Bool, true, false}

-- `record_not_found` is what `findUniqueOrThrow` and `update` throw, and `unique_violation`
-- what `create` throws where a unique column has the value already; the others are Nest's.
pub data HttpError : Type 0 where
  not_found forbidden conflict unauthorized record_not_found unique_violation bad_request :
      HttpError

pub data Result {ℓ} (A : Type ℓ) : Type ℓ where
  ok : A → Result A
  err : HttpError → Result A

infixl 5 ◌>>=◌ ◌>>◌
abbrev pub ◌>>=◌ {ℓ κ} : {A : Type ℓ} {B : Type κ} → Result A → (A → Result B) → Result B
ok a >>= f = f a
err e >>= f = err e

abbrev pub ◌>>◌ {ℓ κ} : {A : Type ℓ} {B : Type κ} → Result A → Result B → Result B
m >> k = m >>= λ _. k

-- `if (!b) throw e`
abbrev pub require : Bool → HttpError → Result (Unit {0})
require true e = ok tt
require false e = err e
