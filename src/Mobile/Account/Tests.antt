-- ===== src/Mobile/Account/Tests.antt =====
-- Logins and logouts on a device at concrete inputs. Texts are written with a mark before each code unit and one
-- at the end.
use chat_crdt.Prelude.{
  ℕ, zero, suc, ◌≡◌, refl, ap, true, false, Option, none, some, List, [], ◌∷◌, Text, codes, text_eq,
}
use chat_crdt.Shared.Value.{null, obj, end, str}
use chat_crdt.Server.Auth.{AuthResponse}
use chat_crdt.Mobile.Samples.{sodium, chat}
use chat_crdt.Mobile.Keys.{Identity, present}
use chat_crdt.Mobile.KeyCache.{Forms, get_identity}
use chat_crdt.Mobile.Account.{
  AuthJson, Device, initial_auth, accepted, rejected, lost, other_error, thrown, load_from_storage,
  login_end, sign_up_end,
}
use chat_crdt.Mobile.Account.History.{
  Happening, logs_in, registers, logs_out, loads, starts, opens, caches, happen, history,
}
use chat_crdt.Mobile.Account.Kept.{IsJson, reload_exact}
use chat_crdt.Mobile.Account.Outlived.{account_outlived}

abbrev print : Text → Text → Text
print [] rest = 0 ∷ rest
print (c ∷ t) rest = 1 ∷ c ∷ print t rest

abbrev with_first : ℕ → Option (Text × Text) → Option (Text × Text)
with_first c none = none
with_first c (some (t, rest)) = some (c ∷ t, rest)

abbrev parse : Text → Option (Text × Text)
parse [] = none
parse (zero ∷ rest) = some ([], rest)
parse (suc n ∷ []) = none
parse (suc n ∷ c ∷ t) = with_first c (parse t)

parse-print : (t rest : Text) → parse (print t rest) ≡ some (t, rest)
parse-print [] rest = refl
parse-print (c ∷ t) rest = ap (with_first c) (parse-print t rest)

abbrev and_then : {A : Type 0} → Option (Text × Text) → (Text → Text → Option A) → Option A
and_then none f = none
and_then (some (t, rest)) f = f t rest

abbrev auth_json : AuthJson
auth_json = record {
  stringify = λ a. print a.token (print a.user.id (print a.user.email (print a.user.username [])));
  destructure = λ s. and_then (parse s) (λ token r. and_then (parse r) (λ id r.
      and_then (parse r) (λ email r. and_then (parse r) (λ username r.
        some (some token, some (record { id = id; email = email; username = username }))))));
}

print_nonempty : (t rest : Text) → present (some (print t rest)) ≡ some (print t rest)
print_nonempty [] rest = refl
print_nonempty (c ∷ t) rest = refl

auth_json-IsJson : IsJson auth_json
auth_json-IsJson = record {
  nonempty =
      λ a. print_nonempty a.token (print a.user.id (print a.user.email (print a.user.username [])));
  destructure-stringify = λ a.
      rw (parse-print a.token (print a.user.id (print a.user.email (print a.user.username [])))) (
        rw (parse-print a.user.id (print a.user.email (print a.user.username []))) (
          rw (parse-print a.user.email (print a.user.username []))
            (rw (parse-print a.user.username []) refl)));
}

abbrev account : Text → AuthResponse
account name = record { token = name; user = record { id = name; email = name; username = name } }

abbrev pair : Text → Identity
pair t = record { public_key = t; private_key = t }

abbrev forms : Forms
forms = record {
  show = λ n. n ∷ [];
  read = λ t. elim t [ [] ↦ 0 | n ∷ rest ↦ n ];
  json_of_identity = λ i. 7 ∷ i.public_key;
  identity_of_json = λ t. elim t [ [] ↦ none | c ∷ rest ↦ some (pair rest) ];
}

abbrev fresh : Device sodium
fresh = record { auth = initial_auth; chat = chat; storage = [] }

-- One user logs in and opens an encrypted room, logs out, and another comes.
abbrev first_user : List (Happening sodium)
first_user =
    loads true
    ∷ logs_in lost true
    ∷ logs_in (accepted (account (codes "a"))) true
    ∷ opens (pair (codes "x")) true
    ∷ caches (codes "r") 1 (codes "k")
    ∷ []

first_user_loaded : (history sodium auth_json forms first_user fresh).1.auth.is_loading ≡ false
unfolding history happen
first_user_loaded = refl

abbrev after_first : Device sodium
after_first = (history sodium auth_json forms first_user fresh).1

after_first_identity : get_identity forms after_first.storage ≡ some (pair (codes "x"))
unfolding history happen get_identity text_eq
after_first_identity = refl

-- The first user's key was published.
first_user_published :
    (history sodium auth_json forms first_user fresh).0 ≡ (codes "a", codes "x") ∷ []
unfolding history happen text_eq
first_user_published = refl

abbrev second_user : List (Happening sodium)
second_user =
    logs_out true
    ∷ registers (accepted (account (codes "b"))) true
    ∷ opens (pair (codes "y")) true
    ∷ []

reload_exact_example :
    let later = (history sodium auth_json forms first_user fresh).1 in
    let again =
      load_from_storage sodium auth_json true
        (happen sodium auth_json forms (starts chat) later).1 in
    (again.auth.token ≡ later.auth.token) × (again.auth.user ≡ later.auth.user)
reload_exact_example =
    reload_exact sodium auth_json forms auth_json-IsJson first_user fresh chat
      (tt, (tt, (tt, (tt, (tt, tt))))) first_user_loaded

account_outlived_example :
    let (published, later) = history sodium auth_json forms second_user after_first in
    (published ≡ []) × (get_identity forms later.storage ≡ some (pair (codes "x")))
account_outlived_example =
    account_outlived forms sodium auth_json second_user (pair (codes "x")) after_first
      after_first_identity

refusals_test :
    ((login_end sodium auth_json (rejected (some null)) true fresh).0 ≡ other_error)
    × ((sign_up_end sodium auth_json (rejected (some (obj end))) true fresh).0
        ≡ thrown (str (codes "Register failed")))
unfolding login_end sign_up_end
refusals_test = (refl, refl)
