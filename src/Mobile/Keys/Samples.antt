-- ===== src/Mobile/Keys/Samples.antt =====
-- A small box for tests. What is sealed is the public key, the key, and letters up to the length of 80 bytes; a key
-- of the cipher is one code unit.
use chat_crdt.Prelude.{
  ℕ, ◌+◌, ◌*◌, ◌/◌, ◌≡◌, refl, ap, ◌∙◌, Bool, true, Option, none, some, [], ◌∷◌, ◌++◌, Text, all,
  length, length-append, drop, starts_with, ◌==◌, eq_iff, nat_Eq, if◌then◌else◌, arith,
}
use chat_crdt.Server.Gate.{is_base64url_char}
use chat_crdt.Server.RoomKeys.Upload.{is_unpadded}
use chat_crdt.Mobile.Samples.{sodium, repeat}
use chat_crdt.Mobile.Keys.{Box}
use chat_crdt.Mobile.Keys.Sealed.{IsBox}

abbrev pub decoded_length : Text → ℕ
decoded_length t = length t * 3 / 4

abbrev first : Text → Option ℕ
first [] = none
first (c ∷ t) = some c

abbrev padding : Text
padding = repeat 21 b'A'

abbrev pub box : Box sodium
box = record {
  seal = λ key public. some (public ++ (key ++ padding));
  seal_open = λ wrapped i.
      if starts_with i.public_key wrapped then first (drop (length i.public_key) wrapped) else none;
  key_of_base64 = first;
  base64_of_key = λ key. key ∷ [];
  compute_public_key_fp = λ public. repeat 128 b'0';
}

-- A key of 32 bytes, all of them alike.
abbrev pub key_of : ℕ → Text
key_of c = repeat 43 c

forty_three : (n : ℕ) → (n * 3 / 4 == 32) ≡ true → n ≡ 43
forty_three n h = let e = (eq_iff (n * 3 / 4) 32).0 h in omega arith

all-append : (f : ℕ → Bool) (s t : Text) → all f s ≡ true → all f t ≡ true → all f (s ++ t) ≡ true
all-append f [] t h k = k
all-append f (c ∷ s) t h k = ground (arith, all-append f s t)

sealed_proper :
    (key public : Text)
    → is_unpadded decoded_length 32 key ≡ true
    → is_unpadded decoded_length 32 public ≡ true
    → is_unpadded decoded_length 80 (public ++ (key ++ padding)) ≡ true
sealed_proper key public a b =
    let m = forty_three (length key) (ground arith) in
    let n = forty_three (length public) (ground arith) in
    let long : length (public ++ (key ++ padding)) ≡ 107 =
      length-append public (key ++ padding)
      ∙ ap (λ (k : ℕ). length public + k) (length-append key padding)
      ∙ omega (arith, m, n) in
    let chars =
      all-append is_base64url_char public (key ++ padding) (ground arith)
        (all-append is_base64url_char key padding (ground arith) refl) in
    rw long (rw chars refl)

pub box-IsBox : IsBox sodium box decoded_length
box-IsBox = record {
  sealed = λ key public a b. (public ++ (key ++ padding), refl, sealed_proper key public a b);
  fingerprint = λ public. refl;
}
