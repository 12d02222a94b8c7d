-- ===== src/Mobile/KeyCache/Separate.antt =====
-- The entries of the device's storage stand under different keys.
use chat_crdt.Prelude.{
  ℕ, ◌≡◌, ◌≢◌, refl, sym, ap, ◌∙◌, true, not, [], ◌∷◌, ◌++◌, Text, all, nat_eq, arith,
}
use chat_crdt.Mobile.KeyCache.{Forms, room_key_storage_key, current_epoch_storage_key}

-- What the storage relies on: a number is read back, and its decimal form has no dot.
pub record IsDecimal (f : Forms) : Type 0 where
  pub read-show : (n : ℕ) → f.read (f.show n) ≡ n
  pub no_dot : (n : ℕ) → all (λ c. not (nat_eq c b'.')) (f.show n) ≡ true

abbrev tail : Text → Text
tail [] = []
tail (c ∷ s) = s

abbrev head : Text → ℕ
head [] = 0
head (c ∷ s) = c

dot_inside : (s t : Text) → all (λ c. not (nat_eq c b'.')) (s ++ b'.' ∷ t) ≡ true → ⊥
dot_inside [] t h = cc
dot_inside (c ∷ s) t h = dot_inside s t (ground arith)

-- A text is split at its last dot in one way.
last_dot :
    (a b s t : Text)
    → all (λ c. not (nat_eq c b'.')) s ≡ true
    → all (λ c. not (nat_eq c b'.')) t ≡ true
    → a ++ b'.' ∷ s ≡ b ++ b'.' ∷ t
    → (a ≡ b) × (s ≡ t)
last_dot [] [] s t h k e = (refl, ap tail e)
last_dot [] (x ∷ b) s t h k e =
    absurd (dot_inside b t (ap (all (λ c. not (nat_eq c b'.'))) (sym (ap tail e)) ∙ h))
last_dot (x ∷ a) [] s t h k e =
    absurd (dot_inside a s (ap (all (λ c. not (nat_eq c b'.'))) (ap tail e) ∙ k))
last_dot (x ∷ a) (y ∷ b) s t h k e =
    let (same, rest) = last_dot a b s t h k (ap tail e) in
    let heads : x ≡ y = ap head e in (ground arith, rest)

module _ (f : Forms) (d : IsDecimal f) where
  show_injective : (m n : ℕ) → f.show m ≡ f.show n → m ≡ n
  show_injective m n e = sym (d.read-show m) ∙ ap f.read e ∙ d.read-show n

  pub room_key-injective :
      (room room' : Text) (k k' : ℕ)
      → room_key_storage_key f room k ≡ room_key_storage_key f room' k'
      → (room ≡ room') × (k ≡ k')
  room_key-injective room room' k k' e =
      let shorter : room ++ b'.' ∷ f.show k ≡ room' ++ b'.' ∷ f.show k' =
        ap
          (λ t.
            tail
              (tail (tail (tail (tail (tail (tail (tail (tail (tail (tail (tail (tail t)))))))))))))
          e in
      let (rooms, shown) =
        last_dot room room' (f.show k) (f.show k') (d.no_dot k) (d.no_dot k') shorter in
      (rooms, show_injective k k' shown)

pub current_epoch-injective :
    (room room' : Text)
    → current_epoch_storage_key room ≡ current_epoch_storage_key room'
    → room ≡ room'
current_epoch-injective room room' e =
    ap
      (λ t. tail (
        tail (
          tail (
            tail (
              tail (
                tail (
                  tail (
                    tail (
                      tail (tail (tail (tail (tail (tail (tail (tail (tail (tail t))))))))))))))))))
      e

letters_differ : ¬ (◌≡◌ {A = ℕ} b'c' b'r')
letters_differ h = omega arith

pub current_epoch-ne-room_key :
    (f : Forms) (room room' : Text) (k : ℕ)
    → current_epoch_storage_key room ≢ room_key_storage_key f room' k
current_epoch-ne-room_key f room room' k e =
    letters_differ (ap (λ t. head (tail (tail (tail (tail (tail t)))))) e)
