-- ===== src/Shared/Bits.antt =====
-- The bit operations that frames are read and written with, as arithmetic on bytes.
use Prim.Native.Nat.{bit_and, bit_or, bit_xor, digits, differ, bit_xor-bitwise}
use chat_crdt.Prelude.{
  ℕ, zero, suc, ◌+◌, ◌*◌, ◌/◌, ◌%◌, ◌≤◌, ◌<◌, ◌≡◌, refl, ap, ◌∙◌, ◌-◌, true, List, [], ◌∷◌, all,
  all-All, All-In, Bool-cases, inl, inr, In, Bool-cases, inl, inr, ◌==◌, nat_Eq, eq_iff, arith,
}

upto : ℕ → List ℕ
upto zero = []
upto (suc n) = n ∷ upto n

In-upto : (n x : ℕ) → x < n → In x (upto n)
unfolding upto
In-upto zero x h = absurd (omega arith)
In-upto (suc n) x h = elim (Bool-cases (n == x)) [
  | inl e ↦ inl ((eq_iff n x).0 e)
  | inr e ↦ inr (In-upto n x (ground arith))
]

-- Two functions that a comparison finds to agree below `n`.
agreement :
    (f g : ℕ → ℕ) (n : ℕ) → all (λ x. f x == g x) (upto n) ≡ true → (x : ℕ) → x < n → f x ≡ g x
agreement f g n h x lt =
    let same = all-All (λ y. f y == g y) (upto n) h in
    (eq_iff (f x) (g x)).0 (All-In (λ y. (f y == g y) ≡ true) x (upto n) same (In-upto n x lt))

pub bit_and_low4 : (x : ℕ) → x < 256 → bit_and x 0x0f ≡ x % 16
unfolding upto
bit_and_low4 = agreement (λ x. bit_and x 0x0f) (λ x. x % 16) 256 refl

pub bit_and_low7 : (x : ℕ) → x < 256 → bit_and x 0x7f ≡ x % 128
unfolding upto
bit_and_low7 = agreement (λ x. bit_and x 0x7f) (λ x. x % 128) 256 refl

pub bit_and_top : (x : ℕ) → x < 256 → bit_and x 0x80 ≡ x / 128 * 128
unfolding upto
bit_and_top = agreement (λ x. bit_and x 0x80) (λ x. x / 128 * 128) 256 refl

pub bit_or_top : (x : ℕ) → x < 128 → bit_or 0x80 x ≡ 128 + x
unfolding upto
bit_or_top = agreement (λ x. bit_or 0x80 x) (λ x. 128 + x) 128 refl

-- Exclusive or with a given number of digits to go; more digits than are needed change nothing.
abbrev xor_in : ℕ → ℕ → ℕ → ℕ
xor_in count a b = digits (λ y. y) differ count a b

one_more : (count a b : ℕ) → a ≤ count → xor_in (suc count) a b ≡ xor_in count a b
one_more zero zero b h = refl
one_more (suc c) zero b h = refl
one_more zero (suc a) b h = absurd (omega arith)
one_more (suc c) (suc a) b h =
    ap (λ d. d * 2 + differ (suc a % 2) (b % 2)) (one_more c (suc a / 2) (b / 2) (omega arith))

spare : (extra count a b : ℕ) → a ≤ count → xor_in (extra + count) a b ≡ xor_in count a b
spare zero count a b h = ap (λ c. xor_in c a b) (omega arith)
spare (suc extra) count a b h =
    let one_less : suc extra + count ≡ suc (extra + count) = omega arith in
    ap (λ c. xor_in c a b) one_less
    ∙ one_more (extra + count) a b (omega arith)
    ∙ spare extra count a b h

-- The law for the lowest digit.
bit_xor_step : (a b : ℕ) → bit_xor a b ≡ bit_xor (a / 2) (b / 2) * 2 + differ (a % 2) (b % 2)
bit_xor_step zero b = simp bit_xor-bitwise (omega arith)
bit_xor_step (suc a) b =
    let half = suc a / 2 in
    let enough : xor_in a half (b / 2) ≡ xor_in half half (b / 2) =
      ap (λ c. xor_in c half (b / 2)) (omega arith)
      ∙ spare (a - half) half half (b / 2) (omega arith) in
    simp bit_xor-bitwise (ap (λ d. d * 2 + differ (suc a % 2) (b % 2)) enough)

differ_digit : (p q : ℕ) → p < 2 → q < 2 → (differ p q < 2) × (differ (differ p q) q ≡ p)
differ_digit zero zero h k = omega arith
differ_digit zero (suc zero) h k = omega arith
differ_digit zero (suc (suc q)) h k = absurd (omega arith)
differ_digit (suc zero) zero h k = omega arith
differ_digit (suc zero) (suc zero) h k = omega arith
differ_digit (suc zero) (suc (suc q)) h k = absurd (omega arith)
differ_digit (suc (suc p)) q h k = absurd (omega arith)

xor_twice_fuel : (n a k : ℕ) → a ≤ n → k ≤ n → bit_xor (bit_xor a k) k ≡ a
xor_twice_fuel zero zero zero h l = refl
xor_twice_fuel zero (suc a) k h l = absurd (omega arith)
xor_twice_fuel zero zero (suc k) h l = absurd (omega arith)
xor_twice_fuel (suc n) a k h l =
    let x = bit_xor a k in
    let (small, back) = differ_digit (a % 2) (k % 2) (omega arith) (omega arith) in
    let step = bit_xor_step a k in
    let half : x / 2 ≡ bit_xor (a / 2) (k / 2) = omega arith in
    let low : x % 2 ≡ differ (a % 2) (k % 2) = omega arith in
    let rest = xor_twice_fuel n (a / 2) (k / 2) (omega arith) (omega arith) in
    bit_xor_step x k
    ∙ ap (λ z. bit_xor z (k / 2) * 2 + differ (x % 2) (k % 2)) half
    ∙ ap (λ z. bit_xor (bit_xor (a / 2) (k / 2)) (k / 2) * 2 + differ z (k % 2)) low
    ∙ omega arith

-- Masking with the same key twice gives the value back.
pub xor_twice : (a k : ℕ) → bit_xor (bit_xor a k) k ≡ a
xor_twice a k = xor_twice_fuel (a + k) a k (omega arith) (omega arith)
