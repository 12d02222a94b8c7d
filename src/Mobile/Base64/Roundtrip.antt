-- ===== src/Mobile/Base64/Roundtrip.antt =====
-- Decoding what was encoded.
use chat_crdt.Prelude.{
  ℕ, zero, suc, ◌+◌, ◌*◌, ◌/◌, ◌%◌, ◌<◌, ◌≡◌, refl, subst, ap, ◌∙◌, Bool, true, false, ◌&&◌, Option,
  none, some, [], ◌∷◌, ◌++◌, Text, filter, all, nat_eq, leb, Bool-cases, inl, inr, ◌≤◌, arith,
}
use chat_crdt.Mobile.Base64.{
  digit, lookup, digits, pad, is_latin1, poly_btoa, is_base64, decode_group, decode_loop, poly_atob,
}

-- Does the test hold of each index of a digit up to `n`?
abbrev holds_to : (ℕ → Bool) → ℕ → Bool
holds_to test zero = test 0
holds_to test (suc n) = holds_to test n && test (suc n)

holds_to-le : (test : ℕ → Bool) (n i : ℕ) → i ≤ n → holds_to test n ≡ true → test i ≡ true
holds_to-le test zero i le h = let e : 0 ≡ i = omega arith in subst (λ k. test k ≡ true) e h
holds_to-le test (suc n) i le h = elim (Bool-cases (leb i n)) [
  | inl e ↦ holds_to-le test n i (ground arith) (ground arith)
  | inr e ↦ let top : suc n ≡ i = ground arith in subst (λ k. test k ≡ true) top (ground arith)
]

abbrev is_some : ℕ → Option ℕ → Bool
is_some i none = false
is_some i (some j) = nat_eq i j

is_some_lem : (i : ℕ) (o : Option ℕ) → is_some i o ≡ true → o ≡ some i
is_some_lem i none h = cc
is_some_lem i (some j) h = ground arith

lookup_table : holds_to (λ i. is_some i (lookup (digit i))) 63 ≡ true
unfolding lookup digit
lookup_table = refl

digit_table : holds_to (λ i. is_base64 (digit i)) 63 ≡ true
unfolding is_base64 digit
digit_table = refl

lookup-digit : (i : ℕ) → i < 64 → lookup (digit i) ≡ some i
lookup-digit i h =
    is_some_lem i (lookup (digit i))
      (holds_to-le (λ j. is_some j (lookup (digit j))) 63 i (omega arith) lookup_table)

digit_kept : (i : ℕ) → i < 64 → is_base64 (digit i) ≡ true
digit_kept i h = holds_to-le (λ j. is_base64 (digit j)) 63 i (omega arith) digit_table

-- The bits of a triplet, put together again.
rejoined :
    (t : ℕ)
    → t < 16_777_216
    → t / 262_144 % 64 * 262_144 + t / 4_096 % 64 * 4_096 + t / 64 % 64 * 64 + t % 64 ≡ t
rejoined t h = omega arith

filter-digits :
    (a b c d : ℕ) (s : Text)
    → a < 64
    → b < 64
    → c < 64
    → d < 64
    → filter is_base64 (digit a ∷ digit b ∷ digit c ∷ digit d ∷ s)
      ≡ digit a ∷ digit b ∷ digit c ∷ digit d ∷ filter is_base64 s
filter-digits a b c d s ha hb hc hd =
    rw (digit_kept a ha, digit_kept b hb, digit_kept c hc, digit_kept d hd) refl

decode_group_full :
    (a b c d c0 c1 c2 : ℕ)
    → a < 64
    → b < 64
    → c < 64
    → d < 64
    → c0 < 256
    → c1 < 256
    → c2 < 256
    → a * 262_144 + b * 4_096 + c * 64 + d ≡ c0 * 65_536 + c1 * 256 + c2
    → decode_group (lookup (digit a)) (lookup (digit b)) (lookup (digit c)) (lookup (digit d))
      ≡ c0 ∷ c1 ∷ c2 ∷ []
unfolding decode_group
decode_group_full a b c d c0 c1 c2 ha hb hc hd h0 h1 h2 e =
    rw (lookup-digit a ha, lookup-digit b hb, lookup-digit c hc, lookup-digit d hd, e)
      (ground arith)

pads_dropped :
    (a b : ℕ)
    → is_base64 a ≡ true
    → is_base64 b ≡ true
    → filter is_base64 (a ∷ b ∷ pad ∷ pad ∷ []) ≡ a ∷ b ∷ []
unfolding is_base64
pads_dropped a b h k = rw (h, k) refl

pad_dropped :
    (a b c : ℕ)
    → is_base64 a ≡ true
    → is_base64 b ≡ true
    → is_base64 c ≡ true
    → filter is_base64 (a ∷ b ∷ c ∷ pad ∷ []) ≡ a ∷ b ∷ c ∷ []
unfolding is_base64
pad_dropped a b c h k l = rw (h, k, l) refl

two_digits :
    (a b c : ℕ)
    → a < 64
    → b < 64
    → c < 256
    → a * 262_144 + b * 4_096 ≡ c * 65_536
    → poly_atob (digit a ∷ digit b ∷ pad ∷ pad ∷ []) ≡ c ∷ []
unfolding poly_atob decode_loop decode_group
two_digits a b c ha hb h e =
    ap decode_loop (pads_dropped (digit a) (digit b) (digit_kept a ha) (digit_kept b hb))
    ∙ rw (lookup-digit a ha, lookup-digit b hb, e) (ground arith)

three_digits :
    (a b c c0 c1 : ℕ)
    → a < 64
    → b < 64
    → c < 64
    → c0 < 256
    → c1 < 256
    → a * 262_144 + b * 4_096 + c * 64 ≡ c0 * 65_536 + c1 * 256
    → poly_atob (digit a ∷ digit b ∷ digit c ∷ pad ∷ []) ≡ c0 ∷ c1 ∷ []
unfolding poly_atob decode_loop decode_group
three_digits a b c c0 c1 ha hb hc h0 h1 e =
    ap decode_loop (
      pad_dropped (digit a) (digit b) (digit c) (digit_kept a ha) (digit_kept b hb)
        (digit_kept c hc))
    ∙ rw (lookup-digit a ha, lookup-digit b hb, lookup-digit c hc, e) (ground arith)

four_digits :
    (t c0 c1 c2 : ℕ) (s : Text)
    → c0 < 256
    → c1 < 256
    → c2 < 256
    → t ≡ c0 * 65_536 + c1 * 256 + c2
    → poly_atob (digits t ++ s) ≡ c0 ∷ c1 ∷ c2 ∷ poly_atob s
unfolding poly_atob decode_loop digits
four_digits t c0 c1 c2 s h0 h1 h2 e =
    let a = t / 262_144 % 64 in
    let b = t / 4_096 % 64 in
    let c = t / 64 % 64 in
    let d = t % 64 in
    ap decode_loop (filter-digits a b c d s (omega arith) (omega arith) (omega arith) (omega arith))
    ∙ ap (λ g. g ++ decode_loop (filter is_base64 s))
        (decode_group_full a b c d c0 c1 c2 (omega arith) (omega arith) (omega arith) (omega arith)
          h0 h1 h2 (rejoined t (omega arith) ∙ e))

pub nothing : poly_atob [] ≡ []
unfolding poly_atob decode_loop
nothing = refl

-- A string of code units below 256 is encoded, and decoding what it is encoded to gives it back.
pub poly_atob-poly_btoa :
    (xs : Text)
    → all is_latin1 xs ≡ true
    → (s : Text) × (poly_btoa xs ≡ some s) × (poly_atob s ≡ xs)
unfolding poly_btoa
poly_atob-poly_btoa [] h = ([], refl, nothing)
poly_atob-poly_btoa (c0 ∷ []) h =
    let t = c0 * 65_536 in
    (
      digit (t / 262_144 % 64) ∷ digit (t / 4_096 % 64) ∷ pad ∷ pad ∷ [],
      ground arith,
      two_digits (t / 262_144 % 64) (t / 4_096 % 64) c0 (omega arith) (omega arith) (ground arith)
          (ground arith),
    )
poly_atob-poly_btoa (c0 ∷ c1 ∷ []) h =
    let t = c0 * 65_536 + c1 * 256 in
    (
      digit (t / 262_144 % 64) ∷ digit (t / 4_096 % 64) ∷ digit (t / 64 % 64) ∷ pad ∷ [],
      ground arith,
      three_digits (t / 262_144 % 64) (t / 4_096 % 64) (t / 64 % 64) c0 c1 (omega arith)
          (omega arith) (omega arith) (ground arith) (ground arith) (ground arith),
    )
poly_atob-poly_btoa (c0 ∷ c1 ∷ c2 ∷ rest) h =
    let t = c0 * 65_536 + c1 * 256 + c2 in
    let (s, encoded, decoded) = poly_atob-poly_btoa rest (ground arith) in
    (
      digits t ++ s,
      rw encoded (ground arith),
      four_digits t c0 c1 c2 s (ground arith) (ground arith) (ground arith) refl
          ∙ ap (λ r. c0 ∷ c1 ∷ c2 ∷ r) decoded,
    )
