-- ===== src/Bench/Frame/Reading.antt =====
-- The frame reader on a buffer that grows.
use chat_crdt.Prelude.{
  ℕ, zero, suc, ◌+◌, ◌≤◌, ◌≡◌, refl, sym, ap, ◌∙◌, Option, none, some, [], ◌∷◌, ◌++◌, length,
  Option-cases, inl, inr, nat_Eq, arith,
}
use chat_crdt.Bench.Frame.{
  Bytes, take_bytes, length_size, ◌>>=◌, next_frame, short_length, key_size, payload_length,
  after_head, after_length, after_key, after_payload,
}

pub take_bytes-append :
    (n : ℕ) (b more front rest : Bytes)
    → take_bytes n b ≡ some (front, rest)
    → take_bytes n (b ++ more) ≡ some (front, rest ++ more)
unfolding take_bytes
take_bytes-append zero b more front rest h = ground arith
take_bytes-append (suc n) [] more front rest h = cc
take_bytes-append (suc n) (x ∷ b) more front rest h = elim (Option-cases (take_bytes n b)) [
  | inl e ↦ ground (arith, e)
  | inr ((f, r), e) ↦ ground (arith, e, take_bytes-append n b more f r e)
]

pub take_bytes-length :
    (n : ℕ) (b front rest : Bytes)
    → take_bytes n b ≡ some (front, rest)
    → length b ≡ n + length rest
unfolding take_bytes
take_bytes-length zero b front rest h = ground arith
take_bytes-length (suc n) [] front rest h = cc
take_bytes-length (suc n) (x ∷ b) front rest h = elim (Option-cases (take_bytes n b)) [
  | inl e ↦ ground (arith, e)
  | inr ((f, r), e) ↦ ground (arith, e, take_bytes-length n b f r e)
]

pub take_bytes_own : (b rest : Bytes) → take_bytes (length b) (b ++ rest) ≡ some (b, rest)
unfolding take_bytes
take_bytes_own [] rest = refl
take_bytes_own (x ∷ b) rest = rw (take_bytes_own b rest) refl

took :
    {P : Type 0} {C : Type 0} (n : ℕ) (b : Bytes) (k : Bytes × Bytes → Option C) (c : C)
    → (take_bytes n b >>= k) ≡ some c
    → ((front rest : Bytes) → take_bytes n b ≡ some (front, rest) → k (front, rest) ≡ some c → P)
    → P
took n b k c h next = elim (Option-cases (take_bytes n b)) [
  | inl e ↦ absurd (ground (arith, e, h))
  | inr ((front, rest), e) ↦ next front rest e (sym (ap (λ o. o >>= k) e) ∙ h)
]

-- The same step on a longer buffer.
take_step :
    {C : Type 0} (n : ℕ) (b more : Bytes) (k : Bytes × Bytes → Option C) (c c' : C)
    → (take_bytes n b >>= k) ≡ some c
    → ((front rest : Bytes) → k (front, rest) ≡ some c → k (front, rest ++ more) ≡ some c')
    → (take_bytes n (b ++ more) >>= k) ≡ some c'
take_step n b more k c c' h next = took n b k c h (λ front rest e h'.
    ap (λ o. o >>= k) (take_bytes-append n b more front rest e) ∙ next front rest h')

abbrev grown : Bytes → Option ((ℕ × Bytes) × Bytes) → Option ((ℕ × Bytes) × Bytes)
grown more none = none
grown more (some (f, rest)) = some (f, rest ++ more)

abbrev left_over : Option ((ℕ × Bytes) × Bytes) → ℕ
left_over none = 0
left_over (some (f, rest)) = length rest

module _ (b : Bytes) (f : ℕ × Bytes) (rest : Bytes) (h : next_frame b ≡ some (f, rest)) where
  -- A frame that was there is there as well when more has come behind it.
  pub next_frame-append : (more : Bytes) → next_frame (b ++ more) ≡ some (f, rest ++ more)
  unfolding next_frame
  next_frame-append more = take_step 2 b more after_head _ _ h λ head b1 h1.
      take_step (length_size (short_length head)) b1 more (after_length head) _ _ h1 λ long b2 h2.
        take_step (key_size head) b2 more (after_key head long) _ _ h2 λ key b3 h3.
          take_step (payload_length head long) b3 more (after_payload head key) _ _ h3
            λ payload b4 h4. ap (grown more) h4

  -- Two bytes at least are gone.
  pub next_frame-length : length rest + 2 ≤ length b
  unfolding next_frame
  next_frame-length = took 2 b after_head _ h λ head b1 e1 h1.
      took (length_size (short_length head)) b1 (after_length head) _ h1 λ long b2 e2 h2.
        took (key_size head) b2 (after_key head long) _ h2 λ key b3 e3 h3.
          took (payload_length head long) b3 (after_payload head key) _ h3 λ payload b4 e4 h4.
            omega (
              arith,
              take_bytes-length 2 b head b1 e1,
              take_bytes-length (length_size (short_length head)) b1 long b2 e2,
              take_bytes-length (key_size head) b2 key b3 e3,
              take_bytes-length (payload_length head long) b3 payload b4 e4,
              ap left_over h4,
            )
