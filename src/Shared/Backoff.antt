-- ===== src/Shared/Backoff.antt =====
-- `Math.min(base * 2 ** n, max)`: the delays of WebSocketProvider.scheduleRetry, of the room refresher
-- and of the gateway's re-ask after a refusal.
use chat_crdt.Prelude.{ℕ, zero, suc, ◌+◌, ◌*◌, ◌^◌, ◌≤◌, ◌≡◌, refl, ap, ◌∙◌, min, arith}
use native.Mathlib.Nat.{pow-suc}

unfoldable pub backoff_delay : ℕ → ℕ → ℕ → ℕ
backoff_delay base limit n = min (base * 2 ^ n) limit

pow_pos : (n : ℕ) → 1 ≤ 2 ^ n
pow_pos zero = omega arith
pow_pos (suc n) = rw pow-suc (omega (arith, pow_pos n))

-- The delay never shrinks from one attempt to the next.
pub backoff_delay_mono :
    (base limit n : ℕ) → backoff_delay base limit n ≤ backoff_delay base limit (suc n)
unfolding backoff_delay
backoff_delay_mono base limit n = rw pow-suc (omega arith)

le_mul : (a b : ℕ) → 1 ≤ b → a ≤ a * b
le_mul a b h = grind arith

-- The first delay is the base; none is below it, and none is above the limit.
pub backoff_delay_bounds :
    (base limit n : ℕ)
    → base ≤ limit
    → (backoff_delay base limit 0 ≡ base)
      × (base ≤ backoff_delay base limit n)
      × (backoff_delay base limit n ≤ limit)
unfolding backoff_delay
backoff_delay_bounds base limit n l =
    (omega arith, omega (arith, le_mul base (2 ^ n) (pow_pos n)), omega arith)

-- With the delays of this program, 1 s doubles for five attempts and then stays at 30 s.
pub backoff_delay_cap : (n : ℕ) → backoff_delay 1_000 30_000 (5 + n) ≡ 30_000
unfolding backoff_delay
backoff_delay_cap zero = refl
backoff_delay_cap (suc n) =
    let before = backoff_delay_cap n in
    let step : 2 ^ (5 + suc n) ≡ 2 ^ (5 + n) * 2 =
      ap (λ (k : ℕ). 2 ^ k) (omega arith) ∙ pow-suc 2 (5 + n) in
    rw step (omega arith)
