-- ===== src/Engine/Provider/Retry.antt =====
-- When the provider connects again.
use chat_crdt.Prelude.{ℕ, zero, suc, ◌+◌, ◌≡◌, ap, ◌∙◌, true, false, some, arith}
use chat_crdt.Shared.Backoff.{backoff_delay, backoff_delay_cap}
use chat_crdt.Engine.Provider.{
  Library, Provider, is_auth_close_code, on_open, on_close, schedule_retry, connect,
}

module _ (l : Library) where
  -- So many failed attempts in a row, each closed with this code and then retried by the timer.
  abbrev pub attempts : ℕ → ℕ → Provider l → Provider l
  attempts zero code p = p
  attempts (suc n) code p = attempts n code (connect l (on_close l code p).0).0

  attempts_delay :
      (n code : ℕ) (p : Provider l)
      → p.destroyed ≡ false
      → is_auth_close_code code ≡ false
      → (on_close l code (attempts n code p)).0.retry_timer
        ≡ some (backoff_delay 1_000 30_000 (p.retry_count + n))
  unfolding on_close schedule_retry connect
  attempts_delay zero code p d a =
      rw (d, a) (ap (λ k. some (backoff_delay 1_000 30_000 k)) (omega arith))
  attempts_delay (suc n) code p d a =
      let p' = (connect l (on_close l code p).0).0 in
      let d' : p'.destroyed ≡ false = ground arith in
      let c' : p'.retry_count ≡ suc p.retry_count = ground arith in
      attempts_delay n code p' d' a
      ∙ ap (λ k. some (backoff_delay 1_000 30_000 k)) (omega (arith, c'))

  -- A socket that has been open and is then lost, with a code that is no authentication failure, is
  -- retried: after `n` further failed attempts the next one waits for the least of 2^n seconds and
  -- 30 seconds, and for 30 seconds from the fifth attempt on. A code between 4000 and 4099 sets no
  -- timer.
  pub retry_delays :
      (n code auth : ℕ) (p : Provider l)
      → p.destroyed ≡ false
      → is_auth_close_code code ≡ false
      → is_auth_close_code auth ≡ true
      → ((on_close l code (attempts n code (on_open l p).0)).0.retry_timer
          ≡ some (backoff_delay 1_000 30_000 n))
        × ((on_close l code (attempts (5 + n) code (on_open l p).0)).0.retry_timer ≡ some 30_000)
        × ((on_close l auth p).0.retry_timer ≡ p.retry_timer)
  unfolding on_open on_close
  retry_delays n code auth p d a h = (
    attempts_delay n code (on_open l p).0 d a
        ∙ ap (λ (k : ℕ). some (backoff_delay 1_000 30_000 k)) (omega arith),
    attempts_delay (5 + n) code (on_open l p).0 d a
        ∙ ap (λ (k : ℕ). some (backoff_delay 1_000 30_000 k)) (omega arith)
        ∙ ap some (backoff_delay_cap n),
    ground arith,
  )
