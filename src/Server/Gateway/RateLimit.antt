-- ===== src/Server/Gateway/RateLimit.antt =====
-- sync.gateway.ts, `isRateLimited`: a fixed window of one second for each client. The time of each
-- call is an argument.
use chat_crdt.Prelude.{
  ℕ, suc, ◌+◌, ◌-◌, ◌≤◌, ◌<◌, Bool, false, Option, none, some, List, [], ◌∷◌, get, put, All,
  All-map, ltb, leb, if◌then◌else◌, nat_Eq, arith,
}
use chat_crdt.Server.Gateway.{Library, Gateway, RateState}

abbrev pub rate_limit_window_ms : ℕ
rate_limit_window_ms = 1_000

abbrev pub rate_limit_max_msgs : ℕ
rate_limit_max_msgs = 60

-- One call, for one client: whether it is limited, and its new state.
unfoldable pub limit_one : ℕ → Option RateState → Bool × RateState
limit_one now none = (false, record { count = 1; window_start = now })
limit_one now (some s) =
    if leb (s.window_start + rate_limit_window_ms) now
    then (false, record { count = 1; window_start = now })
    else (
      ltb rate_limit_max_msgs (suc s.count),
      record { count = suc s.count; window_start = s.window_start },
    )

module _ (l : Library) where
  unfoldable pub is_rate_limited : ℕ → ℕ → Gateway l → Bool × Gateway l
  unfolding limit_one get put
  is_rate_limited now client g =
      let (limited, s) = limit_one now (get client g.client_rate) in
      (limited, record g { client_rate = put client s g.client_rate })

-- How many of these calls, made in this order by one client, are let through.
pub passed : Option RateState → List ℕ → ℕ
passed s [] = 0
passed s (now ∷ times) =
    let (limited, s') = limit_one now s in
    let rest = passed (some s') times in if limited then rest else suc rest

-- While no call falls outside the current window, only what is left of it passes.
passed-window :
    (s : RateState) (times : List ℕ)
    → All (λ t. t < s.window_start + 1_000) times
    → passed (some s) times ≤ 60 - s.count
unfolding passed limit_one
passed-window s [] h = omega arith
passed-window s (t ∷ times) (p, h) =
    ground
      (arith, passed-window (record { count = suc s.count; window_start = s.window_start }) times h)

passed-interval :
    (s : RateState) (times : List ℕ) (start : ℕ)
    → All (λ t. (start ≤ t) × (t < start + 1_000)) times
    → passed (some s) times ≤ (60 - s.count) + 60
unfolding passed limit_one
passed-interval s [] start h = omega arith
passed-interval s (t ∷ times) start ((p, q), h) =
    let fresh : All (λ u. u < t + 1_000) times = All-map (λ u r. omega arith) times h in
    ground (
      arith,
      passed-interval (record { count = suc s.count; window_start = s.window_start }) times start h,
      passed-window (record { count = 1; window_start = t }) times fresh,
    )

passed_first :
    (times : List ℕ) (start : ℕ)
    → All (λ t. (start ≤ t) × (t < start + 1_000)) times
    → passed none times ≤ 60
unfolding passed limit_one
passed_first [] start h = omega arith
passed_first (t ∷ times) start ((p, q), h) =
    let fresh : All (λ u. u < t + 1_000) times = All-map (λ u r. omega arith) times h in
    omega (arith, passed-window (record { count = 1; window_start = t }) times fresh)

-- Whatever a client has sent before, at most 120 of the frames that it sends within any 1000 ms are
-- let through, and at most 60 if they are its first.
pub rate_limit_bound :
    (s : RateState) (times : List ℕ) (start : ℕ)
    → All (λ t. (start ≤ t) × (t < start + 1_000)) times
    → (passed (some s) times ≤ 120) × (passed none times ≤ 60)
rate_limit_bound s times start h =
    (omega (arith, passed-interval s times start h), passed_first times start h)
