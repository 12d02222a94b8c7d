-- ===== src/Mobile/Rooms/Latest.antt =====
-- In which order the answers to GET /rooms are applied.
use chat_crdt.Prelude.{
  ℕ, ◌<◌, List, [], ◌∷◌, leb, if◌then◌else◌, All, All-map, Bool-cases, inl, inr, arith,
}
use chat_crdt.Mobile.Rooms.{LatestWins, try_apply}

-- Which of these requests are applied, when their answers arrive in this order.
pub applied_in_turn : List ℕ → LatestWins → List ℕ
applied_in_turn [] w = []
applied_in_turn (seq ∷ seqs) w =
    let (wins, w') = try_apply seq w in
    let rest = applied_in_turn seqs w' in if wins then seq ∷ rest else rest

-- Each is below all that follow it.
abbrev pub Increasing : List ℕ → Type 0
Increasing [] = Unit
Increasing (n ∷ ns) = All (λ m. n < m) ns × Increasing ns

-- In whatever order the answers arrive, those that are applied are in the order in which their
-- requests began, and later than what was applied before: an older list never replaces a newer one.
pub latest_wins :
    (seqs : List ℕ) (w : LatestWins)
    → All (λ n. w.applied < n) (applied_in_turn seqs w) × Increasing (applied_in_turn seqs w)
unfolding applied_in_turn try_apply
latest_wins [] w = (tt, tt)
latest_wins (seq ∷ seqs) w = elim (Bool-cases (leb seq w.applied)) [
  | inl e ↦ rw e (latest_wins seqs w)
  | inr e ↦
      let (above, sorted) = latest_wins seqs (record w { applied = seq }) in
      let newer : w.applied < seq = ground arith in
      rw e (
        (newer, All-map {P = λ n. seq < n} {Q = λ n. w.applied < n} (λ n h. omega arith) _ above),
        (above, sorted),
      )
]
