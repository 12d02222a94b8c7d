-- ===== src/Server/Gateway/Heartbeat.antt =====
-- sync.gateway.ts, `sweepHeartbeats` and the pong of a socket.
use chat_crdt.Prelude.{
  ℕ, ◌≡◌, refl, Bool, true, false, not, Option, some, List, [], ◌∷◌, get, put, get-put, Map,
  contains, ◌==◌, if◌then◌else◌, nat_Eq, eq_iff, ◌&&◌, ◌||◌, arith, Bool-cases, inl, inr,
}
use chat_crdt.Server.Gateway.{Library, Gateway, Step, Effect, terminate, ping}

abbrev pub missed : Option Bool → Bool
missed (some false) = true
missed _ = false

-- The loop of `sweepHeartbeats`, over the sockets of the server.
unfoldable pub sweep : List ℕ → Map ℕ Bool → Map ℕ Bool × List Effect
unfolding get put
sweep [] alive = (alive, [])
sweep (c ∷ sockets) alive =
    if missed (get c alive)
    then (let (alive', sent) = sweep sockets alive in (alive', terminate c ∷ sent))
    else (let (alive', sent) = sweep sockets (put c false alive) in (alive', ping c ∷ sent))

abbrev pub is_terminate : ℕ → Effect → Bool
is_terminate c (terminate x) = x == c
is_terminate c _ = false

abbrev pub terminates : ℕ → List Effect → Bool
terminates c [] = false
terminates c (e ∷ es) = is_terminate c e || terminates c es

module _ (l : Library) where
  unfoldable pub sweep_heartbeats : List ℕ → Gateway l → Step l
  unfolding sweep
  sweep_heartbeats sockets g =
      let (alive, sent) = sweep sockets g.alive in (record g { alive = alive }, sent)

  -- `client.on('pong', ...)`
  unfoldable pub on_pong : ℕ → Gateway l → Gateway l
  unfolding put
  on_pong c g = record g { alive = put c true g.alive }

-- A socket that the sweep did not visit keeps its state, and one that it visited is marked as missing.
get-sweep :
    (c : ℕ) (sockets : List ℕ) (alive : Map ℕ Bool)
    → get c (sweep sockets alive).0 ≡ (if contains c sockets then some false else get c alive)
unfolding sweep
get-sweep c [] alive = refl
get-sweep c (x ∷ sockets) alive = elim (Bool-cases (missed (get x alive))) [
  | inl e ↦ rw e (ground (arith, eq_iff x c, get-sweep c sockets alive))
  | inr e ↦
      rw e (
        ground
          (arith, eq_iff x c, get-sweep c sockets (put x false alive), get-put x c false alive))
]

-- The sockets of a server are a set.
abbrev pub distinct : List ℕ → Bool
distinct [] = true
distinct (x ∷ xs) = not (contains x xs) && distinct xs

terminates-sweep :
    (c : ℕ) (sockets : List ℕ) (alive : Map ℕ Bool)
    → distinct sockets ≡ true
    → terminates c (sweep sockets alive).1 ≡ (contains c sockets && missed (get c alive))
unfolding sweep
terminates-sweep c [] alive h = refl
terminates-sweep c (x ∷ sockets) alive h = elim (Bool-cases (missed (get x alive))) [
  | inl e ↦ rw e (ground (arith, eq_iff x c, terminates-sweep c sockets alive))
  | inr e ↦ rw e (
      ground (
        arith,
        eq_iff x c,
        terminates-sweep c sockets (put x false alive),
        get-put x c false alive,
      ))
]

module _ (l : Library) where
  -- Take a socket of the server at two sweeps. The second one terminates it if no pong of it came in
  -- between, and leaves it if one did.
  pub second_sweep :
      (c : ℕ) (sockets later : List ℕ) (g : Gateway l)
      → distinct later ≡ true
      → contains c sockets ≡ true
      → contains c later ≡ true
      → (terminates c (sweep_heartbeats l later (sweep_heartbeats l sockets g).0).1 ≡ true)
        × (terminates c (sweep_heartbeats l later (on_pong l c (sweep_heartbeats l sockets g).0)).1
            ≡ false)
  unfolding sweep_heartbeats on_pong
  second_sweep c sockets later g d h h' = (
    ground (arith, terminates-sweep c later (sweep sockets g.alive).0, get-sweep c sockets g.alive),
    ground (
      arith,
      eq_iff c c,
      terminates-sweep c later (put c true (sweep sockets g.alive).0),
      get-put c c true (sweep sockets g.alive).0,
    ),
  )
