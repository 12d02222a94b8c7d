-- ===== src/Mobile/Requests/Loading.antt =====
-- The flag that guards the rooms list against two loads at once.
use chat_crdt.Prelude.{
  ℕ, ◌≡◌, refl, sym, ap, subst, ◌∙◌, Bool, true, false, Option, none, some, List, [], ◌∷◌, Text,
  All, if◌then◌else◌, by_test,
}
use chat_crdt.Mobile.Rooms.{RoomSummary, Event, step, try_apply, begin}
use chat_crdt.Mobile.Requests.{
  Store, Answer, unreachable, unreadable, refused, answered, applied, request_with, request_begin,
  request_end, fetch_with, fetch_begin, fetch_end,
}

-- What happens to the store: the screen loads the list or its answer comes, another request for the list
-- begins or is answered, a store's entry changes, or the user logs in or out.
pub data Happening : Type 0 where
  loads : Happening
  load_answered : Answer → Happening
  refreshes : Happening
  refresh_answered : ℕ → Answer → Happening
  changes : Event → Happening
  signs : Option Text → Happening

-- The store, and the number of the load that is under way.
pub record System : Type 0 where
  pub store : Store
  pub loading : Option ℕ

abbrev or_old : Option ℕ → Option ℕ → Option ℕ
or_old none old = old
or_old (some seq) old = some seq

module _ (show : ℕ → Text) where
  abbrev load_end : Answer → Option ℕ → System → System
  load_end a none y = y
  load_end a (some seq) y = record { store = fetch_end show seq a y.store; loading = none }

  unfoldable pub happen : Happening → System → System
  unfolding fetch_begin fetch_end request_begin request_end step
  happen loads y =
      let (o, s) = fetch_begin y.store in record { store = s; loading = or_old o y.loading }
  happen (load_answered a) y = load_end a y.loading y
  happen refreshes y = record y { store = (request_begin y.store).1 }
  happen (refresh_answered seq a) y = record y { store = (request_end seq a y.store).1 }
  happen (changes e) y = record y { store = record y.store { known = step e y.store.known } }
  happen (signs t) y = record y { store = record y.store { token = t } }

  unfoldable pub history : List Happening → System → System
  unfolding happen
  history [] y = y
  history (h ∷ hs) y = history hs (happen h y)

  -- The load of the list has ended badly: its flag is up although nothing is under way.
  abbrev pub IsStuck : System → Type 0
  IsStuck y = (y.store.is_loading ≡ true) × (y.loading ≡ none)

  applied_loading :
      (b : Bool) (rooms : List RoomSummary) (s : Store)
      → (applied b rooms s).is_loading ≡ s.is_loading
  applied_loading true rooms s = refl
  applied_loading false rooms s = refl

  request_end_loading :
      (seq : ℕ) (a : Answer) (s : Store) → (request_end seq a s).1.is_loading ≡ s.is_loading
  unfolding request_end try_apply
  request_end_loading seq unreachable s = refl
  request_end_loading seq (refused status) s = refl
  request_end_loading seq unreadable s = refl
  request_end_loading seq (answered rooms) s =
      let (wins, w) = try_apply seq s.requests in
      applied_loading wins rooms (record s { requests = w })

  request_with_loading :
      (o : Option Text) (s : Store) → (request_with o s).1.is_loading ≡ s.is_loading
  request_with_loading none s = refl
  request_with_loading (some token) s = refl

  request_begin_loading : (s : Store) → (request_begin s).1.is_loading ≡ s.is_loading
  unfolding request_begin
  request_begin_loading s = request_with_loading s.token s

  stuck_with : (o : Option Text) (s : Store) → s.is_loading ≡ true → fetch_with o s ≡ (none, s)
  stuck_with none s h = refl
  stuck_with (some token) s h =
      ap
        (λ (b : Bool).
          if b then (none, s) else request_begin (record s { is_loading = true; error = none }))
        h

  load_end-IsStuck :
      (a : Answer) (o : Option ℕ) (y : System) → o ≡ none → IsStuck y → IsStuck (load_end a o y)
  load_end-IsStuck a none y n stuck = stuck
  load_end-IsStuck a (some seq) y n stuck = cc

  happen-IsStuck : (h : Happening) (y : System) → IsStuck y → IsStuck (happen h y)
  unfolding happen fetch_begin
  happen-IsStuck loads y (l, n) =
      let e = stuck_with y.store.token y.store l in
      (
        ap (λ (r : Option ℕ × Store). r.1.is_loading) e ∙ l,
        ap (λ (r : Option ℕ × Store). or_old r.0 y.loading) e ∙ n,
      )
  happen-IsStuck (load_answered a) y (l, n) = load_end-IsStuck a y.loading y n (l, n)
  happen-IsStuck refreshes y (l, n) = (request_begin_loading y.store ∙ l, n)
  happen-IsStuck (refresh_answered seq a) y (l, n) = (request_end_loading seq a y.store ∙ l, n)
  happen-IsStuck (changes e) y stuck = stuck
  happen-IsStuck (signs t) y stuck = stuck

  -- Is there a load under way?
  abbrev pub is_some : Option ℕ → Bool
  is_some none = false
  is_some (some seq) = true

  abbrev pub IsRead : Happening → Type 0
  IsRead (load_answered unreadable) = ⊥
  IsRead _ = Unit

  abbrev Agrees : System → Type 0
  Agrees y = y.store.is_loading ≡ is_some y.loading

  fetch_with-Agrees :
      (o : Option Text) (y : System)
      → y.store.token ≡ o
      → Agrees y
      → let (seq, s) = fetch_with o y.store in s.is_loading ≡ is_some (or_old seq y.loading)
  unfolding request_begin begin
  fetch_with-Agrees none y h e = e
  fetch_with-Agrees (some token) y h e =
      by_test (λ (r : Option ℕ × Store). r.1.is_loading ≡ is_some (or_old r.0 y.loading))
        y.store.is_loading (none, y.store)
        (request_begin (record y.store { is_loading = true; error = none })) (λ t. e)
        (λ t.
          let raised : Store = record y.store { is_loading = true; error = none } in
          subst
            (λ (o : Option Text).
              (request_with o raised).1.is_loading
              ≡ is_some (or_old (request_with o raised).0 y.loading))
            (sym h) refl)

  fetch_end_loading :
      (seq : ℕ) (a : Answer) (s : Store)
      → IsRead (load_answered a)
      → (fetch_end show seq a s).is_loading ≡ false
  unfolding fetch_end request_end
  fetch_end_loading seq unreadable s r = elim r [ ]
  fetch_end_loading seq unreachable s r = refl
  fetch_end_loading seq (refused status) s r = refl
  fetch_end_loading seq (answered rooms) s r = refl

  load_end-Agrees :
      (a : Answer) (o : Option ℕ) (y : System)
      → IsRead (load_answered a)
      → o ≡ y.loading
      → Agrees y
      → Agrees (load_end a o y)
  load_end-Agrees a none y r h e = e
  load_end-Agrees a (some seq) y r h e = fetch_end_loading seq a y.store r

  happen-Agrees : (h : Happening) (y : System) → IsRead h → Agrees y → Agrees (happen h y)
  unfolding happen fetch_begin
  happen-Agrees loads y r e = fetch_with-Agrees y.store.token y refl e
  happen-Agrees (load_answered a) y r e = load_end-Agrees a y.loading y r refl e
  happen-Agrees refreshes y r e = request_begin_loading y.store ∙ e
  happen-Agrees (refresh_answered seq a) y r e = request_end_loading seq a y.store ∙ e
  happen-Agrees (changes x) y r e = e
  happen-Agrees (signs t) y r e = e

  history-IsStuck : (hs : List Happening) (y : System) → IsStuck y → IsStuck (history hs y)
  unfolding history
  history-IsStuck [] y stuck = stuck
  history-IsStuck (h ∷ hs) y stuck = history-IsStuck hs (happen h y) (happen-IsStuck h y stuck)

  -- A system in which no load has begun.
  abbrev pub begun : Store → System
  begun s = record { store = record s { is_loading = false }; loading = none }

  history-Agrees :
      (hs : List Happening) (y : System) → All IsRead hs → Agrees y → Agrees (history hs y)
  unfolding history
  history-Agrees [] y r e = e
  history-Agrees (h ∷ hs) y (r, rs) e = history-Agrees hs (happen h y) rs (happen-Agrees h y r e)

  -- As long as each answer to the screen's loads is either an error or can be read, the flag is up exactly
  -- while one of its loads is under way, whatever else happens to the store.
  pub loading_exact :
      (hs : List Happening) (s : Store)
      → All IsRead hs
      → let y = history hs (begun s) in y.store.is_loading ≡ is_some y.loading
  loading_exact hs s r = history-Agrees hs (begun s) r refl

  -- But once the body of a good answer cannot be read, the flag stays up for ever, and no later load of the
  -- list sends a request, also for the next user.
  pub unreadable_stuck :
      (y : System) (seq : ℕ) (hs : List Happening)
      → y.loading ≡ some seq
      → y.store.is_loading ≡ true
      → let later = history hs (happen (load_answered unreadable) y) in
        (later.store.is_loading ≡ true) × (fetch_begin later.store ≡ (none, later.store))
  unfolding happen fetch_end request_end fetch_begin
  unreadable_stuck y seq hs h l =
      let stuck : IsStuck (happen (load_answered unreadable) y) =
        subst (λ (o : Option ℕ). IsStuck (load_end unreadable o y)) (sym h) (l, refl) in
      let later = history hs (happen (load_answered unreadable) y) in
      let (up, _) = history-IsStuck hs (happen (load_answered unreadable) y) stuck in
      (up, stuck_with later.store.token later.store up)
