-- ===== src/Mobile/Requests/Tests.antt =====
-- The requests of the rooms store at concrete inputs.
use chat_crdt.Prelude.{ℕ, ◌≡◌, refl, true, false, none, some, List, [], ◌∷◌, Text, codes, text_eq}
use chat_crdt.Shared.Value.{str, arr, obj, field, end, cons, nil}
use chat_crdt.Mobile.Samples.{nothing_known}
use chat_crdt.Mobile.Requests.{
  Store, unreadable, refused, answered, fetch_begin, extract_error_message,
}
use chat_crdt.Mobile.Requests.Loading.{
  Happening, loads, load_answered, refreshes, refresh_answered, signs, System, happen, history,
  is_some, begun, loading_exact, unreadable_stuck,
}

abbrev digits : ℕ → Text
digits n = codes "503"

abbrev signed_in : Store
signed_in = record {
  token = some (codes "t");
  known = nothing_known;
  is_loading = false;
  error = none;
  requests = record { started = 0; applied = 0 };
}

-- A load that fails, and one that is under way while a refresh is answered.
abbrev loaded : List Happening
loaded =
    loads ∷ load_answered (refused 503) ∷ loads ∷ refreshes ∷ refresh_answered 3 (answered []) ∷ []

loading_exact_example :
    let y = history digits loaded (begun digits signed_in) in
    y.store.is_loading ≡ is_some digits y.loading
loading_exact_example = loading_exact digits loaded signed_in (tt, (tt, (tt, (tt, (tt, tt)))))

abbrev under_way : System
under_way = record { store = record signed_in { is_loading = true }; loading = some 1 }

unreadable_stuck_example :
    let later =
      history digits
        (signs none ∷ signs (some (codes "u")) ∷ loads ∷ [])
        (happen digits (load_answered unreadable) under_way) in
    (later.store.is_loading ≡ true) × (fetch_begin later.store ≡ (none, later.store))
unreadable_stuck_example =
    unreadable_stuck digits under_way 1 (signs none ∷ signs (some (codes "u")) ∷ loads ∷ []) refl
      refl

messages_test :
    (extract_error_message
        (some (
          obj (
            field
              (codes "message")
              (arr (cons (str (codes "a")) (cons (str (codes "b")) nil)))
              end)))
        (codes "x")
      ≡ codes "a, b")
    × (extract_error_message (some (obj (field (codes "message") (arr nil) end))) (codes "x")
        ≡ codes "x")
unfolding extract_error_message text_eq
messages_test = (refl, refl)
