-- ===== src/Mobile/Refresher/Stopped.antt =====
-- What is left of a refresh after `stop`.
use chat_crdt.Prelude.{
  ℕ, ◌<◌, ◌≡◌, refl, ap, ◌∙◌, false, Option, none, some, [], Text, get, get-put, get-delete, eq_iff,
  text_eq_iff, Option-cases, inl, inr, text_Eq, nat_Eq, arith,
}
use chat_crdt.Engine.Provider.{Status}
use chat_crdt.Mobile.Refresher.{
  FetchResult, Refresher, entry_for, refresh, settle, retry_due, stop, is_entry,
}

settle_stale :
    (room : Text) (e : ℕ) (result : FetchResult) (socket : Option Status) (st : Refresher)
    → is_entry (get room st.entries) e ≡ false
    → (settle room e result socket st).1 ≡ []
unfolding settle
settle_stale room e result socket st h = elim (Option-cases (get e st.objects)) [
  | inl n ↦ rw (n, settle) refl
  | inr (entry, n) ↦ rw (n, settle) (rw h refl)
]

retry_stale :
    (room : Text) (e : ℕ) (st : Refresher)
    → is_entry (get room st.entries) e ≡ false
    → (retry_due room e st).1 ≡ []
unfolding retry_due
retry_stale room e st h = elim (Option-cases (get e st.objects)) [
  | inl n ↦ rw (n, retry_due) refl
  | inr (entry, n) ↦ rw (n, retry_due) (rw h refl)
]

stop_entries : (room : Text) (st : Refresher) → get room (stop room st).0.entries ≡ none
unfolding stop
stop_entries room st = get-delete room room st.entries ∙ ground (arith, text_eq_iff room room)

refresh_entries :
    (room : Text) (st : Refresher)
    → get room st.entries ≡ none
    → get room (refresh room st).0.entries ≡ some st.next_object
unfolding refresh entry_for
refresh_entries room st h =
    rw (h, refresh, entry_for)
      (get-put room room st.next_object st.entries ∙ ground (arith, text_eq_iff room room))

-- After the screen of a room has gone, and also when it has been opened again, an answer to a request
-- of the refresh before that reports nothing, and neither does its retry timer. The entry that
-- the old refresh holds is one of those made so far.
pub stopped_dropped :
    (room : Text) (e : ℕ) (result : FetchResult) (socket : Option Status) (st : Refresher)
    → e < st.next_object
    → ((settle room e result socket (stop room st).0).1 ≡ [])
      × ((settle room e result socket (refresh room (stop room st).0).0).1 ≡ [])
      × ((retry_due room e (refresh room (stop room st).0).0).1 ≡ [])
unfolding stop
stopped_dropped room e result socket st old =
    let gone = stop_entries room st in
    let again : get room (refresh room (stop room st).0).0.entries ≡ some st.next_object =
      refresh_entries room (stop room st).0 gone in
    let other : is_entry (get room (refresh room (stop room st).0).0.entries) e ≡ false =
      ap (λ d. is_entry d e) again ∙ ground (arith, eq_iff st.next_object e) in
    (
      settle_stale room e result socket (stop room st).0 (ap (λ d. is_entry d e) gone),
      settle_stale room e result socket (refresh room (stop room st).0).0 other,
      retry_stale room e (refresh room (stop room st).0).0 other,
    )
