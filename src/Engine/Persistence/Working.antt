-- ===== src/Engine/Persistence/Working.antt =====
-- A loaded copy stores its document, at the latest when it is destroyed.
use chat_crdt.Prelude.{
  ◌≡◌, refl, sym, ap, subst, ◌∙◌, true, false, Option, some, List, [], ◌∷◌, ◌++◌, all, Text, get,
  put, get-put, ◌⊎◌, inr, by_test, if◌then◌else◌, text_Eq, text_eq_iff, arith,
}
use chat_crdt.Engine.Persistence.{
  Documents, Persistence, key, uint8_to_base64, on_edit, doc_update_handler, on_timer, on_landed,
  land, load_begin, load_end, destroy, persist, start_write, finish_read,
}
use chat_crdt.Engine.Persistence.Events.{
  Event, edits, fires, lands, fails, begins_load, ends_load, begins_discard, ends_discard, destroys,
  handle, handle_all,
}
use chat_crdt.Engine.Persistence.Stored.{
  IsFaithful, last_of, last_of-append, has_legacy, restored, stored_state, is_working,
  has_legacy-put,
}

module _ (l : Documents) (f : IsFaithful l) (names : Option Text × Text) where
  abbrev pub last_stored : Persistence l → Option Text
  last_stored p = last_of p.in_flight (get (key l p) p.storage)

  -- A loaded copy: its document is what the last write restores, or a write is due.
  abbrev pub Working : Persistence l → Type 0
  Working p =
      (p.subscribed ≡ true)
      × (p.loaded ≡ true)
      × (p.destroyed ≡ false)
      × (p.reads ≡ [])
      × (has_legacy p.scope p.room_id p.storage ≡ false)
      × ((p.scope, p.room_id) ≡ names)
      × ((p.timer ≡ true) ⊎ (restored l (last_stored p) ≡ some p.doc))

  -- A copy that was closed with the document `d`.
  abbrev pub Closed : l.Doc → Persistence l → Type 0
  Closed d p =
      (p.subscribed ≡ false)
      × (p.loaded ≡ true)
      × (p.destroyed ≡ true)
      × (p.reads ≡ [])
      × (has_legacy p.scope p.room_id p.storage ≡ false)
      × ((p.scope, p.room_id) ≡ names)
      × (p.timer ≡ false)
      × (restored l (last_stored p) ≡ some d)

  pub state_text : l.Doc → Text
  state_text d = (stored_state l f d).0

  pub written : Persistence l → Persistence l
  written p = record p { in_flight = p.in_flight ++ state_text p.doc ∷ [] }

  pub persist-eq : (p : Persistence l) → p.destroyed ≡ false → persist l p ≡ written p
  unfolding persist written state_text
  persist-eq p e =
      (let c : (if p.destroyed
              then p
              else start_write l (uint8_to_base64 l (l.encode_state p.doc)) p)
            ≡ start_write l (uint8_to_base64 l (l.encode_state p.doc)) p =
          ground arith in
        c)
      ∙ ap (λ o. start_write l o p) (stored_state l f p.doc).1

  pub last_stored-written : (p : Persistence l) → restored l (last_stored (written p)) ≡ some p.doc
  unfolding written state_text
  last_stored-written p =
      ap (restored l) (last_of-append p.in_flight (state_text p.doc) (get (key l p) p.storage))
      ∙ (stored_state l f p.doc).2

  pub fires-Working : (p : Persistence l) → Working p → Working (on_timer l p)
  unfolding on_timer written
  fires-Working p w =
      let q : Persistence l = record p { timer = false } in
      by_test Working p.timer (persist l q) p
        (λ t.
          subst Working (sym (persist-eq q w.2))
            (w.0, w.1, w.2, w.3, w.4, w.5, inr (last_stored-written q)))
        (λ t. w)

  -- A write that lands leaves the last stored value as it is.
  module _ (P : Persistence l → Type 0) (p : Persistence l) where
    land_cases :
        (ws : List Text)
        → P p
        → ((w : Text) (rest : List Text)
            → ws ≡ w ∷ rest
            → P (record p { storage = put (key l p) w p.storage; in_flight = rest }))
        → P (land l ws p)
    land_cases [] h k = h
    land_cases (w ∷ rest) h k = k w rest refl

  pub last_stored-land :
      (p : Persistence l) (w : Text) (rest : List Text)
      → p.in_flight ≡ w ∷ rest
      → last_of rest (get (key l p) (put (key l p) w p.storage)) ≡ last_stored p
  last_stored-land p w rest e =
      ap (last_of rest)
        (get-put (key l p) (key l p) w p.storage ∙ ground (arith, text_eq_iff (key l p) (key l p)))
      ∙ ap (λ ws. last_of ws (get (key l p) p.storage)) (sym e)

  pub lands-Working : (p : Persistence l) → Working p → Working (on_landed l p)
  unfolding on_landed
  lands-Working p w = land_cases Working p p.in_flight w λ v rest e. (
    w.0,
    w.1,
    w.2,
    w.3,
    has_legacy-put p.scope p.room_id v p.storage w.4,
    w.5,
    ground (arith, ap (restored l) (last_stored-land p v rest e)),
  )

  pub lands-Closed : (d : l.Doc) (p : Persistence l) → Closed d p → Closed d (on_landed l p)
  unfolding on_landed
  lands-Closed d p w = land_cases (Closed d) p p.in_flight w λ v rest e. (
    w.0,
    w.1,
    w.2,
    w.3,
    has_legacy-put p.scope p.room_id v p.storage w.4,
    w.5,
    w.6,
    ap (restored l) (last_stored-land p v rest e) ∙ w.7,
  )

  pub destroy-Closed : (p : Persistence l) → Working p → Closed p.doc (destroy l p)
  unfolding destroy written
  destroy-Closed p w =
      let q : Persistence l = record p { subscribed = false } in
      let flushed : Persistence l = record q { timer = false } in
      by_test (λ r. Closed p.doc (record r { destroyed = true })) p.timer (persist l flushed) q
        (λ t.
          subst (λ r. Closed p.doc (record r { destroyed = true })) (sym (persist-eq flushed w.2))
            (refl, w.1, refl, w.3, w.4, w.5, refl, last_stored-written flushed))
        (λ t. (refl, w.1, refl, w.3, w.4, w.5, t, ground arith))

  pub loads_again : (p : Persistence l) → p.loaded ≡ true → load_begin l p ≡ p
  unfolding load_begin
  loads_again p h = by_test (λ q. q ≡ p) p.loaded p _ (λ t. refl) (λ t. cc)

  pub ends_again : (p : Persistence l) → p.reads ≡ [] → load_end l p ≡ p
  unfolding load_end
  ends_again p h = ap (λ rs. finish_read l rs p) h

  pub handle-Working :
      (e : Event l) (p : Persistence l) → is_working l e ≡ true → Working p → Working (handle l e p)
  unfolding handle on_edit doc_update_handler
  handle-Working (edits d) p h w = ground arith
  handle-Working fires p h w = fires-Working p w
  handle-Working lands p h w = lands-Working p w
  handle-Working fails p h w = cc
  handle-Working begins_load p h w = subst Working (sym (loads_again p w.1)) w
  handle-Working ends_load p h w = subst Working (sym (ends_again p w.3)) w
  handle-Working begins_discard p h w = cc
  handle-Working ends_discard p h w = cc
  handle-Working destroys p h w = cc

  pub handle-Closed :
      (d : l.Doc) (e : Event l) (p : Persistence l)
      → is_working l e ≡ true
      → Closed d p
      → Closed d (handle l e p)
  unfolding handle on_edit doc_update_handler on_timer
  handle-Closed d (edits d') p h w = ground arith
  handle-Closed d fires p h w =
      by_test (Closed d) p.timer (persist l (record p { timer = false })) p (λ t. cc) (λ t. w)
  handle-Closed d lands p h w = lands-Closed d p w
  handle-Closed d fails p h w = cc
  handle-Closed d begins_load p h w = subst (Closed d) (sym (loads_again p w.1)) w
  handle-Closed d ends_load p h w = subst (Closed d) (sym (ends_again p w.3)) w
  handle-Closed d begins_discard p h w = cc
  handle-Closed d ends_discard p h w = cc
  handle-Closed d destroys p h w = cc

  pub kept_all :
      (P : Persistence l → Type 0)
      → ((e : Event l) (p : Persistence l) → is_working l e ≡ true → P p → P (handle l e p))
      → (es : List (Event l)) (p : Persistence l) → all (is_working l) es ≡ true
      → P p
      → P (handle_all l es p)
  unfolding handle_all
  kept_all P keep [] p h w = w
  kept_all P keep (e ∷ es) p h w =
      kept_all P keep es (handle l e p) (ground arith) (keep e p (ground arith) w)
