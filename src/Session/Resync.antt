-- ===== src/Session/Resync.antt =====
-- The exchange of refusals and answers ends.
use chat_crdt.Prelude.{
  ℕ, zero, suc, ◌<◌, ◌≡◌, refl, sym, ap, subst, ◌∙◌, ◌⊎◌, inl, inr, true, false, not, Option, none,
  some, List, [], ◌∷◌, Text, All, All-map, All-zip, All-filter, In, contains, filter, length, ◌==◌,
  by_test, text_Eq, arith,
}
use chat_crdt.Shared.Message.{Message}
use chat_crdt.Shared.Value.{Value}
use chat_crdt.Server.Gate.{Struct, GateResult, accepted, rejected}
use chat_crdt.Engine.Messages.{IsArray, ids_of, is_wanted, retract_messages}
use chat_crdt.Engine.Messages.Retract.{retract_exact}
use chat_crdt.Engine.Provider.{
  Library, Provider, Step, Bytes, on_rejection, on_doc_update, changed_by_us, add_all, is_repaired,
}
use chat_crdt.Session.{Outcome, settled, stopped, due, verdict, resync}
use chat_crdt.Session.Parts.{IsPartOf, named_present}
use chat_crdt.Session.Distinct.{
  IsDistinct, Without, Without-contains, filter-IsDistinct, left-Without, length-split,
  contains-add_all,
}

module _ (l : Library) where
  abbrev pub messages : Provider l → List Message
  messages p = l.y.to_array p.doc

  -- The messages have different ids, and none is that of a message retracted before.
  abbrev pub IsSound : Provider l → Type 0
  IsSound p = IsDistinct (messages p) × Without p.retracted_ids (messages p)

-- The messages of other users.
abbrev pub others : Text → List Message → List Message
others me ms = filter (λ m. not (m.user_id == me)) ms

module _ (json_parse : Text → Option Value) (l : Library) (structs : l.y.Doc → List Struct) where
  -- The gate took the client's state or the client stopped, and no message of another user was lost.
  abbrev pub Ended : Provider l → Outcome l → Type 0
  Ended p (settled q) =
      (verdict json_parse l structs q ≡ accepted)
      × (others p.user_id (messages l q) ≡ others p.user_id (messages l p))
  Ended p (stopped q) =
      (q.state_refused ≡ true) × (others p.user_id (messages l q) ≡ others p.user_id (messages l p))
  Ended p (due q) = ⊥

module _ (l : Library) (array : IsArray l.y) where
  changed_by_us_fields :
      (o : Option Bytes) (p : Provider l)
      → ((changed_by_us l o p).0.doc ≡ p.doc) × ((changed_by_us l o p).0.user_id ≡ p.user_id)
  unfolding on_doc_update
  changed_by_us_fields none p = (refl, refl)
  changed_by_us_fields (some u) p = ground arith

  -- What a rejection leaves.
  abbrev Rejected : List Text → Provider l → Provider l → Type 0
  Rejected ids p q =
      (messages l q ≡ filter (λ m. not (is_wanted p.user_id ids m)) (messages l p))
      × (q.retracted_ids
          ≡ add_all l (ids_of (filter (is_wanted p.user_id ids) (messages l p))) p.retracted_ids)
      × (q.user_id ≡ p.user_id)
      × ((q.state_refused ≡ true) ⊎ (is_repaired l ids q.retracted_ids ≡ true))

  on_rejection-Rejected :
      (key_id : ℕ) (ids : List Text) (p : Provider l)
      → Rejected ids p (on_rejection l key_id ids p).0
  unfolding on_rejection
  on_rejection-Rejected key_id ids p =
      let r = retract_messages l.y p.user_id ids p.doc in
      let (taken, left) = retract_exact l.y array p.user_id ids p.doc in
      let (doc_kept, user_kept) =
        changed_by_us_fields (l.changed p.doc r.0) (record p { doc = r.0 }) in
      let seen = add_all l (ids_of r.1) p.retracted_ids in
      let kept = ap l.y.to_array doc_kept ∙ left in
      let noted = ap (λ (ms : List Message). add_all l (ids_of ms) p.retracted_ids) taken in
      by_test (λ (s : Step l). Rejected ids p s.0) (is_repaired l ids seen) _ _
        (λ t. (kept, noted, user_kept, inr t)) (λ t. (kept, noted, user_kept, inl refl))

  Rejected-IsSound :
      (ids : List Text) (p q : Provider l) → Rejected ids p q → IsSound l p → IsSound l q
  Rejected-IsSound ids p q (left, noted, _, _) (distinct, fresh) =
      let wanted = is_wanted p.user_id ids in
      let stay = filter (λ m. not (wanted m)) (messages l p) in
      let taken = ids_of (filter wanted (messages l p)) in
      let none_left : Without (add_all l taken p.retracted_ids) stay =
        All-map
          (λ m (h : (contains m.id taken ≡ false) × (contains m.id p.retracted_ids ≡ false)).
            ground (arith, contains-add_all l m.id taken p.retracted_ids))
          stay
          (All-zip (λ m. contains m.id taken ≡ false) (λ m. contains m.id p.retracted_ids ≡ false)
            stay (left-Without wanted (messages l p) distinct)
            (All-filter (λ m. contains m.id p.retracted_ids ≡ false) (λ m. not (wanted m))
              (messages l p) fresh)) in
      (
        subst IsDistinct (sym left)
            (filter-IsDistinct (λ m. not (wanted m)) (messages l p) distinct),
        subst (λ ms. Without q.retracted_ids ms) (sym left)
            (subst (λ r. Without r stay) (sym noted) none_left),
      )

  some_taken : (i : Text) (ms : List Message) → contains i (ids_of ms) ≡ true → 0 < length ms
  some_taken i [] h = cc
  some_taken i (m ∷ ms) h = omega arith

  -- A repaired rejection has taken a message out.
  repaired_shorter :
      (ids : List Text) (p q : Provider l)
      → Rejected ids p q
      → IsSound l p
      → ((id : Text) → In id ids → contains id (ids_of (messages l p)) ≡ true)
      → is_repaired l ids q.retracted_ids ≡ true
      → length (messages l q) < length (messages l p)
  repaired_shorter [] p q r s named h = cc
  repaired_shorter (i ∷ ids) p q (left, noted, _, _) (distinct, fresh) named h =
      let wanted = is_wanted p.user_id (i ∷ ids) in
      let taken = filter wanted (messages l p) in
      let seen : contains i q.retracted_ids ≡ true = ground arith in
      let seen' : contains i (add_all l (ids_of taken) p.retracted_ids) ≡ true =
        ap (contains i) (sym noted) ∙ seen in
      let new = Without-contains i p.retracted_ids (messages l p) fresh (named i (inl refl)) in
      let here : contains i (ids_of taken) ≡ true =
        ground (arith, contains-add_all l i (ids_of taken) p.retracted_ids) in
      omega (arith, some_taken i taken here, length-split wanted (messages l p), ap length left)

others-left :
    (me : Text) (ids : List Text) (ms : List Message)
    → others me (filter (λ m. not (is_wanted me ids m)) ms) ≡ others me ms
others-left me ids [] = refl
others-left me ids (m ∷ ms) = ground (arith, others-left me ids ms)

module _ (json_parse : Text → Option Value) (l : Library) (array : IsArray l.y)
    (structs : l.y.Doc → List Struct)
    (parts : (d : l.y.Doc) → All (IsPartOf (l.y.to_array d)) (structs d)) where
  Ended-later :
      (p q : Provider l) (o : Outcome l)
      → q.user_id ≡ p.user_id
      → others p.user_id (messages l q) ≡ others p.user_id (messages l p)
      → Ended json_parse l structs q o
      → Ended json_parse l structs p o
  Ended-later p q (settled r) u e (v, h) =
      (v, subst (λ me. others me (messages l r) ≡ others me (messages l q)) u h ∙ e)
  Ended-later p q (stopped r) u e (v, h) =
      (v, subst (λ me. others me (messages l r) ≡ others me (messages l q)) u h ∙ e)
  Ended-later p q (due r) u e h = h

  by_verdict :
      (P : Outcome l → Type 0) (v : GateResult) (a : Outcome l) (f : List Text → Outcome l)
      → (v ≡ accepted → P a)
      → ((ids : List Text) → v ≡ rejected ids → P (f ids))
      → P (elim v [ accepted ↦ a | rejected ids ↦ f ids ])
  by_verdict P accepted a f h k = h refl
  by_verdict P (rejected ids) a f h k = k ids refl

  stopped_round :
      (key_id fuel : ℕ) (p : Provider l)
      → 0 < fuel
      → p.state_refused ≡ true
      → resync json_parse l structs key_id fuel p ≡ stopped p
  unfolding resync
  stopped_round key_id zero p h e = absurd (omega arith)
  stopped_round key_id (suc fuel) p h e =
      by_test (λ o. o ≡ stopped p) p.state_refused _ _ (λ t. refl) (λ t. cc)

  -- The exchange of refusals and answers ends: if the messages of the client's document have
  -- different ids, none of them retracted before, and if in every document's state each value that
  -- has an id has that of one of its messages, then two rounds more than there are messages are
  -- enough, also where the state holds values without an id or content of other kinds. Then the gate
  -- has accepted the client's state, or the client has stopped pushing it, and the messages of other
  -- users are all still in the document.
  pub resync_ends :
      (key_id fuel : ℕ) (p : Provider l)
      → IsSound l p
      → suc (length (messages l p)) < fuel
      → Ended json_parse l structs p (resync json_parse l structs key_id fuel p)
  unfolding resync
  resync_ends key_id zero p s h = absurd (omega arith)
  resync_ends key_id (suc fuel) p s h =
      by_test (Ended json_parse l structs p) p.state_refused (stopped p) _ (λ t. (t, refl))
        λ t.
          by_verdict (Ended json_parse l structs p) (verdict json_parse l structs p) (settled p)
            (λ ids. resync json_parse l structs key_id fuel (on_rejection l key_id ids p).0)
            (λ e. (e, refl))
            λ ids e.
              let q = (on_rejection l key_id ids p).0 in
              let r = on_rejection-Rejected l array key_id ids p in
              let kept = ap (others p.user_id) r.0 ∙ others-left p.user_id ids (messages l p) in
              let named = λ (id : Text) (i : In id ids).
                named_present json_parse (messages l p) (structs p.doc) ids id (parts p.doc) e i in
              elim r.3 [
                | inl refused ↦
                    subst (Ended json_parse l structs p)
                      (sym (stopped_round key_id fuel q (omega arith) refused)) (refused, kept)
                | inr repaired ↦
                    let shorter = repaired_shorter l array ids p q r s named repaired in
                    Ended-later p q _ r.2 kept (
                      resync_ends key_id fuel q (Rejected-IsSound l array ids p q r s)
                        (omega arith))
              ]
