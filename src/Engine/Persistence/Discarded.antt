-- ===== src/Engine/Persistence/Discarded.antt =====
-- After a discard.
use chat_crdt.Prelude.{
  ◌≡◌, refl, sym, ap, subst, ◌∙◌, Bool, true, false, Option, none, List, [], ◌∷◌, Text, get,
  get-delete, if◌then◌else◌, text_Eq, text_eq_iff, arith,
}
use chat_crdt.Engine.Persistence.{
  Documents, Persistence, key, on_edit, on_timer, on_landed, on_failed, load_begin, load_end,
  hydrate, discard_begin, discard_end, destroy, persist, finish_read, land, remove_item, drop_first,
  nothing_in_flight,
}
use chat_crdt.Engine.Persistence.Events.{
  Event, edits, fires, lands, fails, begins_load, ends_load, begins_discard, ends_discard, destroys,
  handle, handle_all,
}

if_true {ℓ} : {A : Type ℓ} {b : Bool} {x : A} (y : A) → b ≡ true → (if b then x else y) ≡ x
if_true y h = rw h refl

module _ (l : Documents) (k : Text) where
  -- A copy under the key `k` that writes nothing any more.
  abbrev Stopped : Persistence l → Type 0
  Stopped p =
      (p.subscribed ≡ false)
      × (p.timer ≡ false)
      × (p.destroyed ≡ true)
      × (p.loaded ≡ true)
      × (p.removes ≡ true)
      × (key l p ≡ k)

  abbrev Gone : Persistence l → Type 0
  Gone p = (p.in_flight ≡ []) × (get k p.storage ≡ none)

  abbrev HasGone : Persistence l → Type 0
  HasGone p = Stopped p × Gone p

  hydrate_destroyed :
      (raw : Option Text) (p : Persistence l) → p.destroyed ≡ true → hydrate l raw p ≡ p
  unfolding hydrate
  hydrate_destroyed raw p h = if_true _ h

  load_begin_loaded : (p : Persistence l) → p.loaded ≡ true → load_begin l p ≡ p
  unfolding load_begin
  load_begin_loaded p h = if_true _ h

  -- A stopped copy stays stopped, whatever happens, and one that is gone stays gone.
  abbrev Keeps : Persistence l → Persistence l → Type 0
  Keeps p q = Stopped q × (Gone p → Gone q)

  load_end-Keeps :
      (p : Persistence l) (rs : List (Option Text))
      → p.reads ≡ rs
      → Stopped p
      → Keeps p (finish_read l rs p)
  load_end-Keeps p [] e s = (s, λ g. g)
  load_end-Keeps p (r ∷ rs) e s =
      subst (Keeps p) (sym (hydrate_destroyed r (record p { reads = rs }) s.2)) (s, λ g. g)

  land-Keeps :
      (p : Persistence l) (ws : List Text) → p.in_flight ≡ ws → Stopped p → Keeps p (land l ws p)
  land-Keeps p [] e s = (s, λ g. g)
  land-Keeps p (w ∷ ws) e s = (s, λ g. absurd (let c : [] ≡ w ∷ ws = sym g.0 ∙ e in cc))

  -- Without its entry, if the storage removes.
  removed : (p : Persistence l) → Stopped p → get k (remove_item l (key l p) p).storage ≡ none
  removed p s = ground (arith, get-delete (key l p) k p.storage, text_eq_iff (key l p) k)

  discard_end-Keeps :
      (p : Persistence l) (b : Bool)
      → Stopped p
      → Keeps p (if b then remove_item l (key l p) p else p)
  discard_end-Keeps p true s = (s, λ g. (g.0, removed p s))
  discard_end-Keeps p false s = (s, λ g. g)

  handle-Keeps : (e : Event l) (p : Persistence l) → Stopped p → Keeps p (handle l e p)
  unfolding handle on_edit on_timer persist on_landed on_failed load_end discard_begin discard_end
      destroy
  handle-Keeps (edits d) p s = ground arith
  handle-Keeps fires p s = ground arith
  handle-Keeps lands p s = land-Keeps p p.in_flight refl s
  handle-Keeps fails p s = (s, λ g. (ap drop_first g.0, g.1))
  handle-Keeps begins_load p s = subst (Keeps p) (sym (load_begin_loaded p s.3)) (s, λ g. g)
  handle-Keeps ends_load p s = load_end-Keeps p p.reads refl s
  handle-Keeps begins_discard p s = (ground arith, λ g. g)
  handle-Keeps ends_discard p s = discard_end-Keeps p (nothing_in_flight p.in_flight) s
  handle-Keeps destroys p s = ground arith

  handle_all-Keeps :
      (es : List (Event l)) (p : Persistence l) → Stopped p → Keeps p (handle_all l es p)
  unfolding handle_all
  handle_all-Keeps [] p s = (s, λ g. g)
  handle_all-Keeps (e ∷ es) p s =
      let (s1, g1) = handle-Keeps e p s in
      let (s2, g2) = handle_all-Keeps es (handle l e p) s1 in (s2, λ g. g2 (g1 g))

  discard_end-Gone : (p : Persistence l) → Stopped p → p.in_flight ≡ [] → Gone (discard_end l p)
  unfolding discard_end
  discard_end-Gone p s e = subst Gone (sym (if_true p (ap nothing_in_flight e))) (e, removed p s)

module _ (l : Documents) where
  -- A discard of a loaded copy, whose storage can remove entries: once the writes under way have
  -- ended, the storage has no entry under the copy's key, and gets none from this copy afterwards,
  -- whatever edits, timers, ends of writes, further loads, discards or a `destroy` come between the
  -- halves of the discard and after it.
  pub discarded_for_good :
      (p : Persistence l) (between after : List (Event l))
      → p.loaded ≡ true
      → p.removes ≡ true
      → (handle_all l between (discard_begin l p)).in_flight ≡ []
      → get
          (key l p)
          (handle_all l after (discard_end l (handle_all l between (discard_begin l p)))).storage
        ≡ none
  unfolding discard_begin discard_end
  discarded_for_good p between after h r e =
      let k = key l p in
      let q = handle_all l between (discard_begin l p) in
      let s = (handle_all-Keeps l k between (discard_begin l p) (refl, refl, refl, h, r, refl)).0 in
      let gone = discard_end-Gone l k q s e in
      ((handle_all-Keeps l k after (discard_end l q)
          (discard_end-Keeps l k q (nothing_in_flight q.in_flight) s).0).1
        gone).1
