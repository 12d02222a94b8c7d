-- ===== src/Server/Gateway/Lifecycle/Collection.antt =====
-- What the collection of an empty room does, also when its timer is older than the room.
use chat_crdt.Prelude.{
  ℕ, ◌≡◌, refl, ◌∙◌, Bool, true, false, none, some, List, [], ◌∷◌, Text, get, put, delete, get-put,
  get-delete, ◌==◌, eq_iff, text_Eq, nat_Eq, if◌then◌else◌, arith, Option-cases, inl, inr,
}
use chat_crdt.Server.Gateway.{Library, Gateway, RoomState, Step, Bytes}
use chat_crdt.Server.Gateway.Fanout.{is_empty, destroy_room, on_awareness_change, track_ids}
use chat_crdt.Server.Gateway.Messages.{deliver, redis_update}
use chat_crdt.Server.Gateway.Lifecycle.{collect, collection_due}

module _ (l : Library) where
  if_get :
      (k : ℕ) (b : Bool) (s : Step l) (g' : Gateway l)
      → get k s.0.objects ≡ get k g'.objects
      → get k (if b then s else (g', [])).0.objects ≡ get k g'.objects
  if_get k true s g' e = e
  if_get k false s g' e = refl

  get-destroy_room :
      (r k : ℕ) (g : Gateway l)
      → (r == k) ≡ false
      → get k (destroy_room l r g).0.objects ≡ get k g.objects
  unfolding destroy_room on_awareness_change track_ids
  get-destroy_room r k g h = elim (Option-cases (get r g.objects)) [
    | inl e ↦ rw (e, destroy_room) refl
    | inr (room, e) ↦
        let (presence', ch) = l.destroy_awareness room.presence in
        let room' : RoomState l = record room { presence = presence'; loaded = false } in
        let g' : Gateway l = record g { objects = put r room' g.objects } in
        rw (e, destroy_room)
          (if_get k room.loaded _ g' (ground arith) ∙ ground (arith, get-put r k room' g.objects))
  ]

  -- The timers of emptied rooms are not cancelled. Where the next one to run out is for an object
  -- with no clients, then whichever object its room's name stands for now, the name stands for none
  -- afterwards, updates of that room from other instances change and send nothing any more, and
  -- every other object, with the clients that it has, is left as it was.
  pub collection_unmaps :
      (name : Text) (old live : ℕ) (timers : List (Text × ℕ)) (g : Gateway l) (room : RoomState l)
      (u : Bytes)
      → g.gc_timers ≡ (name, old) ∷ timers
      → get old g.objects ≡ some room
      → is_empty room.clients ≡ true
      → (old == live) ≡ false
      → (get name (collection_due l g).0.rooms ≡ none)
        × (deliver l (redis_update name u) (collection_due l g).0 ≡ ((collection_due l g).0, []))
        × (get live (collection_due l g).0.objects ≡ get live g.objects)
  unfolding collection_due collect deliver
  collection_unmaps name old live timers g room u due h empty other =
      let g1 : Gateway l = record g {
        gc_timers = timers;
        persist_timers = delete name g.persist_timers;
      } in
      let gone : get name (delete name (destroy_room l old g1).0.rooms) ≡ none =
        get-delete name name _ ∙ ground (arith, eq_iff name name) in
      rw (due, collection_due)
        (rw (h, collect)
          (rw empty (gone, rw (gone, deliver) refl, get-destroy_room old live g1 other)))
