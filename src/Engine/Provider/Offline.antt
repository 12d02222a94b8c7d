-- ===== src/Engine/Provider/Offline.antt =====
-- Updates made while the provider is not connected.
use chat_crdt.Prelude.{◌≡◌, refl, sym, ap, ◌∙◌, true, false, List, [], ◌∷◌, ◌++◌, map, arith}
use mathlib.Core.List.{append_assoc}
use chat_crdt.Engine.Provider.{
  Library, Provider, Step, Bytes, connected, is_connected, send, on_status_change, update, step1,
  presence, emit, on_doc_update, flush_loop, on_open,
}

module _ (l : Library) where
  -- The update handler, called with these updates in turn.
  abbrev pub updated : List Bytes → Provider l → Provider l
  updated [] p = p
  updated (u ∷ us) p = updated us (on_doc_update l u p).0

  flush_loop_lem :
      (us : List Bytes) (p : Provider l)
      → p.is_open ≡ true
      → flush_loop l us p ≡ map (λ u. send (update u)) us
  unfolding flush_loop emit
  flush_loop_lem [] p h = refl
  flush_loop_lem (u ∷ us) p h = ground (arith, flush_loop_lem us p h)

  on_doc_update-queued :
      (u : Bytes) (p : Provider l)
      → is_connected p.status ≡ false
      → p.destroyed ≡ false
      → p.state_refused ≡ false
      → on_doc_update l u p ≡ (record p { pending_updates = p.pending_updates ++ u ∷ [] }, [])
  unfolding on_doc_update
  on_doc_update-queued u p c d s = ground arith

  append_nil : (xs : List Bytes) → xs ++ [] ≡ xs
  append_nil [] = refl
  append_nil (x ∷ xs) = ap (λ ys. x ∷ ys) (append_nil xs)

  with_pending : List Bytes → Provider l → Provider l
  with_pending us p = record p { pending_updates = us }

  updated_lem :
      (us : List Bytes) (p : Provider l)
      → is_connected p.status ≡ false
      → p.destroyed ≡ false
      → p.state_refused ≡ false
      → updated us p ≡ with_pending (p.pending_updates ++ us) p
  unfolding with_pending
  updated_lem [] p c d s = ap (λ xs. with_pending xs p) (sym (append_nil p.pending_updates))
  updated_lem (u ∷ us) p c d s =
      ap (λ (q : Step l). updated us q.0) (on_doc_update-queued u p c d s)
      ∙ updated_lem us (with_pending (p.pending_updates ++ u ∷ []) p) c d s
      ∙ ap (λ xs. with_pending xs p) (append_assoc p.pending_updates (u ∷ []) us)

  on_open_lem :
      (p : Provider l)
      → p.destroyed ≡ false
      → (on_open l p).1
        ≡ on_status_change connected
            ∷ send (step1 (l.state_vector p.doc))
            ∷ map (λ u. send (update u)) p.pending_updates
          ++ send (presence l.own_presence) ∷ []
  unfolding on_open emit
  on_open_lem p d =
      rw
        (flush_loop_lem p.pending_updates
          (record p { retry_count = 0; status = connected; is_open = true; pending_updates = [] })
          refl)
        (rw d refl)

  -- A provider that is not connected, is not destroyed and whose state was not refused keeps the
  -- updates made meanwhile: when its socket opens, it sends its state vector, then each update that
  -- was pending or made since, once and in the order in which they were made, then its presence, and
  -- nothing is left pending.
  pub offline_in_order :
      (us : List Bytes) (p : Provider l)
      → is_connected p.status ≡ false
      → p.destroyed ≡ false
      → p.state_refused ≡ false
      → ((on_open l (updated us p)).1
          ≡ on_status_change connected
              ∷ send (step1 (l.state_vector p.doc))
              ∷ map (λ u. send (update u)) (p.pending_updates ++ us)
            ++ send (presence l.own_presence) ∷ [])
        × ((on_open l (updated us p)).0.pending_updates ≡ [])
  unfolding on_open with_pending
  offline_in_order us p c d s =
      let q = with_pending (p.pending_updates ++ us) p in
      (ap (λ r. (on_open l r).1) (updated_lem us p c d s) ∙ on_open_lem q d, refl)
