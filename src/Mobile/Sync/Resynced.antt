-- ===== src/Mobile/Sync/Resynced.antt =====
-- What becomes of the user's own encrypted messages when the local document is thrown away.
use chat_crdt.Prelude.{
  ℕ, Bool, ◌≡◌, refl, sym, ap, subst, ◌∙◌, true, false, not, ◌&&◌, none, some, List, ◌++◌, All, get,
  get-put, get-delete, filter, filter-append, contains, length, ltb, ◌==◌, by_test, text_Eq,
  text_eq_iff, arith,
}
use chat_crdt.Shared.Message.{Message}
use chat_crdt.Engine.Messages.{YArray, IsArray, ids_of, reinsert_messages}
use chat_crdt.Engine.Messages.Reinsert.{reinsert_idempotent}
use chat_crdt.Mobile.Cipher.{Sodium}
use chat_crdt.Mobile.Sync.{
  Screen, App, stash_key, is_encrypted, or_nothing, on_messages, on_unrecoverable, on_discarded,
  on_unmount, on_mount, on_loaded, on_synced, Effect,
}

module _ (y : YArray) (s : Sodium) (c : Screen s) where
  -- What a discard saves: this user's encrypted messages of the document.
  abbrev pub saved : App y s → List Message
  saved a = filter (λ m. m.user_id == c.user_id && is_encrypted y s m) (y.to_array a.doc)

  abbrev pub stashed : App y s → List Message
  stashed a = or_nothing y s (get (stash_key y s c) a.reinsert_stash)

  -- The screen's next generation, with a new document, up to the end of its first exchange with the
  -- server, when its document is `e`.
  abbrev pub rebuilt : y.Doc → y.Doc → y.Doc → App y s → App y s
  rebuilt empty loaded e a =
      record (on_loaded y s false c loaded
        (on_mount y s c empty (on_unmount y s c (on_discarded y s false a)).0)) { doc = e }

  rebuilt-stash :
      (empty loaded e : y.Doc) (a : App y s)
      → (rebuilt empty loaded e a).reinsert_stash ≡ a.reinsert_stash
  unfolding on_loaded on_mount on_unmount on_discarded
  rebuilt-stash empty loaded e a = refl

  stashed-unrecoverable :
      (key_id : ℕ) (a : App y s)
      → get (stash_key y s c) (on_unrecoverable y s c key_id a).0.reinsert_stash
        ≡ some (stashed a ++ saved a)
  unfolding on_unrecoverable
  stashed-unrecoverable key_id a =
      let k = stash_key y s c in
      get-put k k (stashed a ++ saved a) a.reinsert_stash ∙ ground (arith, text_eq_iff k k)

  on_synced-doc :
      (a : App y s) (stash : List Message)
      → get (stash_key y s c) a.reinsert_stash ≡ some stash
      → let (r, _) = on_synced y s c a in
        (r.doc ≡ (reinsert_messages y stash a.doc).1)
        × (get (stash_key y s c) r.reinsert_stash ≡ none)
  unfolding on_synced on_messages
  on_synced-doc a stash h =
      let k = stash_key y s c in
      let emptied = get-delete k k a.reinsert_stash ∙ ground (arith, text_eq_iff k k) in
      rw (h, on_synced)
        (by_test
          (λ (p : App y s × List Effect).
            (p.0.doc ≡ (reinsert_messages y stash a.doc).1) × (get k p.0.reinsert_stash ≡ none))
          (ltb 0 (length (reinsert_messages y stash a.doc).0)) _ _ (λ t. (refl, emptied))
          (λ t. (refl, emptied)))

-- The given messages whose id the others do not have.
abbrev pub new_to : List Message → List Message → List Message
new_to present ms = filter (λ m. not (contains m.id (ids_of present))) ms

-- After a refusal that cannot be repaired, the screen throws its document away and starts again from
-- the server's. When the first exchange with the server is over, the document has the id of each
-- encrypted message of this user that the old document had, and of each that was stashed before;
-- those that the server did not have are appended as they were, behind the server's messages, and
-- the stash is empty.
pub own_messages_kept :
    (y : YArray) (s : Sodium) (c : Screen s) (array : IsArray y) (key_id : ℕ)
    (empty loaded e : y.Doc) (a : App y s)
    → let r =
        (on_synced y s c (rebuilt y s c empty loaded e (on_unrecoverable y s c key_id a).0)).0 in
      let ours = stashed y s c a ++ saved y s c a in
      All (λ m. contains m.id (ids_of (y.to_array r.doc)) ≡ true) ours
      × (y.to_array r.doc ≡ y.to_array e ++ new_to (y.to_array e) ours)
      × (get (stash_key y s c) r.reinsert_stash ≡ none)
unfolding reinsert_messages
own_messages_kept y s c array key_id empty loaded e a =
    let b = (on_unrecoverable y s c key_id a).0 in
    let again = rebuilt y s c empty loaded e b in
    let ours = stashed y s c a ++ saved y s c a in
    let held : get (stash_key y s c) again.reinsert_stash ≡ some ours =
      ap (get (stash_key y s c)) (rebuilt-stash y s c empty loaded e b)
      ∙ stashed-unrecoverable y s c key_id a in
    let (doc, emptied) = on_synced-doc y s c again ours held in
    let (grown, covered, _) = reinsert_idempotent y array ours e in
    (
      subst (λ (d : y.Doc). All (λ m. contains m.id (ids_of (y.to_array d)) ≡ true) ours) (sym doc)
          covered,
      ap y.to_array doc ∙ grown,
      emptied,
    )

-- If a refusal that cannot be repaired arrives twice before the screen has started again, then, when
-- the first exchange of the new generation is over, its document is the server's with, behind it,
-- what was stashed before and twice the encrypted messages of this user that the old document had,
-- less those whose id the server's document has: each such message of this user that the server does
-- not have is there twice.
pub refused_twice_duplicates :
    (y : YArray) (s : Sodium) (c : Screen s) (array : IsArray y) (key_id : ℕ)
    (empty loaded e : y.Doc) (a : App y s)
    → let twice = (on_unrecoverable y s c key_id (on_unrecoverable y s c key_id a).0).0 in
      let r = (on_synced y s c (rebuilt y s c empty loaded e twice)).0 in
      let missing = new_to (y.to_array e) in
      y.to_array r.doc
      ≡ y.to_array e
        ++ (missing (stashed y s c a) ++ missing (saved y s c a) ++ missing (saved y s c a))
unfolding on_unrecoverable
refused_twice_duplicates y s c array key_id empty loaded e a =
    let b = (on_unrecoverable y s c key_id a).0 in
    let mine = saved y s c a in
    let before = stashed y s c a in
    let absent : Message → Bool = λ m. not (contains m.id (ids_of (y.to_array e))) in
    let kept = own_messages_kept y s c array key_id empty loaded e b in
    let once : stashed y s c b ≡ before ++ mine =
      ap (or_nothing y s) (stashed-unrecoverable y s c key_id a) in
    kept.1
    ∙ ap (λ (ms : List Message). y.to_array e ++ filter absent (ms ++ mine)) once
    ∙ ap (λ (ms : List Message). y.to_array e ++ ms)
        (filter-append absent (before ++ mine) mine
          ∙ ap (λ (ms : List Message). ms ++ filter absent mine) (filter-append absent before mine))
