-- ===== src/Mobile/Chat/Mounts.antt =====
-- How long a room's state is kept.
use chat_crdt.Prelude.{
  ℕ, zero, suc, ◌≡◌, refl, ◌∙◌, none, some, Text, get, get-put, get-delete, text_Eq, text_eq_iff,
  arith,
}
use chat_crdt.Mobile.Cipher.{Sodium}
use chat_crdt.Mobile.Chat.{ChatState, clear_room, register_mount, or_else}

module _ (s : Sodium) where
  -- So many screens of the room that went away.
  abbrev pub clears : ℕ → Text → ChatState s → ChatState s
  clears zero room c = c
  clears (suc n) room c = clears n room (clear_room s room c)

  register_mount_lem :
      (room : Text) (c : ChatState s) (n : ℕ)
      → or_else s (get room c.mount_counts) 0 ≡ n
      → get room (register_mount s room c).mount_counts ≡ some (suc n)
  unfolding register_mount
  register_mount_lem room c n h =
      get-put room room (suc (or_else s (get room c.mount_counts) 0)) c.mount_counts
      ∙ ground (arith, text_eq_iff room room)

  clear_room_lem :
      (room : Text) (c : ChatState s) (n : ℕ)
      → get room c.mount_counts ≡ some (suc (suc n))
      → (get room (clear_room s room c).mount_counts ≡ some (suc n))
        × ((clear_room s room c).messages_by_room ≡ c.messages_by_room)
  unfolding clear_room
  clear_room_lem room c n h = (
    rw (h, clear_room)
        (ground (arith, get-put room room (suc n) c.mount_counts, text_eq_iff room room)),
    rw (h, clear_room) (ground arith),
  )

  clear_room_last :
      (room : Text) (c : ChatState s)
      → get room c.mount_counts ≡ some 1
      → get room (clear_room s room c).messages_by_room ≡ none
  unfolding clear_room
  clear_room_last room c h =
      rw (h, clear_room)
        (get-delete room room c.messages_by_room ∙ ground (arith, text_eq_iff room room))

  -- While `n` screens of a room are mounted and one more is mounted, its messages are kept through the
  -- unmounting of `n` of them, and are gone once the last one has been unmounted too.
  pub cleared_with_last :
      (n : ℕ) (room : Text) (c : ChatState s)
      → or_else s (get room c.mount_counts) 0 ≡ n
      → ((clears n room (register_mount s room c)).messages_by_room ≡ c.messages_by_room)
        × (get room (clears (suc n) room (register_mount s room c)).messages_by_room ≡ none)
  unfolding register_mount
  cleared_with_last n room c h = kept n (register_mount s room c) (register_mount_lem room c n h)
    where
      kept :
          (n' : ℕ) (d : ChatState s)
          → get room d.mount_counts ≡ some (suc n')
          → ((clears n' room d).messages_by_room ≡ d.messages_by_room)
            × (get room (clears (suc n') room d).messages_by_room ≡ none)
      kept zero d e = (refl, clear_room_last room d e)
      kept (suc n') d e =
          let (e', same) = clear_room_lem room d n' e in
          let (k, gone) = kept n' (clear_room s room d) e' in (k ∙ same, gone)
