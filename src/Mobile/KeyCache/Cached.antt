-- ===== src/Mobile/KeyCache/Cached.antt =====
-- What the device's storage holds after keys were cached.
use chat_crdt.Prelude.{
  ℕ, ◌≡◌, refl, sym, ap, ◌∙◌, Bool, true, false, ◌&&◌, Option, none, some, List, [], ◌∷◌, Text, get,
  put, get-put, max, ◌==◌, nat_eq, by_test, Bool-cases, inl, inr, if◌then◌else◌, text_Eq, text_eq,
  text_eq_iff, arith,
}
use chat_crdt.Mobile.KeyCache.{
  Forms, Backend, room_key_storage_key, current_epoch_storage_key, get_cached_current_epoch,
  get_room_key, read_epoch, is_newer, cache_room_key,
}
use chat_crdt.Mobile.KeyCache.Separate.{
  IsDecimal, room_key-injective, current_epoch-injective, current_epoch-ne-room_key,
}

-- A call of `cacheRoomKey`.
pub record Call : Type 0 where
  pub room : Text
  pub key_id : ℕ
  pub key : Text

-- The highest of the room's epochs.
abbrev pub raised : Option ℕ → ℕ → Option ℕ
raised none k = some k
raised (some c) k = some (max c k)

abbrev pub highest : Text → Option ℕ → List Call → Option ℕ
highest room acc [] = acc
highest room acc (c ∷ cs) = highest room (if c.room == room then raised acc c.key_id else acc) cs

-- The last key given for an epoch of the room.
abbrev pub last_given : Text → ℕ → Option Text → List Call → Option Text
last_given room k acc [] = acc
last_given room k acc (c ∷ cs) =
    last_given room k (if c.room == room && nat_eq c.key_id k then some c.key else acc) cs

module _ (f : Forms) where
  unfoldable pub cache_all : List Call → Backend → Backend
  unfolding cache_room_key
  cache_all [] b = b
  cache_all (c ∷ cs) b = cache_all cs (cache_room_key f c.room c.key_id c.key b)

module _ (f : Forms) (d : IsDecimal f) where
  -- Writing a key leaves the noted epochs.
  epoch-put_key :
      (room r key : Text) (k : ℕ) (b : Backend)
      → get_cached_current_epoch f room (put (room_key_storage_key f r k) key b)
        ≡ get_cached_current_epoch f room b
  unfolding get_cached_current_epoch
  epoch-put_key room r key k b = ap (read_epoch f) (
      get-put (room_key_storage_key f r k) (current_epoch_storage_key room) key b
      ∙ ground (
        arith,
        text_eq_iff (room_key_storage_key f r k) (current_epoch_storage_key room),
        current_epoch-ne-room_key f room r k,
      ))

  epoch-put_epoch :
      (room r : Text) (k : ℕ) (b : Backend)
      → get_cached_current_epoch f room (put (current_epoch_storage_key r) (f.show k) b)
        ≡ (if r == room then some k else get_cached_current_epoch f room b)
  unfolding get_cached_current_epoch
  epoch-put_epoch room r k b =
      ap (read_epoch f)
        (get-put (current_epoch_storage_key r) (current_epoch_storage_key room) (f.show k) b)
      ∙ elim (Bool-cases (r == room)) [
        | inl e ↦ ground (
          arith,
          text_eq_iff r room,
          text_eq_iff (current_epoch_storage_key r) (current_epoch_storage_key room),
          d.read-show k,
        )
        | inr e ↦ ground (
          arith,
          text_eq_iff r room,
          text_eq_iff (current_epoch_storage_key r) (current_epoch_storage_key room),
          current_epoch-injective r room,
        )
      ]

  raised_newer : (o : Option ℕ) (k : ℕ) → is_newer k o ≡ true → raised o k ≡ some k
  raised_newer none k h = refl
  raised_newer (some c) k h = let m : max c k ≡ k = ground arith in ap some m

  raised_older : (o : Option ℕ) (k : ℕ) → is_newer k o ≡ false → raised o k ≡ o
  raised_older none k h = cc
  raised_older (some c) k h = let m : max c k ≡ c = ground arith in ap some m

  epoch-cache_room_key :
      (room r key : Text) (k : ℕ) (b : Backend)
      → get_cached_current_epoch f room (cache_room_key f r k key b) ≡ (
          if r == room
          then raised (get_cached_current_epoch f room b) k
          else get_cached_current_epoch f room b)
  unfolding cache_room_key
  epoch-cache_room_key room r key k b =
      let b' = put (room_key_storage_key f r k) key b in
      let before = epoch-put_key room r key k b in
      let mine = epoch-put_key r r key k b in
      let target =
        if r == room
        then raised (get_cached_current_epoch f room b) k
        else get_cached_current_epoch f room b in
      by_test (λ c. get_cached_current_epoch f room c ≡ target)
        (is_newer k (get_cached_current_epoch f r b')) _ _
        (λ t. epoch-put_epoch room r k b' ∙ (elim (Bool-cases (r == room)) [
          | inl e ↦
              let same = (text_eq_iff r room).0 e in
              let newer : is_newer k (get_cached_current_epoch f room b) ≡ true =
                ap (λ z. is_newer k (get_cached_current_epoch f z b)) (sym same)
                ∙ ap (is_newer k) (sym mine)
                ∙ t in
              rw e (sym (raised_newer _ k newer))
          | inr e ↦ rw e before
        ]))
        (λ t. before ∙ (elim (Bool-cases (r == room)) [
          | inl e ↦
              let same = (text_eq_iff r room).0 e in
              let older : is_newer k (get_cached_current_epoch f room b) ≡ false =
                ap (λ z. is_newer k (get_cached_current_epoch f z b)) (sym same)
                ∙ ap (is_newer k) (sym mine)
                ∙ t in
              rw e (sym (raised_older _ k older))
          | inr e ↦ rw e refl
        ]))

  same_slot :
      (room r : Text) (k j : ℕ)
      → text_eq (room_key_storage_key f r j) (room_key_storage_key f room k)
        ≡ (r == room && nat_eq j k)
  same_slot room r k j =
      elim (Bool-cases (text_eq (room_key_storage_key f r j) (room_key_storage_key f room k))) [
        | inl e ↦
            let (rooms, ks) = room_key-injective f d r room j k ((text_eq_iff _ _).0 e) in
            rw e (ground (arith, text_eq_iff r room))
        | inr e ↦ rw e (elim (Bool-cases (r == room && nat_eq j k)) [
          | inl t ↦
              let rooms = (text_eq_iff r room).0 (ground arith) in
              let ks : j ≡ k = ground arith in
              absurd (
                let same =
                  (text_eq_iff (room_key_storage_key f r j) (room_key_storage_key f room k)).1 (
                    ap (λ z. room_key_storage_key f z j) rooms
                    ∙ ap (room_key_storage_key f room) ks) in
                cc)
          | inr t ↦ sym t
        ])
      ]

  key-cache_room_key :
      (room r key : Text) (k j : ℕ) (b : Backend)
      → get_room_key f room k (cache_room_key f r j key b)
        ≡ (if r == room && nat_eq j k then some key else get_room_key f room k b)
  unfolding cache_room_key get_room_key
  key-cache_room_key room r key k j b =
      let b' = put (room_key_storage_key f r j) key b in
      let rk = room_key_storage_key f room k in
      let target = if r == room && nat_eq j k then some key else get rk b in
      let written : get rk b' ≡ target =
        get-put (room_key_storage_key f r j) rk key b
        ∙ ap (λ (t : Bool). if t then some key else get rk b) (same_slot room r k j) in
      by_test (λ c. get rk c ≡ target) (is_newer j (get_cached_current_epoch f r b')) _ _
        (λ t.
          get-put (current_epoch_storage_key r) rk (f.show j) b'
          ∙ ground (
            arith,
            text_eq_iff (current_epoch_storage_key r) rk,
            current_epoch-ne-room_key f r room k,
          ))
        (λ t. written)

  -- After any calls of cacheRoomKey, whatever rooms and epochs they are for and in whatever order
  -- they come, the storage gives as a room's current epoch the highest of those cached for it and
  -- the one that it had, and for each epoch of the room the key given last, or the one that it had.
  pub cached_exactly :
      (cs : List Call) (room : Text) (k : ℕ) (b : Backend)
      → (get_cached_current_epoch f room (cache_all f cs b)
          ≡ highest room (get_cached_current_epoch f room b) cs)
        × (get_room_key f room k (cache_all f cs b)
            ≡ last_given room k (get_room_key f room k b) cs)
  unfolding cache_all
  cached_exactly [] room k b = (refl, refl)
  cached_exactly (c ∷ cs) room k b =
      let (epochs, keys) = cached_exactly cs room k (cache_room_key f c.room c.key_id c.key b) in
      (
        epochs
            ∙ ap (λ (o : Option ℕ). highest room o cs)
                (epoch-cache_room_key room c.room c.key c.key_id b),
        keys
            ∙ ap (λ (o : Option Text). last_given room k o cs)
                (key-cache_room_key room c.room c.key k c.key_id b),
      )
