-- ===== src/Engine/Messages.antt =====
-- packages/sync-engine/src/SyncEngine.ts: sending, retracting and reinserting messages. The Yjs array
-- of messages is the interface `YArray`.
pub mod Retract
pub mod Reinsert
pub mod Trimmed
use chat_crdt.Prelude.{
  ℕ, zero, suc, ◌≡◌, Bool, true, false, not, ◌&&◌, ◌||◌, Option, none, some, List, [], ◌∷◌, ◌++◌,
  map, Text, length, filter, contains, leb, ltb, ◌==◌, if◌then◌else◌, text_Eq, nat_Eq,
}
use chat_crdt.Shared.Message.{Message, max_message_length}

abbrev pub remove_at {ℓ} : {A : Type ℓ} → ℕ → List A → List A
remove_at n [] = []
remove_at zero (x ∷ xs) = xs
remove_at (suc n) (x ∷ xs) = x ∷ remove_at n xs

-- `Y.Array<MessageDto>` of a `Y.Doc`.
pub record YArray : Type 1 where
  pub Doc : Type 0
  pub to_array : Doc → List Message
  pub push : Doc → List Message → Doc
  -- `delete(index, 1)`
  pub delete_at : Doc → ℕ → Doc

-- What the engine relies on.
pub record IsArray (y : YArray) : Type 0 where
  pub push_lem : (d : y.Doc) (ms : List Message) → y.to_array (y.push d ms) ≡ y.to_array d ++ ms
  pub delete_lem : (d : y.Doc) (i : ℕ) → y.to_array (y.delete_at d i) ≡ remove_at i (y.to_array d)

-- The additional data of an encryption.
pub record Aad : Type 0 where
  pub id : Text
  pub room_id : Text
  pub user_id : Text
  pub username : Text
  pub created_at : ℕ

-- `encrypt` of the injected ContentCipher may throw.
pub record Config : Type 0 where
  pub room_id : Text
  pub user_id : Text
  pub username : Text
  pub encrypt : Option (Text → Aad → Option Text)

pub data SendError : Type 0 where
  empty_message too_long encrypt_failed : SendError

pub data SendResult (A : Type 0) : Type 0 where
  thrown : SendError → SendResult A
  sent : Message → A → SendResult A

-- The code units that `trim` removes.
abbrev pub is_space : ℕ → Bool
is_space c =
    (leb 9 c && leb c 13)
    || ((leb 8_192 c && leb c 8_202)
        || contains c (32 ∷ 160 ∷ 5_760 ∷ 8_232 ∷ 8_233 ∷ 8_239 ∷ 8_287 ∷ 12_288 ∷ 65_279 ∷ []))

abbrev pub trim_start : Text → Text
trim_start [] = []
trim_start (c ∷ s) = let rest = trim_start s in if is_space c then rest else c ∷ s

abbrev pub cons_unless_space : ℕ → Text → Text
cons_unless_space c [] = if is_space c then [] else c ∷ []
cons_unless_space c (d ∷ s) = c ∷ d ∷ s

abbrev pub trim_end : Text → Text
trim_end [] = []
trim_end (c ∷ s) = cons_unless_space c (trim_end s)

abbrev pub trim : Text → Text
trim s = trim_end (trim_start s)

abbrev pub is_blank : Text → Bool
is_blank [] = true
is_blank (c ∷ s) = false

abbrev pub stored_content : Option (Text → Aad → Option Text) → Text → Aad → Option Text
stored_content none text ad = some text
stored_content (some encrypt) text ad = encrypt text ad

-- What the loop of `retractMessages` has done: the document and what it retracted.
abbrev pub Retracting : Type 0 → Type 0
Retracting D = D × List Message

-- Is this one to be retracted?
abbrev pub is_wanted : Text → List Text → Message → Bool
is_wanted me ids m = contains m.id ids && m.user_id == me

abbrev pub backwards : List Message → List Message → List Message
backwards [] done = done
backwards (m ∷ ms) done = backwards ms (m ∷ done)

abbrev pub ids_of : List Message → List Text
ids_of ms = map (λ m. m.id) ms

module _ (y : YArray) where
  open y use {Doc, to_array, push, delete_at}

  -- `sendMessage`; `ulid()` and `Date.now()` are arguments.
  unfoldable pub send_message : Config → Text → ℕ → Text → Doc → SendResult Doc
  send_message config id now content d =
      let trimmed = trim content in
      if is_blank trimmed
      then thrown empty_message
      else if ltb max_message_length (length trimmed)
      then thrown too_long
      else let ad : Aad = record {
        id = id;
        room_id = config.room_id;
        user_id = config.user_id;
        username = config.username;
        created_at = now;
      } in
        elim (stored_content config.encrypt trimmed ad) [
          | none ↦ thrown encrypt_failed
          | some stored ↦
              let msg : Message = record {
                id = id;
                room_id = config.room_id;
                user_id = config.user_id;
                username = config.username;
                content = stored;
                created_at = now;
              } in
              sent msg (push d (msg ∷ []))
        ]

  -- The loop of `retractMessages`, from the last message down. The list has `all[i]`, `all[i - 1]` and
  -- so on, so that `i` is the length of its tail.
  unfoldable pub retract_loop : Text → List Text → List Message → Retracting Doc → Retracting Doc
  retract_loop me ids [] acc = acc
  retract_loop me ids (m ∷ earlier) (d, retracted) =
      if is_wanted me ids m
      then retract_loop me ids earlier (delete_at d (length earlier), m ∷ retracted)
      else retract_loop me ids earlier (d, retracted)

  unfoldable pub retract_messages : Text → List Text → Doc → Retracting Doc
  unfolding retract_loop
  retract_messages me ids d = retract_loop me ids (backwards (to_array d) []) (d, [])

  -- `reinsertMessages`
  unfoldable pub reinsert_messages : List Message → Doc → List Message × Doc
  reinsert_messages ms d =
      let present = ids_of (to_array d) in
      let missing = filter (λ m. not (contains m.id present)) ms in
      (missing, if ltb 0 (length missing) then push d missing else d)
