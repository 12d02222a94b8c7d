-- ===== src/Mobile/KeyCache/Published.antt =====
-- The publishing of the device's identity.
use chat_crdt.Prelude.{
  ◌≡◌, refl, ap, ◌∙◌, Bool, true, false, Option, none, some, List, [], ◌∷◌, ◌++◌, Text, get, put,
  get-put, text_Eq, text_eq_iff, arith,
}
use chat_crdt.Mobile.Keys.{Identity, present}
use chat_crdt.Mobile.KeyCache.{
  Forms, Backend, identity_storage_key, parse_identity, get_identity, set_identity, persist_if,
  ensure_identity_published,
}

-- What the storage relies on: a key pair is read back from its JSON, which is not empty.
pub record IsJson (f : Forms) : Type 0 where
  pub parse-print :
      (i : Identity) → parse_identity f (present (some (f.json_of_identity i))) ≡ some i

-- A call: the key pair that it would make, and whether the server accepts the key.
abbrev pub Attempt : Type 0
Attempt = Identity × Bool

abbrev pub listed : Option Text → List Text
listed none = []
listed (some t) = t ∷ []

module _ (f : Forms) where
  -- Calls of `ensureIdentityPublished`, one after the other: the keys published, and the storage.
  unfoldable pub attempt_all : List Attempt → Backend → List Text × Backend
  unfolding ensure_identity_published
  attempt_all [] b = ([], b)
  attempt_all ((i, accepted) ∷ rest) b =
      let (key, b1) = ensure_identity_published f i accepted b in
      let (keys, b2) = attempt_all rest b1 in (listed key ++ keys, b2)

-- The key pair of the first attempt that the server accepts.
abbrev pub first_accepted : List Attempt → Option Identity
first_accepted [] = none
first_accepted ((i, true) ∷ rest) = some i
first_accepted ((i, false) ∷ rest) = first_accepted rest

-- The keys of the attempts up to that one.
abbrev pub tried : List Attempt → List Text
tried [] = []
tried ((i, true) ∷ rest) = i.public_key ∷ []
tried ((i, false) ∷ rest) = i.public_key ∷ tried rest

module _ (f : Forms) (json : IsJson f) where
  stored_identity : (i : Identity) (b : Backend) → get_identity f (set_identity f i b) ≡ some i
  unfolding get_identity set_identity
  stored_identity i b =
      let found : get identity_storage_key (put identity_storage_key (f.json_of_identity i) b)
          ≡ some (f.json_of_identity i) =
        get-put identity_storage_key identity_storage_key (f.json_of_identity i) b
        ∙ ground (arith, text_eq_iff identity_storage_key identity_storage_key) in
      ap (λ o. parse_identity f (present o)) found ∙ json.parse-print i

  ensured :
      (i : Identity) (accepted : Bool) (b : Backend) (o : Option Identity)
      → get_identity f b ≡ o
      → ensure_identity_published f i accepted b ≡ elim o [
        | some existing ↦ (none, b)
        | none ↦ (some i.public_key, persist_if f accepted i b)
      ]
  unfolding ensure_identity_published
  ensured i accepted b o e = rw (e, ensure_identity_published) refl

  kept_silent :
      (tries : List Attempt) (b : Backend) (i : Identity)
      → get_identity f b ≡ some i
      → attempt_all f tries b ≡ ([], b)
  unfolding attempt_all
  kept_silent [] b i h = refl
  kept_silent ((j, accepted) ∷ rest) b i h =
      rw (ensured j accepted b (some i) h) (kept_silent rest b i h)

  -- On a device without an identity, each call publishes the key of a fresh pair until the server
  -- accepts one; that pair is then the device's identity, and no later call publishes anything. While
  -- none is accepted, the device has no identity.
  pub published_until_accepted :
      (tries : List Attempt) (b : Backend)
      → get_identity f b ≡ none
      → ((attempt_all f tries b).0 ≡ tried tries)
        × (get_identity f (attempt_all f tries b).1 ≡ first_accepted tries)
  unfolding attempt_all
  published_until_accepted [] b h = (refl, h)
  published_until_accepted ((i, true) ∷ rest) b h =
      let b1 = set_identity f i b in
      rw (ensured i true b none h)
        (rw (kept_silent rest b1 i (stored_identity i b)) (refl, stored_identity i b))
  published_until_accepted ((i, false) ∷ rest) b h =
      let (keys, found) = published_until_accepted rest b h in
      rw (ensured i false b none h) (ap (λ (l : List Text). i.public_key ∷ l) keys, found)
