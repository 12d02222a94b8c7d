-- ===== src/Engine/Messages/Retract.antt =====
-- What `retractMessages` takes out of the document.
use chat_crdt.Prelude.{
  contains, ◌==◌, ◌&&◌, ◌≡◌, refl, sym, ap, ◌∙◌, ◌+◌, Bool, not, List, [], ◌∷◌, ◌++◌, Text, length,
  filter, Bool-cases, inl, inr, text_Eq, arith,
}
use mathlib.Core.List.{append_assoc}
use chat_crdt.Shared.Message.{Message}
use chat_crdt.Engine.Messages.{
  YArray, IsArray, remove_at, is_wanted, retract_loop, backwards, retract_messages,
}

remove_at-length :
    (xs : List Message) (m : Message) (ys : List Message)
    → remove_at (length xs) (xs ++ m ∷ ys) ≡ xs ++ ys
remove_at-length [] m ys = refl
remove_at-length (x ∷ xs) m ys = ap (λ l. x ∷ l) (remove_at-length xs m ys)

length-backwards : (ms done : List Message) → length (backwards ms done) ≡ length ms + length done
length-backwards [] done = omega arith
length-backwards (m ∷ ms) done = omega (arith, length-backwards ms (m ∷ done))

backwards-append : (ms done : List Message) → backwards ms done ≡ backwards ms [] ++ done
backwards-append [] done = refl
backwards-append (m ∷ ms) done =
    backwards-append ms (m ∷ done)
    ∙ sym (append_assoc (backwards ms []) (m ∷ []) done)
    ∙ ap (λ l. l ++ done) (sym (backwards-append ms (m ∷ [])))

backwards-backwards :
    (xs ys zs : List Message) → backwards (backwards xs ys) zs ≡ backwards ys (xs ++ zs)
backwards-backwards [] ys zs = refl
backwards-backwards (x ∷ xs) ys zs = backwards-backwards xs (x ∷ ys) zs

filter-backwards :
    (p : Message → Bool) (ms done : List Message)
    → filter p (backwards ms done) ≡ backwards (filter p ms) (filter p done)
filter-backwards p [] done = refl
filter-backwards p (m ∷ ms) done = elim (Bool-cases (p m)) [
  | inl e ↦ filter-backwards p ms (m ∷ done) ∙ rw e refl
  | inr e ↦ filter-backwards p ms (m ∷ done) ∙ rw e refl
]

remove_at-backwards :
    (ms : List Message) (m : Message) (kept : List Message)
    → remove_at (length ms) (backwards ms (m ∷ kept)) ≡ backwards ms kept
remove_at-backwards ms m kept =
    let same : length (backwards ms []) ≡ length ms = omega (arith, length-backwards ms []) in
    ap (remove_at (length ms)) (backwards-append ms (m ∷ kept))
    ∙ ap (λ n. remove_at n (backwards ms [] ++ m ∷ kept)) (sym same)
    ∙ remove_at-length (backwards ms []) m kept
    ∙ sym (backwards-append ms kept)

append_nil : (xs : List Message) → xs ++ [] ≡ xs
append_nil [] = refl
append_nil (x ∷ xs) = ap (λ l. x ∷ l) (append_nil xs)

unreversed :
    (p : Message → Bool) (all : List Message)
    → backwards (filter p (backwards all [])) [] ≡ filter p all
unreversed p all =
    ap (λ l. backwards l []) (filter-backwards p all [])
    ∙ backwards-backwards (filter p all) [] []
    ∙ append_nil (filter p all)

module _ (y : YArray) (array : IsArray y) (me : Text) (ids : List Text) where
  retract_loop_lem :
      (ms kept retracted : List Message) (d : y.Doc)
      → y.to_array d ≡ backwards ms kept
      → ((retract_loop y me ids ms (d, retracted)).1
          ≡ backwards (filter (is_wanted me ids) ms) retracted)
        × (y.to_array (retract_loop y me ids ms (d, retracted)).0
            ≡ backwards (filter (λ m. not (is_wanted me ids m)) ms) kept)
  unfolding retract_loop
  retract_loop_lem [] kept retracted d h = (refl, h)
  retract_loop_lem (m ∷ ms) kept retracted d h = elim (Bool-cases (is_wanted me ids m)) [
    | inl e ↦
        let shorter : y.to_array (y.delete_at d (length ms)) ≡ backwards ms kept =
          array.delete_lem d (length ms)
          ∙ ap (remove_at (length ms)) h
          ∙ remove_at-backwards ms m kept in
        rw (e, retract_loop)
          (retract_loop_lem ms kept (m ∷ retracted) (y.delete_at d (length ms)) shorter)
    | inr e ↦ rw (e, retract_loop) (retract_loop_lem ms (m ∷ kept) retracted d h)
  ]

  -- Retracting returns the document's messages that are this user's and whose id is named, in the
  -- document's order, and leaves the others in the document, in their order; so it never takes out
  -- another user's message.
  pub retract_exact :
      (d : y.Doc)
      → ((retract_messages y me ids d).1
          ≡ filter (λ m. contains m.id ids && m.user_id == me) (y.to_array d))
        × (y.to_array (retract_messages y me ids d).0
            ≡ filter (λ m. not (contains m.id ids && m.user_id == me)) (y.to_array d))
  unfolding retract_messages
  retract_exact d =
      let all = y.to_array d in
      let start : y.to_array d ≡ backwards (backwards all []) [] =
        sym (backwards-backwards all [] [] ∙ append_nil all) in
      let (taken, left) = retract_loop_lem (backwards all []) [] [] d start in
      (
        taken ∙ unreversed (is_wanted me ids) all,
        left ∙ unreversed (λ m. not (is_wanted me ids m)) all,
      )
