-- ===== src/Engine/Messages/Trimmed.antt =====
-- The trimming of a content before it is sent.
use chat_crdt.Prelude.{
  ℕ, ◌≡◌, refl, ap, ◌∙◌, false, [], ◌∷◌, ◌++◌, Text, by_test, Bool-cases, inl, inr,
}
use chat_crdt.Engine.Messages.{trim, trim_start, trim_end, cons_unless_space, is_space, is_blank}

trim_end_twice : (t : Text) → trim_end (trim_end t) ≡ trim_end t
trim_end_twice [] = refl
trim_end_twice (c ∷ t) = again c (trim_end t) (trim_end_twice t)
  where
    again :
        (c : ℕ) (r : Text)
        → trim_end r ≡ r
        → trim_end (cons_unless_space c r) ≡ cons_unless_space c r
    again c [] h = elim (Bool-cases (is_space c)) [ inl e ↦ rw e refl | inr e ↦ rw (e) (rw e refl) ]
    again c (d ∷ r) h = ap (cons_unless_space c) h

-- A text that starts with no space.
abbrev pub Starts : Text → Type 0
Starts [] = Unit
Starts (c ∷ t) = is_space c ≡ false

trim_start-Starts : (t : Text) → Starts (trim_start t)
trim_start-Starts [] = tt
trim_start-Starts (c ∷ t) = by_test Starts (is_space c) _ _ (λ e. trim_start-Starts t) (λ e. e)

trim_start_kept : (t : Text) → Starts t → trim_start (trim_end t) ≡ trim_end t
trim_start_kept [] h = refl
trim_start_kept (c ∷ t) h = kept (trim_end t)
  where
    kept : (r : Text) → trim_start (cons_unless_space c r) ≡ cons_unless_space c r
    kept [] = rw h (rw h refl)
    kept (d ∷ r) = rw h refl

pub trim_twice : (t : Text) → trim (trim t) ≡ trim t
trim_twice t =
    ap trim_end (trim_start_kept (trim_start t) (trim_start-Starts t))
    ∙ trim_end_twice (trim_start t)

trim_end-Starts : (t : Text) → Starts t → Starts (trim_end t)
trim_end-Starts [] h = tt
trim_end-Starts (c ∷ t) h = kept (trim_end t)
  where
    kept : (r : Text) → Starts (cons_unless_space c r)
    kept [] = rw h h
    kept (d ∷ r) = h

pub trim-Starts : (t : Text) → Starts (trim t)
trim-Starts t = trim_end-Starts (trim_start t) (trim_start-Starts t)

-- A text that starts with no space, and is not empty, is not blank, whatever follows it.
pub trim-append : (a b : Text) → Starts a → is_blank a ≡ false → is_blank (trim (a ++ b)) ≡ false
trim-append [] b h k = cc
trim-append (c ∷ a) b h k = rw h (kept (trim_end (a ++ b)))
  where
    kept : (r : Text) → is_blank (cons_unless_space c r) ≡ false
    kept [] = rw h refl
    kept (d ∷ r) = refl
