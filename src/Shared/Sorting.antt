-- ===== src/Shared/Sorting.antt =====
-- `Array.prototype.sort` on strings: by UTF-16 code units, stable.
use chat_crdt.Prelude.{
  ◌≡◌, refl, ◌∙◌, Bool, true, false, ◌&&◌, ◌||◌, List, [], ◌∷◌, Text, ltb, nat_eq, inl, inr,
  Bool-cases, if◌then◌else◌, arith,
}
use mathlib.Core.Path.{ap₂, subst}
use mathlib.Core.Logic.{◌↔◌, ∥∥₁_elim}
use mathlib.Core.List.{Perm, Permᴰ}
use mathlib.Core.List.Permᴰ.{refl as permᴰ_refl, symm as permᴰ_symm}

unfoldable pub text_le : Text → Text → Bool
text_le [] b = true
text_le (x ∷ a) [] = false
text_le (x ∷ a) (y ∷ b) = ltb x y || (nat_eq x y && text_le a b)

unfoldable pub insert : Text → List Text → List Text
insert a [] = a ∷ []
insert a (b ∷ bs) = let rest = insert a bs in if text_le a b then a ∷ b ∷ bs else b ∷ rest

unfoldable pub sort : List Text → List Text
unfolding insert text_le
sort [] = []
sort (a ∷ as') = insert a (sort as')

text_le_total : (a b : Text) → text_le a b ≡ false → text_le b a ≡ true
unfolding text_le
text_le_total [] b h = cc
text_le_total (x ∷ a) [] h = refl
text_le_total (x ∷ a) (y ∷ b) h = ground (arith, text_le_total a b)

text_le_antisym : (a b : Text) → text_le a b ≡ true → text_le b a ≡ true → a ≡ b
unfolding text_le
text_le_antisym [] [] h k = refl
text_le_antisym [] (y ∷ b) h k = cc
text_le_antisym (x ∷ a) [] h k = cc
text_le_antisym (x ∷ a) (y ∷ b) h k = ground (arith, text_le_antisym a b)

text_le_trans : (a b c : Text) → text_le a b ≡ true → text_le b c ≡ true → text_le a c ≡ true
unfolding text_le
text_le_trans [] b c h k = refl
text_le_trans (x ∷ a) [] c h k = cc
text_le_trans (x ∷ a) (y ∷ b) [] h k = cc
text_le_trans (x ∷ a) (y ∷ b) (z ∷ c) h k = ground (arith, text_le_trans a b c)

insert_comm : (a b : Text) (cs : List Text) → insert a (insert b cs) ≡ insert b (insert a cs)
unfolding insert
insert_comm a b [] = ground (arith, text_le_total a b, text_le_antisym a b)
insert_comm a b (c ∷ cs) = ground (
  arith,
  insert_comm a b cs,
  text_le_total a b,
  text_le_antisym a b,
  text_le_trans a b c,
  text_le_trans b a c,
  text_le_total a c,
  text_le_total b c,
)

insert-perm : (a : Text) (bs : List Text) → Permᴰ (insert a bs) (a ∷ bs)
unfolding insert
insert-perm a [] = Permᴰ.cons refl Permᴰ.nil
insert-perm a (b ∷ bs) = elim (Bool-cases (text_le a b)) [
  | inl e ↦ rw e (permᴰ_refl (a ∷ b ∷ bs))
  | inr e ↦ rw e (Permᴰ.trans (Permᴰ.cons refl (insert-perm a bs)) (Permᴰ.swap refl refl))
]

sort-perm : (xs : List Text) → Permᴰ (sort xs) xs
unfolding sort
sort-perm [] = Permᴰ.nil
sort-perm (x ∷ xs) = Permᴰ.trans (insert-perm x (sort xs)) (Permᴰ.cons refl (sort-perm xs))

sort_of_permᴰ : {xs ys : List Text} → Permᴰ xs ys → sort xs ≡ sort ys
unfolding sort
sort_of_permᴰ Permᴰ.nil = refl
sort_of_permᴰ (Permᴰ.cons e p) = ap₂ insert e (sort_of_permᴰ p)
sort_of_permᴰ (Permᴰ.swap {a} {b} {a' = c} {b' = d} {l} e f) =
    insert_comm a b (sort l) ∙ ap₂ (λ u v. insert u (insert v (sort l))) f e
sort_of_permᴰ (Permᴰ.trans p q) = sort_of_permᴰ p ∙ sort_of_permᴰ q

texts_set : IsSet (List Text)
texts_set = hlevel

-- A list sorts to a sorted list exactly when it is a permutation of it.
pub sort_iff_perm : (xs ys : List Text) → sort ys ≡ ys → (sort xs ≡ ys) ↔ Perm xs ys
sort_iff_perm xs ys s = (
  λ e. ∣ subst (Permᴰ xs) e (permᴰ_symm (sort-perm xs)) ∣₁,
  λ p. ∥∥₁_elim p (texts_set _ _) (λ d. sort_of_permᴰ d ∙ s),
)
