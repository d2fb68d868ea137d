-- ===== src/Prelude/Selections.antt =====
-- When a selection is empty, and that an ordered selection has the rows of its table.
use mathlib.Core.Path.{◌≡◌, refl, ap}
use mathlib.Core.Logic.{◌↔◌, ◌⊎◌, inl, inr}
use mathlib.Core.Bool.{Bool, true, false, ◌&&◌}
use mathlib.Core.List.{List, [], ◌∷◌}
use native.Mathlib.Omega.{arith}
use ai_ent.Prelude.Rows.{All, Elem, head?, keep, count, insert_by, sort_by, insert_by-some}

module _ {A : Type 0} where
  pub keep-nil : (p : A → Bool) (xs : List A) → (keep p xs ≡ []) ↔ All (λ x. p x ≡ false) xs
  unfolding keep
  keep-nil p [] = (λ h. tt, λ h. refl)
  keep-nil p (x ∷ xs) = ground (arith, keep-nil p xs)

  pub sort_by-nil : (before : A → A → Bool) (xs : List A) → (sort_by before xs ≡ []) ↔ (xs ≡ [])
  unfolding sort_by
  sort_by-nil before [] = (λ h. refl, λ h. refl)
  sort_by-nil before (x ∷ xs) = (
    λ h. absurd (insert_by-some before x (sort_by before xs) (ap head? h)),
    λ h. absurd (ground (arith, h)),
  )

  Elem-into :
      (before : A → A → Bool) (a b : A) (xs : List A)
      → (b ≡ a) ⊎ Elem b xs
      → Elem b (insert_by before a xs)
  unfolding insert_by
  Elem-into before a b [] h = h
  Elem-into before a b (x ∷ xs) h = ground (arith, Elem-into before a b xs)

  pub Elem-sorted :
      (before : A → A → Bool) (b : A) (xs : List A) → Elem b xs → Elem b (sort_by before xs)
  unfolding sort_by
  Elem-sorted before b [] h = h
  Elem-sorted before b (x ∷ xs) (inl e) = Elem-into before x b (sort_by before xs) (inl e)
  Elem-sorted before b (x ∷ xs) (inr e) =
      Elem-into before x b (sort_by before xs) (inr (Elem-sorted before b xs e))

  pub Elem-kept : (p : A → Bool) (b : A) (xs : List A) → Elem b xs → p b ≡ true → Elem b (keep p xs)
  unfolding keep
  Elem-kept p b [] h t = h
  Elem-kept p b (x ∷ xs) (inl e) t = ground (arith, e, t, ap p e)
  Elem-kept p b (x ∷ xs) (inr e) t = ground (arith, Elem-kept p b xs e t)

  -- How many rows pass a test does not depend on their order, nor on a selection that the test
  -- makes again.
  count-insert_by :
      (p : A → Bool) (before : A → A → Bool) (a : A) (xs : List A)
      → count p (insert_by before a xs) ≡ count p (a ∷ xs)
  unfolding count insert_by
  count-insert_by p before a [] = refl
  count-insert_by p before a (x ∷ xs) = ground (arith, count-insert_by p before a xs)

  pub count-sort_by :
      (p : A → Bool) (before : A → A → Bool) (xs : List A)
      → count p (sort_by before xs) ≡ count p xs
  unfolding count sort_by
  count-sort_by p before [] = refl
  count-sort_by p before (x ∷ xs) =
      ground (arith, count-insert_by p before x (sort_by before xs), count-sort_by p before xs)

  pub count-keep : (p q : A → Bool) (xs : List A) → count p (keep q xs) ≡ count (λ x. q x && p x) xs
  unfolding count keep
  count-keep p q [] = refl
  count-keep p q (x ∷ xs) = ground (arith, count-keep p q xs)
