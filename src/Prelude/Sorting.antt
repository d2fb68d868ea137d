-- ===== src/Prelude/Sorting.antt =====
-- `sorted`: its result is in order, and it leaves alone what is in order.
use Prim.Native.Nat.{ℕ}
use Prim.Native.String.{String}
use mathlib.Core.Path.{◌≡◌, refl}
use mathlib.Core.Logic.{◌⊎◌, inl, inr}
use mathlib.Core.Bool.{Bool, true, false}
use mathlib.Core.Option.{some}
use mathlib.Core.List.{List, [], ◌∷◌, ◌++◌}
use native.Mathlib.Omega.{arith}
use ai_ent.Prelude.Tests.{Bool-cases}
use ai_ent.Prelude.Rows.{All, head?, keep, insert_by, sort_by}
use ai_ent.Prelude.Words.{codes_leb, text_leb, codes}

module _ {A : Type 0} where
  pub head-keep : (p : A → Bool) (xs : List A) {a : A} → head? (keep p xs) ≡ some a → p a ≡ true
  unfolding keep
  head-keep p [] h = absurd (ground (arith, h))
  head-keep p (x ∷ xs) {a} h = elim (Bool-cases (p x)) [
    | inl e ↦ let same : x ≡ a = ground (arith, e, h) in rw (← same) e
    | inr e ↦ head-keep p xs (ground (arith, e, h))
  ]

  pub keep-append_one :
      (p : A → Bool) (xs : List A) (b : A)
      → p b ≡ true
      → keep p (xs ++ b ∷ []) ≡ keep p xs ++ b ∷ []
  unfolding keep
  keep-append_one p [] b h = ground (arith, h)
  keep-append_one p (x ∷ xs) b h = ground (arith, keep-append_one p xs b h)

  pub All-keep {κ} : (P : A → Type κ) (p : A → Bool) (xs : List A) → All P xs → All P (keep p xs)
  unfolding keep
  All-keep P p [] h = h
  All-keep P p (x ∷ xs) h = elim (Bool-cases (p x)) [
    | inl e ↦ rw e (h.0, All-keep P p xs h.1)
    | inr e ↦ rw e (All-keep P p xs h.1)
  ]

  module _ (before : A → A → Bool) where
    -- A row that no other stands before comes first.
    pub sort_by-append_first :
        (xs : List A) (b : A)
        → All (λ x. before x b ≡ false) xs
        → sort_by before (xs ++ b ∷ []) ≡ b ∷ sort_by before xs
    unfolding sort_by
    sort_by-append_first [] b h = refl
    sort_by-append_first (x ∷ xs) b h = ground (arith, h.0, sort_by-append_first xs b h.1)

    abbrev Leads : A → List A → Type 0
    Leads x [] = Unit
    Leads x (y ∷ ys) = before x y ≡ true

    abbrev IsSorted : List A → Type 0
    IsSorted [] = Unit
    IsSorted (x ∷ xs) = Leads x xs × IsSorted xs

    sort_by-same : (xs : List A) → IsSorted xs → sort_by before xs ≡ xs
    unfolding sort_by
    sort_by-same [] h = refl
    sort_by-same (x ∷ []) h = refl
    sort_by-same (x ∷ y ∷ ys) h = rw (sort_by-same (y ∷ ys) h.1) (ground (arith, h.0))

    module _ (total : (a b : A) → (before a b ≡ true) ⊎ (before b a ≡ true)) where
      Leads-insert :
          (a x : A) (xs : List A) → before x a ≡ true → Leads x xs → Leads x (insert_by before a xs)
      unfolding insert_by
      Leads-insert a x [] h k = h
      Leads-insert a x (y ∷ ys) h k = elim (Bool-cases (before a y)) [
        | inl e ↦ rw e h
        | inr e ↦ rw e k
      ]

      insert_by-IsSorted : (a : A) (xs : List A) → IsSorted xs → IsSorted (insert_by before a xs)
      unfolding insert_by
      insert_by-IsSorted a [] h = (tt, tt)
      insert_by-IsSorted a (x ∷ xs) h = elim (Bool-cases (before a x)) [
        | inl e ↦ rw e (e, h)
        | inr e ↦
            let other : before x a ≡ true = ground (arith, e, total a x) in
            rw e (Leads-insert a x xs other h.0, insert_by-IsSorted a xs h.1)
      ]

      sort_by-IsSorted : (xs : List A) → IsSorted (sort_by before xs)
      unfolding sort_by
      sort_by-IsSorted [] = tt
      sort_by-IsSorted (x ∷ xs) = insert_by-IsSorted x (sort_by before xs) (sort_by-IsSorted xs)

      pub sort_by-sort_by : (xs : List A) → sort_by before (sort_by before xs) ≡ sort_by before xs
      sort_by-sort_by xs = sort_by-same (sort_by before xs) (sort_by-IsSorted xs)

codes_leb_total : (a b : List ℕ) → (codes_leb a b ≡ true) ⊎ (codes_leb b a ≡ true)
unfolding codes_leb
codes_leb_total [] b = inl refl
codes_leb_total (c ∷ cs) [] = inr refl
codes_leb_total (c ∷ cs) (d ∷ ds) = ground (arith, codes_leb_total cs ds)

pub text_leb_total : (a b : String) → (text_leb a b ≡ true) ⊎ (text_leb b a ≡ true)
unfolding text_leb
text_leb_total a b = codes_leb_total (codes a) (codes b)
