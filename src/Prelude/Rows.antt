-- ===== src/Prelude/Rows.antt =====
-- Tables as lists of rows: look-up and update by key, selection, order and counting.
use Prim.Native.Nat.{ℕ, suc, ◌+◌, ◌≤◌, ◌<◌}
use mathlib.Core.Path.{◌≡◌, refl, ap}
use mathlib.Core.Logic.{◌≢◌, ◌⊎◌, inl, inr}
use mathlib.Core.Bool.{Bool, true, false}
use mathlib.Core.Option
use mathlib.Core.Option.{Option, none, some}
use mathlib.Core.List.{List, [], ◌∷◌, ◌++◌}
use native.Mathlib.Omega.{arith}
use ai_ent.Prelude.Tests.{◌==◌, if◌then◌else◌}

module _ {A : Type 0} where
  abbrev pub length : List A → ℕ
  length [] = 0
  length (x ∷ xs) = suc (length xs)

  abbrev pub Elem : A → List A → Type 0
  Elem a [] = ⊥
  Elem a (x ∷ xs) = (a ≡ x) ⊎ Elem a xs

  abbrev pub All {κ} : (A → Type κ) → List A → Type κ
  All P [] = Unit
  All P (x ∷ xs) = P x × All P xs

  abbrev pub head? : List A → Option A
  head? [] = none
  head? (x ∷ xs) = some x

  -- `WHERE`
  unfoldable pub keep : (A → Bool) → List A → List A
  keep p [] = []
  keep p (x ∷ xs) = if p x then x ∷ keep p xs else keep p xs

  -- How many rows satisfy a condition.
  unfoldable pub count : (A → Bool) → List A → ℕ
  count p [] = 0
  count p (x ∷ xs) = (if p x then 1 else 0) + count p xs

  unfoldable pub insert_by : (A → A → Bool) → A → List A → List A
  insert_by before a [] = a ∷ []
  insert_by before a (x ∷ xs) = if before a x then a ∷ x ∷ xs else x ∷ insert_by before a xs

  -- `ORDER BY`, for a test that says which of two rows stands first.
  unfoldable pub sort_by : (A → A → Bool) → List A → List A
  unfolding insert_by
  sort_by before [] = []
  sort_by before (x ∷ xs) = insert_by before x (sort_by before xs)

  -- `SELECT … WHERE … ORDER BY … LIMIT 1`
  unfoldable pub first : (A → Bool) → (A → A → Bool) → List A → Option A
  unfolding keep sort_by
  first p before xs = head? (sort_by before (keep p xs))

  pub Elem-All {κ} : (P : A → Type κ) (a : A) (xs : List A) → Elem a xs → All P xs → P a
  Elem-All P a [] e h = absurd e
  Elem-All P a (x ∷ xs) (inl e) h = rw e h.0
  Elem-All P a (x ∷ xs) (inr e) h = Elem-All P a xs e h.1

  pub All-append {κ} : (P : A → Type κ) (xs ys : List A) → All P xs → All P ys → All P (xs ++ ys)
  All-append P [] ys h k = k
  All-append P (x ∷ xs) ys h k = (h.0, All-append P xs ys h.1 k)

  Elem-insert_by :
      (before : A → A → Bool) (a b : A) (xs : List A)
      → Elem b (insert_by before a xs)
      → (b ≡ a) ⊎ Elem b xs
  unfolding insert_by
  Elem-insert_by before a b [] h = h
  Elem-insert_by before a b (x ∷ xs) h = ground (arith, Elem-insert_by before a b xs)

  pub Elem-sort_by :
      (before : A → A → Bool) (b : A) (xs : List A) → Elem b (sort_by before xs) → Elem b xs
  unfolding sort_by
  Elem-sort_by before b [] h = h
  Elem-sort_by before b (x ∷ xs) h = elim (Elem-insert_by before x b (sort_by before xs) h) [
    | inl e ↦ inl e
    | inr e ↦ inr (Elem-sort_by before b xs e)
  ]

  pub Elem-keep :
      (p : A → Bool) (b : A) (xs : List A) → Elem b (keep p xs) → Elem b xs × (p b ≡ true)
  unfolding keep
  Elem-keep p b [] h = absurd h
  Elem-keep p b (x ∷ xs) h = ground (arith, Elem-keep p b xs)

  -- The row that a query returns is in the table and satisfies the condition.
  pub first-some :
      (p : A → Bool) (before : A → A → Bool) (xs : List A) {a : A}
      → first p before xs ≡ some a
      → Elem a xs × (p a ≡ true)
  unfolding first
  first-some p before xs {a} h = Elem-keep p a xs (Elem-sort_by before a (keep p xs) (top _ h))
    where
      top : (l : List A) → head? l ≡ some a → Elem a l
      top [] e = cc
      top (x ∷ l) e = inl (cc)

  pub insert_by-some :
      (before : A → A → Bool) (a : A) (xs : List A) → head? (insert_by before a xs) ≢ none
  unfolding insert_by
  insert_by-some before a [] = λ e. cc
  insert_by-some before a (x ∷ xs) = ground arith

  -- A query that returns nothing: no row satisfies the condition.
  pub first-none :
      (p : A → Bool) (before : A → A → Bool) (xs : List A)
      → first p before xs ≡ none
      → count p xs ≡ 0
  unfolding first keep sort_by count
  first-none p before [] h = refl
  first-none p before (x ∷ xs) h =
      ground (arith, first-none p before xs, insert_by-some before x (sort_by before (keep p xs)))

  pub count-append : (p : A → Bool) (xs ys : List A) → count p (xs ++ ys) ≡ count p xs + count p ys
  unfolding count
  count-append p [] ys = omega arith
  count-append p (x ∷ xs) ys = omega (arith, count-append p xs ys)

  pub count-append_one :
      (p : A → Bool) (xs : List A) (a : A)
      → count p (xs ++ a ∷ []) ≡ count p xs + (if p a then 1 else 0)
  unfolding count
  count-append_one p [] a = omega arith
  count-append_one p (x ∷ xs) a = omega (arith, count-append_one p xs a)

  pub count-pos : (p : A → Bool) (a : A) (xs : List A) → Elem a xs → p a ≡ true → 0 < count p xs
  unfolding count
  count-pos p a [] e h = absurd e
  count-pos p a (x ∷ xs) (inl e) h = ground arith
  count-pos p a (x ∷ xs) (inr e) h = omega (arith, count-pos p a xs e h)

  -- Where no row satisfies the condition the query returns nothing, and then a new row that does.
  pub keep-empty : (p : A → Bool) (xs : List A) → count p xs ≡ 0 → keep p xs ≡ []
  unfolding keep count
  keep-empty p [] h = refl
  keep-empty p (x ∷ xs) h = ground (arith, keep-empty p xs)

  pub first-empty :
      (p : A → Bool) (before : A → A → Bool) (xs : List A)
      → count p xs ≡ 0
      → first p before xs ≡ none
  unfolding first sort_by
  first-empty p before xs h = rw (keep-empty p xs h)

  keep-append_one :
      (p : A → Bool) (xs : List A) (a : A)
      → count p xs ≡ 0
      → p a ≡ true
      → keep p (xs ++ a ∷ []) ≡ a ∷ []
  unfolding keep count
  keep-append_one p [] a h t = ground arith
  keep-append_one p (x ∷ xs) a h t = ground (arith, keep-append_one p xs a)

  pub first-append_one :
      (p : A → Bool) (before : A → A → Bool) (xs : List A) (a : A)
      → count p xs ≡ 0
      → p a ≡ true
      → first p before (xs ++ a ∷ []) ≡ some a
  unfolding first sort_by insert_by
  first-append_one p before xs a h t = rw (keep-append_one p xs a h t)

module _ {A : Type 0} (key : A → ℕ) where
  -- `session.get(Model, key)`
  unfoldable pub find : ℕ → List A → Option A
  find k [] = none
  find k (x ∷ xs) = if key x == k then some x else find k xs

  -- Assigning to fields of the object with this key.
  unfoldable pub modify : ℕ → (A → A) → List A → List A
  modify k f [] = []
  modify k f (x ∷ xs) = (if key x == k then f x else x) ∷ modify k f xs

  pub find-key : (k : ℕ) (xs : List A) {a : A} → find k xs ≡ some a → key a ≡ k
  unfolding find
  find-key k [] h = cc
  find-key k (x ∷ xs) {a} h = ground (arith, find-key k xs {a = a})

  pub find-Elem : (k : ℕ) (xs : List A) {a : A} → find k xs ≡ some a → Elem a xs
  unfolding find
  find-Elem k [] h = cc
  find-Elem k (x ∷ xs) {a} h = ground (arith, find-Elem k xs {a = a})

  pub find-append :
      (k : ℕ) (xs : List A) (a : A)
      → find k (xs ++ a ∷ [])
        ≡ elim (find k xs) [ some x ↦ some x | none ↦ if key a == k then some a else none ]
  unfolding find
  find-append k [] a = refl
  find-append k (x ∷ xs) a = ground (arith, find-append k xs a)

  module _ (f : A → A) (same : (a : A) → key (f a) ≡ key a) where
    pub find-modify_self : (k : ℕ) (xs : List A) → find k (modify k f xs) ≡ Option.map f (find k xs)
    unfolding find modify
    find-modify_self k [] = refl
    find-modify_self k (x ∷ xs) = ground (arith, same x, find-modify_self k xs)

    pub find-modify_ne : (k j : ℕ) (xs : List A) → k ≢ j → find j (modify k f xs) ≡ find j xs
    unfolding find modify
    find-modify_ne k j [] h = refl
    find-modify_ne k j (x ∷ xs) h = ground (arith, same x, find-modify_ne k j xs h)

    pub find-modify-none :
        (k j : ℕ) (xs : List A) → find j xs ≡ none → find j (modify k f xs) ≡ none
    unfolding find modify
    find-modify-none k j [] h = refl
    find-modify-none k j (x ∷ xs) h = ground (arith, same x, find-modify-none k j xs)

    pub find-of_modify-none :
        (k j : ℕ) (xs : List A) → find j (modify k f xs) ≡ none → find j xs ≡ none
    unfolding find modify
    find-of_modify-none k j [] h = refl
    find-of_modify-none k j (x ∷ xs) h = ground (arith, same x, find-of_modify-none k j xs)

  -- An update that keeps a test's value on every row keeps its count.
  pub count-modify :
      (p : A → Bool) (k : ℕ) (f : A → A) (xs : List A)
      → ((a : A) → p (f a) ≡ p a)
      → count p (modify k f xs) ≡ count p xs
  unfolding count modify
  count-modify p k f [] h = refl
  count-modify p k f (x ∷ xs) h = ground (arith, h x, count-modify p k f xs h)

  pub count-modify-le :
      (p : A → Bool) (k : ℕ) (f : A → A) (xs : List A)
      → ((a : A) → p (f a) ≡ true → p a ≡ true)
      → count p (modify k f xs) ≤ count p xs
  unfolding count modify
  count-modify-le p k f [] h = omega arith
  count-modify-le p k f (x ∷ xs) h = ground (arith, h x, count-modify-le p k f xs h)

  -- An update that takes the test away from a row with the key lowers the count.
  pub count-modify-lt :
      (p : A → Bool) (k : ℕ) (f : A → A) (xs : List A) (a : A)
      → ((x : A) → p (f x) ≡ false)
      → Elem a xs
      → p a ≡ true
      → key a ≡ k
      → count p (modify k f xs) < count p xs
  unfolding count modify
  count-modify-lt p k f [] a h e t s = absurd e
  count-modify-lt p k f (x ∷ xs) a h (inl e) t s =
      ground (arith, h x, ap key e, ap p e, count-modify-le p k f xs (λ y c. cc (h y)))
  count-modify-lt p k f (x ∷ xs) a h (inr e) t s =
      ground (arith, h x, count-modify-lt p k f xs a h e t s)
