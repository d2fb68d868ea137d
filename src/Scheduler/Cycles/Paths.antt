-- ===== src/Scheduler/Cycles/Paths.antt =====
-- src/ai_ent/scheduler/readiness.py: `_cycle_nodes` ends, and what it reports.
use ai_ent.Prelude.{
  ℕ, zero, suc, ◌+◌, ◌≤◌, ◌<◌, ◌≡◌, ◌⊎◌, inl, inr, refl, sym, subst, ◌∙◌, ap, true, false, not,
  Option, some, List, [], ◌∷◌, ◌++◌, ◌==◌, ==_iff, count, length, Elem, arith, Option-cases,
  Bool-cases,
}
use ai_ent.Scheduler.Cycles.{
  Search, member, back_to, visit_each, visit, cycle_nodes, is_cyclic, add_cycle, mark_visited,
}

-- The nodes of `keys` that are not on the path: what can still be entered.
left_over : List ℕ → List ℕ → ℕ
left_over keys path = count (λ k. not (member k path)) keys

left_over-le : (x : ℕ) (path keys : List ℕ) → left_over keys (x ∷ path) ≤ left_over keys path
unfolding left_over count member
left_over-le x path [] = omega arith
left_over-le x path (k ∷ ks) = ground (arith, left_over-le x path ks)

left_over-lt :
    (x : ℕ) (path keys : List ℕ)
    → member x keys ≡ true
    → member x path ≡ false
    → left_over keys (x ∷ path) < left_over keys path
unfolding left_over count member
left_over-lt x path [] h o = cc
left_over-lt x path (k ∷ ks) h o = elim (Bool-cases (k == x)) [
  | inl e ↦ ground (arith, left_over-le x path ks, o, ap (λ y. member y path) ((==_iff k x).0 e))
  | inr e ↦ ground (arith, left_over-lt x path ks, o, h, e)
]

left_over-nil : (keys : List ℕ) → left_over keys [] ≡ length keys
unfolding left_over count member
left_over-nil [] = refl
left_over-nil (k ∷ ks) = omega (arith, left_over-nil ks)

visit_each-some :
    (v : ℕ → Search → Option Search)
    → ((x : ℕ) (found : Search) → (after : Search) × (v x found ≡ some after))
    → (xs : List ℕ) (found : Search) → (after : Search) × (visit_each v xs found ≡ some after)
unfolding visit_each
visit_each-some v h [] found = (found, refl)
visit_each-some v h (x ∷ xs) found =
    let (after, e) = h x found in
    let (end, f) = visit_each-some v h xs after in (end, ground (arith, e, f))

Elem-member : (x : ℕ) (xs : List ℕ) → member x xs ≡ true → Elem x xs
unfolding member
Elem-member x [] h = absurd (ground (arith, h))
Elem-member x (y ∷ ys) h = ground (arith, h, Elem-member x ys)

Elem-split : (x : ℕ) (xs ys : List ℕ) → Elem x (xs ++ ys) → Elem x xs ⊎ Elem x ys
Elem-split x [] ys h = inr h
Elem-split x (y ∷ xs) ys (inl e) = inl (inl e)
Elem-split x (y ∷ xs) ys (inr e) = elim (Elem-split x xs ys e) [
  | inl a ↦ inl (inr a)
  | inr b ↦ inr b
]

-- A path from one node to another along one or more edges.
pub data Reaches (edges : ℕ → List ℕ) : ℕ → ℕ → Type 0 where
  edge : {x y : ℕ} → Elem y (edges x) → Reaches edges x y
  along : {x y z : ℕ} → Reaches edges x y → Elem z (edges y) → Reaches edges x z

module _ (keys : List ℕ) (edges : ℕ → List ℕ) where
  visit-some :
      (fuel : ℕ) (path : List ℕ) (x : ℕ) (found : Search)
      → left_over keys path < fuel
      → (after : Search) × (visit keys edges fuel path x found ≡ some after)
  unfolding visit
  visit-some zero path x found h = absurd (omega (arith, h))
  visit-some (suc fuel) path x found h = elim (Bool-cases (member x keys)) [
    | inr e ↦ (found, ground (arith, e))
    | inl e ↦ elim (Bool-cases (member x path)) [
      | inl p ↦ (add_cycle keys edges x path found, ground (arith, e, p))
      | inr p ↦ elim (Bool-cases (member x found.visited)) [
        | inl v ↦ (found, ground (arith, e, p, v))
        | inr v ↦
            let (after, a) =
              visit_each-some (visit keys edges fuel (x ∷ path))
                (λ y f.
                  visit-some fuel (x ∷ path) y f (omega (arith, h, left_over-lt x path keys e p)))
                (edges x) found in
            (record after { visited = x ∷ after.visited }, ground (arith, e, p, v, a))
      ]
    ]
  ]

  -- The search for cycles ends with an answer: its depth never uses up the fuel.
  pub cycle_nodes-some : (found : Search) × (cycle_nodes keys edges ≡ some found)
  unfolding cycle_nodes
  cycle_nodes-some =
      visit_each-some _
        (λ x f. visit-some (length keys + 1) [] x f (omega (arith, left_over-nil keys))) keys _

  -- `x` is reached by an edge from the last node of the path, and each node by one from the next.
  Chain : ℕ → List ℕ → Type 0
  Chain x [] = Unit
  Chain x (y ∷ ys) = Elem x (edges y) × Chain y ys

  member-Reaches :
      (w x : ℕ) (path : List ℕ) → Chain x path → member w path ≡ true → Reaches edges w x
  unfolding Chain member
  member-Reaches w x [] c h = cc
  member-Reaches w x (y ∷ ys) c h = elim (Bool-cases (y == w)) [
    | inl e ↦ subst (λ v. Reaches edges v x) ((==_iff y w).0 e) (edge c.0)
    | inr e ↦ along (member-Reaches w y ys c.1 (ground (arith, e, h))) c.0
  ]

  back_to-Reaches :
      (w x z : ℕ) (path : List ℕ)
      → Chain x path
      → member w path ≡ true
      → Elem z (back_to w path)
      → Reaches edges z x × ((z ≡ w) ⊎ Reaches edges w z)
  unfolding Chain member back_to
  back_to-Reaches w x z [] c h e = cc
  back_to-Reaches w x z (y ∷ ys) c h e = elim (Bool-cases (y == w)) [
    | inl t ↦
        let same = only t e in
        (subst (λ v. Reaches edges v x) (sym same) (edge c.0), inl (same ∙ (==_iff y w).0 t))
    | inr f ↦
        let above : member w ys ≡ true = ground (arith, f, h) in
        elim (later f e) [
          | inl same ↦ (
            subst (λ v. Reaches edges v x) (sym same) (edge c.0),
            inr (subst (λ v. Reaches edges w v) (sym same) (member-Reaches w y ys c.1 above)),
          )
          | inr rest ↦
              let (down, up) = back_to-Reaches w y z ys c.1 above rest in (along down c.0, up)
        ]
  ]
    where
      only : (y == w) ≡ true → Elem z (back_to w (y ∷ ys)) → z ≡ y
      only t e = ground (arith, t, e)

      later : (y == w) ≡ false → Elem z (back_to w (y ∷ ys)) → (z ≡ y) ⊎ Elem z (back_to w ys)
      later f e = ground (arith, f, e)

  AllCyclic : Search → Type 0
  AllCyclic found = (z : ℕ) → Elem z found.members → Reaches edges z z

  add_cycle-AllCyclic :
      (x : ℕ) (path : List ℕ) (found : Search)
      → Chain x path
      → member x path ≡ true
      → AllCyclic found
      → AllCyclic (add_cycle keys edges x path found)
  unfolding AllCyclic
  add_cycle-AllCyclic x path found c h a z e =
      elim (Elem-split z (back_to x path) found.members e) [
        | inr old ↦ a z old
        | inl new ↦
            let (down, up) = back_to-Reaches x x z path c h new in
            elim up [
              | inl same ↦ subst (λ v. Reaches edges z v) (sym same) down
              | inr back ↦ join down back
            ]
      ]
    where
      join : {a b c : ℕ} → Reaches edges a b → Reaches edges b c → Reaches edges a c
      join r (edge e) = along r e
      join r (along q e) = along (join r q) e

  visit_each-AllCyclic :
      (v : ℕ → Search → Option Search) (xs : List ℕ) (found after : Search)
      → ((x : ℕ) (f g : Search) → Elem x xs → AllCyclic f → v x f ≡ some g → AllCyclic g)
      → AllCyclic found
      → visit_each v xs found ≡ some after
      → AllCyclic after
  unfolding visit_each
  visit_each-AllCyclic v [] found after k a h = subst AllCyclic (ground (arith, h)) a
  visit_each-AllCyclic v (x ∷ xs) found after k a h = elim (Option-cases (v x found)) [
    | inl e ↦ absurd (ground (arith, e, h))
    | inr (middle, e) ↦
        visit_each-AllCyclic v xs middle after (λ y f g m. k y f g (inr m))
          (k x found middle (inl refl) a e) (ground (arith, e, h))
  ]

  mark-AllCyclic :
      (x : ℕ) (inner after : Search)
      → mark_visited keys edges x (some inner) ≡ some after
      → AllCyclic inner
      → AllCyclic after
  unfolding AllCyclic
  mark-AllCyclic x inner after m a z q =
      let same : after.members ≡ inner.members = ground (arith, m) in
      a z (subst (λ l. Elem z l) same q)

  visit-AllCyclic :
      (fuel : ℕ) (path : List ℕ) (x : ℕ) (found after : Search)
      → Chain x path
      → AllCyclic found
      → visit keys edges fuel path x found ≡ some after
      → AllCyclic after
  unfolding visit Chain
  visit-AllCyclic zero path x found after c a h = absurd (ground (arith, h))
  visit-AllCyclic (suc fuel) path x found after c a h = elim (Bool-cases (member x keys)) [
    | inr e ↦ subst AllCyclic (ground (arith, e, h)) a
    | inl e ↦ elim (Bool-cases (member x path)) [
      | inl p ↦ subst AllCyclic (ground (arith, e, p, h)) (add_cycle-AllCyclic x path found c p a)
      | inr p ↦ elim (Bool-cases (member x found.visited)) [
        | inl v ↦ subst AllCyclic (ground (arith, e, p, v, h)) a
        | inr v ↦
            entered (λ y f g on. visit-AllCyclic fuel (x ∷ path) y f g (on, c))
              (ground (arith, e, p, v, h))
      ]
    ]
  ]
    where
      entered :
          ((y : ℕ) (f g : Search)
            → Elem y (edges x)
            → AllCyclic f
            → visit keys edges fuel (x ∷ path) y f ≡ some g
            → AllCyclic g)
          → mark_visited keys edges x
              (visit_each (visit keys edges fuel (x ∷ path)) (edges x) found)
            ≡ some after
          → AllCyclic after
      entered deeper m =
          elim (Option-cases (visit_each (visit keys edges fuel (x ∷ path)) (edges x) found)) [
            | inl e ↦ absurd (ground (arith, e, m))
            | inr (inner, e) ↦ mark-AllCyclic x inner after (ground (arith, e, m)) (
                visit_each-AllCyclic (visit keys edges fuel (x ∷ path)) (edges x) found inner deeper
                  a e)
          ]

  -- A node that the search reports as cyclic reaches itself along edges.
  pub is_cyclic-Reaches : (x : ℕ) → is_cyclic keys edges x ≡ true → Reaches edges x x
  unfolding is_cyclic cycle_nodes Chain AllCyclic
  is_cyclic-Reaches x h = elim (Option-cases (cycle_nodes keys edges)) [
    | inl e ↦ absurd (ground (arith, e, h))
    | inr (found, e) ↦
        visit_each-AllCyclic _ keys _ found
          (λ y f g on. visit-AllCyclic (length keys + 1) [] y f g tt) (λ z q. absurd q) e x
          (Elem-member x found.members (ground (arith, e, h)))
  ]
