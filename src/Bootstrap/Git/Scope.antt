-- ===== src/Bootstrap/Git/Scope.antt =====
-- What a candidate in scope, and a candidate that was committed, must be.
use ai_ent.Prelude.{
  ◌≡◌, refl, ◌⊎◌, inl, inr, Bool, true, false, String, some, List, [], ◌∷◌, arith, All, Elem,
  eq_iff, Bool-cases,
}
use ai_ent.Persistence.Session.{return, Result-cases}
use ai_ent.Bootstrap.Models.{BootstrapTask, Candidate, VerificationResult, or_default}
use ai_ent.Bootstrap.Git.{matches, is_empty, validate_scope, GitAnswers, commit_verified_candidate}

-- The patterns that are prohibited to a task: those it lists or, if it lists none, the four of the
-- program.
abbrev pub IsProhibited : BootstrapTask → String → Type 0
IsProhibited task pattern =
    Elem pattern task.prohibited_paths
    ⊎ ((task.prohibited_paths ≡ [])
        × Elem pattern (".env" ∷ ".env.*" ∷ ".bootstrap/**" ∷ "aient/**" ∷ []))

-- A path that a task may change: no prohibited pattern takes it, and an allowed one does, if the
-- task lists any.
abbrev pub IsInScope : (String → String → Bool) → BootstrapTask → String → Type 0
IsInScope fnmatch task path =
    ((pattern : String) → IsProhibited task pattern → fnmatch path pattern ≡ false)
    × ((task.allowed_paths ≡ [])
        ⊎ ((pattern : String) × Elem pattern task.allowed_paths × (fnmatch path pattern ≡ true)))

module _ (fnmatch : String → String → Bool) where
  matches_none :
      (path : String) (patterns : List String)
      → matches fnmatch path patterns ≡ false
      → (pattern : String) → Elem pattern patterns
      → fnmatch path pattern ≡ false
  unfolding matches
  matches_none path [] h pattern e = absurd e
  matches_none path (p ∷ ps) h pattern (inl e) = ground (arith, h, e)
  matches_none path (p ∷ ps) h pattern (inr e) = matches_none path ps (ground (arith, h)) pattern e

  none_matches :
      (path : String) (patterns : List String)
      → ((pattern : String) → Elem pattern patterns → fnmatch path pattern ≡ false)
      → matches fnmatch path patterns ≡ false
  unfolding matches
  none_matches path [] h = refl
  none_matches path (p ∷ ps) h =
      ground (arith, h p (inl refl), none_matches path ps (λ q e. h q (inr e)))

  matches_some :
      (path : String) (patterns : List String)
      → matches fnmatch path patterns ≡ true
      → (pattern : String) × Elem pattern patterns × (fnmatch path pattern ≡ true)
  unfolding matches
  matches_some path [] h = absurd (ground (arith, h))
  matches_some path (p ∷ ps) h = elim (Bool-cases (fnmatch path p)) [
    | inl t ↦ (p, inl refl, t)
    | inr f ↦ let (q, e, t) = matches_some path ps (ground (arith, h, f)) in (q, inr e, t)
  ]

  some_matches :
      (path pattern : String) (patterns : List String)
      → Elem pattern patterns
      → fnmatch path pattern ≡ true
      → matches fnmatch path patterns ≡ true
  unfolding matches
  some_matches path pattern [] e t = absurd e
  some_matches path pattern (p ∷ ps) (inl e) t = ground (arith, e, t)
  some_matches path pattern (p ∷ ps) (inr e) t = ground (arith, some_matches path pattern ps e t)

-- `or_default` answers the prohibited patterns.
default-IsProhibited :
    (task : BootstrapTask) (listed : List String) (pattern : String)
    → task.prohibited_paths ≡ listed
    → Elem pattern (or_default listed)
    → IsProhibited task pattern
default-IsProhibited task [] pattern same e = inr (same, e)
default-IsProhibited task (p ∷ ps) pattern same e = inl (rw same e)

prohibited_default_lem :
    (task : BootstrapTask) (listed : List String) (pattern : String)
    → task.prohibited_paths ≡ listed
    → IsProhibited task pattern
    → Elem pattern (or_default listed)
prohibited_default_lem task [] pattern same (inl e) = absurd (rw same at e)
prohibited_default_lem task [] pattern same (inr (_, e)) = e
prohibited_default_lem task (p ∷ ps) pattern same (inl e) = rw same at e
prohibited_default_lem task (p ∷ ps) pattern same (inr (none, e)) =
    absurd (ground (arith, same, none))

is_empty-nil : (xs : List String) → is_empty xs ≡ true → xs ≡ []
is_empty-nil [] h = refl
is_empty-nil (x ∷ xs) h = absurd (ground (arith, h))

module _ (fnmatch : String → String → Bool) (task : BootstrapTask) where
  tests-IsInScope :
      (path : String)
      → matches fnmatch path (or_default task.prohibited_paths) ≡ false
      → (is_empty task.allowed_paths ≡ true) ⊎ (matches fnmatch path task.allowed_paths ≡ true)
      → IsInScope fnmatch task path
  tests-IsInScope path clear allowed = (
    λ pattern p.
        matches_none fnmatch path (or_default task.prohibited_paths) clear pattern
          (prohibited_default_lem task task.prohibited_paths pattern refl p),
    elim allowed [
      | inl e ↦ inl (is_empty-nil task.allowed_paths e)
      | inr m ↦ inr (matches_some fnmatch path task.allowed_paths m)
    ],
  )

  IsInScope-tests :
      (path : String)
      → IsInScope fnmatch task path
      → (matches fnmatch path (or_default task.prohibited_paths) ≡ false)
        × ((is_empty task.allowed_paths ≡ true) ⊎ (matches fnmatch path task.allowed_paths ≡ true))
  IsInScope-tests path (clear, allowed) = (
    none_matches fnmatch path (or_default task.prohibited_paths) (λ pattern e.
        clear pattern (default-IsProhibited task task.prohibited_paths pattern refl e)),
    elim allowed [
      | inl e ↦ inl (rw e refl)
      | inr (pattern, e, t) ↦ inr (some_matches fnmatch path pattern task.allowed_paths e t)
    ],
  )

  -- Where the scope check finds nothing, no prohibited pattern (of the task's list, or of the
  -- program's where the task lists none) takes a changed path, and some allowed one takes each, if
  -- the task lists any.
  pub validate_scope_sound :
      (paths : List String)
      → validate_scope fnmatch task paths ≡ []
      → All (IsInScope fnmatch task) paths
  unfolding validate_scope
  validate_scope_sound [] h = tt
  validate_scope_sound (p ∷ ps) h = (
    tests-IsInScope p (ground (arith, h)) (ground (arith, h)),
    validate_scope_sound ps (ground (arith, h)),
  )

  -- The scope check finds nothing in paths that no prohibited pattern takes, of the task's list or
  -- of the program's where the task lists none, and that some allowed one takes, if the task lists
  -- any.
  pub validate_scope_complete :
      (paths : List String)
      → All (IsInScope fnmatch task) paths
      → validate_scope fnmatch task paths ≡ []
  unfolding validate_scope
  validate_scope_complete [] h = refl
  validate_scope_complete (p ∷ ps) (here, rest) =
      ground (arith, IsInScope-tests p here, validate_scope_complete ps rest)

-- A commit is answered only for a candidate of the task, in scope and verified, whose tree was the
-- same when it was checked and when it was staged; staging and committing succeeded, and the
-- answer is the short name of the new commit.
pub commit_verified_candidate_sound :
    (fnmatch : String → String → Bool) (git : GitAnswers) (task : BootstrapTask)
    (candidate : Candidate) (verification : VerificationResult) {commit : String}
    → commit_verified_candidate fnmatch git task candidate verification ≡ return (some commit)
    → (candidate.task_id ≡ task.id)
      × All (IsInScope fnmatch task) candidate.changed_files
      × (verification.ok ≡ true)
      × (git.candidate_tree ≡ return candidate.tree_hash)
      × (git.add ≡ return tt)
      × (git.staged_tree ≡ return candidate.tree_hash)
      × (git.commit ≡ return tt)
      × (git.short_head ≡ return commit)
unfolding commit_verified_candidate
commit_verified_candidate_sound fnmatch git task candidate verification {commit} h = (
  ground (arith, h),
  validate_scope_sound fnmatch task candidate.changed_files (ground (arith, h)),
  ground (arith, h),
  elim (Result-cases git.candidate_tree) [
    | inl (tree, e) ↦ ground (arith, h, e, eq_iff tree candidate.tree_hash)
    | inr (x, e) ↦ absurd (ground (arith, h, e))
  ],
  elim (Result-cases git.add) [ inl (done, e) ↦ e | inr (x, e) ↦ absurd (ground (arith, h, e)) ],
  elim (Result-cases git.staged_tree) [
    | inl (tree, e) ↦ ground (arith, h, e, eq_iff tree candidate.tree_hash)
    | inr (x, e) ↦ absurd (ground (arith, h, e))
  ],
  elim (Result-cases git.commit) [ inl (done, e) ↦ e | inr (x, e) ↦ absurd (ground (arith, h, e)) ],
  ground (arith, h),
)
