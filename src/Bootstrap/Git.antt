-- ===== src/Bootstrap/Git.antt =====
-- src/ai_ent/bootstrap/git.py: the scope of a candidate, and the commit of a verified one. The
-- answers of the git commands are a record; the pattern test of fnmatch is an argument.
pub mod Scope
use Prim.Native.String.{◌++◌ as ◌+++◌}
use ai_ent.Prelude.{
  ℕ, ◌≡◌, ◌&&◌, not, Bool, true, false, String, Option, none, some, List, [], ◌∷◌, ◌++◌, ◌==◌,
  str_eq, if◌then◌else◌,
}
use ai_ent.Persistence.Session.{Error, runtime_error, Result, return, raise}
use ai_ent.Bootstrap.Models.{BootstrapTask, Candidate, VerificationResult, or_default}

-- What is reported of a path: `prohibited path changed: …`, `path outside task scope: …`.
pub data Finding : Type 0 where
  prohibited_changed outside_scope : String → Finding

abbrev pub is_empty {ℓ} : {A : Type ℓ} → List A → Bool
is_empty [] = true
is_empty (x ∷ xs) = false

-- `x` for which a value is computed that may raise.
infixl 5 ◌>>=◌
abbrev pub ◌>>=◌ : {A B : Type 0} → Result A → (A → Result B) → Result B
return a >>= f = f a
raise e >>= f = raise e

module _ (fnmatch : String → String → Bool) where
  unfoldable pub matches : String → List String → Bool
  matches path [] = false
  matches path (p ∷ ps) = if fnmatch path p then true else matches path ps

  path_findings : BootstrapTask → String → List Finding
  path_findings task path =
      (if matches path (or_default task.prohibited_paths) then prohibited_changed path ∷ [] else [])
      ++ (if not (is_empty task.allowed_paths) && not (matches path task.allowed_paths)
          then outside_scope path ∷ []
          else [])

  -- The findings of `validate_scope`; the scope is respected where there is none.
  unfoldable pub validate_scope : BootstrapTask → List String → List Finding
  unfolding path_findings
  validate_scope task [] = []
  validate_scope task (path ∷ paths) = path_findings task path ++ validate_scope task paths

-- The answers of git while a candidate is committed.
pub record GitAnswers : Type 0 where
  pub candidate_tree : Result String
  pub add : Result Unit
  pub staged_tree : Result String
  pub commit : Result Unit
  pub short_head : Result String

pub data Denial : Type 0 where
  wrong_task verification_failed stale changed_in_staging : Denial
  out_of_scope : List Finding → Denial

-- `CommitEligibility`, with "no-op candidate" and "commit allowed" as the two ways to be eligible.
pub data CommitEligibility : Type 0 where
  no_op commit_allowed : CommitEligibility
  denied : Denial → CommitEligibility

-- The last test of `commit_eligibility`, for the tree that the worktree has now.
abbrev check_tree : Candidate → String → CommitEligibility
check_tree candidate current =
    if str_eq current candidate.tree_hash then commit_allowed else denied stale

abbrev pub finding_text : Finding → String
finding_text (prohibited_changed path) = "prohibited path changed: " +++ path
finding_text (outside_scope path) = "path outside task scope: " +++ path

-- `"; ".join(findings)`
unfoldable pub join_findings : List Finding → String
join_findings [] = ""
join_findings (f ∷ []) = finding_text f
join_findings (f ∷ g ∷ fs) = finding_text f +++ "; " +++ join_findings (g ∷ fs)

unfoldable pub denial_text : Denial → String
denial_text wrong_task = "candidate task does not match task"
denial_text verification_failed = "verification failed"
denial_text stale = "verification is stale: candidate tree changed"
denial_text changed_in_staging = "candidate changed during staging"
denial_text (out_of_scope findings) = join_findings findings

module _ (fnmatch : String → String → Bool) (git : GitAnswers) where
  abbrev scope_denial : Candidate → VerificationResult → List Finding → Result CommitEligibility
  scope_denial candidate verification (f ∷ fs) = return (denied (out_of_scope (f ∷ fs)))
  scope_denial candidate verification [] =
      if not verification.ok
      then return (denied verification_failed)
      else (git.candidate_tree >>= λ current. return (check_tree candidate current))

  unfoldable pub commit_eligibility :
      BootstrapTask → Candidate → VerificationResult → Result CommitEligibility
  commit_eligibility task candidate verification =
      if not (candidate.task_id == task.id)
      then return (denied wrong_task)
      else if is_empty candidate.changed_files
      then return no_op
      else scope_denial candidate verification (validate_scope fnmatch task candidate.changed_files)

  -- The steps after the check: stage, compare the staged tree, commit, and read the new commit.
  abbrev stage_and_commit : Candidate → Result (Option String)
  stage_and_commit candidate = do
    _ ← git.add
    staged ← git.staged_tree
    if not (str_eq staged candidate.tree_hash)
        then raise (runtime_error (denial_text changed_in_staging))
        else do _ ← git.commit; head ← git.short_head; return (some head)

  abbrev commit_eligible : Candidate → CommitEligibility → Result (Option String)
  commit_eligible candidate (denied reason) = raise (runtime_error (denial_text reason))
  commit_eligible candidate _ =
      if is_empty candidate.changed_files then return none else stage_and_commit candidate

  unfoldable pub commit_verified_candidate :
      BootstrapTask → Candidate → VerificationResult → Result (Option String)
  unfolding commit_eligibility
  commit_verified_candidate task candidate verification =
      commit_eligibility task candidate verification >>= commit_eligible candidate
