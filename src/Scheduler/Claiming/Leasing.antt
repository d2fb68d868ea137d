-- ===== src/Scheduler/Claiming/Leasing.antt =====
-- Renewing and finishing a lease, and what every operation on leases keeps.
use ai_ent.Prelude.{
  ℕ, ◌<◌, ◌≡◌, refl, Bool, true, false, none, some, arith, count, first-empty, find-Elem, find-key,
  count-modify-lt, Option-cases, inl, inr,
}
use ai_ent.Persistence.Models.{TaskLease, active, is_active}
use ai_ent.Persistence.Session.{Db, Session, Action, return, now}
use ai_ent.Persistence.Leases
use ai_ent.Persistence.Invariant.{WellFormed}
use ai_ent.Scheduler.Claiming.{
  LeaseActionResult, updated, mark_released, mark_completed, renew, release, complete,
  has_valid_lease,
}

-- The three actions on a lease.
pub data LeaseAction : Type 0 where
  renewal : (lease_duration : ℕ) → LeaseAction
  releasing completing : LeaseAction

abbrev pub perform : LeaseAction → (lease_id owner_id : ℕ) → Action LeaseActionResult
perform (renewal lease_duration) lease_id owner_id = renew lease_id owner_id lease_duration
perform releasing lease_id owner_id = release lease_id owner_id
perform completing lease_id owner_id = complete lease_id owner_id

abbrev pub is_finish : LeaseAction → Bool
is_finish (renewal d) = false
is_finish _ = true

-- Renewing, releasing or completing a lease answers UPDATED only where its owner asks and the
-- lease is active and has not expired.
pub perform-updated :
    (action : LeaseAction) (lease_id owner_id : ℕ) (s : Session) {result : LeaseActionResult}
    → (perform action lease_id owner_id s).0 ≡ return result
    → result.status ≡ updated
    → (lease : TaskLease) × (Leases.get lease_id s.db ≡ some lease)
      × (lease.owner_id ≡ owner_id)
      × (lease.status ≡ active)
      × (now s < lease.expires_at)
unfolding renew release complete
perform-updated action lease_id owner_id s {result} h k =
    elim (Option-cases (Leases.get lease_id s.db)) [
      | inl e ↦ absurd (refute action e h)
      | inr (lease, e) ↦ let (a, b, c) = facts action lease e h in (lease, e, a, b, c)
    ]
  where
    refute :
        (action : LeaseAction)
        → Leases.get lease_id s.db ≡ none
        → (perform action lease_id owner_id s).0 ≡ return result
        → ⊥
    refute (renewal d) e h = ground (arith, e, h, k)
    refute _ e h = ground (arith, e, h, k)

    facts :
        (action : LeaseAction) (lease : TaskLease)
        → Leases.get lease_id s.db ≡ some lease
        → (perform action lease_id owner_id s).0 ≡ return result
        → (lease.owner_id ≡ owner_id) × (lease.status ≡ active) × (now s < lease.expires_at)
    facts (renewal d) lease e h = ground (arith, e, h, k)
    facts _ lease e h = ground (arith, e, h, k)

-- A lease that is released or completed leaves its task without an active lease.
pub record IsFreed (task_id : ℕ) (s : Session) : Type 0 where
  pub unheld : count (Leases.holds task_id) s.db.leases ≡ 0
  pub unowned : (owner_id : ℕ) → has_valid_lease task_id owner_id s ≡ false

pub unheld-IsFreed :
    (task_id : ℕ) (s : Session) → count (Leases.holds task_id) s.db.leases ≡ 0 → IsFreed task_id s
unfolding has_valid_lease Leases.active_for_task
unheld-IsFreed task_id s h = record {
  unheld = h;
  unowned = λ owner_id.
      ground (arith, first-empty (Leases.holds task_id) Leases.acquired_last s.db.leases h);
}

module _ (f : TaskLease → TaskLease) (ends : (l : TaskLease) → is_active (f l).status ≡ false) where
  pub ended-unheld :
      (db : Db) (lease_id : ℕ) (lease : TaskLease)
      → WellFormed db
      → Leases.get lease_id db ≡ some lease
      → lease.status ≡ active
      → count (Leases.holds lease.task_id) (Leases.set_lease lease_id f db).leases ≡ 0
  ended-unheld db lease_id lease w e a = omega (
    arith,
    w.one_holder lease.task_id,
    count-modify-lt Leases.lease_key (Leases.holds lease.task_id) lease_id f db.leases lease
        (λ l. ground (arith, ends l)) (find-Elem Leases.lease_key lease_id db.leases e)
        (ground (arith, a)) (find-key Leases.lease_key lease_id db.leases e),
  )

-- On well-formed tables, releasing or completing a lease, where it answers UPDATED, leaves the
-- task of the lease without an active lease and without a valid one for any owner.
pub finish-IsFreed :
    (action : LeaseAction) (lease_id owner_id : ℕ) (s : Session) {lease : TaskLease}
    {result : LeaseActionResult}
    → WellFormed s.db
    → is_finish action ≡ true
    → (perform action lease_id owner_id s).0 ≡ return result
    → result.status ≡ updated
    → Leases.get lease_id s.db ≡ some lease
    → IsFreed lease.task_id (perform action lease_id owner_id s).1
unfolding release complete
finish-IsFreed (renewal d) lease_id owner_id s w f h k e = cc
finish-IsFreed releasing lease_id owner_id s {lease} {result} w f h k e =
    unheld-IsFreed lease.task_id _ (
      ground (
        arith,
        e,
        h,
        k,
        find-key Leases.lease_key lease_id s.db.leases e,
        ended-unheld (mark_released (now s)) (λ l. refl) s.db lease_id lease w e,
      ))
finish-IsFreed completing lease_id owner_id s {lease} {result} w f h k e =
    unheld-IsFreed lease.task_id _ (
      ground (
        arith,
        e,
        h,
        k,
        find-key Leases.lease_key lease_id s.db.leases e,
        ended-unheld (mark_completed (now s)) (λ l. refl) s.db lease_id lease w e,
      ))
