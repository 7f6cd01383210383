-- ===== src/Scheduler/Checks.antt =====
-- What the scheduler page takes for done when it reads the jobs back
-- (web/src/app/(panel)/scheduler/page.tsx, zte-agent/src/scheduler.rs).
use zte_u60_pro_mu5250_manag.Common.{
  ℕ, ◌≡◌, ◌∙◌, refl, ap, Bool, true, false, not, Option, none, some, List, [], ◌∷◌, if◌then◌else◌,
  ◌==◌, ◌&&◌, Bool-cases, inl, inr, bool_eq, bool_eq_refl, arith,
}
use zte_u60_pro_mu5250_manag.Scheduler.Jobs.{Action, Schedule, Job}
use zte_u60_pro_mu5250_manag.Scheduler.Writes.{ask_toggle, find_job, check_toggled}
use zte_u60_pro_mu5250_manag.Scheduler.Agent.{carry_out, change_job, switch_job, switched}

module _ {ℓ} {J : Type ℓ} where
  find_job-change_job :
      (id : ℕ) (on : Bool) (xs : List (Job J)) (j : Job J)
      → find_job id xs ≡ some j
      → find_job id (change_job id (switched on) xs) ≡ some (switched on j)
  unfolding find_job change_job
  find_job-change_job id on [] j h = absurd cc
  find_job-change_job id on (y ∷ xs) j h = elim (Bool-cases (y.id == id)) [
    | inl same ↦
        let e : some y ≡ some j = ground (arith, h, same) in
        rw (same, same) (ap (λ o. switched_in on o) e)
    | inr other ↦
        let e : find_job id xs ≡ some j = ground (arith, h, other) in
        rw (other, other) (find_job-change_job id on xs j e)
  ]
    where
      switched_in : Bool → Option (Job J) → Option (Job J)
      switched_in on none = none
      switched_in on (some j) = some (switched on j)

  check_of :
      (b : Bool) (job : Job J) (on : Bool) (jobs : List (Job J))
      → find_job job.id jobs ≡ some job
      → bool_eq job.enabled on ≡ false
      → check_toggled job on (if b then jobs else change_job job.id (switched on) jobs) ≡ not b
  unfolding check_toggled
  check_of true job on jobs h e = rw (h, e) refl
  check_of false job on jobs h e = rw (find_job-change_job job.id on jobs job h) (bool_eq_refl on)

  -- A switch of a job that the device holds in the other position reads back as done exactly where the
  -- device has made it: always but for a job that it does not let run.
  pub check_toggled-carry_out :
      (valid : Action J → Schedule → Bool) (may_run : Action J → Bool) (jobs : List (Job J))
      (job : Job J) (on : Bool)
      → find_job job.id jobs ≡ some job
      → bool_eq job.enabled on ≡ false
      → check_toggled job on (carry_out valid may_run (ask_toggle job on).request jobs)
        ≡ not (on && not (may_run job.action))
  unfolding carry_out ask_toggle
  check_toggled-carry_out valid may_run jobs job on h e =
      ap (λ o. check_toggled job on (switch_job may_run job.id on o jobs)) h
      ∙ check_of (on && not (may_run job.action)) job on jobs h e
