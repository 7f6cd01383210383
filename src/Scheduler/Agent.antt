-- ===== src/Scheduler/Agent.antt =====
-- What the device makes of a write of the scheduler page: `jobs_create`, `jobs_update`, `jobs_delete`
-- and `jobs_toggle` of zte-agent/src/scheduler.rs. Its validation, and its rule on what may be switched
-- on, are inputs.
use zte_u60_pro_mu5250_manag.Common.{
  ℕ, ◌+◌, max, Bool, true, not, Option, none, some, List, [], ◌∷◌, ◌++◌, if◌then◌else◌, ◌==◌,
  filter, ◌&&◌,
}
use zte_u60_pro_mu5250_manag.Common.Texts.{Text}
use zte_u60_pro_mu5250_manag.Scheduler.Jobs.{Schedule, Action, Job, is_tier3}
use zte_u60_pro_mu5250_manag.Scheduler.Writes.{Request, find_job}

module _ {ℓ} {J : Type ℓ} where
  unfoldable pub greatest_id : List (Job J) → ℕ
  greatest_id [] = 0
  greatest_id (j ∷ js) = max j.id (greatest_id js)

  -- The first job with the id is changed.
  unfoldable pub change_job : ℕ → (Job J → Job J) → List (Job J) → List (Job J)
  change_job id f [] = []
  change_job id f (j ∷ js) =
      let rest = change_job id f js in if j.id == id then f j ∷ js else j ∷ rest

  abbrev pub new_job : ℕ → Text → Action J → Schedule → Job J
  new_job id name action schedule = record {
    id = id;
    name = name;
    enabled = true;
    schedule = schedule;
    action = action;
    restore = none;
  }

  abbrev pub switched : Bool → Job J → Job J
  switched on j = record j { enabled = on }

  abbrev pub switch_job :
      (Action J → Bool) → ℕ → Bool → Option (Job J) → List (Job J) → List (Job J)
  switch_job may_run id on none jobs = jobs
  switch_job may_run id on (some j) jobs =
      if on && not (may_run j.action) then jobs else change_job id (switched on) jobs

  -- The jobs after a request.
  unfoldable pub carry_out :
      (Action J → Schedule → Bool) → (Action J → Bool) → Request J → List (Job J) → List (Job J)
  unfolding greatest_id change_job find_job
  carry_out valid may_run (Request.create name action schedule) jobs =
      if valid action schedule
      then jobs ++ (new_job (greatest_id jobs + 1) name action schedule ∷ [])
      else jobs
  carry_out valid may_run (Request.update job) jobs =
      if valid job.action job.schedule then change_job job.id (λ j. job) jobs else jobs
  carry_out valid may_run (Request.toggle id on) jobs =
      switch_job may_run id on (find_job id jobs) jobs
  carry_out valid may_run (Request.delete id) jobs = filter (λ j. not (j.id == id)) jobs

  -- A job that is on and sends a request that needs the dialog of tier 3 when it is made by hand.
  abbrev pub armed : Job J → Bool
  armed j = j.enabled && is_tier3 j.action.method j.action.path
