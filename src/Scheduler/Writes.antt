-- ===== src/Scheduler/Writes.antt =====
-- The writes of the scheduler page, and the checks of the jobs that are read back
-- (web/src/app/(panel)/scheduler/page.tsx).
use zte_u60_pro_mu5250_manag.Common.{
  ℕ, Bool, false, ◌&&◌, not, Option, none, some, List, [], ◌∷◌, if◌then◌else◌, ◌==◌, any, bool_eq,
}
use zte_u60_pro_mu5250_manag.Common.Texts.{Text, text_eq, trim}
use zte_u60_pro_mu5250_manag.Scheduler.Jobs.{Schedule, Action, Job, is_tier3}
use zte_u60_pro_mu5250_manag.Scheduler.Form.{FormState}

-- An update sends the whole job: its id, its switch and its restore step are kept.
pub data Request {ℓ} (J : Type ℓ) : Type ℓ where
  create : Text → Action J → Schedule → Request J
  update : Job J → Request J
  toggle : ℕ → Bool → Request J
  delete : ℕ → Request J

pub record Asked {ℓ} (J : Type ℓ) : Type ℓ where
  pub tier : ℕ
  pub request : Request J

abbrev pub tier_if : Bool → ℕ
tier_if b = if b then 3 else 2

module _ {ℓ} {J : Type ℓ} where
  -- `askSave`: a new job, or the job that is edited.
  unfoldable pub ask_save : Option (Job J) → FormState → Action J → Schedule → Asked J
  unfolding is_tier3 trim
  ask_save none f action schedule = record {
    tier = tier_if (is_tier3 action.method action.path);
    request = Request.create (trim f.name) action schedule;
  }
  ask_save (some job) f action schedule = record {
    tier = tier_if (is_tier3 action.method action.path && job.enabled);
    request =
        Request.update (record job { name = trim f.name; action = action; schedule = schedule });
  }

  -- `askToggle` and `askDelete`.
  unfoldable pub ask_toggle : Job J → Bool → Asked J
  unfolding is_tier3
  ask_toggle job on = record {
    tier = tier_if (on && is_tier3 job.action.method job.action.path);
    request = Request.toggle job.id on;
  }

  unfoldable pub ask_delete : Job J → Asked J
  ask_delete job = record { tier = 2; request = Request.delete job.id }

  abbrev pub same_action : Text → Action J → Job J → Bool
  same_action name action j =
      text_eq j.name name
      && text_eq j.action.path action.path
      && text_eq j.action.method action.method

  -- The check of a new job; the id is the one that the device answered with, if it did.
  unfoldable pub check_created : Option ℕ → Text → Action J → List (Job J) → Bool
  unfolding text_eq
  check_created (some id) name action jobs = any (λ j. j.id == id) jobs
  check_created none name action jobs = any (same_action name action) jobs

  unfoldable pub find_job : ℕ → List (Job J) → Option (Job J)
  find_job id [] = none
  find_job id (j ∷ js) = if j.id == id then some j else find_job id js

  abbrev pub job_and : (Job J → Bool) → Option (Job J) → Bool
  job_and test none = false
  job_and test (some j) = test j

  -- The checks of an edited job, of a switch and of a deletion.
  unfoldable pub check_updated : Job J → Text → Action J → List (Job J) → Bool
  unfolding text_eq find_job
  check_updated job name action jobs =
      job_and
        (λ j.
          text_eq j.name name
          && text_eq j.action.method action.method
          && text_eq j.action.path action.path
          && bool_eq j.enabled job.enabled)
        (find_job job.id jobs)

  unfoldable pub check_toggled : Job J → Bool → List (Job J) → Bool
  unfolding find_job
  check_toggled job on jobs = job_and (λ j. bool_eq j.enabled on) (find_job job.id jobs)

  unfoldable pub check_deleted : Job J → List (Job J) → Bool
  check_deleted job jobs = not (any (λ j. j.id == job.id) jobs)
