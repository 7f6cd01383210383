-- ===== src/Esim/Jobs.antt =====
-- Jobs of the eSIM card, and the loop that waits for one (web/src/app/(panel)/router/esim/page.tsx,
-- web/src/lib/api/schemas/esim.ts). A poll is what the request for the job answers, and the time at
-- which the loop looks at the clock after it.
use zte_u60_pro_mu5250_manag.Common.{
  ℕ, zero, suc, ◌+◌, Bool, true, false, ◌&&◌, Option, none, some, ltb, ◌==◌, get_or_else, [], ◌∷◌,
}
use zte_u60_pro_mu5250_manag.Common.Texts.{Text, codes}

pub data JobStatus : Type 0 where
  idle running done error : JobStatus

-- A job, without its kind and its times.
pub record EsimJob : Type 0 where
  pub id : ℕ
  pub status : JobStatus
  pub message : Text
  pub iccid : Text
  pub rebooting : Bool
  pub reason : Option Text

pub data JobAnswer {ℓ} (E : Type ℓ) : Type ℓ where
  request_failed : E → JobAnswer E
  answered : EsimJob → JobAnswer E

pub record Poll {ℓ} (E : Type ℓ) : Type ℓ where
  pub answer : JobAnswer E
  pub at : ℕ

-- What `runJob` returns or throws: `EsimJobError` has the message and the reason of the job.
pub data JobEnd {ℓ} (E : Type ℓ) : Type ℓ where
  returned : EsimJob → JobEnd E
  job_error : Text → Text → JobEnd E
  request_error : E → JobEnd E
  time_out : ℕ → JobEnd E

abbrev pub is_done_job : JobStatus → Bool
is_done_job JobStatus.done = true
is_done_job _ = false

abbrev pub is_error : JobStatus → Bool
is_error JobStatus.error = true
is_error _ = false

abbrev pub job_failed : Text
job_failed = codes "job failed"

-- `j.message || "job failed"`.
abbrev pub message_or : Text → Text
message_or [] = job_failed
message_or (c ∷ m) = c ∷ m

abbrev pub first_of {ℓ} : {A : Type ℓ} → Option A → Option A → Option A
first_of none o = o
first_of (some a) o = some a

module _ {ℓ} {E : Type ℓ} where
  -- The first of four ends whose test holds.
  abbrev pub first_end :
      Bool → Bool → Bool → Bool → JobEnd E → JobEnd E → JobEnd E → JobEnd E → Option (JobEnd E)
  first_end true b c d w x y z = some w
  first_end false true c d w x y z = some x
  first_end false false true d w x y z = some y
  first_end false false false true w x y z = some z
  first_end false false false false w x y z = none

  -- One pass of the loop, of the job that was started, the end of the time and the limit: how it
  -- ends the loop, if it does.
  abbrev pub answer_end : ℕ → Bool → ℕ → JobAnswer E → Option (JobEnd E)
  answer_end started late limit (JobAnswer.request_failed e) = some (JobEnd.request_error e)
  answer_end started late limit (JobAnswer.answered j) =
      first_end ((j.id == started) && is_done_job j.status) ((j.id == started) && is_error j.status)
        (ltb started j.id) late (JobEnd.returned j)
        (JobEnd.job_error (message_or j.message) (get_or_else j.reason []))
        (JobEnd.returned (record j { rebooting = false })) (JobEnd.time_out limit)

  unfoldable pub pass_end : ℕ → ℕ → ℕ → Poll E → Option (JobEnd E)
  pass_end started until limit p = answer_end started (ltb until p.at) limit p.answer

  -- The loop from a pass on; none where the passes that are given are used up.
  unfoldable pub poll_until :
      ℕ → (Poll E → Option (JobEnd E)) → (ℕ → Poll E) → ℕ → Option (JobEnd E)
  poll_until zero ends polls n = none
  poll_until (suc fuel) ends polls n =
      let rest = poll_until fuel ends polls (suc n) in first_of (ends (polls n)) rest

  -- `runJob` of a job that was started at `now`.
  unfoldable pub run_job : ℕ → ℕ → ℕ → ℕ → (ℕ → Poll E) → Option (JobEnd E)
  unfolding pass_end poll_until
  run_job fuel started now limit polls =
      poll_until fuel (pass_end started (now + limit) limit) polls 0
