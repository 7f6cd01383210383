-- ===== src/Tests/EsimRuns.antt =====
-- The eSIM card (web/src/app/(panel)/router/esim/page.tsx).
use zte_u60_pro_mu5250_manag.Common.{
  ℕ, zero, suc, ◌+◌, ◌*◌, ◌≡◌, refl, true, false, some, none, [], ◌∷◌, arith, String,
}
use zte_u60_pro_mu5250_manag.Common.Texts.{codes}
use zte_u60_pro_mu5250_manag.Esim.Jobs.{
  JobStatus, EsimJob, JobAnswer, Poll, JobEnd, run_job, pass_end,
}
use zte_u60_pro_mu5250_manag.Esim.JobEnds.{IsFirst, IsPaced, run_job-ends, run_job-rebooting}
use zte_u60_pro_mu5250_manag.Esim.Page.{
  EsimProfile, NickRequest, NickAsked, NickEdit, ask_nickname, verify_nickname, ask_download,
  find_profile,
}
use zte_u60_pro_mu5250_manag.Esim.Nickname.{rename, ask_nickname-rename}

abbrev job : ℕ → JobStatus → EsimJob
job id status = record {
  id = id;
  status = status;
  message = [];
  iccid = codes "8986";
  rebooting = true;
  reason = none;
}

abbrev status_at : ℕ → JobStatus
status_at zero = JobStatus.running
status_at (suc zero) = JobStatus.running
status_at _ = JobStatus.done

-- A poll each second and a half, of job 7, which is done at the third.
abbrev polls : ℕ → Poll String
polls n = record { answer = JobAnswer.answered (job 7 (status_at n)); at = 1500 * n + 1500 }

polls-IsPaced : IsPaced 1500 polls
polls-IsPaced n = omega arith

run_job-ends_example :
    (e : JobEnd String) × (run_job 81 7 0 120000 polls ≡ some e)
    × IsFirst (pass_end 7 120000 120000) polls 0 e
run_job-ends_example =
    run_job-ends 1500 80 7 0 120000 polls polls-IsPaced (omega arith) (omega arith)

done_run : run_job 81 7 0 120000 polls ≡ some (JobEnd.returned (job 7 JobStatus.done))
unfolding run_job
done_run = refl

-- A newer job in the slot is returned without its restart.
newer_run :
    run_job 81 6 0 120000 polls
    ≡ some (JobEnd.returned (record (job 7 JobStatus.running) { rebooting = false }))
unfolding run_job
newer_run = refl

run_job-rebooting_example :
    (n : ℕ) × ((polls n).answer ≡ JobAnswer.answered (job 7 JobStatus.done))
    × ((job 7 JobStatus.done).id ≡ 7)
    × ((job 7 JobStatus.done).status ≡ JobStatus.done)
run_job-rebooting_example =
    run_job-rebooting 81 7 0 120000 polls (job 7 JobStatus.done) done_run refl

abbrev profile : EsimProfile
profile = record {
  iccid = codes "8986";
  is_enabled = true;
  nickname = some (codes "Work");
  provider = codes "Telco";
  profile_name = codes "Data";
}

abbrev edit : NickEdit
edit = record { iccid = codes "8986"; nickname = codes " Trip " }

abbrev request : NickRequest
request = record { iccid = codes "8986"; nickname = codes "Trip"; name = codes "Work" }

nick_run : ask_nickname (some edit) profile ≡ NickAsked.asks request
unfolding ask_nickname
nick_run = refl

download_run : ask_download (codes " lpa:2$x") [] none ≡ none
unfolding ask_download
download_run = refl

profile_found : find_profile profile.iccid (profile ∷ []) ≡ some profile
unfolding find_profile
profile_found = refl

ask_nickname-rename_example :
    (request.iccid ≡ profile.iccid)
    × (verify_nickname request (profile ∷ []) ≡ false)
    × (verify_nickname request (rename request (profile ∷ [])) ≡ true)
ask_nickname-rename_example =
    ask_nickname-rename edit profile (profile ∷ []) request nick_run profile_found
