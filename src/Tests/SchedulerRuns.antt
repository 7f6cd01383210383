-- ===== src/Tests/SchedulerRuns.antt =====
-- Jobs of the scheduler (web/src/app/(panel)/scheduler). A JSON value is a number here, whose text
-- is one digit.
use mathlib.Core.List.{Memᴰ}
use mathlib.Core.Option
use zte_u60_pro_mu5250_manag.Common.{
  ap, ◌++◌, ◌%◌, ℕ, ◌+◌, ◌-◌, ◌*◌, ◌/◌, ◌≡◌, refl, Bool, true, false, Option, none, some, List, [],
  ◌∷◌, arith,
}
use zte_u60_pro_mu5250_manag.Common.Texts.{Text, codes, trim}
use zte_u60_pro_mu5250_manag.Scheduler.Jobs.{Schedule, Action, Job, is_tier3}
use zte_u60_pro_mu5250_manag.Scheduler.Form.{form_from_job, submit, is_allowed_path}
use zte_u60_pro_mu5250_manag.Scheduler.Writes.{ask_toggle, find_job}
use zte_u60_pro_mu5250_manag.Scheduler.Agent.{carry_out}
use zte_u60_pro_mu5250_manag.Scheduler.Armed.{Offered, armed_needs_tier3}
use zte_u60_pro_mu5250_manag.Scheduler.Saved.{IsEarly, submit-form_from_job, to_minute}

abbrev action : Text → Text → Action ℕ
action method path = record { method = method; path = path; body = some 7 }

abbrev job : ℕ → Bool → Action ℕ → Job ℕ
job id enabled a = record {
  id = id;
  name = codes "Night";
  enabled = enabled;
  schedule = Schedule.once 1700000050;
  action = a;
  restore = none;
}

abbrev reboot : Action ℕ
reboot = action (codes "POST") (codes "/api/device/reboot")

abbrev wifi : Action ℕ
wifi = action (codes "PUT") (codes "/api/router/wifi")

abbrev jobs : List (Job ℕ)
jobs = job 1 true reboot ∷ job 2 false wifi ∷ []

tier_runs :
    (is_tier3 (codes "get") (codes "/api/device/reboot") ≡ false)
    × (is_tier3 (codes "delete") (codes "/api/sms/forward/rules?x") ≡ true)
    × (is_tier3 (codes "POST") (codes "/api/router/wifi") ≡ false)
unfolding is_tier3
tier_runs = (refl, refl, refl)

abbrev always : Action ℕ → Schedule → Bool
always a s = true

abbrev may_run : Action ℕ → Bool
may_run a = true

armed_needs_tier3_example : Memᴰ (job 1 true reboot) jobs
unfolding find_job ask_toggle carry_out is_tier3
armed_needs_tier3_example =
    armed_needs_tier3 always may_run jobs (ask_toggle (job 2 false wifi) true) (job 1 true reboot)
      (Offered.toggles (job 2 false wifi) true refl) refl (Memᴰ.head refl) refl

abbrev parse : Text → Option ℕ
parse (c ∷ []) = some (c - 48)
parse s = none

abbrev show : ℕ → Text
show n = (48 + n) ∷ []

abbrev never_null : ℕ → Bool
never_null n = false

-- A minute in sixteen characters.
abbrev minute : ℕ → Text
minute m = m ∷ 48 ∷ 48 ∷ 48 ∷ 48 ∷ 48 ∷ 48 ∷ 48 ∷ 48 ∷ 48 ∷ 48 ∷ 48 ∷ 48 ∷ 48 ∷ 48 ∷ 48 ∷ []

abbrev second : ℕ → Text
second n = n ∷ []

abbrev iso : ℕ → Option Text
iso ms = some (minute (ms / 1000 / 60) ++ second (ms / 1000 % 60))

abbrev parse_date : Text → ℕ
parse_date (m ∷ s) = m * 60 * 1000
parse_date [] = 0

iso_prints : (t : ℕ) → IsEarly t → iso (t * 1000) ≡ some (minute (t / 60) ++ second (t % 60))
iso_prints t h =
    let seconds : t * 1000 / 1000 ≡ t = omega arith in
    ap (λ n. some (minute (n / 60) ++ second (n % 60))) seconds

submit-form_from_job_example :
    Option.map (submit parse parse_date) (form_from_job show never_null iso (job 2 false wifi))
    ≡ some (some (wifi, to_minute (Schedule.once 1700000050)))
unfolding trim is_allowed_path
submit-form_from_job_example =
    submit-form_from_job iso parse_date minute second (λ m h. refl) iso_prints (λ m h. refl) parse
      show never_null (job 2 false wifi) refl refl refl (refl, refl, refl) refl (omega arith)
