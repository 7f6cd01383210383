-- ===== src/Scheduler/Form.antt =====
-- The form of a job (web/src/app/(panel)/scheduler/page.tsx) and its moments
-- (web/src/lib/deviceClock.ts). `parse` is `JSON.parse`, none where it throws, `show` is
-- `JSON.stringify(…, null, 2)`, `is_null` tells JSON's null. The browser's `Date` is not modelled:
-- `iso` is `new Date(ms).toISOString()`, none where it throws, and `parse_date` is `Date.parse` of a
-- date from 1970 on. The page's date picker gives such a date or the empty text, which `check`
-- refuses.
use zte_u60_pro_mu5250_manag.Common.{
  ℕ, Bool, true, false, ◌&&◌, not, Option, none, some, List, [], ◌∷◌, ◌++◌, if◌then◌else◌, ◌==◌,
  ◌*◌, ◌/◌, take,
}
use mathlib.Core.Option
use zte_u60_pro_mu5250_manag.Common.Texts.{Text, codes, trim, is_digit}
use zte_u60_pro_mu5250_manag.Scheduler.Jobs.{Schedule, Action, Job, starts_with}

pub data SchedType : Type 0 where
  at_once at_times : SchedType

pub record FormState : Type 0 where
  pub name : Text
  pub method : Text
  pub path : Text
  pub body_str : Text
  pub sched_type : SchedType
  pub time : Text
  pub days : List ℕ
  pub once_at : Text

abbrev pub all_days : List ℕ
all_days = 0 ∷ 1 ∷ 2 ∷ 3 ∷ 4 ∷ 5 ∷ 6 ∷ []

abbrev pub empty_form : FormState
empty_form = record {
  name = [];
  method = codes "POST";
  path = [];
  body_str = [];
  sched_type = SchedType.at_times;
  time = codes "03:00";
  days = all_days;
  once_at = [];
}

pub data Problem : Type 0 where
  no_name bad_path bad_body bad_time no_at : Problem

abbrev pub is_blank : Text → Bool
is_blank [] = true
is_blank (c ∷ s) = false

unfoldable pub is_allowed_path : Text → Bool
unfolding starts_with
is_allowed_path p =
    starts_with (codes "/api/") p
    && not (starts_with (codes "/api/scheduler") p)
    && not (starts_with (codes "/api/auth") p)

-- `/^\d{2}:\d{2}$/`.
unfoldable pub is_time : Text → Bool
unfolding is_digit
is_time (a ∷ b ∷ c ∷ d ∷ e ∷ []) = is_digit a && is_digit b && c == 58 && is_digit d && is_digit e
is_time s = false

abbrev pub problem_if : Bool → Problem → List Problem
problem_if b p = if b then p ∷ [] else []

abbrev pub schedule_problems : SchedType → Text → Text → List Problem
schedule_problems SchedType.at_times time once_at = problem_if (not (is_time time)) Problem.bad_time
schedule_problems SchedType.at_once time once_at = problem_if (is_blank once_at) Problem.no_at

abbrev pub no_problems : List Problem → Bool
no_problems [] = true
no_problems (p ∷ ps) = false

-- `toAction`.
unfoldable pub to_action {ℓ} : {J : Type ℓ} → FormState → Option J → Action J
unfolding trim
to_action f body = record { method = f.method; path = trim f.path; body = body }

module _ {ℓ} {J : Type ℓ} (parse : Text → Option J) where
  abbrev pub body_problems : Text → Option J → List Problem
  body_problems s none = Problem.bad_body ∷ []
  body_problems s (some j) = []

  -- The problems of `check`.
  unfoldable pub problems : FormState → List Problem
  unfolding trim is_allowed_path is_time
  problems f =
      let body =
        if is_blank (trim f.body_str) then [] else body_problems f.body_str (parse f.body_str) in
      problem_if (is_blank (trim f.name)) Problem.no_name
      ++ (problem_if (not (is_allowed_path (trim f.path))) Problem.bad_path
          ++ (body ++ schedule_problems f.sched_type f.time f.once_at))

  -- The body of `check`.
  unfoldable pub checked_body : FormState → Option J
  unfolding trim
  checked_body f = if is_blank (trim f.body_str) then none else parse f.body_str

-- `toWallInput`: a moment in seconds as the text of the picker.
unfoldable pub to_wall_input : (ℕ → Option Text) → ℕ → Option Text
to_wall_input iso ts = Option.map (take 16) (iso (ts * 1000))

-- `fromWallInput`.
unfoldable pub from_wall_input : (Text → ℕ) → Text → ℕ
from_wall_input parse_date v = parse_date (v ++ codes ":00Z") / 1000

abbrev pub schedule_of : (Text → ℕ) → SchedType → FormState → Schedule
schedule_of parse_date SchedType.at_once f = Schedule.once (from_wall_input parse_date f.once_at)
schedule_of parse_date SchedType.at_times f = Schedule.recurring f.time f.days

-- `toSchedule`.
unfoldable pub to_schedule : (Text → ℕ) → FormState → Schedule
unfolding from_wall_input
to_schedule parse_date f = schedule_of parse_date f.sched_type f

module _ {ℓ} {J : Type ℓ} (show : J → Text) (is_null : J → Bool) where
  abbrev pub shown_body : Option J → Text
  shown_body none = []
  shown_body (some j) = if is_null j then [] else show j

abbrev once_form : FormState → Text → FormState
once_form f once_at = record f {
  sched_type = SchedType.at_once;
  time = codes "03:00";
  days = all_days;
  once_at = once_at;
}

-- None where `toISOString` throws.
abbrev pub with_schedule : (ℕ → Option Text) → Schedule → FormState → Option FormState
with_schedule iso (Schedule.recurring time days) f =
    some (record f { sched_type = SchedType.at_times; time = time; days = days; once_at = [] })
with_schedule iso (Schedule.once at) f =
    Option.map (once_form f) (if at == 0 then some [] else to_wall_input iso at)

module _ {ℓ} {J : Type ℓ} (show : J → Text) (is_null : J → Bool) (iso : ℕ → Option Text) where
  -- `formFromJob`.
  unfoldable pub form_from_job : Job J → Option FormState
  unfolding to_wall_input
  form_from_job job = with_schedule iso job.schedule (record empty_form {
    name = job.name;
    method = job.action.method;
    path = job.action.path;
    body_str = shown_body show is_null job.action.body;
  })

module _ {ℓ} {J : Type ℓ} (parse : Text → Option J) (parse_date : Text → ℕ) where
  -- `submit`: what is handed on when there are no problems.
  unfoldable pub submit : FormState → Option (Action J × Schedule)
  unfolding problems checked_body to_action to_schedule
  submit f =
      if no_problems (problems parse f)
      then some (to_action f (checked_body parse f), to_schedule parse_date f)
      else none
