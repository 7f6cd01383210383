-- ===== src/Scheduler/Saved.antt =====
-- Jobs that are edited (web/src/app/(panel)/scheduler/page.tsx).
use zte_u60_pro_mu5250_manag.Common.{
  ℕ, zero, suc, ◌*◌, ◌/◌, ◌<◌, ◌++◌, ap, length, take, arith, ◌∷◌, ◌-◌, ◌%◌, ◌≡◌, refl, Bool, true,
  false, Option, none, some, List, [], if◌then◌else◌, ◌==◌, bool_eq_refl,
}
use mathlib.Core.Option
use zte_u60_pro_mu5250_manag.Common.Texts.{codes, Text, trim, text_eq_refl}
use zte_u60_pro_mu5250_manag.Scheduler.Jobs.{Schedule, Action, Job}
use zte_u60_pro_mu5250_manag.Scheduler.Form.{
  problems, checked_body, to_action, to_schedule, form_from_job, submit, is_blank, to_wall_input,
  from_wall_input, is_allowed_path, is_time, empty_form, shown_body, with_schedule, body_problems,
}
use zte_u60_pro_mu5250_manag.Scheduler.Writes.{check_updated, find_job}

-- A schedule that the form can show: a time of day, or a moment other than 0.
abbrev pub IsShownSchedule : Schedule → Type 0
IsShownSchedule (Schedule.recurring time days) = is_time time ≡ true
IsShownSchedule (Schedule.once at) = (at == 0) ≡ false

abbrev pub to_minute : Schedule → Schedule
to_minute (Schedule.recurring time days) = Schedule.recurring time days
to_minute (Schedule.once at) = Schedule.once (at - at % 60)

module _ {ℓ} {J : Type ℓ} where
  -- A read-back list that still has the job as it was passes the check of an edit that keeps its name,
  -- method and path, whatever the edit's schedule and body are.
  pub check_updated-unchanged :
      (jobs : List (Job J)) (job : Job J) (action : Action J)
      → find_job job.id jobs ≡ some job
      → action.method ≡ job.action.method
      → action.path ≡ job.action.path
      → check_updated job job.name action jobs ≡ true
  unfolding check_updated
  check_updated-unchanged jobs job action h m p =
      rw
        (
          h,
          m,
          p,
          text_eq_refl job.name,
          text_eq_refl job.action.method,
          text_eq_refl job.action.path,
          bool_eq_refl job.enabled,
        )
        refl

module _ {ℓ} {J : Type ℓ} (parse : Text → Option J) (show : J → Text) (is_null : J → Bool) where
  -- A body that the form shows again: not null, and its text is read as the body.
  abbrev pub IsShownBody : Option J → Type ℓ
  IsShownBody none = Unit
  IsShownBody (some j) =
      (is_null j ≡ false) × (is_blank (trim (show j)) ≡ false) × (parse (show j) ≡ some j)

  body_again :
      (b : Option J)
      → IsShownBody b
      → (if is_blank (trim (shown_body show is_null b))
          then none
          else parse (shown_body show is_null b))
        ≡ b
  unfolding trim
  body_again none h = refl
  body_again (some j) (n, s, p) = rw (n, s, p) refl

  no_body_problem :
      (b : Option J)
      → IsShownBody b
      → (if is_blank (trim (shown_body show is_null b))
          then []
          else body_problems parse (shown_body show is_null b) (parse (shown_body show is_null b)))
        ≡ []
  unfolding trim
  no_body_problem none h = refl
  no_body_problem (some j) (n, s, p) = rw (n, s, p) refl

-- Before year 10000.
abbrev pub IsEarly : ℕ → Type 0
IsEarly t = t < 253402300800

abbrev pub IsEarlySchedule : Schedule → Type 0
IsEarlySchedule (Schedule.recurring time days) = Unit
IsEarlySchedule (Schedule.once at) = IsEarly at

length-not_blank : (s : Text) → 0 < length s → is_blank s ≡ false
length-not_blank [] h = absurd (omega arith)
length-not_blank (c ∷ s) h = refl

take-all : (n : ℕ) (s t : Text) → length s ≡ n → take n (s ++ t) ≡ s
take-all zero [] t h = refl
take-all zero (c ∷ s) t h = absurd (omega (arith, h))
take-all (suc n) [] t h = absurd (omega (arith, h))
take-all (suc n) (c ∷ s) t h = ap (λ r. c ∷ r) (take-all n s t (omega (arith, h)))

module _ (iso : ℕ → Option Text) (parse_date : Text → ℕ) (minute second : ℕ → Text)
    (sixteen : (m : ℕ) → IsEarly (m * 60) → length (minute m) ≡ 16)
    (prints : (t : ℕ) → IsEarly t → iso (t * 1000) ≡ some (minute (t / 60) ++ second (t % 60)))
    (reads : (m : ℕ)
      → IsEarly (m * 60)
      → parse_date (minute m ++ codes ":00Z") ≡ m * 60 * 1000) where
  -- A moment before year 10000 is shown to the minute.
  pub to_wall_input_lem : (t : ℕ) → IsEarly t → to_wall_input iso t ≡ some (minute (t / 60))
  unfolding to_wall_input
  to_wall_input_lem t h = rw (prints t h) (
      ap some
        (take-all 16 (minute (t / 60)) (second (t % 60)) (sixteen (t / 60) (omega (arith, h)))))

  from_wall_input_lem :
      (t : ℕ) → IsEarly t → from_wall_input parse_date (minute (t / 60)) ≡ t - t % 60
  unfolding from_wall_input
  from_wall_input_lem t h = omega (arith, reads (t / 60) (omega (arith, h)))

  module _ {ℓ} {J : Type ℓ} (parse : Text → Option J) (show : J → Text) (is_null : J → Bool) where
    submit-form_with :
        (job : Job J) (s : Schedule)
        → is_blank (trim job.name) ≡ false
        → trim job.action.path ≡ job.action.path
        → is_allowed_path job.action.path ≡ true
        → IsShownBody parse show is_null job.action.body
        → IsShownSchedule s
        → IsEarlySchedule s
        → Option.map (submit parse parse_date) (
            with_schedule iso s (record empty_form {
              name = job.name;
              method = job.action.method;
              path = job.action.path;
              body_str = shown_body show is_null job.action.body;
            }))
          ≡ some (some (job.action, to_minute s))
    unfolding submit problems checked_body to_action to_schedule
    submit-form_with job (Schedule.recurring time days) n t p b s w =
        rw
          (
            n,
            t,
            p,
            no_body_problem parse show is_null job.action.body b,
            s,
            body_again parse show is_null job.action.body b,
          )
          refl
    submit-form_with job (Schedule.once at) n t p b s w =
        let in_year : IsEarly (at / 60 * 60) = omega (arith, w) in
        rw
          (
            s,
            to_wall_input_lem at w,
            n,
            t,
            p,
            no_body_problem parse show is_null job.action.body b,
            length-not_blank (minute (at / 60)) (omega (arith, sixteen (at / 60) in_year)),
            body_again parse show is_null job.action.body b,
            from_wall_input_lem at w,
          )
          refl

    -- A job that is opened for editing and saved as it is shown sends the same request at the same
    -- time, a moment being cut to its minute: where the form can show the job's body and schedule, its
    -- path is trimmed and allowed, its name is not blank, and its moment is before year 10000. Of the
    -- browser's `Date` up to then: an ISO text is the 16 characters of its date and minute and then the
    -- seconds, and those 16 with `:00Z` are read as the start of that minute.
    pub submit-form_from_job :
        (job : Job J)
        → is_blank (trim job.name) ≡ false
        → trim job.action.path ≡ job.action.path
        → is_allowed_path job.action.path ≡ true
        → IsShownBody parse show is_null job.action.body
        → IsShownSchedule job.schedule
        → IsEarlySchedule job.schedule
        → Option.map (submit parse parse_date) (form_from_job show is_null iso job)
          ≡ some (some (job.action, to_minute job.schedule))
    unfolding form_from_job
    submit-form_from_job job = submit-form_with job job.schedule
