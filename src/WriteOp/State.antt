-- ===== src/WriteOp/State.antt =====
-- The state and the events of the write-operation machine (web/src/lib/api/writeOp.ts).
-- Browser times are milliseconds, and `undefined` is `none`.
use zte_u60_pro_mu5250_manag.Common.{ℕ, Bool, true, false, Option, none, List, [], String}

pub data Tier : Type 0 where
  tier1 tier2 tier3 : Tier

pub data Phase : Type 0 where
  idle confirming submitting verifying wait_device applied accepted failed partial unknown relogin
        resubmit_ready wait_timeout :
      Phase

pub data StepStatus : Type 0 where
  pending running done failed unconfirmed : StepStatus

pub data ErrorKind : Type 0 where
  device timeout network unauthorized stale_unauthorized mismatch busy other : ErrorKind

-- What a new login resumes.
pub data ReloginFor : Type 0 where
  submit verify : ReloginFor

pub record StepState : Type 0 where
  pub label : String
  pub status : StepStatus
  pub error : Option String

pub record WaitInfo : Type 0 where
  pub started_at : ℕ
  pub expected_sec : ℕ
  pub timeout_sec : ℕ
  pub saw_down : Bool
  pub submit_unconfirmed : Bool

-- The `wait` of an event, computed by `waitTimes`.
pub record WaitTimes : Type 0 where
  pub expected_sec : ℕ
  pub timeout_sec : ℕ

pub record WriteOpState : Type 0 where
  pub phase : Phase
  pub tier : Tier
  pub steps : List StepState
  pub current : Option ℕ
  pub error : Option String
  pub error_en : Option String
  pub error_kind : Option ErrorKind
  pub relogin_for : Option ReloginFor
  pub wait : Option WaitInfo
  pub recovery : Option String
  pub run_id : ℕ

abbrev pub initial_write_op : WriteOpState
initial_write_op = record {
  phase = Phase.idle;
  tier = Tier.tier1;
  steps = [];
  current = none;
  error = none;
  error_en = none;
  error_kind = none;
  relogin_for = none;
  wait = none;
  recovery = none;
  run_id = 0;
}

-- Where a failed readback was made.
pub data During : Type 0 where
  verify wait reconfirm : During

pub record StepFailure : Type 0 where
  pub index : ℕ
  pub kind : ErrorKind
  pub message : String
  pub message_en : Option String
  pub now : ℕ
  pub wait : Option WaitTimes

pub record VerifyFailure : Type 0 where
  pub kind : ErrorKind
  pub message : String
  pub message_en : Option String
  pub during : During

pub data WriteOpEvent : Type 0 where
  start : Tier → List String → WriteOpEvent
  confirm : WriteOpEvent
  cancel : WriteOpEvent
  step_start : ℕ → WriteOpEvent
  step_ok : ℕ → WriteOpEvent
  step_error : StepFailure → WriteOpEvent
  steps_done : ℕ → Bool → Option WaitTimes → WriteOpEvent
  probe : Bool → WriteOpEvent
  back : Bool → WriteOpEvent
  verify_result : Bool → WriteOpEvent
  verify_error : VerifyFailure → WriteOpEvent
  wait_timeout : Option String → WriteOpEvent
  login : WriteOpEvent
  resubmit : WriteOpEvent
  reset : WriteOpEvent

-- `BUSY_PHASES`: a submission is in flight.
abbrev pub busy_phase : Phase → Bool
busy_phase Phase.submitting = true
busy_phase Phase.verifying = true
busy_phase Phase.wait_device = true
busy_phase _ = false

-- `RESUBMITTABLE`.
abbrev pub resubmittable : Phase → Bool
resubmittable Phase.partial = true
resubmittable Phase.resubmit_ready = true
resubmittable Phase.failed = true
resubmittable _ = false

-- The tests `s.phase === "…"` and `st.status === "…"` of the source.
abbrev pub is_submitting : Phase → Bool
is_submitting Phase.submitting = true
is_submitting _ = false

abbrev pub is_confirming : Phase → Bool
is_confirming Phase.confirming = true
is_confirming _ = false

abbrev pub is_waiting : Phase → Bool
is_waiting Phase.wait_device = true
is_waiting _ = false

abbrev pub is_relogin : Phase → Bool
is_relogin Phase.relogin = true
is_relogin _ = false

abbrev pub is_unknown : Phase → Bool
is_unknown Phase.unknown = true
is_unknown _ = false

abbrev pub is_verifying : Phase → Bool
is_verifying Phase.verifying = true
is_verifying _ = false

-- The phases in which the answer of a readback counts.
abbrev pub is_reading_back : Phase → Bool
is_reading_back Phase.verifying = true
is_reading_back Phase.wait_device = true
is_reading_back Phase.unknown = true
is_reading_back _ = false

abbrev pub is_done : StepStatus → Bool
is_done StepStatus.done = true
is_done _ = false

abbrev pub is_tier1 : Tier → Bool
is_tier1 Tier.tier1 = true
is_tier1 _ = false
