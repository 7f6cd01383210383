-- ===== src/Tests/WriteOpRuns.antt =====
-- Runs of the write-operation controller (web/src/lib/api/writeOp.ts).
use zte_u60_pro_mu5250_manag.Common.{
  ℕ, ◌≤◌, ◌≡◌, refl, inl, true, false, none, some, List, [], ◌∷◌, length, All, arith,
}
use zte_u60_pro_mu5250_manag.Api.Errors.{Thrown}
use zte_u60_pro_mu5250_manag.WriteOp.State.{
  Tier, Phase, StepStatus, WriteOpState, WriteOpEvent, initial_write_op, is_submitting,
}
use zte_u60_pro_mu5250_manag.WriteOp.Reducer.{write_op_reducer}
use zte_u60_pro_mu5250_manag.WriteOp.Consent.{IsClick, submitting-IsClick}
use zte_u60_pro_mu5250_manag.WriteOp.Controller
use zte_u60_pro_mu5250_manag.WriteOp.Controller.{
  WriteOpConfig, Ctl, Task, Outcome, new_ctl, step_done_at,
}
use zte_u60_pro_mu5250_manag.WriteOp.Resume.{resume}
use zte_u60_pro_mu5250_manag.WriteOp.Session.{Input, new_session, run}
use zte_u60_pro_mu5250_manag.WriteOp.StepLists.{IsDone}
use zte_u60_pro_mu5250_manag.WriteOp.Flight.Sessions.{in_flight}
use zte_u60_pro_mu5250_manag.WriteOp.Flight.Histories.{lets_go}
use zte_u60_pro_mu5250_manag.WriteOp.Flight.Safety.{
  single_flight, success-All-IsDone, attached_session, busy_has_task, second_stale_hangs,
}
use zte_u60_pro_mu5250_manag.WriteOp.Flight.Sending.{DoneBelow, resubmit_sends_undone}

-- Two steps with a readback, of tier 1.
abbrev two_steps : WriteOpConfig
two_steps = record {
  tier = Tier.tier1;
  steps = "APN" ∷ "reconnect" ∷ [];
  has_verify = true;
  wait_device = none;
  reconfirm_sec = none;
}

abbrev sent_and_verified : List (ℕ × Input)
sent_and_verified =
    (0, Input.attach)
    ∷ (1, Input.start two_steps)
    ∷ (2, Input.settle 0 (Outcome.gives true))
    ∷ (3, Input.settle 0 (Outcome.gives true))
    ∷ (4, Input.settle 0 (Outcome.gives true))
    ∷ []

applied_after : (run new_session sent_and_verified).ctl.state.phase ≡ Phase.applied
unfolding run write_op_reducer Controller.steps_from Controller.finish_steps Controller.after_settle
    Controller.run_verify Controller.run_steps
applied_after = refl

single_flight_example : length (in_flight (run new_session sent_and_verified)) ≤ 1
single_flight_example = single_flight sent_and_verified

success-All-IsDone_example : All IsDone (run new_session sent_and_verified).ctl.state.steps
success-All-IsDone_example = success-All-IsDone sent_and_verified (inl applied_after)

-- The second step times out: what is done stays done.
abbrev half_sent : List (ℕ × Input)
half_sent =
    (1, Input.start two_steps)
    ∷ (2, Input.settle 0 (Outcome.gives true))
    ∷ (3, Input.settle 0 (Outcome.throws (Thrown.timeout 15000 "timeout")))
    ∷ []

half_sent_partial : (run attached_session half_sent).ctl.state.phase ≡ Phase.partial
unfolding run write_op_reducer Controller.steps_from Controller.finish_steps Controller.after_settle
    Controller.run_verify Controller.run_steps Controller.classify_error Controller.attach
half_sent_partial = refl

resubmit_sends_undone_example :
    let c = (run attached_session half_sent).ctl in (step_done_at c 1 ≡ false) × DoneBelow c 1
unfolding run write_op_reducer Controller.steps_from Controller.finish_steps Controller.after_settle
    Controller.run_verify Controller.run_steps Controller.classify_error Controller.attach
resubmit_sends_undone_example =
    resubmit_sends_undone (run attached_session half_sent).ctl 4 two_steps 2 1 refl

busy_has_task_example :
    length (in_flight (run attached_session ((1, Input.start two_steps) ∷ []))) ≡ 1
unfolding run write_op_reducer Controller.steps_from Controller.run_steps Controller.attach lets_go
busy_has_task_example = busy_has_task ((1, Input.start two_steps) ∷ []) (refl, tt) refl

abbrev verifying_ctl : Ctl
verifying_ctl = record {
  state = record initial_write_op { phase = Phase.verifying };
  cfg = some two_steps;
  attached = 1;
  listening = true;
}

second_stale_hangs_example :
    resume
      (Task.verify_running 0 1)
      verifying_ctl
      (Outcome.throws (Thrown.unauthorized "unauthorized" true))
      9
    ≡ (verifying_ctl, none)
second_stale_hangs_example =
    second_stale_hangs verifying_ctl 1 9 "unauthorized" (omega arith) (omega arith) refl

-- A question that is shown, for an operation of tier 3.
abbrev asked : WriteOpState
asked = record initial_write_op {
  phase = Phase.confirming;
  tier = Tier.tier3;
  steps = record { label = "reboot"; status = StepStatus.pending; error = none } ∷ [];
}

submitting-IsClick_example : IsClick asked WriteOpEvent.confirm
unfolding write_op_reducer
submitting-IsClick_example = submitting-IsClick asked WriteOpEvent.confirm (inl refl) refl (λ e. cc)

abbrev submitting : WriteOpState
submitting = record asked { phase = Phase.submitting }

starts_submitting :
    is_submitting
      (write_op_reducer initial_write_op (WriteOpEvent.start Tier.tier1 ("APN" ∷ []))).phase
    ≡ true
unfolding write_op_reducer
starts_submitting = refl
