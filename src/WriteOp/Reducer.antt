-- ===== src/WriteOp/Reducer.antt =====
-- `writeOpReducer` (web/src/lib/api/writeOp.ts): one function for each event that has conditions.
-- A field that the source leaves out of an object or sets to `undefined` is `none`.
use zte_u60_pro_mu5250_manag.Common.{
  ℕ, ◌+◌, Bool, true, false, ◌&&◌, ◌||◌, not, Option, none, some, List, [], ◌∷◌, String, map,
  if◌then◌else◌, ◌==◌, any, modify, length, filter,
}
use zte_u60_pro_mu5250_manag.WriteOp.State.{
  Tier, Phase, StepStatus, ErrorKind, ReloginFor, StepState, WaitInfo, WaitTimes, WriteOpState,
  initial_write_op, During, StepFailure, VerifyFailure, WriteOpEvent, busy_phase, resubmittable,
  is_submitting, is_confirming, is_waiting, is_relogin, is_reading_back, is_done, is_tier1,
}

-- A step as `start` makes it.
abbrev pub fresh_step : String → StepState
fresh_step l = record { label = l; status = StepStatus.pending; error = none }

-- `{ ...s, status }` and `{ ...s, status, error }`.
abbrev pub with_status : StepStatus → StepState → StepState
with_status st x = record x { status = st }

abbrev pub with_error : StepStatus → Option String → StepState → StepState
with_error st e x = record x { status = st; error = e }

-- What a new run makes of a step: done steps stay, the others are pending again.
abbrev pub restart_step : StepState → StepState
restart_step x = if is_done x.status then x else fresh_step x.label

unfoldable pub start_run : WriteOpState → WriteOpState
start_run s = record s {
  phase = Phase.submitting;
  steps = map restart_step s.steps;
  current = none;
  error = none;
  error_en = none;
  error_kind = none;
  relogin_for = none;
  wait = none;
  recovery = none;
  run_id = s.run_id + 1;
}

unfoldable pub on_start : WriteOpState → Tier → List String → WriteOpState
on_start s tier labels = if busy_phase s.phase then s else (record initial_write_op {
  tier = tier;
  steps = map fresh_step labels;
  run_id = s.run_id + 1;
  phase = if is_tier1 tier then Phase.submitting else Phase.confirming;
})

-- `s.steps.some((st, j) => j !== e.index && st.status === "done")`.
unfoldable pub done_elsewhere : List StepState → ℕ → Bool
done_elsewhere [] i = false
done_elsewhere (x ∷ xs) Prim.Native.Nat.zero = any (λ y. is_done y.status) xs
done_elsewhere (x ∷ xs) (Prim.Native.Nat.suc i) = is_done x.status || done_elsewhere xs i

-- `base` of a step's error.
abbrev pub error_base : WriteOpState → StepFailure → WriteOpState
error_base s e = record s {
  current = none;
  error = some e.message;
  error_en = e.message_en;
  error_kind = some e.kind;
}

-- The wait that a dropped last request begins.
abbrev pub dropped_wait : ℕ → WaitTimes → WaitInfo
dropped_wait now w = record {
  started_at = now;
  expected_sec = w.expected_sec;
  timeout_sec = w.timeout_sec;
  saw_down = true;
  submit_unconfirmed = true;
}

-- The cases `timeout` and `network`: the device may have acted on the request.
unfoldable pub on_dropped : WriteOpState → StepFailure → Option WaitTimes → WriteOpState
unfolding done_elsewhere
on_dropped s e none = record (error_base s e) {
  phase = if done_elsewhere s.steps e.index then Phase.partial else Phase.unknown;
  steps = modify s.steps e.index (with_error StepStatus.unconfirmed (some e.message));
}
on_dropped s e (some w) =
    if e.index + 1 == length s.steps
    then record (error_base s e) {
      phase = Phase.wait_device;
      steps = modify s.steps e.index (with_error StepStatus.unconfirmed (some e.message));
      wait = some (dropped_wait e.now w);
    }
    else (record (error_base s e) {
      phase = if done_elsewhere s.steps e.index then Phase.partial else Phase.unknown;
      steps = modify s.steps e.index (with_error StepStatus.unconfirmed (some e.message));
    })

-- The `default` case: the device refused the step.
unfoldable pub on_refused : WriteOpState → StepFailure → WriteOpState
unfolding done_elsewhere
on_refused s e = record (error_base s e) {
  phase = if done_elsewhere s.steps e.index then Phase.partial else Phase.failed;
  steps = modify s.steps e.index (with_error StepStatus.failed (some e.message));
}

-- The `switch (e.kind)` of `stepError`.
unfoldable pub on_kind : WriteOpState → StepFailure → ErrorKind → WriteOpState
unfolding on_dropped on_refused start_run
on_kind s e ErrorKind.unauthorized = record (error_base s e) {
  phase = Phase.relogin;
  relogin_for = some ReloginFor.submit;
  steps = modify s.steps e.index (with_status StepStatus.pending);
}
on_kind s e ErrorKind.stale_unauthorized =
    let steps = modify s.steps e.index (with_status StepStatus.pending) in
    if is_tier1 s.tier
    then start_run (record s { steps = steps })
    else record (error_base s e) { phase = Phase.resubmit_ready; steps = steps }
on_kind s e ErrorKind.timeout = on_dropped s e e.wait
on_kind s e ErrorKind.network = on_dropped s e e.wait
on_kind s e _ = on_refused s e

unfoldable pub on_step_error : WriteOpState → StepFailure → WriteOpState
unfolding on_kind
on_step_error s e = if is_submitting s.phase then on_kind s e e.kind else s

unfoldable pub on_steps_done : WriteOpState → ℕ → Bool → Option WaitTimes → WriteOpState
on_steps_done s now has_verify none =
    if is_submitting s.phase
    then record s { current = none; phase = if has_verify then Phase.verifying else Phase.accepted }
    else s
on_steps_done s now has_verify (some w) =
    if is_submitting s.phase
    then record s {
      current = none;
      phase = Phase.wait_device;
      wait = some (record {
        started_at = now;
        expected_sec = w.expected_sec;
        timeout_sec = w.timeout_sec;
        saw_down = false;
        submit_unconfirmed = false;
      });
    }
    else s

abbrev pub mark_down : Option WaitInfo → Option WaitInfo
mark_down none = none
mark_down (some w) = some (record w { saw_down = true })

-- `probe`: a wait that has seen the device down already is left alone.
unfoldable pub on_probe : WriteOpState → Bool → WriteOpState
on_probe s ok = if is_waiting s.phase && not ok then record s { wait = mark_down s.wait } else s

-- `s.wait?.submitUnconfirmed`.
abbrev pub was_dropped : Option WaitInfo → Bool
was_dropped none = false
was_dropped (some w) = w.submit_unconfirmed

-- The phase after the device is back, with no readback.
unfoldable pub phase_back : WriteOpState → Phase
phase_back s =
    if not (was_dropped s.wait)
    then Phase.accepted
    else if any (λ x. is_done x.status) s.steps
    then Phase.partial
    else Phase.unknown

unfoldable pub on_back : WriteOpState → Bool → WriteOpState
unfolding phase_back
on_back s has_verify =
    if is_waiting s.phase
    then record s { phase = if has_verify then Phase.verifying else phase_back s }
    else s

-- A readback that shows the change confirms the unconfirmed steps.
abbrev pub confirm_step : StepState → StepState
confirm_step x = elim x.status [
  | StepStatus.unconfirmed ↦ record { label = x.label; status = StepStatus.done; error = none }
  | _ ↦ x
]

-- One that does not makes the done steps unconfirmed.
abbrev pub doubt_step : StepState → StepState
doubt_step x =
    if is_done x.status
    then record { label = x.label; status = StepStatus.unconfirmed; error = none }
    else x

unfoldable pub on_verify_result : WriteOpState → Bool → WriteOpState
on_verify_result s ok =
    if is_reading_back s.phase
    then if ok
      then record s {
        phase = Phase.applied;
        error = none;
        error_en = none;
        error_kind = none;
        steps = map confirm_step s.steps;
      }
      else record s {
        phase = Phase.failed;
        error_kind = some ErrorKind.mismatch;
        error = some "readback does not show the change";
        error_en = none;
        steps = map doubt_step s.steps;
      }
    else s

-- The rest of `verifyError`, once the phase is checked.
unfoldable pub on_failed_readback : WriteOpState → VerifyFailure → ErrorKind → During → WriteOpState
on_failed_readback s e ErrorKind.unauthorized _ = record s {
  phase = Phase.relogin;
  relogin_for = some ReloginFor.verify;
  error = some e.message;
  error_en = e.message_en;
  error_kind = some e.kind;
}
on_failed_readback s e _ During.wait = s
on_failed_readback s e _ During.reconfirm = s
on_failed_readback s e ErrorKind.stale_unauthorized During.verify = s
on_failed_readback s e _ During.verify = record s {
  phase = Phase.unknown;
  error = some e.message;
  error_en = e.message_en;
  error_kind = some e.kind;
}

unfoldable pub on_verify_error : WriteOpState → VerifyFailure → WriteOpState
unfolding on_failed_readback
on_verify_error s e = if is_reading_back s.phase then on_failed_readback s e e.kind e.during else s

-- A login in the phase `relogin`.
unfoldable pub after_login : WriteOpState → Option ReloginFor → WriteOpState
unfolding start_run
after_login s (some ReloginFor.verify) = record s {
  phase = Phase.verifying;
  relogin_for = none;
  error = none;
  error_en = none;
  error_kind = none;
  run_id = s.run_id + 1;
}
after_login s _ =
    if is_tier1 s.tier
    then start_run s
    else record s { phase = Phase.resubmit_ready; relogin_for = none }

unfoldable pub on_login : WriteOpState → WriteOpState
unfolding after_login
on_login s = if is_relogin s.phase then after_login s s.relogin_for else s

unfoldable pub write_op_reducer : WriteOpState → WriteOpEvent → WriteOpState
unfolding on_start on_step_error on_steps_done on_probe on_back on_verify_result on_verify_error
    on_login start_run
write_op_reducer s (WriteOpEvent.start tier labels) = on_start s tier labels
write_op_reducer s WriteOpEvent.confirm =
    if is_confirming s.phase then record s { phase = Phase.submitting } else s
write_op_reducer s WriteOpEvent.cancel =
    if is_confirming s.phase then record s { phase = Phase.idle } else s
write_op_reducer s (WriteOpEvent.step_start i) =
    if is_submitting s.phase
    then record s {
      current = some i;
      steps = modify s.steps i (with_error StepStatus.running none);
    }
    else s
write_op_reducer s (WriteOpEvent.step_ok i) =
    if is_submitting s.phase
    then record s { steps = modify s.steps i (with_status StepStatus.done) }
    else s
write_op_reducer s (WriteOpEvent.step_error e) = on_step_error s e
write_op_reducer s (WriteOpEvent.steps_done now has_verify wait) =
    on_steps_done s now has_verify wait
write_op_reducer s (WriteOpEvent.probe ok) = on_probe s ok
write_op_reducer s (WriteOpEvent.back has_verify) = on_back s has_verify
write_op_reducer s (WriteOpEvent.verify_result ok) = on_verify_result s ok
write_op_reducer s (WriteOpEvent.verify_error e) = on_verify_error s e
write_op_reducer s (WriteOpEvent.wait_timeout recovery) =
    if is_waiting s.phase then record s { phase = Phase.wait_timeout; recovery = recovery } else s
write_op_reducer s WriteOpEvent.login = on_login s
write_op_reducer s WriteOpEvent.resubmit = if resubmittable s.phase then start_run s else s
write_op_reducer s WriteOpEvent.reset = record initial_write_op { run_id = s.run_id + 1 }

-- `summarizeSteps`: the labels of the done steps and of the others.
unfoldable pub summarize_steps : WriteOpState → List String × List String
summarize_steps s = (
  map (λ x. x.label) (filter (λ x. is_done x.status) s.steps),
  map (λ x. x.label) (filter (λ x. not (is_done x.status)) s.steps),
)
