-- ===== src/WriteOp/Controller.antt =====
-- `WriteOpController` (web/src/lib/api/writeOp.ts). An async method runs up to its next `await` in
-- one go; what it awaits is a `Task`, and `resume` is the code after that `await`. The closures
-- `run` and `verify`, the probe and the timers are outside: their answers arrive as an `Outcome`.
use zte_u60_pro_mu5250_manag.Common.{
  ℕ, zero, suc, ◌+◌, ◌-◌, ◌*◌, max, Bool, true, false, ◌&&◌, ◌||◌, not, Option, none, some, List,
  String, if◌then◌else◌, ◌==◌, ltb, leb, any, get_elem?, length, get_or_else,
}
use zte_u60_pro_mu5250_manag.Api.Errors.{ApiError, Thrown}
use zte_u60_pro_mu5250_manag.WriteOp.State.{
  Tier, Phase, StepStatus, ErrorKind, WaitInfo, WaitTimes, WriteOpState, initial_write_op, During,
  WriteOpEvent, is_submitting, is_waiting, is_unknown, is_verifying, is_done,
}
use zte_u60_pro_mu5250_manag.WriteOp.Reducer.{write_op_reducer}

-- The tail of `classifyError`, for an `ApiError` that is neither subclass.
abbrev pub classify_api : ApiError → ErrorKind
classify_api e = if e.status == 0 then ErrorKind.network else (elim e.busy [
  | some _ ↦ ErrorKind.busy
  | none ↦ if leb 400 e.status then ErrorKind.device else ErrorKind.other
])

unfoldable pub classify_error : Thrown → ErrorKind
classify_error (Thrown.unauthorized message stale) =
    if stale then ErrorKind.stale_unauthorized else ErrorKind.unauthorized
classify_error (Thrown.timeout ms message) = ErrorKind.timeout
classify_error (Thrown.api e) = classify_api e
classify_error (Thrown.invalid_data reason) = ErrorKind.other
classify_error (Thrown.foreign message) = ErrorKind.other

pub record WaitDeviceOptions : Type 0 where
  pub expected_sec : ℕ
  pub probe_every_ms : Option ℕ
  pub timeout_sec : Option ℕ
  pub expect_down : Bool
  pub recovery : Option String

-- `steps` keeps the labels; the `run` closures and `verify` are outside.
pub record WriteOpConfig : Type 0 where
  pub tier : Tier
  pub steps : List String
  pub has_verify : Bool
  pub wait_device : Option WaitDeviceOptions
  pub reconfirm_sec : Option ℕ

abbrev pub default_probe_ms : ℕ
default_probe_ms = 3000

abbrev pub default_reconfirm_sec : ℕ
default_reconfirm_sec = 120

unfoldable pub wait_times : WaitDeviceOptions → WaitTimes
wait_times w = record {
  expected_sec = w.expected_sec;
  timeout_sec = get_or_else w.timeout_sec (max (2 * w.expected_sec) (w.expected_sec + 30));
}

-- The private fields of the controller. `listening` is `unLogin !== null`.
pub record Ctl : Type 0 where
  pub state : WriteOpState
  pub cfg : Option WriteOpConfig
  pub attached : ℕ
  pub listening : Bool

abbrev pub new_ctl : Ctl
new_ctl = record { state = initial_write_op; cfg = none; attached = 0; listening = false }

unfoldable pub attach : Ctl → Ctl
attach c = record c { attached = c.attached + 1; listening = true }

-- One of the functions that `attach` returned, called for the first time; with nothing attached
-- there is none left to call.
unfoldable pub detach : Ctl → Ctl
detach c =
    if c.attached == 0
    then c
    else if c.attached == 1
    then record c {
      attached = 0;
      listening = false;
      state = record (c.state) { run_id = c.state.run_id + 1 };
    }
    else record c { attached = c.attached - 1 }

abbrev pub dispatch : Ctl → WriteOpEvent → Ctl
dispatch c e = record c { state = write_op_reducer c.state e }

abbrev pub alive : Ctl → ℕ → Bool
alive c run_id = ltb 0 c.attached && c.state.run_id == run_id

pub data Mode : Type 0 where
  wait reconfirm : Mode

abbrev pub is_wait : Mode → Bool
is_wait Mode.wait = true
is_wait Mode.reconfirm = false

-- `inPhase` of the probe loop, as a test.
abbrev pub in_phase : Mode → Phase → Bool
in_phase Mode.wait p = is_waiting p
in_phase Mode.reconfirm p = is_unknown p

abbrev pub during : Mode → During
during Mode.wait = During.wait
during Mode.reconfirm = During.reconfirm

-- The constants of one call of `probeLoop`.
pub record Loop : Type 0 where
  pub mode : Mode
  pub cfg : WriteOpConfig
  pub run_id : ℕ
  pub every : ℕ
  pub started : ℕ
  pub limit_ms : ℕ

-- What an async method is waiting for, with its local variables.
pub data Task : Type 0 where
  -- `await cfg.steps[i].run()` in `runSteps`.
  step_running : WriteOpConfig → ℕ → ℕ → Task
  -- `await verify()` in `runVerify`, with the attempt.
  verify_running : ℕ → ℕ → Task
  -- `await this.deps.sleep(every)`, `probe(…)` and `cfg.verify()` in `probeLoop`.
  loop_sleeping loop_probing loop_verifying : Loop → Task

abbrev pub task_run : Task → ℕ
task_run (Task.step_running cfg run_id i) = run_id
task_run (Task.verify_running run_id attempt) = run_id
task_run (Task.loop_sleeping l) = l.run_id
task_run (Task.loop_probing l) = l.run_id
task_run (Task.loop_verifying l) = l.run_id

-- How what was awaited ends: a value (for a step and a sleep it is not looked at), or a throw.
pub data Outcome : Type 0 where
  gives : Bool → Outcome
  throws : Thrown → Outcome

abbrev pub wait_arg : Ctl → Option WaitTimes
wait_arg c = elim c.cfg [
  | none ↦ none
  | some k ↦ elim k.wait_device [ none ↦ none | some w ↦ some (wait_times w) ]
]

abbrev pub is_pending_or_failed : StepStatus → Bool
is_pending_or_failed StepStatus.pending = true
is_pending_or_failed StepStatus.failed = true
is_pending_or_failed _ = false

-- The wait that `probeLoop` reads in the mode `wait`.
abbrev pub loop_wait : Mode → Ctl → Option WaitInfo
loop_wait Mode.wait c = c.state.wait
loop_wait Mode.reconfirm c = none

abbrev pub loop_every : WriteOpConfig → ℕ
loop_every k = elim k.wait_device [
  | none ↦ default_probe_ms
  | some w ↦ get_or_else w.probe_every_ms default_probe_ms
]

unfoldable pub new_loop : Mode → Ctl → WriteOpConfig → ℕ → Loop
new_loop mode c k now = record {
  mode = mode;
  cfg = k;
  run_id = c.state.run_id;
  every = loop_every k;
  started = elim (loop_wait mode c) [ none ↦ now | some w ↦ w.started_at ];
  limit_ms =
      (elim (loop_wait mode c) [
        | none ↦ get_or_else k.reconfirm_sec default_reconfirm_sec
        | some w ↦ w.timeout_sec
      ])
      * 1000;
}

-- `probeLoop` up to its first `await`: a reconfirmation needs a readback, and no step that was
-- not sent or was refused.
unfoldable pub probe_loop : Mode → Ctl → ℕ → Ctl × Option Task
unfolding new_loop
probe_loop mode c now = elim c.cfg [
  | none ↦ (c, none)
  | some k ↦
      if not (is_wait mode)
        && (not k.has_verify || any (λ x. is_pending_or_failed x.status) c.state.steps)
      then (c, none)
      else (c, some (Task.loop_sleeping (new_loop mode c k now)))
]

-- `runVerify` up to its first `await`.
unfoldable pub run_verify : Ctl → Ctl × Option Task
run_verify c = elim c.cfg [
  | none ↦ (c, none)
  | some k ↦ if k.has_verify then (c, some (Task.verify_running c.state.run_id 0)) else (c, none)
]

-- `afterSettle`; `rerun` is its call of `runSteps`.
unfoldable pub after_settle : (Ctl → Ctl × Option Task) → Ctl → ℕ → ℕ → Ctl × Option Task
unfolding run_verify probe_loop
after_settle rerun c prev now =
    if is_submitting c.state.phase && not (c.state.run_id == prev)
    then rerun c
    else if is_verifying c.state.phase
    then run_verify c
    else if is_waiting c.state.phase
    then probe_loop Mode.wait c now
    else if is_unknown c.state.phase
    then probe_loop Mode.reconfirm c now
    else (c, none)

abbrev pub step_done_at : Ctl → ℕ → Bool
step_done_at c i = elim (get_elem? c.state.steps i) [ none ↦ false | some x ↦ is_done x.status ]

-- The code after the loop of `runSteps`. `stepsDone` starts no run, so that `afterSettle` does not
-- come back to `runSteps` from here.
unfoldable pub finish_steps : WriteOpConfig → ℕ → Ctl → ℕ → Ctl × Option Task
unfolding after_settle
finish_steps k run_id c now =
    after_settle (λ d. (d, none))
      (dispatch c (WriteOpEvent.steps_done now k.has_verify (wait_arg c))) run_id now

-- The loop of `runSteps` from step `i` on, with the number of steps left.
unfoldable pub steps_from : WriteOpConfig → ℕ → Ctl → ℕ → ℕ → ℕ → Ctl × Option Task
steps_from k run_id c now i zero = finish_steps k run_id c now
steps_from k run_id c now i (suc left) =
    let rest = steps_from k run_id c now (i + 1) left in
    if step_done_at c i
    then rest
    else (dispatch c (WriteOpEvent.step_start i), some (Task.step_running k run_id i))

unfoldable pub run_steps : Ctl → ℕ → Ctl × Option Task
unfolding steps_from
run_steps c now = elim c.cfg [
  | none ↦ (c, none)
  | some k ↦ steps_from k c.state.run_id c now 0 (length k.steps)
]
