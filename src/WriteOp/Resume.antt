-- ===== src/WriteOp/Resume.antt =====
-- The code after each `await` of `WriteOpController` (web/src/lib/api/writeOp.ts).
use zte_u60_pro_mu5250_manag.Common.{
  ℕ, ◌+◌, ◌-◌, Bool, true, false, ◌&&◌, not, Option, none, some, if◌then◌else◌, ◌==◌, ltb, length,
}
use zte_u60_pro_mu5250_manag.Api.Errors.{Thrown, message_of, message_en_of}
use zte_u60_pro_mu5250_manag.WriteOp.State.{
  ErrorKind, StepFailure, VerifyFailure, During, WriteOpEvent, is_unknown,
}
use zte_u60_pro_mu5250_manag.WriteOp.Controller.{
  WriteOpConfig, Ctl, Loop, Mode, Task, Outcome, dispatch, alive, in_phase, is_wait, during,
  wait_arg, classify_error, after_settle, steps_from, run_steps, probe_loop,
}

abbrev pub step_failure : Ctl → ℕ → Thrown → ℕ → StepFailure
step_failure c i e now = record {
  index = i;
  kind = classify_error e;
  message = message_of e;
  message_en = message_en_of e;
  now = now;
  wait = wait_arg c;
}

abbrev pub verify_failure : Thrown → During → VerifyFailure
verify_failure e d = record {
  kind = classify_error e;
  message = message_of e;
  message_en = message_en_of e;
  during = d;
}

-- `runSteps` after `await cfg.steps[i].run()`.
unfoldable pub resume_step : WriteOpConfig → ℕ → ℕ → Ctl → Outcome → ℕ → Ctl × Option Task
unfolding steps_from after_settle
resume_step k run_id i c (Outcome.gives _) now =
    if alive c run_id
    then steps_from k run_id (dispatch c (WriteOpEvent.step_ok i)) now (i + 1)
        (length k.steps - (i + 1))
    else (c, none)
resume_step k run_id i c (Outcome.throws e) now =
    if alive c run_id
    then after_settle (λ d. run_steps d now)
        (dispatch c (WriteOpEvent.step_error (step_failure c i e now))) run_id now
    else (c, none)

abbrev pub is_stale : ErrorKind → Bool
is_stale ErrorKind.stale_unauthorized = true
is_stale _ = false

-- `runVerify` after its failed readback was reported.
unfoldable pub after_failed_verify : Ctl → ℕ → Ctl × Option Task
unfolding probe_loop
after_failed_verify c now =
    if is_unknown c.state.phase then probe_loop Mode.reconfirm c now else (c, none)

-- `runVerify` after `await verify()`: a stale 401 is tried once more.
unfoldable pub resume_verify : ℕ → ℕ → Ctl → Outcome → ℕ → Ctl × Option Task
unfolding after_failed_verify
resume_verify run_id attempt c (Outcome.gives ok) now =
    if alive c run_id then (dispatch c (WriteOpEvent.verify_result ok), none) else (c, none)
resume_verify run_id attempt c (Outcome.throws e) now =
    if alive c run_id
    then if is_stale (classify_error e) && attempt == 0
      then (c, some (Task.verify_running run_id 1))
      else after_failed_verify
          (dispatch c (WriteOpEvent.verify_error (verify_failure e During.verify))) now
    else (c, none)

-- `recovery: w?.recovery`.
abbrev pub loop_recovery : WriteOpConfig → Option Prim.Native.String.String
loop_recovery k = elim k.wait_device [ none ↦ none | some w ↦ w.recovery ]

-- `probeLoop` after the sleep.
unfoldable pub resume_sleep : Loop → Ctl → ℕ → Ctl × Option Task
resume_sleep l c now =
    if alive c l.run_id && in_phase l.mode c.state.phase
    then if ltb l.limit_ms (now - l.started)
      then (
        if is_wait l.mode then dispatch c (WriteOpEvent.wait_timeout (loop_recovery l.cfg)) else c,
        none,
      )
      else (c, some (Task.loop_probing l))
    else (c, none)

-- `w?.expectDown && !this.state.wait?.sawDown`, in the mode `wait`.
abbrev pub must_see_down : Loop → Ctl → Bool
must_see_down l c =
    is_wait l.mode
    && (elim l.cfg.wait_device [ none ↦ false | some w ↦ w.expect_down ])
    && not (elim c.state.wait [ none ↦ false | some w ↦ w.saw_down ])

-- `probeLoop` after the probe; `up` is its answer.
unfoldable pub resume_probe : Loop → Ctl → Bool → Ctl × Option Task
resume_probe l c up =
    if alive c l.run_id && in_phase l.mode c.state.phase
    then if not up
      then (dispatch c (WriteOpEvent.probe false), some (Task.loop_sleeping l))
      else if must_see_down l c
      then (c, some (Task.loop_sleeping l))
      else if not l.cfg.has_verify
      then (dispatch c (WriteOpEvent.back false), none)
      else (c, some (Task.loop_verifying l))
    else (c, none)

-- The end of a round in which the readback failed.
unfoldable pub after_failed_round : Loop → Ctl → Ctl × Option Task
after_failed_round l c =
    if in_phase l.mode c.state.phase then (c, some (Task.loop_sleeping l)) else (c, none)

-- `probeLoop` after `await cfg.verify()`.
unfoldable pub resume_loop_verify : Loop → Ctl → Outcome → Ctl × Option Task
unfolding after_failed_round
resume_loop_verify l c (Outcome.gives ok) =
    if alive c l.run_id then (dispatch c (WriteOpEvent.verify_result ok), none) else (c, none)
resume_loop_verify l c (Outcome.throws e) =
    if alive c l.run_id
    then after_failed_round l
        (dispatch c (WriteOpEvent.verify_error (verify_failure e (during l.mode))))
    else (c, none)

-- The answer of a probe: it never throws.
abbrev pub probe_answer : Outcome → Bool
probe_answer (Outcome.gives ok) = ok
probe_answer (Outcome.throws _) = false

unfoldable pub resume : Task → Ctl → Outcome → ℕ → Ctl × Option Task
unfolding resume_step resume_verify resume_sleep resume_probe resume_loop_verify
resume (Task.step_running k run_id i) c o now = resume_step k run_id i c o now
resume (Task.verify_running run_id attempt) c o now = resume_verify run_id attempt c o now
resume (Task.loop_sleeping l) c o now = resume_sleep l c now
resume (Task.loop_probing l) c o now = resume_probe l c (probe_answer o)
resume (Task.loop_verifying l) c o now = resume_loop_verify l c o
