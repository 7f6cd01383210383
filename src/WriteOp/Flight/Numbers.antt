-- ===== src/WriteOp/Flight/Numbers.antt =====
-- The run number never falls, and an answer to a task of an older run changes nothing
-- (web/src/lib/api/writeOp.ts).
use zte_u60_pro_mu5250_manag.Common.{
  ℕ, zero, suc, ◌+◌, ◌≤◌, ◌≡◌, ◌≢◌, Bool, false, Option, none, length, ◌-◌, arith,
}
use zte_u60_pro_mu5250_manag.WriteOp.State.{WriteOpState, WriteOpEvent, During}
use zte_u60_pro_mu5250_manag.WriteOp.Reducer.{write_op_reducer}
use zte_u60_pro_mu5250_manag.WriteOp.Controller.{
  WriteOpConfig, Ctl, Task, Outcome, Loop, Mode, task_run, dispatch, probe_loop, run_verify,
  after_settle, during, finish_steps, steps_from, run_steps, wait_arg,
}
use zte_u60_pro_mu5250_manag.WriteOp.Resume.{
  resume_step, resume_verify, after_failed_verify, resume_sleep, resume_probe, resume_loop_verify,
  resume, step_failure, verify_failure, loop_recovery, probe_answer,
}
use zte_u60_pro_mu5250_manag.WriteOp.Runs.{run_id-reducer}

-- The run number does not fall, and the page still holds the operation as before.
abbrev pub Grows : Ctl → Ctl × Option Task → Type 0
Grows c r = (c.state.run_id ≤ r.0.state.run_id) × (r.0.attached ≡ c.attached)

run_id-le : (s : WriteOpState) (e : WriteOpEvent) → s.run_id ≤ (write_op_reducer s e).run_id
run_id-le s e = (run_id-reducer s e).0

pub run_verify-Grows : (c : Ctl) → Grows c (run_verify c)
unfolding run_verify
run_verify-Grows c = ground arith

probe_loop-Grows : (m : Mode) (c : Ctl) (now : ℕ) → Grows c (probe_loop m c now)
unfolding probe_loop
probe_loop-Grows m c now = ground arith

after_settle-Grows :
    (rerun : Ctl → Ctl × Option Task) (c : Ctl) (prev now : ℕ)
    → Grows c (rerun c)
    → Grows c (after_settle rerun c prev now)
unfolding after_settle
after_settle-Grows rerun c prev now h = ground (
  arith,
  run_verify-Grows c,
  probe_loop-Grows Mode.wait c now,
  probe_loop-Grows Mode.reconfirm c now,
)

dispatch_then :
    (c : Ctl) (e : WriteOpEvent) (r : Ctl × Option Task) → Grows (dispatch c e) r → Grows c r
dispatch_then c e r h = omega (arith, run_id-le c.state e)

steps_from-Grows :
    (k : WriteOpConfig) (r : ℕ) (c : Ctl) (now i left : ℕ) → Grows c (steps_from k r c now i left)
unfolding steps_from finish_steps
steps_from-Grows k r c now i zero =
    let e = WriteOpEvent.steps_done now k.has_verify (wait_arg c) in
    let same : Grows (dispatch c e) (dispatch c e, none) = omega arith in
    dispatch_then c e (finish_steps k r c now)
      (after_settle-Grows (λ d. (d, none)) (dispatch c e) r now same)
steps_from-Grows k r c now i (suc left) =
    ground (
      arith,
      steps_from-Grows k r c now (i + 1) left,
      run_id-le c.state (WriteOpEvent.step_start i),
    )

pub run_steps-Grows : (c : Ctl) (now : ℕ) → Grows c (run_steps c now)
unfolding run_steps
run_steps-Grows c now = grind (arith, steps_from-Grows)

resume_step-Grows :
    (k : WriteOpConfig) (r i : ℕ) (c : Ctl) (o : Outcome) (now : ℕ)
    → Grows c (resume_step k r i c o now)
unfolding resume_step
resume_step-Grows k r i c (Outcome.gives v) now = ground (
  arith,
  steps_from-Grows k r (dispatch c (WriteOpEvent.step_ok i)) now (i + 1) (length k.steps - (i + 1)),
  run_id-le c.state (WriteOpEvent.step_ok i),
)
resume_step-Grows k r i c (Outcome.throws x) now =
    let d = dispatch c (WriteOpEvent.step_error (step_failure c i x now)) in
    ground (
      arith,
      after_settle-Grows (λ q. run_steps q now) d r now (run_steps-Grows d now),
      run_id-le c.state (WriteOpEvent.step_error (step_failure c i x now)),
    )

resume_verify-Grows :
    (r a : ℕ) (c : Ctl) (o : Outcome) (now : ℕ) → Grows c (resume_verify r a c o now)
unfolding resume_verify after_failed_verify
resume_verify-Grows r a c (Outcome.gives v) now =
    ground (arith, run_id-le c.state (WriteOpEvent.verify_result v))
resume_verify-Grows r a c (Outcome.throws e) now =
    let failed = WriteOpEvent.verify_error (verify_failure e During.verify) in
    ground
      (arith, run_id-le c.state failed, probe_loop-Grows Mode.reconfirm (dispatch c failed) now)

resume_loop_verify-Grows : (l : Loop) (c : Ctl) (o : Outcome) → Grows c (resume_loop_verify l c o)
unfolding resume_loop_verify
resume_loop_verify-Grows l c (Outcome.gives v) =
    ground (arith, run_id-le c.state (WriteOpEvent.verify_result v))
resume_loop_verify-Grows l c (Outcome.throws e) =
    ground (arith, run_id-le c.state (WriteOpEvent.verify_error (verify_failure e (during l.mode))))

resume_sleep-Grows : (l : Loop) (c : Ctl) (now : ℕ) → Grows c (resume_sleep l c now)
unfolding resume_sleep
resume_sleep-Grows l c now =
    ground (arith, run_id-le c.state (WriteOpEvent.wait_timeout (loop_recovery l.cfg)))

resume_probe-Grows : (l : Loop) (c : Ctl) (up : Bool) → Grows c (resume_probe l c up)
unfolding resume_probe
resume_probe-Grows l c up = ground (
  arith,
  run_id-le c.state (WriteOpEvent.probe false),
  run_id-le c.state (WriteOpEvent.back false),
)

pub resume-Grows : (t : Task) (c : Ctl) (o : Outcome) (now : ℕ) → Grows c (resume t c o now)
unfolding resume
resume-Grows (Task.step_running k r i) c o now = resume_step-Grows k r i c o now
resume-Grows (Task.verify_running r a) c o now = resume_verify-Grows r a c o now
resume-Grows (Task.loop_sleeping l) c o now = resume_sleep-Grows l c now
resume-Grows (Task.loop_probing l) c o now = resume_probe-Grows l c (probe_answer o)
resume-Grows (Task.loop_verifying l) c o now = resume_loop_verify-Grows l c o

-- The end of a task of another run is dropped.
pub resume_stale :
    (t : Task) (c : Ctl) (o : Outcome) (now : ℕ)
    → task_run t ≢ c.state.run_id
    → resume t c o now ≡ (c, none)
unfolding resume
resume_stale (Task.step_running k r i) c (Outcome.gives v) now h = ground arith
resume_stale (Task.step_running k r i) c (Outcome.throws e) now h = ground arith
resume_stale (Task.verify_running r a) c (Outcome.gives v) now h = ground arith
resume_stale (Task.verify_running r a) c (Outcome.throws e) now h = ground arith
resume_stale (Task.loop_sleeping l) c o now h = ground arith
resume_stale (Task.loop_probing l) c o now h = ground arith
resume_stale (Task.loop_verifying l) c (Outcome.gives v) now h = ground arith
resume_stale (Task.loop_verifying l) c (Outcome.throws e) now h = ground arith
