-- ===== src/WriteOp/Flight/Launch.antt =====
-- The async methods of the controller up to their first `await` (web/src/lib/api/writeOp.ts).
use zte_u60_pro_mu5250_manag.Common.{
  ℕ, zero, suc, ◌+◌, ◌≤◌, ◌≡◌, ◌≢◌, refl, inl, inr, Bool, true, false, Option, none, some, length,
  modify, any, get_elem?, All, Bool-cases, Option-cases, length-modify, arith,
}
use native.Mathlib.Numerals.{add-one}
use zte_u60_pro_mu5250_manag.WriteOp.State.{
  Phase, StepStatus, WaitTimes, WriteOpState, WriteOpEvent, is_submitting, is_verifying, is_waiting,
  is_unknown,
}
use zte_u60_pro_mu5250_manag.WriteOp.Reducer.{write_op_reducer, with_error}
use zte_u60_pro_mu5250_manag.WriteOp.Controller.{
  WriteOpConfig, Ctl, Task, Mode, dispatch, new_loop, probe_loop, run_verify, after_settle,
  finish_steps, steps_from, run_steps, step_done_at, wait_arg, is_pending_or_failed,
}
use zte_u60_pro_mu5250_manag.WriteOp.StepLists.{
  IsDone, IsReady, Upto, Upto-All-IsDone, Upto-skip, Progress-start, Done-Settled, Settled-of_Calm,
}
use zte_u60_pro_mu5250_manag.WriteOp.Flight.Facts.{
  Matches, Sound, Good, Facts-at, Facts-of, Good-as, Matches-some, Matches-length, Verifiable-some,
  Verifiable-at, Sound-as,
}

pub run_verify-Good :
    (loose : Bool) (c : Ctl) → c.state.phase ≡ Phase.verifying → Sound c → Good loose (run_verify c)
unfolding run_verify
run_verify-Good loose c p f =
    let facts = Facts-of Phase.verifying c.state c.cfg p f in
    let (k, e, m) = Matches-some c.cfg c.state.steps facts.0 in
    let v = Verifiable-some c.cfg k e facts.2 in
    Good-as loose (run_verify c) (c, some (Task.verify_running c.state.run_id 0)) (ground arith)
      (f, (refl, p))

probe_loop-Good_wait :
    (loose : Bool) (c : Ctl) (now : ℕ)
    → c.state.phase ≡ Phase.wait_device
    → Sound c
    → Good loose (probe_loop Mode.wait c now)
unfolding probe_loop
probe_loop-Good_wait loose c now p f =
    let facts = Facts-of Phase.wait_device c.state c.cfg p f in
    let (k, e, m) = Matches-some c.cfg c.state.steps facts.0 in
    Good-as loose (probe_loop Mode.wait c now)
      (c, some (Task.loop_sleeping (new_loop Mode.wait c k now))) (ground arith) (f, (refl, (e, p)))

-- A reconfirmation runs only over steps that were all sent, and with a readback.
pub probe_loop-Good_reconfirm :
    (loose : Bool) (c : Ctl) (now : ℕ)
    → c.state.phase ≡ Phase.unknown
    → Sound c
    → Good loose (probe_loop Mode.reconfirm c now)
unfolding probe_loop
probe_loop-Good_reconfirm loose c now p f =
    let facts = Facts-of Phase.unknown c.state c.cfg p f in
    let (k, e, m) = Matches-some c.cfg c.state.steps facts.0 in
    let result = probe_loop Mode.reconfirm c now in
    elim (Bool-cases k.has_verify) [
      | inr off ↦ Good-as loose result (c, none) (ground arith) (f, inr (ground arith))
      | inl on ↦ elim (Bool-cases (any (λ x. is_pending_or_failed x.status) c.state.steps)) [
        | inl left ↦ Good-as loose result (c, none) (ground arith) (f, inr (ground arith))
        | inr sent ↦
            Good-as loose result (c, some (Task.loop_sleeping (new_loop Mode.reconfirm c k now)))
              (ground arith) (f, (refl, (e, (p, on, Settled-of_Calm c.state.steps facts.1 sent))))
      ]
    ]

-- `afterSettle`: a busy phase gets its task.
pub after_settle-Good :
    (loose : Bool) (rerun : Ctl → Ctl × Option Task) (c : Ctl) (prev now : ℕ)
    → (c.state.phase ≡ Phase.submitting → c.state.run_id ≢ prev)
    → (c.state.phase ≡ Phase.submitting → Good loose (rerun c))
    → Sound c
    → Good loose (after_settle rerun c prev now)
unfolding after_settle
after_settle-Good loose rerun c prev now fresh again f =
    let result = after_settle rerun c prev now in
    elim (Bool-cases (is_submitting c.state.phase)) [
      | inl s ↦
          let p : c.state.phase ≡ Phase.submitting = ground arith in
          let ne = fresh p in Good-as loose result (rerun c) (ground arith) (again p)
      | inr s ↦ elim (Bool-cases (is_verifying c.state.phase)) [
        | inl v ↦
            let p : c.state.phase ≡ Phase.verifying = ground arith in
            Good-as loose result (run_verify c) (ground arith) (run_verify-Good loose c p f)
        | inr v ↦ elim (Bool-cases (is_waiting c.state.phase)) [
          | inl w ↦
              let p : c.state.phase ≡ Phase.wait_device = ground arith in
              Good-as loose result (probe_loop Mode.wait c now) (ground arith)
                (probe_loop-Good_wait loose c now p f)
          | inr w ↦ elim (Bool-cases (is_unknown c.state.phase)) [
            | inl u ↦
                let p : c.state.phase ≡ Phase.unknown = ground arith in
                Good-as loose result (probe_loop Mode.reconfirm c now) (ground arith)
                  (probe_loop-Good_reconfirm loose c now p f)
            | inr u ↦ Good-as loose result (c, none) (ground arith) (f, inr (ground arith))
          ]
        ]
      ]
    ]

steps_done-Sound :
    (c : Ctl) (k : WriteOpConfig) (now : ℕ) (w : Option WaitTimes)
    → c.cfg ≡ some k
    → c.state.phase ≡ Phase.submitting
    → Matches c.cfg c.state.steps
    → All IsDone c.state.steps
    → Sound (dispatch c (WriteOpEvent.steps_done now k.has_verify w))
unfolding write_op_reducer
steps_done-Sound c k now (some w) e p m d =
    Sound-as c (WriteOpEvent.steps_done now k.has_verify (some w))
      (record (c.state) {
        current = none;
        phase = Phase.wait_device;
        wait = some (record {
          started_at = now;
          expected_sec = w.expected_sec;
          timeout_sec = w.timeout_sec;
          saw_down = false;
          submit_unconfirmed = false;
        });
      })
      (ground arith) (m, Done-Settled c.state.steps d, λ _. d)
steps_done-Sound c k now none e p m d = elim (Bool-cases k.has_verify) [
  | inl on ↦
      Sound-as c (WriteOpEvent.steps_done now k.has_verify none)
        (record (c.state) { current = none; phase = Phase.verifying }) (ground arith)
        (m, Done-Settled c.state.steps d, Verifiable-at c.cfg k e on)
  | inr off ↦
      Sound-as c (WriteOpEvent.steps_done now k.has_verify none)
        (record (c.state) { current = none; phase = Phase.accepted }) (ground arith) (m, d)
]

steps_done-ne-submitting :
    (s : WriteOpState) (now : ℕ) (v : Bool) (w : Option WaitTimes)
    → (write_op_reducer s (WriteOpEvent.steps_done now v w)).phase ≢ Phase.submitting
unfolding write_op_reducer
steps_done-ne-submitting s now v none h = ground arith
steps_done-ne-submitting s now v (some w) h = ground arith

-- When all steps are done, `runSteps` does not come back to itself.
finish_steps-Good :
    (loose : Bool) (k : WriteOpConfig) (r : ℕ) (c : Ctl) (now : ℕ)
    → c.cfg ≡ some k
    → c.state.phase ≡ Phase.submitting
    → Matches c.cfg c.state.steps
    → All IsDone c.state.steps
    → Good loose (finish_steps k r c now)
unfolding finish_steps
finish_steps-Good loose k r c now e p m d =
    let not_again = steps_done-ne-submitting c.state now k.has_verify (wait_arg c) in
    after_settle-Good loose (λ d. (d, none)) _ r now (λ q. absurd (not_again q))
      (λ q. absurd (not_again q)) (steps_done-Sound c k now (wait_arg c) e p m d)

step_start-lem :
    (c : Ctl) (i : ℕ)
    → c.state.phase ≡ Phase.submitting
    → write_op_reducer c.state (WriteOpEvent.step_start i) ≡ record (c.state) {
      current = some i;
      steps = modify c.state.steps i (with_error StepStatus.running none);
    }
unfolding write_op_reducer
step_start-lem c i p = ground arith

-- The next step is sent.
start_step-Good :
    (loose : Bool) (k : WriteOpConfig) (c : Ctl) (i : ℕ)
    → c.cfg ≡ some k
    → c.state.phase ≡ Phase.submitting
    → Matches c.cfg c.state.steps
    → suc i ≤ length c.state.steps
    → Upto i c.state.steps
    → Good loose
        (dispatch c (WriteOpEvent.step_start i), some (Task.step_running k c.state.run_id i))
start_step-Good loose k c i e p m l u = rw (step_start-lem c i p) (
  Facts-at Phase.submitting _ c.cfg p
      (Matches-length c.cfg c.state.steps _ (length-modify _ i _) m),
  (refl, (e, p, Progress-start i c.state.steps none l u)),
)

skip_step :
    (c : Ctl) (i : ℕ) → step_done_at c i ≡ true → Upto i c.state.steps → Upto (suc i) c.state.steps
skip_step c i h u = elim (Option-cases (get_elem? c.state.steps i)) [
  | inl e ↦ absurd (ground arith)
  | inr (x, e) ↦ Upto-skip i c.state.steps u e (ground arith)
]

-- The loop of `runSteps`.
pub steps_from-Good :
    (loose : Bool) (k : WriteOpConfig) (c : Ctl) (now i left : ℕ)
    → c.cfg ≡ some k
    → c.state.phase ≡ Phase.submitting
    → Matches c.cfg c.state.steps
    → i + left ≡ length c.state.steps
    → Upto i c.state.steps
    → Good loose (steps_from k c.state.run_id c now i left)
unfolding steps_from
steps_from-Good loose k c now i zero e p m l u =
    finish_steps-Good loose k c.state.run_id c now e p m
      (Upto-All-IsDone i c.state.steps (omega arith) u)
steps_from-Good loose k c now i (suc left) e p m l u =
    let result = steps_from k c.state.run_id c now i (suc left) in
    elim (Bool-cases (step_done_at c i)) [
      | inl done ↦
          let later : Upto (i + 1) c.state.steps = rw (add-one i) (skip_step c i done u) in
          Good-as loose result (steps_from k c.state.run_id c now (i + 1) left) (ground arith)
            (steps_from-Good loose k c now (i + 1) left e p m (omega arith) later)
      | inr waits ↦
          Good-as loose result
            (dispatch c (WriteOpEvent.step_start i), some (Task.step_running k c.state.run_id i))
            (ground arith) (start_step-Good loose k c i e p m (omega arith) u)
    ]

-- `runSteps` at its start.
pub run_steps-Good :
    (loose : Bool) (c : Ctl) (now : ℕ)
    → c.state.phase ≡ Phase.submitting
    → Matches c.cfg c.state.steps
    → All IsReady c.state.steps
    → Good loose (run_steps c now)
unfolding run_steps
run_steps-Good loose c now p m u =
    let (k, e, l) = Matches-some c.cfg c.state.steps m in
    Good-as loose (run_steps c now) (steps_from k c.state.run_id c now 0 (length k.steps))
      (ground arith) (steps_from-Good loose k c now 0 (length k.steps) e p m (omega arith) u)
