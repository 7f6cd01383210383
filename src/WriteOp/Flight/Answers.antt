-- ===== src/WriteOp/Flight/Answers.antt =====
-- The controller after what it awaited has ended (web/src/lib/api/writeOp.ts): the invariant
-- holds again, and the task is replaced by at most one of the current run.
use mathlib.Core.Path.{subst}
use zte_u60_pro_mu5250_manag.Common.{
  ℕ, ◌+◌, ◌-◌, ◌<◌, ◌≡◌, ◌≢◌, refl, sym, ◌⊎◌, inl, inr, Bool, true, false, not, ◌&&◌, none, some,
  List, length, modify, map, All, Bool-cases, length-modify, length-map, ◌==◌, arith,
}
use native.Mathlib.Numerals.{add-one}
use zte_u60_pro_mu5250_manag.Api.Errors.{Thrown}
use zte_u60_pro_mu5250_manag.WriteOp.State.{
  Phase, StepStatus, StepState, ErrorKind, ReloginFor, WriteOpState, WriteOpEvent, VerifyFailure,
  During, is_reading_back,
}
use zte_u60_pro_mu5250_manag.WriteOp.Reducer.{
  write_op_reducer, with_status, confirm_step, doubt_step,
}
use zte_u60_pro_mu5250_manag.WriteOp.Controller.{
  WriteOpConfig, Ctl, Task, Outcome, dispatch, alive, classify_error, steps_from, after_settle,
  run_steps,
}
use zte_u60_pro_mu5250_manag.WriteOp.Resume.{
  step_failure, verify_failure, is_stale, resume_step, resume_verify, after_failed_verify,
}
use zte_u60_pro_mu5250_manag.WriteOp.StepLists.{
  IsSettled, Progress, Upto-ok, Progress-lt, Settled-Calm, Settled-confirm,
}
use zte_u60_pro_mu5250_manag.WriteOp.Flight.Facts.{
  Matches, Sound, Good, Facts-of, Good-as, Good-end, Matches-length,
}
use zte_u60_pro_mu5250_manag.WriteOp.Flight.Launch.{
  steps_from-Good, run_steps-Good, after_settle-Good, probe_loop-Good_reconfirm,
}
use zte_u60_pro_mu5250_manag.WriteOp.Flight.StepError.{step_error-Facts}

-- The page still holds the operation, or has let go of it.
abbrev pub IsHeld : Bool → Ctl → Type 0
IsHeld loose c = (loose ≡ true) ⊎ (0 < c.attached)

-- Nothing happens to an operation that the page has let go of.
pub unheld :
    (loose : Bool) (c : Ctl) (r : ℕ)
    → IsHeld loose c
    → r ≡ c.state.run_id
    → alive c r ≡ false
    → Sound c
    → Good loose (c, none)
unheld loose c r h e dead f = (f, inl (ground arith))

Matches-at_phase :
    (c : Ctl) → c.state.phase ≡ Phase.submitting → Sound c → Matches c.cfg c.state.steps
Matches-at_phase c p f = Facts-of Phase.submitting c.state c.cfg p f

-- A step was answered.
step_ok-Good :
    (loose : Bool) (k : WriteOpConfig) (i : ℕ) (c : Ctl) (now : ℕ)
    → c.cfg ≡ some k
    → c.state.phase ≡ Phase.submitting
    → Progress i c.state.steps
    → Sound c
    → Good loose (
        steps_from k c.state.run_id
          (dispatch c (WriteOpEvent.step_ok i))
          now
          (i + 1)
          (length k.steps - (i + 1)))
unfolding write_op_reducer
step_ok-Good loose k i c now e p g f =
    let ms : List StepState = modify c.state.steps i (with_status StepStatus.done) in
    let d : Ctl = record c { state = record (c.state) { steps = ms } } in
    let eq : dispatch c (WriteOpEvent.step_ok i) ≡ d = ground arith in
    let mt = Matches-at_phase c p f in
    let ml = length-modify c.state.steps i (with_status StepStatus.done) in
    let exact : length c.state.steps ≡ length k.steps = subst (λ o. Matches o c.state.steps) e mt in
    subst
      (λ (q : Ctl).
        Good loose (steps_from k c.state.run_id q now (i + 1) (length k.steps - (i + 1))))
      (sym eq)
      (steps_from-Good loose k d now (i + 1) (length k.steps - (i + 1)) e p
        (Matches-length c.cfg c.state.steps ms ml mt)
        (omega (arith, Progress-lt i c.state.steps g, ml, exact))
        (rw (add-one i) (Upto-ok i c.state.steps g)))

step_error-Good :
    (loose : Bool) (i : ℕ) (c : Ctl) (e : Thrown) (now : ℕ)
    → c.state.phase ≡ Phase.submitting
    → Progress i c.state.steps
    → Sound c
    → Good loose (
        after_settle
          (λ d. run_steps d now)
          (dispatch c (WriteOpEvent.step_error (step_failure c i e now)))
          c.state.run_id
          now)
step_error-Good loose i c e now p g f =
    let (facts, again) =
      step_error-Facts c.cfg c.state (step_failure c i e now) (Matches-at_phase c p f) g p in
    after_settle-Good loose (λ d. run_steps d now)
      (dispatch c (WriteOpEvent.step_error (step_failure c i e now))) c.state.run_id now
      (λ q h. omega (arith, (again q).0, h))
      (λ q.
        run_steps-Good loose (dispatch c (WriteOpEvent.step_error (step_failure c i e now))) now q
          (again q).1 (again q).2)
      facts

pub resume_step-Good :
    (loose : Bool) (k : WriteOpConfig) (r i : ℕ) (c : Ctl) (o : Outcome) (now : ℕ)
    → IsHeld loose c
    → r ≡ c.state.run_id
    → c.cfg ≡ some k
    → c.state.phase ≡ Phase.submitting
    → Progress i c.state.steps
    → Sound c
    → Good loose (resume_step k r i c o now)
unfolding resume_step
resume_step-Good loose k r i c (Outcome.gives v) now h er e p g f =
    let result = resume_step k r i c (Outcome.gives v) now in
    elim (Bool-cases (alive c r)) [
      | inl lives ↦
          Good-as loose result
            (steps_from k c.state.run_id (dispatch c (WriteOpEvent.step_ok i)) now (i + 1)
              (length k.steps - (i + 1)))
            (ground arith) (step_ok-Good loose k i c now e p g f)
      | inr dead ↦ Good-as loose result (c, none) (ground arith) (unheld loose c r h er dead f)
    ]
resume_step-Good loose k r i c (Outcome.throws x) now h er e p g f =
    let result = resume_step k r i c (Outcome.throws x) now in
    elim (Bool-cases (alive c r)) [
      | inl lives ↦
          Good-as loose result
            (after_settle (λ d. run_steps d now)
              (dispatch c (WriteOpEvent.step_error (step_failure c i x now))) c.state.run_id now)
            (ground arith) (step_error-Good loose i c x now p g f)
      | inr dead ↦ Good-as loose result (c, none) (ground arith) (unheld loose c r h er dead f)
    ]

-- The answer of a readback, in a phase that waits for one.
pub verify_result-Good :
    (loose : Bool) (c : Ctl) (ok : Bool)
    → is_reading_back c.state.phase ≡ true
    → Matches c.cfg c.state.steps
    → All IsSettled c.state.steps
    → Good loose (dispatch c (WriteOpEvent.verify_result ok), none)
unfolding write_op_reducer
verify_result-Good loose c true p m st =
    Good-end loose c (WriteOpEvent.verify_result true)
      (record (c.state) {
        phase = Phase.applied;
        error = none;
        error_en = none;
        error_kind = none;
        steps = map confirm_step c.state.steps;
      })
      (ground arith)
      (
        Matches-length c.cfg c.state.steps (map confirm_step c.state.steps)
            (length-map c.state.steps confirm_step) m,
        Settled-confirm c.state.steps st,
      )
      refl
verify_result-Good loose c false p m st =
    Good-end loose c (WriteOpEvent.verify_result false)
      (record (c.state) {
        phase = Phase.failed;
        error_kind = some ErrorKind.mismatch;
        error = some "readback does not show the change";
        error_en = none;
        steps = map doubt_step c.state.steps;
      })
      (ground arith)
      (Matches-length c.cfg c.state.steps (map doubt_step c.state.steps)
        (length-map c.state.steps doubt_step) m)
      refl

-- `relogin` for a readback.
abbrev pub login_for_verify : WriteOpState → VerifyFailure → WriteOpState
login_for_verify s e = record s {
  phase = Phase.relogin;
  relogin_for = some ReloginFor.verify;
  error = some e.message;
  error_en = e.message_en;
  error_kind = some e.kind;
}

abbrev no_answer : WriteOpState → VerifyFailure → WriteOpState
no_answer s e = record s {
  phase = Phase.unknown;
  error = some e.message;
  error_en = e.message_en;
  error_kind = some e.kind;
}

module _ (loose : Bool) (c : Ctl) (e : VerifyFailure) (now : ℕ)
    (p : c.state.phase ≡ Phase.verifying) (f : Sound c) where
  -- What `runVerify` does with the result of a failed readback.
  needs_login :
      write_op_reducer c.state (WriteOpEvent.verify_error e) ≡ login_for_verify c.state e
      → Good loose (after_failed_verify (dispatch c (WriteOpEvent.verify_error e)) now)
  unfolding after_failed_verify
  needs_login eq =
      let (m, st, v) = Facts-of Phase.verifying c.state c.cfg p f in
      Good-as loose (after_failed_verify (dispatch c (WriteOpEvent.verify_error e)) now)
        (dispatch c (WriteOpEvent.verify_error e), none) (rw eq)
        (Good-end loose c (WriteOpEvent.verify_error e) (login_for_verify c.state e) eq
          (m, λ _. (st, v)) refl)

  stays_unknown :
      write_op_reducer c.state (WriteOpEvent.verify_error e) ≡ no_answer c.state e
      → Good loose (after_failed_verify (dispatch c (WriteOpEvent.verify_error e)) now)
  unfolding after_failed_verify
  stays_unknown eq =
      let (m, st, v) = Facts-of Phase.verifying c.state c.cfg p f in
      let d : Ctl = record c { state = no_answer c.state e } in
      subst (λ (q : WriteOpState). Good loose (after_failed_verify (record c { state = q }) now))
        (sym eq) (probe_loop-Good_reconfirm loose d now refl (m, Settled-Calm c.state.steps st))

  failed_verify-Good :
      e.during ≡ During.verify
      → e.kind ≢ ErrorKind.stale_unauthorized
      → (q : ErrorKind) → e.kind ≡ q
      → Good loose (after_failed_verify (dispatch c (WriteOpEvent.verify_error e)) now)
  unfolding write_op_reducer
  failed_verify-Good d ns ErrorKind.unauthorized k = needs_login (ground arith)
  failed_verify-Good d ns ErrorKind.stale_unauthorized k = absurd (ns k)
  failed_verify-Good d ns ErrorKind.device k = stays_unknown (ground arith)
  failed_verify-Good d ns ErrorKind.timeout k = stays_unknown (ground arith)
  failed_verify-Good d ns ErrorKind.network k = stays_unknown (ground arith)
  failed_verify-Good d ns ErrorKind.mismatch k = stays_unknown (ground arith)
  failed_verify-Good d ns ErrorKind.busy k = stays_unknown (ground arith)
  failed_verify-Good d ns ErrorKind.other k = stays_unknown (ground arith)

-- A second stale 401 in a row to the readback of `runVerify`.
abbrev pub is_second_stale : ℕ → Outcome → Bool
is_second_stale a (Outcome.gives _) = false
is_second_stale a (Outcome.throws e) = is_stale (classify_error e) && not (a == 0)

stale_verify-Good :
    (c : Ctl) (e : Thrown) (now : ℕ)
    → c.state.phase ≡ Phase.verifying
    → classify_error e ≡ ErrorKind.stale_unauthorized
    → after_failed_verify
        (dispatch c (WriteOpEvent.verify_error (verify_failure e During.verify)))
        now
      ≡ (c, none)
unfolding after_failed_verify write_op_reducer
stale_verify-Good c e now p q = ground arith

pub resume_verify-Good :
    (loose : Bool) (r a : ℕ) (c : Ctl) (o : Outcome) (now : ℕ)
    → IsHeld loose c
    → r ≡ c.state.run_id
    → c.state.phase ≡ Phase.verifying
    → (loose ≡ true) ⊎ (is_second_stale a o ≡ false)
    → Sound c
    → Good loose (resume_verify r a c o now)
unfolding resume_verify
resume_verify-Good loose r a c (Outcome.gives v) now h er p ok f =
    let (m, st, _) = Facts-of Phase.verifying c.state c.cfg p f in
    let result = resume_verify r a c (Outcome.gives v) now in
    elim (Bool-cases (alive c r)) [
      | inl lives ↦
          Good-as loose result (dispatch c (WriteOpEvent.verify_result v), none) (ground arith)
            (verify_result-Good loose c v (ground arith) m st)
      | inr dead ↦ Good-as loose result (c, none) (ground arith) (unheld loose c r h er dead f)
    ]
resume_verify-Good loose r a c (Outcome.throws e) now h er p ok f =
    let result = resume_verify r a c (Outcome.throws e) now in
    let reported =
      after_failed_verify (dispatch c (WriteOpEvent.verify_error (verify_failure e During.verify)))
        now in
    elim (Bool-cases (alive c r)) [
      | inr dead ↦ Good-as loose result (c, none) (ground arith) (unheld loose c r h er dead f)
      | inl lives ↦ elim (Bool-cases (is_stale (classify_error e))) [
        | inr clear ↦ Good-as loose result reported (ground arith) (
            failed_verify-Good loose c (verify_failure e During.verify) now p f refl
              (λ q. ground arith) (classify_error e) refl)
        | inl stale ↦ elim (Bool-cases (a == 0)) [
          | inl first ↦
              Good-as loose result (c, some (Task.verify_running r 1)) (ground arith) (f, (er, p))
          | inr second ↦
              Good-as loose result (c, none)
                (ground (arith, stale_verify-Good c e now p (ground arith))) (f, ground arith)
        ]
      ]
    ]
