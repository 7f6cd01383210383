-- ===== src/WriteOp/Flight/Clicks.antt =====
-- The page's calls and the login listener (web/src/lib/api/writeOp.ts): each changes nothing,
-- begins a new run, or acts in a phase in which nothing is in flight.
use zte_u60_pro_mu5250_manag.Common.{
  ℕ, ◌+◌, ◌≤◌, ◌<◌, ◌≡◌, ◌≢◌, refl, sym, ◌⊎◌, inl, inr, Bool, true, false, ◌&&◌, Option, none, some,
  List, map, All, Bool-cases, Option-cases, length-map, arith,
}
use mathlib.Core.Path.{subst}
use zte_u60_pro_mu5250_manag.WriteOp.State.{
  Phase, ReloginFor, StepState, WriteOpState, initial_write_op, busy_phase, resubmittable,
  is_confirming, is_relogin, is_tier1,
}
use zte_u60_pro_mu5250_manag.WriteOp.Reducer.{write_op_reducer, start_run, fresh_step, restart_step}
use zte_u60_pro_mu5250_manag.WriteOp.Controller.{WriteOpConfig, Ctl, Task, run_verify, run_steps}
use zte_u60_pro_mu5250_manag.WriteOp.Actions.{start, confirm, cancel, resubmit, reset, handle_login}
use zte_u60_pro_mu5250_manag.WriteOp.StepLists.{IsReady, Ready-fresh, Ready-restart}
use zte_u60_pro_mu5250_manag.WriteOp.Flight.Facts.{
  Matches, Facts, Sound, Good, Facts-of, Matches-length,
}
use zte_u60_pro_mu5250_manag.WriteOp.Flight.Launch.{run_verify-Good, run_steps-Good}
use zte_u60_pro_mu5250_manag.WriteOp.Flight.Numbers.{run_steps-Grows, run_verify-Grows}

-- The phases in which a task of the current run may be in flight.
abbrev pub live_phase : Phase → Bool
live_phase Phase.submitting = true
live_phase Phase.verifying = true
live_phase Phase.wait_device = true
live_phase Phase.unknown = true
live_phase _ = false

abbrev pub Acts : Bool → Ctl → Ctl × Option Task → Type 0
Acts loose c r =
    (r ≡ (c, none))
    ⊎ (Good loose r
        × (r.0.attached ≡ c.attached)
        × ((c.state.run_id < r.0.state.run_id)
            ⊎ ((live_phase c.state.phase ≡ false) × (c.state.run_id ≤ r.0.state.run_id))))

-- A run that begins.
new_run :
    (loose : Bool) (d : Ctl) (now n : ℕ)
    → d.state.phase ≡ Phase.submitting
    → Matches d.cfg d.state.steps
    → All IsReady d.state.steps
    → n < d.state.run_id
    → Good loose (run_steps d now)
      × ((run_steps d now).0.attached ≡ d.attached)
      × (n < (run_steps d now).0.state.run_id)
new_run loose d now n p m u h = (
  run_steps-Good loose d now p m u,
  (run_steps-Grows d now).1,
  omega (arith, run_steps-Grows d now),
)

Acts-as :
    (loose : Bool) (c : Ctl) (r q : Ctl × Option Task) → r ≡ q → Acts loose c q → Acts loose c r
Acts-as loose c r q e a = subst (Acts loose c) (sym e) a

pub start-Acts :
    (loose : Bool) (c : Ctl) (k : WriteOpConfig) (now : ℕ) → Acts loose c (start c k now)
unfolding start write_op_reducer
start-Acts loose c k now =
    let fresh : List StepState = map fresh_step k.steps in
    let base : WriteOpState = record initial_write_op {
      tier = k.tier;
      steps = fresh;
      run_id = c.state.run_id + 1;
    } in
    let ml = length-map k.steps fresh_step in
    elim (Bool-cases (busy_phase c.state.phase)) [
      | inl busy ↦ inl (ground arith)
      | inr idle ↦ elim (Bool-cases (is_tier1 k.tier)) [
        | inl one ↦
            let d : Ctl = record c {
              cfg = some k;
              state = record base { phase = Phase.submitting };
            } in
            let (g, a, n) =
              new_run loose d now c.state.run_id refl ml (Ready-fresh k.steps) (omega arith) in
            Acts-as loose c (start c k now) (run_steps d now) (ground arith) (inr (g, a, inl n))
        | inr more ↦
            let d : Ctl = record c {
              cfg = some k;
              state = record base { phase = Phase.confirming };
            } in
            Acts-as loose c (start c k now) (d, none) (ground arith)
              (inr (((ml, Ready-fresh k.steps), inr refl), refl, inl (omega arith)))
      ]
    ]

pub confirm-Acts : (loose : Bool) (c : Ctl) (now : ℕ) → Sound c → Acts loose c (confirm c now)
unfolding confirm write_op_reducer
confirm-Acts loose c now f = elim (Bool-cases (is_confirming c.state.phase)) [
  | inr other ↦ inl (ground arith)
  | inl asks ↦
      let (m, u) = Facts-of Phase.confirming c.state c.cfg (ground arith) f in
      let d : Ctl = record c { state = record (c.state) { phase = Phase.submitting } } in
      Acts-as loose c (confirm c now) (run_steps d now) (ground arith) (
        inr (
          run_steps-Good loose d now refl m u,
          (run_steps-Grows d now).1,
          inr (ground arith, (run_steps-Grows d now).0),
        ))
]

pub cancel-Acts : (loose : Bool) (c : Ctl) → Acts loose c (cancel c)
unfolding cancel write_op_reducer
cancel-Acts loose c = elim (Bool-cases (is_confirming c.state.phase)) [
  | inr other ↦ inl (ground arith)
  | inl asks ↦
      let d : Ctl = record c { state = record (c.state) { phase = Phase.idle } } in
      Acts-as loose c (cancel c) (d, none) (ground arith)
        (inr ((tt, inr refl), refl, inr (ground arith, omega arith)))
]

pub reset-Acts : (loose : Bool) (c : Ctl) → Acts loose c (reset c)
unfolding reset write_op_reducer
reset-Acts loose c = inr ((tt, inr refl), refl, inl (omega arith))

-- `startRun` from a phase in which the steps are those of the configuration.
restart-Acts :
    (loose : Bool) (c : Ctl) (now : ℕ)
    → Matches c.cfg c.state.steps
    → Acts loose c (run_steps (record c { state = start_run c.state }) now)
unfolding start_run
restart-Acts loose c now m =
    let xs = c.state.steps in
    let d : Ctl = record c { state = start_run c.state } in
    let (g, a, n) =
      new_run loose d now c.state.run_id refl
        (Matches-length c.cfg xs (map restart_step xs) (length-map xs restart_step) m)
        (Ready-restart xs) (omega arith) in
    inr (g, a, inl n)

resubmittable-Matches :
    (p : Phase) (s : WriteOpState) (k : Option WriteOpConfig)
    → resubmittable p ≡ true
    → Facts p s k
    → Matches k s.steps
resubmittable-Matches Phase.partial s k h f = f
resubmittable-Matches Phase.resubmit_ready s k h f = f
resubmittable-Matches Phase.failed s k h f = f
resubmittable-Matches _ s k h f = absurd (ground arith)

pub resubmit-Acts : (loose : Bool) (c : Ctl) (now : ℕ) → Sound c → Acts loose c (resubmit c now)
unfolding resubmit write_op_reducer
resubmit-Acts loose c now f = elim (Option-cases c.cfg) [
  | inl e ↦ inl (ground arith)
  | inr (k, e) ↦ elim (Bool-cases (resubmittable c.state.phase)) [
    | inr other ↦ inl (ground arith)
    | inl can ↦
        Acts-as loose c (resubmit c now) (run_steps (record c { state = start_run c.state }) now)
          (ground arith)
          (restart-Acts loose c now (resubmittable-Matches c.state.phase c.state c.cfg can f))
  ]
]

-- A login that resumes the submission: tier 1 at once, the others by a click.
resume_submit :
    (loose : Bool) (c : Ctl) (now : ℕ)
    → c.listening ≡ true
    → c.state.phase ≡ Phase.relogin
    → c.state.relogin_for ≢ some ReloginFor.verify
    → Sound c
    → Acts loose c (handle_login c now)
unfolding handle_login write_op_reducer
resume_submit loose c now l p ne f =
    let (m, _) = Facts-of Phase.relogin c.state c.cfg p f in
    elim (Bool-cases (is_tier1 c.state.tier)) [
      | inl one ↦
          Acts-as loose c (handle_login c now)
            (run_steps (record c { state = start_run c.state }) now) (ground arith)
            (restart-Acts loose c now m)
      | inr more ↦
          let d : Ctl = record c {
            state = record (c.state) { phase = Phase.resubmit_ready; relogin_for = none };
          } in
          Acts-as loose c (handle_login c now) (d, none) (ground arith)
            (inr ((m, inr refl), refl, inr (ground arith, omega arith)))
    ]

login-Acts :
    (loose : Bool) (c : Ctl) (now : ℕ) (o : Option ReloginFor)
    → c.listening ≡ true
    → c.state.phase ≡ Phase.relogin
    → c.state.relogin_for ≡ o
    → Sound c
    → Acts loose c (handle_login c now)
unfolding handle_login write_op_reducer
login-Acts loose c now (some ReloginFor.verify) l p e f =
    let (m, back) = Facts-of Phase.relogin c.state c.cfg p f in
    let (st, v) = back e in
    let d : Ctl = record c {
      state = record (c.state) {
        phase = Phase.verifying;
        relogin_for = none;
        error = none;
        error_en = none;
        error_kind = none;
        run_id = c.state.run_id + 1;
      };
    } in
    Acts-as loose c (handle_login c now) (run_verify d) (ground arith) (
      inr (
        run_verify-Good loose d refl (m, st, v),
        ground (arith, run_verify-Grows d),
        inl (ground (arith, run_verify-Grows d)),
      ))
login-Acts loose c now (some ReloginFor.submit) l p e f = resume_submit loose c now l p (λ h. cc) f
login-Acts loose c now none l p e f = resume_submit loose c now l p (λ h. cc) f

pub handle_login-Acts :
    (loose : Bool) (c : Ctl) (now : ℕ) → Sound c → Acts loose c (handle_login c now)
unfolding handle_login
handle_login-Acts loose c now f = elim (Bool-cases (c.listening && is_relogin c.state.phase)) [
  | inr other ↦ inl (ground arith)
  | inl now_in ↦ login-Acts loose c now c.state.relogin_for (ground arith) (ground arith) refl f
]
