-- ===== src/WriteOp/Flight/Loops.antt =====
-- The rounds of the probe loop (web/src/lib/api/writeOp.ts).
use mathlib.Core.Path.{subst}
use zte_u60_pro_mu5250_manag.Common.{
  ℕ, ◌-◌, ◌≡◌, ◌≢◌, refl, sym, inl, inr, Bool, true, false, Option, none, some, any, All,
  Bool-cases, ltb, if◌then◌else◌, arith,
}
use zte_u60_pro_mu5250_manag.WriteOp.State.{
  Phase, WaitInfo, ErrorKind, WriteOpState, WriteOpEvent, VerifyFailure, During, is_done,
  is_reading_back,
}
use zte_u60_pro_mu5250_manag.WriteOp.Reducer.{write_op_reducer, was_dropped, mark_down}
use zte_u60_pro_mu5250_manag.WriteOp.Controller.{
  WriteOpConfig, Ctl, Task, Outcome, Loop, Mode, dispatch, alive, in_phase, is_wait, during,
}
use zte_u60_pro_mu5250_manag.WriteOp.Resume.{
  verify_failure, resume_sleep, resume_probe, resume_loop_verify, after_failed_round, loop_recovery,
  must_see_down,
}
use zte_u60_pro_mu5250_manag.WriteOp.StepLists.{IsDone, IsSettled, Settled-Calm}
use zte_u60_pro_mu5250_manag.WriteOp.Flight.Facts.{
  Matches, Sound, Good, LoopFits, ModeFits, Facts-of, Facts-at, Good-as, Good-end, Verifiable-at,
}
use zte_u60_pro_mu5250_manag.WriteOp.Flight.Answers.{
  IsHeld, unheld, verify_result-Good, login_for_verify,
}

mode-in_phase :
    (m : Mode) (k : WriteOpConfig) (s : WriteOpState) → ModeFits m k s → in_phase m s.phase ≡ true
mode-in_phase Mode.wait k s p = ground arith
mode-in_phase Mode.reconfirm k s p = ground arith

mode-reading_back :
    (m : Mode) (k : WriteOpConfig) (s : WriteOpState)
    → ModeFits m k s
    → is_reading_back s.phase ≡ true
mode-reading_back Mode.wait k s p = ground arith
mode-reading_back Mode.reconfirm k s p = ground arith

mode-Settled :
    (m : Mode) (k : WriteOpConfig) (c : Ctl)
    → ModeFits m k c.state
    → Sound c
    → Matches c.cfg c.state.steps × All IsSettled c.state.steps
mode-Settled Mode.wait k c p f =
    let (m, st, _) = Facts-of Phase.wait_device c.state c.cfg p f in (m, st)
mode-Settled Mode.reconfirm k c (p, v, st) f = ((Facts-of Phase.unknown c.state c.cfg p f).0, st)

-- The end of a loop by its time limit.
timed_out-Good :
    (loose : Bool) (m : Mode) (l : Loop) (c : Ctl)
    → ModeFits m l.cfg c.state
    → l.mode ≡ m
    → Sound c
    → Good loose (
      if is_wait l.mode then dispatch c (WriteOpEvent.wait_timeout (loop_recovery l.cfg)) else c,
      none,
    )
unfolding write_op_reducer
timed_out-Good loose Mode.wait l c p e f =
    let (m, _, _) = Facts-of Phase.wait_device c.state c.cfg p f in
    let ended : Ctl × Option Task =
      (dispatch c (WriteOpEvent.wait_timeout (loop_recovery l.cfg)), none) in
    Good-as loose (if is_wait l.mode then ended.0 else c, none) ended (ground arith)
      (Good-end loose c (WriteOpEvent.wait_timeout (loop_recovery l.cfg))
        (record (c.state) { phase = Phase.wait_timeout; recovery = loop_recovery l.cfg })
        (ground arith) m refl)
timed_out-Good loose Mode.reconfirm l c (p, _, _) e f =
    Good-as loose
      (
        if is_wait l.mode then dispatch c (WriteOpEvent.wait_timeout (loop_recovery l.cfg)) else c,
        none,
      )
      (c, none) (ground arith) (f, inr (ground arith))

mark_down-dropped :
    (w : Option WaitInfo) → was_dropped (mark_down w) ≡ false → was_dropped w ≡ false
mark_down-dropped none h = h
mark_down-dropped (some w) h = h

pub resume_sleep-Good :
    (loose : Bool) (l : Loop) (c : Ctl) (now : ℕ)
    → IsHeld loose c
    → l.run_id ≡ c.state.run_id
    → LoopFits l c.state c.cfg
    → Sound c
    → Good loose (resume_sleep l c now)
unfolding resume_sleep
resume_sleep-Good loose l c now h er fits f =
    let result = resume_sleep l c now in
    let inside = mode-in_phase l.mode l.cfg c.state fits.1 in
    elim (Bool-cases (alive c l.run_id)) [
      | inr dead ↦
          Good-as loose result (c, none) (ground arith) (unheld loose c l.run_id h er dead f)
      | inl lives ↦ elim (Bool-cases (ltb l.limit_ms (now - l.started))) [
        | inl late ↦
            Good-as loose result
              (
                if is_wait l.mode
                    then dispatch c (WriteOpEvent.wait_timeout (loop_recovery l.cfg))
                    else c,
                none,
              )
              (ground arith) (timed_out-Good loose l.mode l c fits.1 refl f)
        | inr early ↦
            Good-as loose result (c, some (Task.loop_probing l)) (ground arith) (f, (er, fits))
      ]
    ]

-- A probe that failed: a wait has now seen the device down.
probe_down-Good :
    (loose : Bool) (m : Mode) (l : Loop) (c : Ctl)
    → l.mode ≡ m
    → l.run_id ≡ c.state.run_id
    → c.cfg ≡ some l.cfg
    → ModeFits m l.cfg c.state
    → Sound c
    → Good loose (dispatch c (WriteOpEvent.probe false), some (Task.loop_sleeping l))
unfolding write_op_reducer
probe_down-Good loose Mode.wait l c em er e p f =
    let (m, st, d) = Facts-of Phase.wait_device c.state c.cfg p f in
    let seen : WriteOpState = record (c.state) { wait = mark_down c.state.wait } in
    let kept : was_dropped seen.wait ≡ false → All IsDone c.state.steps =
      λ h. d (mark_down-dropped c.state.wait h) in
    Good-as loose (dispatch c (WriteOpEvent.probe false), some (Task.loop_sleeping l))
      (record c { state = seen }, some (Task.loop_sleeping l)) (ground arith)
      (Facts-at Phase.wait_device seen c.cfg p (m, st, kept), (er, (e, rw em p)))
probe_down-Good loose Mode.reconfirm l c em er e (p, v, st) f =
    Good-as loose (dispatch c (WriteOpEvent.probe false), some (Task.loop_sleeping l))
      (c, some (Task.loop_sleeping l)) (ground arith)
      (f, (er, (e, subst (λ q. ModeFits q l.cfg c.state) (sym em) (p, v, st))))

-- The device is back, and nothing is read back.
back-Good :
    (loose : Bool) (c : Ctl)
    → c.state.phase ≡ Phase.wait_device
    → Sound c
    → Good loose (dispatch c (WriteOpEvent.back false), none)
unfolding write_op_reducer
back-Good loose c p f =
    let (m, st, d) = Facts-of Phase.wait_device c.state c.cfg p f in
    elim (Bool-cases (was_dropped c.state.wait)) [
      | inr answered ↦
          Good-end loose c (WriteOpEvent.back false) (record (c.state) { phase = Phase.accepted })
            (ground arith) (m, d answered) refl
      | inl dropped ↦ elim (Bool-cases (any (λ x. is_done x.status) c.state.steps)) [
        | inl some_done ↦
            Good-end loose c (WriteOpEvent.back false) (record (c.state) { phase = Phase.partial })
              (ground arith) m refl
        | inr none_done ↦
            Good-end loose c (WriteOpEvent.back false) (record (c.state) { phase = Phase.unknown })
              (ground arith) (m, Settled-Calm c.state.steps st) refl
      ]
    ]

-- Only a wait may lack a readback.
waits_blind :
    (m : Mode) (k : WriteOpConfig) (s : WriteOpState)
    → ModeFits m k s
    → k.has_verify ≡ false
    → s.phase ≡ Phase.wait_device
waits_blind Mode.wait k s p v = p
waits_blind Mode.reconfirm k s p v = absurd (ground arith)

during-ne-verify : (m : Mode) → during m ≢ During.verify
during-ne-verify Mode.wait = cc
during-ne-verify Mode.reconfirm = cc

relogin-not_in_phase : (m : Mode) → in_phase m Phase.relogin ≡ false
relogin-not_in_phase Mode.wait = refl
relogin-not_in_phase Mode.reconfirm = refl

abbrev is_unauthorized : ErrorKind → Bool
is_unauthorized ErrorKind.unauthorized = true
is_unauthorized _ = false

pub resume_probe-Good :
    (loose : Bool) (l : Loop) (c : Ctl) (up : Bool)
    → IsHeld loose c
    → l.run_id ≡ c.state.run_id
    → LoopFits l c.state c.cfg
    → Sound c
    → Good loose (resume_probe l c up)
unfolding resume_probe
resume_probe-Good loose l c up h er fits f =
    let result = resume_probe l c up in
    let inside = mode-in_phase l.mode l.cfg c.state fits.1 in
    elim (Bool-cases (alive c l.run_id)) [
      | inr dead ↦
          Good-as loose result (c, none) (ground arith) (unheld loose c l.run_id h er dead f)
      | inl lives ↦ elim (Bool-cases up) [
        | inr down ↦
            Good-as loose result
              (dispatch c (WriteOpEvent.probe false), some (Task.loop_sleeping l)) (ground arith)
              (probe_down-Good loose l.mode l c refl er fits.0 fits.1 f)
        | inl answers ↦ elim (Bool-cases (must_see_down l c)) [
          | inl early ↦
              Good-as loose result (c, some (Task.loop_sleeping l)) (ground arith) (f, (er, fits))
          | inr fine ↦ elim (Bool-cases l.cfg.has_verify) [
            | inl reads ↦
                Good-as loose result (c, some (Task.loop_verifying l)) (ground arith)
                  (f, (er, (fits, reads)))
            | inr blind ↦
                Good-as loose result (dispatch c (WriteOpEvent.back false), none) (ground arith)
                  (back-Good loose c (waits_blind l.mode l.cfg c.state fits.1 blind) f)
          ]
        ]
      ]
    ]

-- A readback of the probe loop that failed.
failed_round-Good :
    (loose : Bool) (l : Loop) (c : Ctl) (e : VerifyFailure)
    → e.during ≢ During.verify
    → l.run_id ≡ c.state.run_id
    → LoopFits l c.state c.cfg
    → l.cfg.has_verify ≡ true
    → Sound c
    → Good loose (after_failed_round l (dispatch c (WriteOpEvent.verify_error e)))
unfolding after_failed_round write_op_reducer
failed_round-Good loose l c e d er fits v f =
    let result = after_failed_round l (dispatch c (WriteOpEvent.verify_error e)) in
    let inside = mode-in_phase l.mode l.cfg c.state fits.1 in
    let reading = mode-reading_back l.mode l.cfg c.state fits.1 in
    let (m, st) = mode-Settled l.mode l.cfg c fits.1 f in
    elim (Bool-cases (is_unauthorized e.kind)) [
      | inl out ↦
          Good-as loose result (record c { state = login_for_verify c.state e }, none)
            (ground (arith, relogin-not_in_phase l.mode))
            ((m, λ _. (st, Verifiable-at c.cfg l.cfg fits.0 v)), inr refl)
      | inr other ↦
          let same : write_op_reducer c.state (WriteOpEvent.verify_error e) ≡ c.state =
            ground arith in
          Good-as loose result (c, some (Task.loop_sleeping l)) (ground (arith, same))
            (f, (er, fits))
    ]

pub resume_loop_verify-Good :
    (loose : Bool) (l : Loop) (c : Ctl) (o : Outcome)
    → IsHeld loose c
    → l.run_id ≡ c.state.run_id
    → LoopFits l c.state c.cfg
    → l.cfg.has_verify ≡ true
    → Sound c
    → Good loose (resume_loop_verify l c o)
unfolding resume_loop_verify
resume_loop_verify-Good loose l c (Outcome.gives v) h er fits hv f =
    let result = resume_loop_verify l c (Outcome.gives v) in
    let (m, st) = mode-Settled l.mode l.cfg c fits.1 f in
    elim (Bool-cases (alive c l.run_id)) [
      | inr dead ↦
          Good-as loose result (c, none) (ground arith) (unheld loose c l.run_id h er dead f)
      | inl lives ↦
          Good-as loose result (dispatch c (WriteOpEvent.verify_result v), none) (ground arith)
            (verify_result-Good loose c v (mode-reading_back l.mode l.cfg c.state fits.1) m st)
    ]
resume_loop_verify-Good loose l c (Outcome.throws e) h er fits hv f =
    let result = resume_loop_verify l c (Outcome.throws e) in
    let failure = verify_failure e (during l.mode) in
    elim (Bool-cases (alive c l.run_id)) [
      | inr dead ↦
          Good-as loose result (c, none) (ground arith) (unheld loose c l.run_id h er dead f)
      | inl lives ↦
          Good-as loose result
            (after_failed_round l (dispatch c (WriteOpEvent.verify_error failure))) (ground arith)
            (failed_round-Good loose l c failure (during-ne-verify l.mode) er fits hv f)
    ]
