-- ===== src/WriteOp/Flight/Safety.antt =====
-- What holds after any history of a controller (web/src/lib/api/writeOp.ts).
use mathlib.Core.Path.{subst}
use zte_u60_pro_mu5250_manag.Common.{
  ℕ, ◌+◌, ◌-◌, ◌≤◌, ◌<◌, ◌≡◌, refl, sym, ◌⊎◌, inl, inr, Bool, true, false, Option, none, List, [],
  ◌∷◌, length, All, Bool-cases, Option-cases, leb, ◌==◌, String, arith,
}
use zte_u60_pro_mu5250_manag.Api.Errors.{Thrown}
use zte_u60_pro_mu5250_manag.WriteOp.State.{Phase, WriteOpState, busy_phase}
use zte_u60_pro_mu5250_manag.WriteOp.Reducer.{write_op_reducer}
use zte_u60_pro_mu5250_manag.WriteOp.Controller
use zte_u60_pro_mu5250_manag.WriteOp.Controller.{WriteOpConfig, Ctl, Task, Outcome, task_run, alive}
use zte_u60_pro_mu5250_manag.WriteOp.Resume.{resume}
use zte_u60_pro_mu5250_manag.WriteOp.Session.{
  Session, Input, new_session, spawn, take_task, settle_task, step, run,
}
use zte_u60_pro_mu5250_manag.WriteOp.StepLists.{IsDone}
use zte_u60_pro_mu5250_manag.WriteOp.Flight.Facts.{Facts, Facts-of}
use zte_u60_pro_mu5250_manag.WriteOp.Flight.Clicks.{
  start-Acts, confirm-Acts, cancel-Acts, reset-Acts, resubmit-Acts, handle_login-Acts,
}
use zte_u60_pro_mu5250_manag.WriteOp.Flight.Sessions.{
  Inv, CarriesAll, tasks_of, in_flight, Acts-Inv, tasks_after, older-le,
}
use zte_u60_pro_mu5250_manag.WriteOp.Flight.Histories.{gives_up, settled-Inv, lets_go}

-- The run number plays no part in the facts.
Facts-run_id :
    (p : Phase) (s : WriteOpState) (k : Option WriteOpConfig) (n : ℕ)
    → Facts p s k
    → Facts p (record s { run_id = n }) k
Facts-run_id Phase.idle s k n f = f
Facts-run_id _ s k n f = f

-- Nor does who holds the operation.
CarriesAll-held :
    (loose : Bool) (c : Ctl) (a : ℕ) (l : Bool) (ts : List Task)
    → CarriesAll loose c ts
    → CarriesAll loose (record c { attached = a; listening = l }) ts
CarriesAll-held loose c a l [] f = f
CarriesAll-held loose c a l (t ∷ []) f = f
CarriesAll-held loose c a l (t ∷ u ∷ ts) f = f

settle_task-Inv :
    (loose : Bool) (s : Session) (k : ℕ) (o : Outcome) (now : ℕ)
    → (loose ≡ true) ⊎ (lets_go s (now, Input.settle k o) ≡ false)
    → Inv loose s
    → Inv loose (settle_task s k o now)
unfolding settle_task lets_go
settle_task-Inv loose s k o now u v = elim (Option-cases (take_task k s.tasks)) [
  | inl e ↦ let same : settle_task s k o now ≡ s = ground arith in subst (Inv loose) (sym same) v
  | inr ((t, us), e) ↦
      let next : settle_task s k o now ≡ spawn us (resume t s.ctl o now) = ground arith in
      let kept : (loose ≡ true) ⊎ (gives_up t o ≡ false) = ground arith in
      subst (Inv loose) (sym next) (settled-Inv loose s k o now t us e kept v)
]

detach-Inv :
    (loose : Bool) (s : Session)
    → (loose ≡ true) ⊎ (leb s.ctl.attached 1 ≡ false)
    → Inv loose s
    → Inv loose (record s { ctl = Controller.detach s.ctl })
unfolding Controller.detach
detach-Inv loose s u v =
    let c = s.ctl in
    let r = c.state.run_id in
    elim (Bool-cases (leb c.attached 1)) [
      | inr many ↦
          let d : Ctl = record c { attached = c.attached - 1 } in
          let eq : Controller.detach c ≡ d = ground arith in
          subst (λ q. Inv loose (record s { ctl = q })) (sym eq)
            (record {
              sound = v.sound;
              held = ground arith;
              old = v.old;
              flight = CarriesAll-held loose c (c.attached - 1) c.listening (in_flight s) v.flight;
            })
      | inl few ↦ elim (Bool-cases (c.attached == 0)) [
        | inl free ↦
            let eq : Controller.detach c ≡ c = ground arith in
            subst (λ q. Inv loose (record s { ctl = q })) (sym eq) v
        | inr last ↦
            let d : Ctl = record c {
              attached = 0;
              listening = false;
              state = record (c.state) { run_id = r + 1 };
            } in
            let eq : Controller.detach c ≡ d = ground arith in
            let empty : tasks_of (r + 1) s.tasks ≡ [] =
              tasks_after r (r + 1) s.tasks (omega arith) v.old (λ q. absurd (omega arith)) in
            let gone : loose ≡ true = ground arith in
            subst (λ q. Inv loose (record s { ctl = q })) (sym eq)
              (record {
                sound = Facts-run_id c.state.phase c.state c.cfg (r + 1) v.sound;
                held = inl gone;
                old = older-le r (r + 1) s.tasks (omega arith) v.old;
                flight = subst (CarriesAll loose d) (sym empty) (inl gone);
              })
      ]
    ]

attach-Inv :
    (loose : Bool) (s : Session)
    → Inv loose s
    → Inv loose (record s { ctl = Controller.attach s.ctl })
unfolding Controller.attach
attach-Inv loose s v = record {
  sound = v.sound;
  held = inr (omega arith);
  old = v.old;
  flight = CarriesAll-held loose s.ctl (s.ctl.attached + 1) true (in_flight s) v.flight;
}

step-Inv :
    (loose : Bool) (s : Session) (x : ℕ × Input)
    → (loose ≡ true) ⊎ (lets_go s x ≡ false)
    → Inv loose s
    → Inv loose (step s x)
unfolding step
step-Inv loose s (now, Input.start k) u v = Acts-Inv loose s _ v (start-Acts loose s.ctl k now)
step-Inv loose s (now, Input.confirm) u v =
    Acts-Inv loose s _ v (confirm-Acts loose s.ctl now v.sound)
step-Inv loose s (now, Input.cancel) u v = Acts-Inv loose s _ v (cancel-Acts loose s.ctl)
step-Inv loose s (now, Input.resubmit) u v =
    Acts-Inv loose s _ v (resubmit-Acts loose s.ctl now v.sound)
step-Inv loose s (now, Input.reset) u v = Acts-Inv loose s _ v (reset-Acts loose s.ctl)
step-Inv loose s (now, Input.login) u v =
    Acts-Inv loose s _ v (handle_login-Acts loose s.ctl now v.sound)
step-Inv loose s (now, Input.attach) u v = attach-Inv loose s v
step-Inv loose s (now, Input.detach) u v = detach-Inv loose s (lets_go-detach u) v
  where
    lets_go-detach :
        (loose ≡ true) ⊎ (lets_go s (now, Input.detach) ≡ false)
        → (loose ≡ true) ⊎ (leb s.ctl.attached 1 ≡ false)
    lets_go-detach (inl l) = inl l
    lets_go-detach (inr l) = inr (unfold lets_go in l)
step-Inv loose s (now, Input.settle k o) u v = settle_task-Inv loose s k o now u v

run-Inv : (s : Session) (xs : List (ℕ × Input)) → Inv true s → Inv true (run s xs)
unfolding run
run-Inv s [] v = v
run-Inv s (x ∷ xs) v = run-Inv (step s x) xs (step-Inv true s x (inl refl) v)

new_session-Inv : Inv true new_session
new_session-Inv = record { sound = tt; held = inl refl; old = tt; flight = inl refl }

at_most_one : (loose : Bool) (c : Ctl) (ts : List Task) → CarriesAll loose c ts → length ts ≤ 1
at_most_one loose c [] f = omega arith
at_most_one loose c (t ∷ []) f = omega arith
at_most_one loose c (t ∷ u ∷ ts) f = absurd f

-- After any clicks, logins, attachments and answers, in any order and at any times, at most one
-- request, readback, probe or sleep of the current run is in flight.
pub single_flight : (xs : List (ℕ × Input)) → length (in_flight (run new_session xs)) ≤ 1
single_flight xs =
    let s = run new_session xs in
    at_most_one true s.ctl (in_flight s) (run-Inv new_session xs new_session-Inv).flight

-- Whenever an operation shows as applied or as accepted, each of its steps is done.
pub success-All-IsDone :
    (xs : List (ℕ × Input))
    → let st = (run new_session xs).ctl.state in
      (st.phase ≡ Phase.applied) ⊎ (st.phase ≡ Phase.accepted) → All IsDone st.steps
success-All-IsDone xs (inl p) =
    let c = (run new_session xs).ctl in
    (Facts-of Phase.applied c.state c.cfg p (run-Inv new_session xs new_session-Inv).sound).1
success-All-IsDone xs (inr p) =
    let c = (run new_session xs).ctl in
    (Facts-of Phase.accepted c.state c.cfg p (run-Inv new_session xs new_session-Inv).sound).1

-- No input of a history lets go of the operation: no last `detach`, and no readback that throws a
-- stale 401 twice in a row.
abbrev pub Holds : Session → List (ℕ × Input) → Type 0
Holds s [] = Unit
Holds s (x ∷ xs) = (lets_go s x ≡ false) × Holds (step s x) xs

run-Inv_held :
    (s : Session) (xs : List (ℕ × Input)) → Holds s xs → Inv false s → Inv false (run s xs)
unfolding run
run-Inv_held s [] h v = v
run-Inv_held s (x ∷ xs) (h, hs) v = run-Inv_held (step s x) xs hs (step-Inv false s x (inr h) v)

abbrev pub attached_session : Session
attached_session = record { ctl = Controller.attach new_session.ctl; tasks = [] }

attached-Inv : Inv false attached_session
unfolding Controller.attach
attached-Inv = record { sound = tt; held = inr (omega arith); old = tt; flight = inr refl }

exactly_one :
    (c : Ctl) (ts : List Task)
    → CarriesAll false c ts
    → busy_phase c.state.phase ≡ true
    → length ts ≡ 1
exactly_one c [] f b = absurd (ground arith)
exactly_one c (t ∷ []) f b = omega arith
exactly_one c (t ∷ u ∷ ts) f b = absurd f

-- From a new operation of an attached page on, while the page stays attached and no readback is
-- given up, a busy phase (submitting, verifying, waiting for the device) always has exactly one task
-- of its run in flight.
pub busy_has_task :
    (xs : List (ℕ × Input))
    → Holds attached_session xs
    → let s = run attached_session xs in
      busy_phase s.ctl.state.phase ≡ true → length (in_flight s) ≡ 1
busy_has_task xs h b =
    let s = run attached_session xs in
    exactly_one s.ctl (in_flight s) (run-Inv_held attached_session xs h attached-Inv).flight b

-- On an attached page, a stale 401 to the second readback of `runVerify` changes nothing and starts
-- no other task: the phase stays at verifying.
pub second_stale_hangs :
    (c : Ctl) (a now : ℕ) (m : String)
    → 0 < c.attached
    → 0 < a
    → c.state.phase ≡ Phase.verifying
    → resume
        (Task.verify_running c.state.run_id a)
        c
        (Outcome.throws (Thrown.unauthorized m true))
        now
      ≡ (c, none)
unfolding resume Controller.classify_error write_op_reducer
second_stale_hangs c a now m h k p = ground arith
