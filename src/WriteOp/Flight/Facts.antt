-- ===== src/WriteOp/Flight/Facts.antt =====
-- The invariant of the controller (web/src/lib/api/writeOp.ts): what holds in each phase, and what
-- holds while a task of the current run is in flight.
use zte_u60_pro_mu5250_manag.Common.{
  ◌≡◌, refl, sym, ◌∙◌, ◌⊎◌, inr, Bool, true, false, Option, none, some, List, length, All,
}
use mathlib.Core.Path.{subst}
use zte_u60_pro_mu5250_manag.WriteOp.State.{
  Phase, ReloginFor, StepState, WriteOpState, WriteOpEvent, busy_phase,
}
use zte_u60_pro_mu5250_manag.WriteOp.Reducer.{write_op_reducer, was_dropped}
use zte_u60_pro_mu5250_manag.WriteOp.StepLists.{IsDone, IsReady, IsSettled, IsCalm, Progress}
use zte_u60_pro_mu5250_manag.WriteOp.Controller.{
  WriteOpConfig, Ctl, dispatch, Task, task_run, Loop, Mode,
}

-- The steps are those of the configuration that `start` took.
abbrev pub Matches : Option WriteOpConfig → List StepState → Type 0
Matches none xs = ⊥
Matches (some k) xs = length xs ≡ length k.steps

abbrev pub Verifiable : Option WriteOpConfig → Type 0
Verifiable none = ⊥
Verifiable (some k) = k.has_verify ≡ true

-- What holds between two inputs, by the phase.
abbrev pub Facts : Phase → WriteOpState → Option WriteOpConfig → Type 0
Facts Phase.idle s k = Unit
Facts Phase.confirming s k = Matches k s.steps × All IsReady s.steps
Facts Phase.verifying s k = Matches k s.steps × All IsSettled s.steps × Verifiable k
Facts Phase.wait_device s k =
    Matches k s.steps × All IsSettled s.steps × (was_dropped s.wait ≡ false → All IsDone s.steps)
Facts Phase.applied s k = Matches k s.steps × All IsDone s.steps
Facts Phase.accepted s k = Matches k s.steps × All IsDone s.steps
Facts Phase.unknown s k = Matches k s.steps × All IsCalm s.steps
Facts Phase.relogin s k =
    Matches k s.steps
    × (s.relogin_for ≡ some ReloginFor.verify → All IsSettled s.steps × Verifiable k)
Facts _ s k = Matches k s.steps

abbrev pub ModeFits : Mode → WriteOpConfig → WriteOpState → Type 0
ModeFits Mode.wait k s = s.phase ≡ Phase.wait_device
ModeFits Mode.reconfirm k s =
    (s.phase ≡ Phase.unknown) × (k.has_verify ≡ true) × All IsSettled s.steps

abbrev pub LoopFits : Loop → WriteOpState → Option WriteOpConfig → Type 0
LoopFits l s c = (c ≡ some l.cfg) × ModeFits l.mode l.cfg s

-- What a task of the current run relies on.
abbrev pub Fits : Task → WriteOpState → Option WriteOpConfig → Type 0
Fits (Task.step_running k r i) s c =
    (c ≡ some k) × (s.phase ≡ Phase.submitting) × Progress i s.steps
Fits (Task.verify_running r a) s c = s.phase ≡ Phase.verifying
Fits (Task.loop_sleeping l) s c = LoopFits l s c
Fits (Task.loop_probing l) s c = LoopFits l s c
Fits (Task.loop_verifying l) s c = LoopFits l s c × (l.cfg.has_verify ≡ true)

-- A call that leaves nothing in flight leaves no busy phase, unless the page has let go of the
-- operation (`loose`); a task that it leaves is of the current run.
abbrev pub Carries : Bool → Ctl → Option Task → Type 0
Carries loose c none = (loose ≡ true) ⊎ (busy_phase c.state.phase ≡ false)
Carries loose c (some t) = (task_run t ≡ c.state.run_id) × Fits t c.state c.cfg

abbrev pub Sound : Ctl → Type 0
Sound c = Facts c.state.phase c.state c.cfg

-- The result of a call of the controller.
abbrev pub Good : Bool → Ctl × Option Task → Type 0
Good loose r = Sound r.0 × Carries loose r.0 r.1

pub Facts-at :
    (p : Phase) (s : WriteOpState) (k : Option WriteOpConfig)
    → s.phase ≡ p
    → Facts p s k
    → Facts s.phase s k
Facts-at p s k e f = subst (λ q. Facts q s k) (sym e) f

pub Facts-of :
    (p : Phase) (s : WriteOpState) (k : Option WriteOpConfig)
    → s.phase ≡ p
    → Facts s.phase s k
    → Facts p s k
Facts-of p s k e f = subst (λ q. Facts q s k) e f

pub Good-as : (loose : Bool) (r q : Ctl × Option Task) → r ≡ q → Good loose q → Good loose r
Good-as loose r q e g = subst (Good loose) (sym e) g

pub Matches-some :
    (k : Option WriteOpConfig) (xs : List StepState)
    → Matches k xs
    → (j : WriteOpConfig) × (k ≡ some j) × (length xs ≡ length j.steps)
Matches-some none xs m = absurd m
Matches-some (some j) xs m = (j, refl, m)

pub Matches-at :
    (k : Option WriteOpConfig) (j : WriteOpConfig) (xs : List StepState)
    → k ≡ some j
    → length xs ≡ length j.steps
    → Matches k xs
Matches-at k j xs e m = subst (λ o. Matches o xs) (sym e) m

pub Matches-length :
    (k : Option WriteOpConfig) (xs ys : List StepState)
    → length ys ≡ length xs
    → Matches k xs
    → Matches k ys
Matches-length none xs ys e m = m
Matches-length (some j) xs ys e m = e ∙ m

pub Verifiable-some :
    (k : Option WriteOpConfig) (j : WriteOpConfig) → k ≡ some j → Verifiable k → j.has_verify ≡ true
Verifiable-some k j e v = subst Verifiable e v

pub Verifiable-at :
    (k : Option WriteOpConfig) (j : WriteOpConfig) → k ≡ some j → j.has_verify ≡ true → Verifiable k
Verifiable-at k j e v = subst Verifiable (sym e) v

-- An event whose result is known as a record.
pub Sound-as :
    (c : Ctl) (e : WriteOpEvent) (s : WriteOpState)
    → write_op_reducer c.state e ≡ s
    → Facts s.phase s c.cfg
    → Sound (dispatch c e)
Sound-as c e s eq f = subst (λ q. Facts q.phase q c.cfg) (sym eq) f

-- The same for a call that ends there.
pub Good-end :
    (loose : Bool) (c : Ctl) (e : WriteOpEvent) (s : WriteOpState)
    → write_op_reducer c.state e ≡ s
    → Facts s.phase s c.cfg
    → busy_phase s.phase ≡ false
    → Good loose (dispatch c e, none)
Good-end loose c e s eq f b =
    (Sound-as c e s eq f, inr (subst (λ q. busy_phase q.phase ≡ false) (sym eq) b))

pub Facts-as :
    (k : Option WriteOpConfig) (x s : WriteOpState) → x ≡ s → Facts s.phase s k → Facts x.phase x k
Facts-as k x s eq f = subst (λ q. Facts q.phase q k) (sym eq) f
