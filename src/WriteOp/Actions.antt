-- ===== src/WriteOp/Actions.antt =====
-- The calls of the page and of the login listener (web/src/lib/api/writeOp.ts), up to the first
-- `await`: the controller after the call, and what it awaits.
use zte_u60_pro_mu5250_manag.Common.{ℕ, ◌&&◌, not, Option, none, some, if◌then◌else◌}
use zte_u60_pro_mu5250_manag.WriteOp.State.{
  WriteOpEvent, busy_phase, is_submitting, is_confirming, is_relogin, is_verifying,
}
use zte_u60_pro_mu5250_manag.WriteOp.Controller.{
  WriteOpConfig, Ctl, Task, dispatch, run_steps, run_verify,
}

-- `start`: the first click. `k` is what `getConfig` returns now.
unfoldable pub start : Ctl → WriteOpConfig → ℕ → Ctl × Option Task
unfolding run_steps
start c k now =
    if busy_phase c.state.phase
    then (c, none)
    else (let d = dispatch (record c { cfg = some k }) (WriteOpEvent.start k.tier k.steps) in
        if is_submitting d.state.phase then run_steps d now else (d, none))

unfoldable pub confirm : Ctl → ℕ → Ctl × Option Task
unfolding run_steps
confirm c now =
    if is_confirming c.state.phase
    then run_steps (dispatch c WriteOpEvent.confirm) now
    else (c, none)

unfoldable pub cancel : Ctl → Ctl × Option Task
cancel c = (dispatch c WriteOpEvent.cancel, none)

unfoldable pub resubmit : Ctl → ℕ → Ctl × Option Task
unfolding run_steps
resubmit c now = elim c.cfg [
  | none ↦ (c, none)
  | some _ ↦
      let d = dispatch c WriteOpEvent.resubmit in
      if is_submitting d.state.phase && not (is_submitting c.state.phase)
      then run_steps d now
      else (d, none)
]

unfoldable pub reset : Ctl → Ctl × Option Task
reset c = (dispatch c WriteOpEvent.reset, none)

-- `handleLogin`, called while the controller listens.
unfoldable pub handle_login : Ctl → ℕ → Ctl × Option Task
unfolding run_steps run_verify
handle_login c now =
    if c.listening && is_relogin c.state.phase
    then (let d = dispatch c WriteOpEvent.login in
        if is_submitting d.state.phase
        then run_steps d now
        else if is_verifying d.state.phase
        then run_verify d
        else (d, none))
    else (c, none)
