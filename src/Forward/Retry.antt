-- ===== src/Forward/Retry.antt =====
-- What the forwarding page checks after a write, and which entries of the log it sends again
-- (web/src/app/(panel)/sms/forward/page.tsx).
use zte_u60_pro_mu5250_manag.Common.{
  ℕ, suc, ◌≡◌, refl, Bool, true, false, ◌&&◌, not, Option, none, some, List, [], ◌∷◌, map, filter,
  if◌then◌else◌, ◌==◌, All, Bool-cases, inl, inr, arith, get_elem?,
}
use zte_u60_pro_mu5250_manag.Common.Texts.{Text}
use zte_u60_pro_mu5250_manag.Api.Errors.{Thrown}
use zte_u60_pro_mu5250_manag.WriteOp.State.{ErrorKind}
use zte_u60_pro_mu5250_manag.WriteOp.Controller.{classify_error}

pub record ForwardLogEntry : Type 0 where
  pub sms_id : ℕ
  pub rule_id : ℕ
  pub sender : Text
  pub success : Bool
  pub error : Option Text

pub record Target : Type 0 where
  pub sms_id : ℕ
  pub rule_id : ℕ
  pub sender : Text

-- `targets` of `askRetry`: the failed entries of the log as it was shown.
unfoldable pub targets : List ForwardLogEntry → List Target
targets log =
    map (λ e. record { sms_id = e.sms_id; rule_id = e.rule_id; sender = e.sender })
      (filter (λ e. not e.success) log)

-- `same`.
abbrev pub same_entry : Target → ForwardLogEntry → Bool
same_entry x e = not e.success && e.sms_id == x.sms_id && e.rule_id == x.rule_id

abbrev pub later : Option ℕ → Option ℕ
later none = none
later (some i) = some (suc i)

-- `fresh.findIndex(same(x))`, none for -1.
unfoldable pub find_index : (ForwardLogEntry → Bool) → List ForwardLogEntry → Option ℕ
find_index p [] = none
find_index p (e ∷ es) = let rest = find_index p es in if p e then some 0 else later rest

pub data Step : Type 0 where
  nothing_to_send : Step
  post_retry : ℕ → Step

abbrev pub step_at : Option ℕ → Step
step_at none = Step.nothing_to_send
step_at (some i) = Step.post_retry i

-- A step of `askRetry`, on the log that is read again for it.
unfoldable pub retry_step : Target → List ForwardLogEntry → Step
unfolding find_index
retry_step x fresh = step_at (find_index (same_entry x) fresh)

pub data StepEnd : Type 0 where
  done : StepEnd
  rethrown : Thrown → StepEnd

-- An answer of `POST /api/sms/forward/retry` that throws: an error of the device ends the step.
unfoldable pub after_throw : Thrown → StepEnd
unfolding classify_error
after_throw e = elim (classify_error e) [ ErrorKind.device ↦ StepEnd.done | _ ↦ StepEnd.rethrown e ]

-- The entry at the index passes the test; none passes it where there is no index.
abbrev IsIndex : (ForwardLogEntry → Bool) → List ForwardLogEntry → Option ℕ → Type 0
IsIndex p es none = All (λ e. p e ≡ false) es
IsIndex p es (some i) = (e : ForwardLogEntry) × (get_elem? es i ≡ some e) × (p e ≡ true)

IsIndex-later :
    (p : ForwardLogEntry → Bool) (e : ForwardLogEntry) (es : List ForwardLogEntry) (o : Option ℕ)
    → p e ≡ false
    → IsIndex p es o
    → IsIndex p (e ∷ es) (later o)
IsIndex-later p e es none h k = (h, k)
IsIndex-later p e es (some i) h k = k

find_index-IsIndex :
    (p : ForwardLogEntry → Bool) (es : List ForwardLogEntry) → IsIndex p es (find_index p es)
unfolding find_index
find_index-IsIndex p [] = tt
find_index-IsIndex p (e ∷ es) = elim (Bool-cases (p e)) [
  | inl h ↦ rw h (e, refl, h)
  | inr h ↦ rw h (IsIndex-later p e es (find_index p es) h (find_index-IsIndex p es))
]

-- A step sends the failed entry of its message and rule again, at the place where the fresh log has
-- it, and sends nothing where the fresh log has no such entry.
abbrev pub IsStepFor : Target → List ForwardLogEntry → Step → Type 0
IsStepFor x fresh Step.nothing_to_send = All (λ e. same_entry x e ≡ false) fresh
IsStepFor x fresh (Step.post_retry i) =
    (e : ForwardLogEntry) × (get_elem? fresh i ≡ some e)
    × (e.success ≡ false)
    × (e.sms_id ≡ x.sms_id)
    × (e.rule_id ≡ x.rule_id)

same_entry_sound :
    (x : Target) (e : ForwardLogEntry)
    → same_entry x e ≡ true
    → (e.success ≡ false) × (e.sms_id ≡ x.sms_id) × (e.rule_id ≡ x.rule_id)
same_entry_sound x e h = ground arith

-- Whatever the log has become, a retry addresses the failed entry of its own message and rule, and
-- sends nothing only where the log has no such entry any more.
pub retry_step-IsStepFor :
    (x : Target) (fresh : List ForwardLogEntry) → IsStepFor x fresh (retry_step x fresh)
unfolding retry_step
retry_step-IsStepFor x fresh =
    step (find_index (same_entry x) fresh) (find_index-IsIndex (same_entry x) fresh)
  where
    step : (o : Option ℕ) → IsIndex (same_entry x) fresh o → IsStepFor x fresh (step_at o)
    step none h = h
    step (some i) (e, at, h) =
        let (failed, sms, rule) = same_entry_sound x e h in (e, at, failed, sms, rule)
