-- ===== src/Scheduler/Jobs.antt =====
-- Jobs of the scheduler (web/src/app/(panel)/scheduler/jobs.ts, with the types of
-- web/src/lib/api/schemas/system.ts). A JSON value is of any type.
use zte_u60_pro_mu5250_manag.Common.{
  ℕ, ◌-◌, Bool, true, false, ◌&&◌, Option, List, [], ◌∷◌, map, if◌then◌else◌, leb, ◌==◌, any,
}
use zte_u60_pro_mu5250_manag.Common.Texts.{Text, codes, text_eq, trim}

pub data Schedule : Type 0 where
  once : ℕ → Schedule
  recurring : Text → List ℕ → Schedule

pub record Action {ℓ} (J : Type ℓ) : Type ℓ where
  pub method : Text
  pub path : Text
  pub body : Option J

pub record Restore {ℓ} (J : Type ℓ) : Type ℓ where
  pub time : Text
  pub body : Option J

-- A job without what the device notes of its runs.
pub record Job {ℓ} (J : Type ℓ) : Type ℓ where
  pub id : ℕ
  pub name : Text
  pub enabled : Bool
  pub schedule : Schedule
  pub action : Action J
  pub restore : Option (Restore J)

-- `toUpperCase` of an ASCII text.
abbrev pub upper_unit : ℕ → ℕ
upper_unit c = if leb 97 c && leb c 122 then c - 32 else c

unfoldable pub is_method : Text → Text → Bool
unfolding text_eq
is_method name method = text_eq (map upper_unit method) name

-- `p.startsWith(pre)`.
unfoldable pub starts_with : Text → Text → Bool
starts_with [] p = true
starts_with (c ∷ pre) [] = false
starts_with (c ∷ pre) (d ∷ p) = c == d && starts_with pre p

-- `split("?")[0]`.
unfoldable pub before_query : Text → Text
before_query [] = []
before_query (c ∷ s) = let rest = before_query s in if c == 63 then [] else c ∷ rest

abbrev pub tier3_prefixes : List Text
tier3_prefixes =
    codes "/api/device/reboot"
    ∷ codes "/api/device/factory-reset"
    ∷ codes "/api/modem/network-mode"
    ∷ codes "/api/modem/airplane"
    ∷ codes "/api/cell/band/"
    ∷ codes "/api/cell/lock/"
    ∷ codes "/api/cell/stc/reset"
    ∷ codes "/api/router/apn/"
    ∷ codes "/api/esim/switch"
    ∷ codes "/api/esim/delete"
    ∷ codes "/api/usb/mode"
    ∷ codes "/api/system/kill"
    ∷ codes "/api/sim/pin/"
    ∷ codes "/api/sim/unlock"
    ∷ codes "/api/at/send"
    ∷ codes "/api/sms/delete"
    ∷ codes "/api/sms/forward/log/clear"
    ∷ []

-- `isTier3Action` of a method and a path.
unfoldable pub is_tier3 : Text → Text → Bool
unfolding is_method trim before_query text_eq starts_with
is_tier3 method path =
    let p = before_query (trim path) in
    if is_method (codes "GET") method
    then false
    else if text_eq p (codes "/api/sms/forward/rules") && is_method (codes "DELETE") method
    then true
    else any (λ pre. starts_with pre p) tier3_prefixes

-- `isRebootJob` of a method and a path.
unfoldable pub is_reboot : Text → Text → Bool
unfolding is_method trim text_eq
is_reboot method path =
    is_method (codes "POST") method && text_eq (trim path) (codes "/api/device/reboot")
