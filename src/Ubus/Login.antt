-- ===== src/Ubus/Login.antt =====
-- What has happened when ADB is turned on (web/src/lib/ubus.ts).
use zte_u60_pro_mu5250_manag.Common.{
  ◌≡◌, ◌≢◌, refl, false, ◌||◌, Option, none, some, [], ◌∷◌, Bool-cases, inl, inr, arith, length,
  ◌≤◌,
}
use zte_u60_pro_mu5250_manag.Common.Texts.{Text, codes, text_eq}
use zte_u60_pro_mu5250_manag.Ubus.Rpc.{
  HttpAnswer, RpcOutcome, RpcResult, AdbRun, anon, info_call, login_call, usb_call, is_empty_field,
  after_usb, after_session, after_login_answer, after_salt, after_info, enable_adb, rpc_outcome,
  second_field, salt_of,
}

-- The calls of a run: at most the two of the login, or these and the USB mode with a session that the
-- login's answer gave, and that is neither empty nor the anonymous one.
pub data IsCalls (hash : Text → Text → Text) (password : Text) (login : HttpAnswer) (r : AdbRun)
    : Type 0 where
  stopped : r.failure ≢ none → length r.calls ≤ 2 → IsCalls hash password login r
  asked :
      (salt session : Text) (answer : RpcResult)
      → r.calls ≡ info_call ∷ login_call (hash password salt) ∷ usb_call session ∷ []
      → is_empty_field salt ≡ false
      → rpc_outcome login ≡ RpcOutcome.got answer
      → second_field (codes "ubus_rpc_session") answer ≡ some session
      → (is_empty_field session || text_eq session anon) ≡ false
      → IsCalls hash password login r

usb-IsCalls :
    (hash : Text → Text → Text) (password salt session : Text) (login : HttpAnswer)
    (answer : RpcResult) (u : RpcOutcome)
    → is_empty_field salt ≡ false
    → rpc_outcome login ≡ RpcOutcome.got answer
    → second_field (codes "ubus_rpc_session") answer ≡ some session
    → (is_empty_field session || text_eq session anon) ≡ false
    → IsCalls hash password login
        (after_usb (info_call ∷ login_call (hash password salt) ∷ usb_call session ∷ []) u)
unfolding after_usb
usb-IsCalls hash password salt session login answer (RpcOutcome.threw e) given got w good =
    IsCalls.asked salt session answer refl given got w good
usb-IsCalls hash password salt session login answer (RpcOutcome.got r) given got w good =
    IsCalls.asked salt session answer refl given got w good

session-IsCalls :
    (hash : Text → Text → Text) (password salt : Text) (login usb : HttpAnswer) (answer : RpcResult)
    (o : Option Text)
    → is_empty_field salt ≡ false
    → rpc_outcome login ≡ RpcOutcome.got answer
    → second_field (codes "ubus_rpc_session") answer ≡ o
    → IsCalls hash password login (after_session (hash password salt) usb o)
unfolding after_session
session-IsCalls hash password salt login usb answer none given got w =
    IsCalls.stopped (λ e. absurd cc) (omega arith)
session-IsCalls hash password salt login usb answer (some session) given got w =
    elim (Bool-cases (is_empty_field session || text_eq session anon)) [
      | inl bad ↦ rw bad (IsCalls.stopped (λ e. absurd cc) (omega arith))
      | inr good ↦
          rw good
            (usb-IsCalls hash password salt session login answer (rpc_outcome usb) given got w good)
    ]

login-IsCalls :
    (hash : Text → Text → Text) (password salt : Text) (login usb : HttpAnswer) (o : RpcOutcome)
    → is_empty_field salt ≡ false
    → rpc_outcome login ≡ o
    → IsCalls hash password login (after_login_answer (hash password salt) usb o)
unfolding after_login_answer
login-IsCalls hash password salt login usb (RpcOutcome.threw e) given w =
    IsCalls.stopped (λ e. absurd cc) (omega arith)
login-IsCalls hash password salt login usb (RpcOutcome.got r) given w =
    session-IsCalls hash password salt login usb r (second_field (codes "ubus_rpc_session") r) given
      w refl

salt-IsCalls :
    (hash : Text → Text → Text) (password : Text) (login usb : HttpAnswer) (o : Option Text)
    → IsCalls hash password login (after_salt hash password login usb o)
unfolding after_salt
salt-IsCalls hash password login usb none = IsCalls.stopped (λ e. absurd cc) (omega arith)
salt-IsCalls hash password login usb (some []) = IsCalls.stopped (λ e. absurd cc) (omega arith)
salt-IsCalls hash password login usb (some (c ∷ salt)) =
    login-IsCalls hash password (c ∷ salt) login usb (rpc_outcome login) refl refl

info-IsCalls :
    (hash : Text → Text → Text) (password : Text) (login usb : HttpAnswer) (o : RpcOutcome)
    → IsCalls hash password login (after_info hash password login usb o)
unfolding after_info
info-IsCalls hash password login usb (RpcOutcome.threw e) =
    IsCalls.stopped (λ e. absurd cc) (omega arith)
info-IsCalls hash password login usb (RpcOutcome.got r) =
    salt-IsCalls hash password login usb (salt_of r)

-- Whatever the router answers, the run fails within the two calls of the login, or it asks for the
-- USB mode with the session that the login's answer gave, which is neither empty nor the anonymous
-- one, after a login with the password hashed with a salt that is not empty.
pub enable_adb-IsCalls :
    (hash : Text → Text → Text) (password : Text) (first login usb : HttpAnswer)
    → IsCalls hash password login (enable_adb hash password first login usb)
unfolding enable_adb
enable_adb-IsCalls hash password first login usb =
    info-IsCalls hash password login usb (rpc_outcome first)
