-- ===== src/Ubus/Rpc.antt =====
-- `rpc` and `enableADB` (web/src/lib/ubus.ts). The answers of the network are a sequence, one for each
-- call; a body that is no array counts as an array of one entry. `hash` is `hashPassword`
-- (web/src/lib/crypto.ts) over the platform's SHA-256.
use zte_u60_pro_mu5250_manag.Common.{
  ℕ, Bool, true, false, ◌||◌, Option, none, some, List, [], ◌∷◌, if◌then◌else◌, ◌==◌, get_or_else,
}
use zte_u60_pro_mu5250_manag.Common.Texts.{Text, codes, text_eq}

-- One item of a result: the code of the call, or what the call tells.
pub data Item : Type 0 where
  code : ℕ → Item
  details : List (Text × Text) → Item
  other : Item

-- A result; the firmware sends a list.
pub data RpcResult : Type 0 where
  items : List Item → RpcResult
  no_list : RpcResult

pub data Entry : Type 0 where
  rpc_error : Text → Entry
  rpc_result : RpcResult → Entry

pub data HttpAnswer : Type 0 where
  no_answer : Text → HttpAnswer
  http_error : ℕ → HttpAnswer
  entries : List Entry → HttpAnswer

pub record RpcCall : Type 0 where
  pub session : Text
  pub object : Text
  pub method : Text
  pub params : List (Text × Text)

pub data AdbFailure : Type 0 where
  network : Text → AdbFailure
  http : ℕ → AdbFailure
  empty_response : AdbFailure
  ubus_error : Text → AdbFailure
  unexpected_salt no_salt login_failed login_rejected : AdbFailure
  usb_failed : Option ℕ → AdbFailure

-- How `enableADB` ends, and the calls that it made.
pub record AdbRun : Type 0 where
  pub failure : Option AdbFailure
  pub calls : List RpcCall

abbrev pub anon : Text
anon = codes "00000000000000000000000000000000"

-- What `rpc` throws, or its result.
pub data RpcOutcome : Type 0 where
  threw : AdbFailure → RpcOutcome
  got : RpcResult → RpcOutcome

-- `rpc`, of the answer to its request.
unfoldable pub rpc_outcome : HttpAnswer → RpcOutcome
rpc_outcome (HttpAnswer.no_answer e) = RpcOutcome.threw (AdbFailure.network e)
rpc_outcome (HttpAnswer.http_error n) = RpcOutcome.threw (AdbFailure.http n)
rpc_outcome (HttpAnswer.entries []) = RpcOutcome.threw AdbFailure.empty_response
rpc_outcome (HttpAnswer.entries (Entry.rpc_error e ∷ _)) =
    RpcOutcome.threw (AdbFailure.ubus_error e)
rpc_outcome (HttpAnswer.entries (Entry.rpc_result r ∷ _)) = RpcOutcome.got r

unfoldable pub field_named : Text → List (Text × Text) → Text
unfolding text_eq
field_named k [] = []
field_named k ((j, v) ∷ fs) = let rest = field_named k fs in if text_eq j k then v else rest

-- A field of the second item, empty where it is missing; none where the result has no second item.
unfoldable pub second_field : Text → RpcResult → Option Text
unfolding field_named
second_field k (RpcResult.items (x ∷ Item.details fs ∷ _)) = some (field_named k fs)
second_field k (RpcResult.items (x ∷ y ∷ _)) = some []
second_field k _ = none

abbrev pub non_empty_or : Text → Text → Text
non_empty_or [] b = b
non_empty_or (c ∷ a) b = c ∷ a

-- `info.zte_web_sault || info.salt`.
unfoldable pub salt_of : RpcResult → Option Text
unfolding second_field
salt_of r = elim (second_field (codes "zte_web_sault") r) [
  | none ↦ none
  | some a ↦ some (non_empty_or a (get_or_else (second_field (codes "salt") r) []))
]

-- `Array.isArray(usbResult) && usbResult[0] !== 0`.
unfoldable pub usb_failure : RpcResult → Option AdbFailure
usb_failure (RpcResult.items (Item.code n ∷ _)) =
    if n == 0 then none else some (AdbFailure.usb_failed (some n))
usb_failure (RpcResult.items _) = some (AdbFailure.usb_failed none)
usb_failure RpcResult.no_list = none

abbrev pub info_call : RpcCall
info_call = record {
  session = anon;
  object = codes "zwrt_web";
  method = codes "web_login_info";
  params = [];
}

abbrev pub login_call : Text → RpcCall
login_call hashed = record {
  session = anon;
  object = codes "zwrt_web";
  method = codes "web_login";
  params = (codes "password", hashed) ∷ [];
}

abbrev pub usb_call : Text → RpcCall
usb_call session = record {
  session = session;
  object = codes "zwrt_bsp.usb";
  method = codes "set";
  params = (codes "mode", codes "debug") ∷ [];
}

abbrev pub run_of : Option AdbFailure → List RpcCall → AdbRun
run_of f calls = record { failure = f; calls = calls }

abbrev pub is_empty_field : Text → Bool
is_empty_field [] = true
is_empty_field (_ ∷ _) = false

-- After the answer to the USB mode, with the calls made so far.
unfoldable pub after_usb : List RpcCall → RpcOutcome → AdbRun
unfolding usb_failure
after_usb calls (RpcOutcome.threw e) = run_of (some e) calls
after_usb calls (RpcOutcome.got r) = run_of (usb_failure r) calls

-- With the session of the login.
unfoldable pub after_session : Text → HttpAnswer → Option Text → AdbRun
unfolding text_eq after_usb rpc_outcome
after_session hashed usb none =
    run_of (some AdbFailure.login_failed) (info_call ∷ login_call hashed ∷ [])
after_session hashed usb (some session) =
    if is_empty_field session || text_eq session anon
    then run_of (some AdbFailure.login_rejected) (info_call ∷ login_call hashed ∷ [])
    else after_usb (info_call ∷ login_call hashed ∷ usb_call session ∷ []) (rpc_outcome usb)

unfoldable pub after_login_answer : Text → HttpAnswer → RpcOutcome → AdbRun
unfolding after_session second_field
after_login_answer hashed usb (RpcOutcome.threw e) =
    run_of (some e) (info_call ∷ login_call hashed ∷ [])
after_login_answer hashed usb (RpcOutcome.got r) =
    after_session hashed usb (second_field (codes "ubus_rpc_session") r)

module _ (hash : Text → Text → Text) where
  unfoldable pub after_salt : Text → HttpAnswer → HttpAnswer → Option Text → AdbRun
  unfolding after_login_answer rpc_outcome
  after_salt password login usb none = run_of (some AdbFailure.unexpected_salt) (info_call ∷ [])
  after_salt password login usb (some []) = run_of (some AdbFailure.no_salt) (info_call ∷ [])
  after_salt password login usb (some (c ∷ salt)) =
      after_login_answer (hash password (c ∷ salt)) usb (rpc_outcome login)

  unfoldable pub after_info : Text → HttpAnswer → HttpAnswer → RpcOutcome → AdbRun
  unfolding after_salt salt_of
  after_info password login usb (RpcOutcome.threw e) = run_of (some e) (info_call ∷ [])
  after_info password login usb (RpcOutcome.got r) = after_salt password login usb (salt_of r)

  -- `enableADB`, of the answers to its three calls, as far as they are made.
  unfoldable pub enable_adb : Text → HttpAnswer → HttpAnswer → HttpAnswer → AdbRun
  unfolding after_info rpc_outcome
  enable_adb password first login usb = after_info password login usb (rpc_outcome first)
