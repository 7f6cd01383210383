-- ===== src/Tests/UbusRuns.antt =====
-- ADB over the router's web interface (web/src/lib/ubus.ts).
use zte_u60_pro_mu5250_manag.Common.{◌≡◌, refl, some, none, [], ◌∷◌, ◌++◌}
use zte_u60_pro_mu5250_manag.Common.Texts.{Text, codes}
use zte_u60_pro_mu5250_manag.Ubus.Rpc.{
  Item, RpcResult, Entry, HttpAnswer, AdbFailure, anon, enable_adb, info_call, login_call, usb_call,
}
use zte_u60_pro_mu5250_manag.Ubus.Login.{IsCalls, enable_adb-IsCalls}

abbrev answer : Text → Text → HttpAnswer
answer k v =
    HttpAnswer.entries
      (Entry.rpc_result (RpcResult.items (Item.code 0 ∷ Item.details ((k, v) ∷ []) ∷ [])) ∷ [])

abbrev salt_answer : HttpAnswer
salt_answer = answer (codes "zte_web_sault") (codes "s")

abbrev usb_answer : HttpAnswer
usb_answer = HttpAnswer.entries (Entry.rpc_result (RpcResult.items (Item.code 0 ∷ [])) ∷ [])

abbrev joined : Text → Text → Text
joined a b = a ++ b

enabled_run :
    enable_adb joined
      (codes "p")
      salt_answer
      (answer (codes "ubus_rpc_session") (codes "5"))
      usb_answer
    ≡ record {
      failure = none;
      calls = info_call ∷ login_call (codes "ps") ∷ usb_call (codes "5") ∷ [];
    }
unfolding enable_adb
enabled_run = refl

rejected_run :
    (enable_adb joined
      (codes "p")
      salt_answer
      (answer (codes "ubus_rpc_session") anon)
      usb_answer).failure
    ≡ some AdbFailure.login_rejected
unfolding enable_adb
rejected_run = refl

enable_adb-IsCalls_example :
    IsCalls joined (codes "p") (answer (codes "ubus_rpc_session") (codes "5")) (
      enable_adb joined
        (codes "p")
        salt_answer
        (answer (codes "ubus_rpc_session") (codes "5"))
        usb_answer)
enable_adb-IsCalls_example =
    enable_adb-IsCalls joined (codes "p") salt_answer
      (answer (codes "ubus_rpc_session") (codes "5")) usb_answer
