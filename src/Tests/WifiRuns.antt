-- ===== src/Tests/WifiRuns.antt =====
-- Wi-Fi (web/src/app/(panel)/router/wifi/page.tsx).
use zte_u60_pro_mu5250_manag.Common.{◌≡◌, ◌↔◌, refl, true, false, some, none, [], ◌∷◌}
use zte_u60_pro_mu5250_manag.Common.Texts.{Text, codes}
use zte_u60_pro_mu5250_manag.Wifi.Fields.{
  ssid_problem, key_problem, SsidProblem, KeyProblem, byte_length,
}
use zte_u60_pro_mu5250_manag.Wifi.Form.{
  Band, FormKey, WifiForm, WifiStatus, wifi_seed, wifi_matches, one_flag,
}
use zte_u60_pro_mu5250_manag.Wifi.Apply.{changed_keys}
use zte_u60_pro_mu5250_manag.Wifi.Ask.{
  ask_wifi_apply, WifiPending, wifi_describe, is_none_listed, set_region,
}
use zte_u60_pro_mu5250_manag.Wifi.Readback.{full_status, wifi_matches-wifi_seed}
use zte_u60_pro_mu5250_manag.Wifi.Allowed.{IsAllowed, ask_wifi_apply-IsAllowed}

abbrev as_is : Text → Text
as_is t = t

abbrev form : WifiForm
form (FormKey.ssid b) = codes "U60"
form (FormKey.key b) = codes "12345678"
form (FormKey.channel b) = codes "auto"
form (FormKey.txpower b) = codes "100"
form (FormKey.encryption b) = codes "psk2+ccmp"
form (FormKey.hidden b) = codes "0"
form (FormKey.htmode b) = codes "auto"
form (FormKey.radio_disabled b) = codes "0"
form FormKey.wifi_onoff = codes "1"
form FormKey.wifi6_switch = codes "1"
form FormKey.country = codes "CN"

-- The 5 GHz radio is off.
abbrev half : WifiForm
half (FormKey.radio_disabled Band.band_5g) = one_flag
half k = form k

abbrev renamed : WifiForm
renamed (FormKey.ssid Band.band_2g) = codes "Cabin"
renamed k = form k

field_runs :
    (byte_length (0xe9 ∷ 0xd83d ∷ 0xde00 ∷ 97 ∷ []) ≡ 7)
    × (ssid_problem [] ≡ some SsidProblem.empty)
    × (key_problem (codes "1234567") (codes "psk2+ccmp") ≡ some KeyProblem.short)
    × (key_problem (codes "x") (codes "none") ≡ none)
unfolding byte_length ssid_problem key_problem
field_runs = (refl, refl, refl, refl)

region_run : set_region (λ k. codes "13") (codes "US") (FormKey.channel Band.band_2g) ≡ codes "auto"
unfolding set_region
region_run = refl

wifi_matches-wifi_seed_example :
    (wifi_matches as_is form (full_status half (codes "CN")) ≡ true)
    ↔ ((k : FormKey) → wifi_seed as_is (full_status half (codes "CN")) k ≡ form k)
wifi_matches-wifi_seed_example = wifi_matches-wifi_seed as_is form half 67 (codes "N") refl

abbrev after_on : WifiStatus
after_on = full_status form (codes "CN")

abbrev renamed_pending : WifiPending
renamed_pending = record { tier = 3; body = renamed; described = wifi_describe renamed form }

rename_run : ask_wifi_apply true false renamed form ≡ some renamed_pending
unfolding ask_wifi_apply
rename_run = refl

ask_wifi_apply-IsAllowed_example :
    (renamed_pending.body ≡ renamed)
    × (false ≡ false)
    × (is_none_listed (changed_keys renamed form) ≡ false)
    × IsAllowed renamed form Band.band_2g
    × IsAllowed renamed form Band.band_5g
ask_wifi_apply-IsAllowed_example =
    ask_wifi_apply-IsAllowed true false renamed form renamed_pending rename_run
