-- ===== src/Wifi/Form.antt =====
-- The form of the Wi-Fi page, its seed, and its readback (web/src/app/(panel)/router/wifi/page.tsx).
-- A form has a value for each of its keys; an answer may lack some. `upper` stands for
-- `toUpperCase`.
use zte_u60_pro_mu5250_manag.Common.{
  Bool, true, false, Option, none, some, List, [], ◌∷◌, ◌++◌, all, if◌then◌else◌, get_or_else,
}
use zte_u60_pro_mu5250_manag.Common.Texts.{Text, codes, text_eq}
use zte_u60_pro_mu5250_manag.Wifi.Fields.{flag}

pub data Band : Type 0 where
  band_2g band_5g : Band

pub data FormKey : Type 0 where
  ssid key channel txpower encryption hidden htmode radio_disabled : Band → FormKey
  wifi_onoff wifi6_switch country : FormKey

abbrev pub WifiForm : Type 0
WifiForm = FormKey → Text

-- The values of an answer under the keys of the form, and its country code.
pub record WifiStatus : Type 0 where
  pub value : FormKey → Option Text
  pub country_code : Option Text

abbrev pub zero_flag : Text
zero_flag = codes "0"

abbrev pub one_flag : Text
one_flag = codes "1"

-- `v !== "0" ? "1" : "0"`.
unfoldable pub on_unless_zero : Option Text → Text
unfolding text_eq
on_unless_zero none = one_flag
on_unless_zero (some v) = if text_eq v zero_flag then zero_flag else one_flag

-- `d.country_code || "CN"`.
abbrev pub code_or_cn : Option Text → Text
code_or_cn (some (c ∷ s)) = c ∷ s
code_or_cn _ = codes "CN"

unfoldable pub seed_value : FormKey → Option Text → Text
unfolding flag on_unless_zero
seed_value (FormKey.ssid b) v = get_or_else v []
seed_value (FormKey.key b) v = get_or_else v []
seed_value (FormKey.channel b) v = get_or_else v (codes "auto")
seed_value (FormKey.txpower b) v = get_or_else v (codes "100")
seed_value (FormKey.encryption b) v = get_or_else v (codes "psk2+ccmp")
seed_value (FormKey.hidden b) v = flag v
seed_value (FormKey.htmode b) v = get_or_else v (codes "auto")
seed_value (FormKey.radio_disabled b) v = flag v
seed_value FormKey.wifi_onoff v = on_unless_zero v
seed_value FormKey.wifi6_switch v = flag v
seed_value FormKey.country v = []

abbrev pub band_keys : Band → List FormKey
band_keys b =
    FormKey.ssid b
    ∷ FormKey.key b
    ∷ FormKey.channel b
    ∷ FormKey.txpower b
    ∷ FormKey.encryption b
    ∷ FormKey.hidden b
    ∷ FormKey.radio_disabled b
    ∷ FormKey.htmode b
    ∷ []

-- `FORM_KEYS`, in another order.
abbrev pub form_keys : List FormKey
form_keys =
    band_keys Band.band_2g
    ++ band_keys Band.band_5g
    ++ (FormKey.wifi_onoff ∷ FormKey.wifi6_switch ∷ FormKey.country ∷ [])

-- `FLAG_KEYS`, but for `wifi_onoff`, which is compared before them.
abbrev pub is_flag_key : FormKey → Bool
is_flag_key (FormKey.hidden b) = true
is_flag_key (FormKey.radio_disabled b) = true
is_flag_key FormKey.wifi6_switch = true
is_flag_key _ = false

module _ (upper : Text → Text) where
  -- `seed`.
  unfoldable pub wifi_seed : WifiStatus → WifiForm
  unfolding seed_value
  wifi_seed d FormKey.country = upper (code_or_cn d.country_code)
  wifi_seed d k = seed_value k (d.value k)

  -- One key of `readbackMatches`.
  unfoldable pub matches_key : WifiForm → WifiStatus → FormKey → Bool
  unfolding text_eq flag on_unless_zero
  matches_key sent d FormKey.country =
      text_eq (upper (get_or_else d.country_code [])) (upper (sent FormKey.country))
  matches_key sent d FormKey.wifi_onoff =
      text_eq (on_unless_zero (some (get_or_else (d.value FormKey.wifi_onoff) [])))
        (sent FormKey.wifi_onoff)
  matches_key sent d k =
      if is_flag_key k
      then text_eq (flag (some (get_or_else (d.value k) []))) (sent k)
      else text_eq (get_or_else (d.value k) []) (sent k)

  -- `readbackMatches`.
  unfoldable pub wifi_matches : WifiForm → WifiStatus → Bool
  unfolding matches_key
  wifi_matches sent d = all (λ k. matches_key sent d k) form_keys
