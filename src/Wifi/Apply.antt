-- ===== src/Wifi/Apply.antt =====
-- One Apply of the Wi-Fi page: its checks, what it tells before, and what it sends
-- (web/src/app/(panel)/router/wifi/page.tsx).
use zte_u60_pro_mu5250_manag.Common.{
  Bool, true, false, not, ◌&&◌, ◌||◌, Option, none, some, List, [], ◌∷◌, ◌++◌, all, filter,
  if◌then◌else◌,
}
use zte_u60_pro_mu5250_manag.Common.Texts.{Text, text_eq}
use zte_u60_pro_mu5250_manag.Wifi.Fields.{
  has_stripped, SsidProblem, ssid_problem, KeyProblem, key_problem, open_network,
}
use zte_u60_pro_mu5250_manag.Wifi.Form.{Band, FormKey, WifiForm, form_keys, one_flag}

-- `changed.includes(k)`, of a form and the device's values.
unfoldable pub differs : WifiForm → WifiForm → FormKey → Bool
unfolding text_eq
differs f b k = not (text_eq (f k) (b k))

-- `changed`.
unfoldable pub changed_keys : WifiForm → WifiForm → List FormKey
unfolding differs
changed_keys f b = filter (λ k. differs f b k) form_keys

pub data WifiProblem : Type 0 where
  ssid_chars key_chars : Band → Bool → WifiProblem
  bad_ssid : Band → SsidProblem → WifiProblem
  bad_key : Band → KeyProblem → WifiProblem

abbrev pub listed {ℓ} : {A : Type ℓ} → Option A → List A
listed none = []
listed (some a) = a ∷ []

abbrev pub ssid_found : Band → Option SsidProblem → Option WifiProblem
ssid_found band none = none
ssid_found band (some p) = some (WifiProblem.bad_ssid band p)

abbrev pub key_found : Band → Option KeyProblem → Option WifiProblem
key_found band none = none
key_found band (some p) = some (WifiProblem.bad_key band p)

-- Characters that the device drops, in the name and in the password of a band.
unfoldable pub ssid_char_problems : WifiForm → WifiForm → Band → List WifiProblem
unfolding differs has_stripped
ssid_char_problems f b band =
    if has_stripped (f (FormKey.ssid band))
    then WifiProblem.ssid_chars band (differs f b (FormKey.ssid band)) ∷ []
    else []

unfoldable pub key_char_problems : WifiForm → WifiForm → Band → List WifiProblem
unfolding text_eq differs has_stripped
key_char_problems f b band =
    if not (text_eq (f (FormKey.encryption band)) open_network)
      && has_stripped (f (FormKey.key band))
    then WifiProblem.key_chars band (differs f b (FormKey.key band)) ∷ []
    else []

-- What is wrong with a name or a password that was changed.
unfoldable pub ssid_problems : WifiForm → WifiForm → Band → List WifiProblem
unfolding differs ssid_problem
ssid_problems f b band =
    if differs f b (FormKey.ssid band)
    then listed (ssid_found band (ssid_problem (f (FormKey.ssid band))))
    else []

unfoldable pub key_problems : WifiForm → WifiForm → Band → List WifiProblem
unfolding differs key_problem
key_problems f b band =
    if differs f b (FormKey.key band) || differs f b (FormKey.encryption band)
    then listed (key_found band (key_problem (f (FormKey.key band)) (f (FormKey.encryption band))))
    else []

unfoldable pub band_problems : WifiForm → WifiForm → Band → List WifiProblem
unfolding ssid_char_problems key_char_problems ssid_problems key_problems
band_problems f b band =
    ssid_char_problems f b band
    ++ (key_char_problems f b band ++ (ssid_problems f b band ++ key_problems f b band))

-- `problems`.
unfoldable pub wifi_problems : WifiForm → WifiForm → List WifiProblem
unfolding band_problems
wifi_problems f b = band_problems f b Band.band_2g ++ band_problems f b Band.band_5g

-- The networks that a device can reconnect to.
pub data Names : Type 0 where
  one_name : Text → Names
  each : List (Text × Band) → Names

-- `networkNames`.
unfoldable pub network_names : WifiForm → Names
unfolding text_eq
network_names f =
    let on2 = not (text_eq (f (FormKey.radio_disabled Band.band_2g)) one_flag) in
    let on5 = not (text_eq (f (FormKey.radio_disabled Band.band_5g)) one_flag) in
    let name2 = f (FormKey.ssid Band.band_2g) in
    let name5 = f (FormKey.ssid Band.band_5g) in
    if on2 && on5 && text_eq name2 name5
    then Names.one_name name2
    else Names.each (
        (if on2 then (name2, Band.band_2g) ∷ [] else [])
        ++ (if on5 then (name5, Band.band_5g) ∷ [] else []))

pub data OtherChange : Type 0 where
  channel bandwidth tx_power region wifi6 : OtherChange

-- The sentences of a confirmation. A reconnection says whether the password is new.
pub data WifiLine : Type 0 where
  all_off all_on : WifiLine
  radio_off radio_on opens new_key hides shows : Band → WifiLine
  new_ssid new_encryption : Band → Text → WifiLine
  also_changes : List OtherChange → WifiLine
  only_power reloads : WifiLine
  reconnects : Bool → Names → WifiLine

pub data Downtime : Type 0 where
  until_on no_downtime while_reloading : Downtime

pub data WifiRecovery : Type 0 where
  turn_on : WifiRecovery
  reconnect_with : Bool → Names → WifiRecovery
  generic : Names → WifiRecovery

pub record WifiDescribed : Type 0 where
  pub consequence : List WifiLine
  pub downtime : Downtime
  pub recovery : WifiRecovery
  pub is_reload : Bool
  pub reconnect : Option (Bool × Names)

abbrev pub told_if {ℓ} : {A : Type ℓ} → Bool → A → List A
told_if true a = a ∷ []
told_if false a = []

-- What a band's values tell.
unfoldable pub band_lines : WifiForm → WifiForm → Band → List WifiLine
unfolding text_eq differs
band_lines f b band =
    told_if (differs f b (FormKey.radio_disabled band)) (
      if text_eq (f (FormKey.radio_disabled band)) one_flag
      then WifiLine.radio_off band
      else WifiLine.radio_on band)
    ++ told_if (differs f b (FormKey.ssid band)) (WifiLine.new_ssid band (f (FormKey.ssid band)))
    ++ told_if (differs f b (FormKey.encryption band)) (
        if text_eq (f (FormKey.encryption band)) open_network
        then WifiLine.opens band
        else WifiLine.new_encryption band (f (FormKey.encryption band)))
    ++ told_if
        (differs f b (FormKey.key band) && not (text_eq (f (FormKey.encryption band)) open_network))
        (WifiLine.new_key band)
    ++ told_if (differs f b (FormKey.hidden band)) (
        if text_eq (f (FormKey.hidden band)) one_flag
        then WifiLine.hides band
        else WifiLine.shows band)

-- `keyChanged` and `nameOrKey`, for one band.
unfoldable pub band_key_changed : WifiForm → WifiForm → Band → Bool
unfolding text_eq differs
band_key_changed f b band =
    differs f b (FormKey.key band) && not (text_eq (f (FormKey.encryption band)) open_network)

unfoldable pub band_name_or_key : WifiForm → WifiForm → Band → Bool
unfolding differs band_key_changed
band_name_or_key f b band =
    differs f b (FormKey.ssid band)
    || differs f b (FormKey.encryption band)
    || band_key_changed f b band

unfoldable pub both_or : (Band → FormKey) → WifiForm → WifiForm → Bool
unfolding differs
both_or k f b = differs f b (k Band.band_2g) || differs f b (k Band.band_5g)

abbrev pub is_tx_power : FormKey → Bool
is_tx_power (FormKey.txpower b) = true
is_tx_power _ = false

-- `onlyTx`.
unfoldable pub only_tx : WifiForm → WifiForm → Bool
unfolding differs
only_tx f b = all (λ k. not (differs f b k) || is_tx_power k) form_keys

unfoldable pub other_changes : WifiForm → WifiForm → List OtherChange
unfolding both_or differs
other_changes f b =
    told_if (both_or FormKey.channel f b) OtherChange.channel
    ++ told_if (both_or FormKey.htmode f b) OtherChange.bandwidth
    ++ told_if (both_or FormKey.txpower f b) OtherChange.tx_power
    ++ told_if (differs f b FormKey.country) OtherChange.region
    ++ told_if (differs f b FormKey.wifi6_switch) OtherChange.wifi6

abbrev pub others_line : List OtherChange → List WifiLine
others_line [] = []
others_line (o ∷ os) = WifiLine.also_changes (o ∷ os) ∷ []

abbrev pub reconnect_lines : Option (Bool × Names) → List WifiLine
reconnect_lines none = []
reconnect_lines (some (with_key, names)) = WifiLine.reconnects with_key names ∷ []
