-- ===== src/Wifi/Ask.antt =====
-- What the Wi-Fi page asks before an Apply, its edits of the form, and the master switch of the agent
-- (web/src/app/(panel)/router/wifi/page.tsx, zte-agent/src/wifi.rs).
use zte_u60_pro_mu5250_manag.Common.{
  ℕ, Bool, true, false, not, ◌&&◌, ◌||◌, Option, none, some, List, [], ◌∷◌, ◌++◌, filter,
  if◌then◌else◌, bool_eq, get_or_else,
}
use zte_u60_pro_mu5250_manag.Common.Texts.{Text, codes, text_eq}
use zte_u60_pro_mu5250_manag.Wifi.Form.{Band, FormKey, WifiForm, zero_flag, one_flag}
use zte_u60_pro_mu5250_manag.Wifi.Apply.{
  differs, changed_keys, wifi_problems, network_names, WifiLine, Downtime, WifiRecovery,
  WifiDescribed, band_lines, band_key_changed, band_name_or_key, only_tx, other_changes,
  others_line, reconnect_lines, told_if, Names,
}

-- `describe`.
unfoldable pub wifi_describe : WifiForm → WifiForm → WifiDescribed
unfolding text_eq differs band_lines band_key_changed band_name_or_key only_tx other_changes
    network_names
wifi_describe f b =
    let wifi_off = text_eq (f FormKey.wifi_onoff) zero_flag in
    let key_changed = band_key_changed f b Band.band_2g || band_key_changed f b Band.band_5g in
    let name_or_key = band_name_or_key f b Band.band_2g || band_name_or_key f b Band.band_5g in
    let names = network_names f in
    let reconnect : Option (Bool × Names) =
      if not wifi_off && name_or_key then some (key_changed, names) else none in
    record {
      consequence =
          told_if (differs f b FormKey.wifi_onoff)
            (if wifi_off then WifiLine.all_off else WifiLine.all_on)
          ++ band_lines f b Band.band_2g
          ++ band_lines f b Band.band_5g
          ++ others_line (other_changes f b)
          ++ (if only_tx f b
              then WifiLine.only_power ∷ []
              else told_if (not wifi_off) WifiLine.reloads)
          ++ reconnect_lines reconnect;
      downtime =
          if wifi_off
          then Downtime.until_on
          else if only_tx f b
          then Downtime.no_downtime
          else Downtime.while_reloading;
      recovery =
          if wifi_off
          then WifiRecovery.turn_on
          else if name_or_key
          then WifiRecovery.reconnect_with key_changed names
          else WifiRecovery.generic names;
      is_reload = not (only_tx f b);
      reconnect = reconnect;
    }

pub record WifiPending : Type 0 where
  pub tier : ℕ
  pub body : WifiForm
  pub described : WifiDescribed

abbrev pub is_none_listed {ℓ} : {A : Type ℓ} → List A → Bool
is_none_listed [] = true
is_none_listed (_ ∷ _) = false

-- `askApply`, of a form and the device's values: nothing while a write runs, without a change, or
-- with a problem.
unfoldable pub ask_wifi_apply : Bool → Bool → WifiForm → WifiForm → Option WifiPending
unfolding changed_keys wifi_problems wifi_describe
ask_wifi_apply remote busy f b =
    if busy || is_none_listed (changed_keys f b) || not (is_none_listed (wifi_problems f b))
    then none
    else some (record { tier = if remote then 3 else 2; body = f; described = wifi_describe f b })

abbrev pub same_band : Band → Band → Bool
same_band Band.band_2g Band.band_2g = true
same_band Band.band_5g Band.band_5g = true
same_band _ _ = false

-- `setRegion`: a fixed channel 12 or 13 of 2.4 GHz becomes `auto` in the US.
unfoldable pub set_region : WifiForm → Text → WifiForm
unfolding text_eq
set_region f region FormKey.country = region
set_region f region (FormKey.channel Band.band_2g) =
    if text_eq region (codes "US")
      && (text_eq (f (FormKey.channel Band.band_2g)) (codes "12")
          || text_eq (f (FormKey.channel Band.band_2g)) (codes "13"))
    then codes "auto"
    else f (FormKey.channel Band.band_2g)
set_region f region k = f k

abbrev channels : List Text
channels =
    codes "auto"
    ∷ codes "1"
    ∷ codes "2"
    ∷ codes "3"
    ∷ codes "4"
    ∷ codes "5"
    ∷ codes "6"
    ∷ codes "7"
    ∷ codes "8"
    ∷ codes "9"
    ∷ codes "10"
    ∷ codes "11"
    ∷ codes "12"
    ∷ codes "13"
    ∷ []

-- `channels2g`: the channels that are offered.
unfoldable pub channels_2g : Text → List Text
unfolding text_eq
channels_2g country =
    if text_eq country (codes "US")
    then filter (λ c. not (text_eq c (codes "12")) && not (text_eq c (codes "13"))) channels
    else channels

-- `disabled` of a radio or of a main access point.
pub data DisabledPath : Type 0 where
  radio main : Band → DisabledPath

-- `master_writes`.
unfoldable pub master_writes : Text → Bool → List (DisabledPath × Text)
unfolding text_eq
master_writes want current_on =
    let want_on = not (text_eq want zero_flag) in
    if bool_eq want_on current_on
    then []
    else if want_on
    then (DisabledPath.radio Band.band_2g, zero_flag)
      ∷ (DisabledPath.radio Band.band_5g, zero_flag)
      ∷ (DisabledPath.main Band.band_2g, zero_flag)
      ∷ (DisabledPath.main Band.band_5g, zero_flag)
      ∷ []
    else (DisabledPath.main Band.band_2g, one_flag)
      ∷ (DisabledPath.main Band.band_5g, one_flag)
      ∷ []

-- A value that is set where it differs from the current one, over what was set before.
unfoldable pub insert_value : Text → Text → Option Text → Option Text
unfolding text_eq
insert_value current v set = if text_eq current v then set else some v

-- What the writes of the master switch set of a radio's `disabled`.
unfoldable pub radio_written : Band → Text → List (DisabledPath × Text) → Option Text → Option Text
unfolding insert_value
radio_written b current [] set = set
radio_written b current ((DisabledPath.radio c, w) ∷ ws) set =
    let with_it = radio_written b current ws (insert_value current w set) in
    let without_it = radio_written b current ws set in if same_band b c then with_it else without_it
radio_written b current ((DisabledPath.main c, w) ∷ ws) set = radio_written b current ws set

-- A radio's `disabled` after `wifi_set`: the value of the body, then the writes of the master switch,
-- each where it differs from the current value.
unfoldable pub radio_after : Bool → WifiForm → Band → Text → Text
unfolding radio_written insert_value master_writes
radio_after current_on sent b current =
    get_or_else
      (radio_written b current (master_writes (sent FormKey.wifi_onoff) current_on)
        (insert_value current (sent (FormKey.radio_disabled b)) none))
      current
