-- ===== src/Wifi/Allowed.antt =====
-- What an Apply of the Wi-Fi page lets through (web/src/app/(panel)/router/wifi/page.tsx).
use zte_u60_pro_mu5250_manag.Common.{
  ◌≡◌, refl, ap, sym, ◌∙◌, Bool, true, false, not, ◌&&◌, ◌||◌, Option, none, some, List, [], ◌∷◌,
  ◌++◌, if◌then◌else◌, arith, get_or_else,
}
use zte_u60_pro_mu5250_manag.Common.Texts.{text_eq}
use zte_u60_pro_mu5250_manag.Wifi.Fields.{
  SsidProblem, KeyProblem, has_stripped, ssid_problem, key_problem, open_network,
}
use zte_u60_pro_mu5250_manag.Wifi.Form.{Band, FormKey, WifiForm}
use zte_u60_pro_mu5250_manag.Wifi.Apply.{
  differs, changed_keys, band_problems, wifi_problems, WifiProblem, listed, ssid_found, key_found,
  ssid_char_problems, key_char_problems, ssid_problems, key_problems,
}
use zte_u60_pro_mu5250_manag.Wifi.Ask.{WifiPending, wifi_describe, ask_wifi_apply, is_none_listed}

-- A band without a problem: its name, and its password but on an open network, have no character
-- that the device drops; a changed name is as long as it may be, and so is a changed password, or the
-- password of a changed encryption, but on an open network, whose password is not checked.
abbrev pub IsAllowed : WifiForm → WifiForm → Band → Type 0
IsAllowed f b band =
    (has_stripped (f (FormKey.ssid band)) ≡ false)
    × ((text_eq (f (FormKey.encryption band)) open_network
          || not (has_stripped (f (FormKey.key band))))
        ≡ true)
    × ((not (differs f b (FormKey.ssid band))
          || is_none_listed (listed (ssid_problem (f (FormKey.ssid band)))))
        ≡ true)
    × ((not (differs f b (FormKey.key band) || differs f b (FormKey.encryption band))
          || is_none_listed
              (listed (key_problem (f (FormKey.key band)) (f (FormKey.encryption band)))))
        ≡ true)

none-append {ℓ} :
    {A : Type ℓ} (xs ys : List A)
    → is_none_listed (xs ++ ys) ≡ true
    → (is_none_listed xs ≡ true) × (is_none_listed ys ≡ true)
none-append [] ys h = (refl, h)
none-append (x ∷ xs) ys h = absurd cc

none_if {ℓ} :
    {A : Type ℓ} (b : Bool) (xs : List A)
    → is_none_listed (if b then xs else []) ≡ true
    → (not b || is_none_listed xs) ≡ true
none_if true xs h = h
none_if false xs h = refl

if_none :
    (b : Bool) (p : WifiProblem) → is_none_listed (if b then p ∷ [] else []) ≡ true → b ≡ false
if_none true p h = absurd cc
if_none false p h = refl

ssid_listed :
    (band : Band) (p : Option SsidProblem)
    → is_none_listed (listed (ssid_found band p)) ≡ is_none_listed (listed p)
ssid_listed band none = refl
ssid_listed band (some p) = refl

key_listed :
    (band : Band) (p : Option KeyProblem)
    → is_none_listed (listed (key_found band p)) ≡ is_none_listed (listed p)
key_listed band none = refl
key_listed band (some p) = refl

open_or : (a b : Bool) → (not a && b) ≡ false → (a || not b) ≡ true
open_or a b h = ground arith

band_problems-IsAllowed :
    (f b : WifiForm) (band : Band)
    → is_none_listed (band_problems f b band) ≡ true
    → IsAllowed f b band
unfolding band_problems ssid_char_problems key_char_problems ssid_problems key_problems
band_problems-IsAllowed f b band h =
    let chars = ssid_char_problems f b band in
    let key_chars = key_char_problems f b band in
    let names = ssid_problems f b band in
    let keys = key_problems f b band in
    let one = none-append chars (key_chars ++ (names ++ keys)) h in
    let two = none-append key_chars (names ++ keys) one.1 in
    let last = none-append names keys two.1 in
    let open_net = text_eq (f (FormKey.encryption band)) open_network in
    let name = ssid_problem (f (FormKey.ssid band)) in
    let key = key_problem (f (FormKey.key band)) (f (FormKey.encryption band)) in
    let new_name = differs f b (FormKey.ssid band) in
    let new_key = differs f b (FormKey.key band) || differs f b (FormKey.encryption band) in
    (
      if_none (has_stripped (f (FormKey.ssid band))) (WifiProblem.ssid_chars band new_name) one.0,
      open_or open_net (has_stripped (f (FormKey.key band))) (
          if_none (not open_net && has_stripped (f (FormKey.key band)))
            (WifiProblem.key_chars band (differs f b (FormKey.key band))) two.0),
      ap (λ x. not new_name || x) (sym (ssid_listed band name))
          ∙ none_if new_name (listed (ssid_found band name)) last.0,
      ap (λ x. not new_key || x) (sym (key_listed band key))
          ∙ none_if new_key (listed (key_found band key)) last.1,
    )

asked_if :
    (bad : Bool) (p q : WifiPending)
    → (if bad then none else some p) ≡ some q
    → (bad ≡ false) × (p ≡ q)
asked_if true p q h = absurd cc
asked_if false p q h = (refl, ap (λ o. get_or_else o p) h)

three : (a b c : Bool) → (a || b || not c) ≡ false → (a ≡ false) × (b ≡ false) × (c ≡ true)
three a b c h = ground arith

-- An Apply that is asked sends the form as it stands, with a change in it, while nothing else is
-- written, and of both bands: no character that the device drops in a network name or in the password
-- of a network that is not open, no changed name that is too short or too long, and on a network that
-- is not open no changed password, and none for a changed encryption, that is too short or too long.
pub ask_wifi_apply-IsAllowed :
    (remote busy : Bool) (f b : WifiForm) (p : WifiPending)
    → ask_wifi_apply remote busy f b ≡ some p
    → (p.body ≡ f)
      × (busy ≡ false)
      × (is_none_listed (changed_keys f b) ≡ false)
      × IsAllowed f b Band.band_2g
      × IsAllowed f b Band.band_5g
unfolding ask_wifi_apply wifi_problems
ask_wifi_apply-IsAllowed remote busy f b p h =
    let fine = is_none_listed (wifi_problems f b) in
    let same = is_none_listed (changed_keys f b) in
    let made : WifiPending = record {
      tier = if remote then 3 else 2;
      body = f;
      described = wifi_describe f b;
    } in
    let asked = asked_if (busy || same || not fine) made p h in
    let all_three = three busy same fine asked.0 in
    let bands =
      none-append (band_problems f b Band.band_2g) (band_problems f b Band.band_5g) all_three.2 in
    (
      ap (λ q. q.body) (sym asked.1),
      all_three.0,
      all_three.1,
      band_problems-IsAllowed f b Band.band_2g bands.0,
      band_problems-IsAllowed f b Band.band_5g bands.1,
    )
