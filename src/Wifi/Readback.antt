-- ===== src/Wifi/Readback.antt =====
-- What the readback of the Wi-Fi page takes for done (web/src/app/(panel)/router/wifi/page.tsx).
use zte_u60_pro_mu5250_manag.Common.{
  ℕ, ◌≡◌, refl, ap, sym, ◌∙◌, ◌↔◌, Bool, true, ◌&&◌, some, List, [], ◌∷◌, ◌++◌, all, arith,
}
use zte_u60_pro_mu5250_manag.Common.Texts.{Text, text_eq, text_eq_refl, text_eq_sound}
use zte_u60_pro_mu5250_manag.Wifi.Form.{
  Band, FormKey, WifiForm, WifiStatus, band_keys, form_keys, wifi_seed, seed_value, matches_key,
  wifi_matches,
}

-- An answer with all of its keys, and a country code that is not empty.
abbrev pub full_status : WifiForm → Text → WifiStatus
full_status given code = record { value = λ k. some (given k); country_code = some code }

all_each {ℓ} : {A : Type ℓ} (p : A → Bool) (ks : List A) → ((k : A) → p k ≡ true) → all p ks ≡ true
all_each p [] h = refl
all_each p (k ∷ ks) h = rw (h k) (all_each p ks h)

all-append {ℓ} :
    {A : Type ℓ} (p : A → Bool) (xs ys : List A) → all p (xs ++ ys) ≡ (all p xs && all p ys)
all-append p [] ys = refl
all-append p (x ∷ xs) ys = ground (arith, all-append p xs ys)

both : (a b : Bool) → (a && b) ≡ true → (a ≡ true) × (b ≡ true)
both a b h = ground arith

-- The band of a key that has one.
band_key :
    (p : FormKey → Bool) (b : Band)
    → all p (band_keys b) ≡ true
    → (p (FormKey.ssid b) ≡ true)
      × (p (FormKey.key b) ≡ true)
      × (p (FormKey.channel b) ≡ true)
      × (p (FormKey.txpower b) ≡ true)
      × (p (FormKey.encryption b) ≡ true)
      × (p (FormKey.hidden b) ≡ true)
      × (p (FormKey.radio_disabled b) ≡ true)
      × (p (FormKey.htmode b) ≡ true)
band_key p b h = ground arith

every_key : (p : FormKey → Bool) → all p form_keys ≡ true → (k : FormKey) → p k ≡ true
every_key p h k =
    let rest = FormKey.wifi_onoff ∷ FormKey.wifi6_switch ∷ FormKey.country ∷ [] in
    let two =
      both (all p (band_keys Band.band_2g)) (all p (band_keys Band.band_5g ++ rest))
        (sym (all-append p (band_keys Band.band_2g) (band_keys Band.band_5g ++ rest)) ∙ h) in
    let more =
      both (all p (band_keys Band.band_5g)) (all p rest)
        (sym (all-append p (band_keys Band.band_5g) rest) ∙ two.1) in
    of_key two.0 more.0 more.1 k
  where
    of_band :
        all p (band_keys Band.band_2g) ≡ true
        → all p (band_keys Band.band_5g) ≡ true
        → (b : Band) → all p (band_keys b) ≡ true
    of_band h2 h5 Band.band_2g = h2
    of_band h2 h5 Band.band_5g = h5

    of_key :
        all p (band_keys Band.band_2g) ≡ true
        → all p (band_keys Band.band_5g) ≡ true
        → all p (FormKey.wifi_onoff ∷ FormKey.wifi6_switch ∷ FormKey.country ∷ []) ≡ true
        → (k : FormKey) → p k ≡ true
    of_key h2 h5 r (FormKey.ssid b) = (band_key p b (of_band h2 h5 b)).0
    of_key h2 h5 r (FormKey.key b) = (band_key p b (of_band h2 h5 b)).1
    of_key h2 h5 r (FormKey.channel b) = (band_key p b (of_band h2 h5 b)).2
    of_key h2 h5 r (FormKey.txpower b) = (band_key p b (of_band h2 h5 b)).3
    of_key h2 h5 r (FormKey.encryption b) = (band_key p b (of_band h2 h5 b)).4
    of_key h2 h5 r (FormKey.hidden b) = (band_key p b (of_band h2 h5 b)).5
    of_key h2 h5 r (FormKey.radio_disabled b) = (band_key p b (of_band h2 h5 b)).6
    of_key h2 h5 r (FormKey.htmode b) = (band_key p b (of_band h2 h5 b)).7
    of_key h2 h5 r FormKey.wifi_onoff = ground arith
    of_key h2 h5 r FormKey.wifi6_switch = ground arith
    of_key h2 h5 r FormKey.country = ground arith

module _ (upper : Text → Text) where
  matches_key-wifi_seed :
      (sent given : WifiForm) (c : ℕ) (code : Text) (k : FormKey)
      → upper (sent FormKey.country) ≡ sent FormKey.country
      → matches_key upper sent (full_status given (c ∷ code)) k
        ≡ text_eq (wifi_seed upper (full_status given (c ∷ code)) k) (sent k)
  unfolding matches_key wifi_seed seed_value
  matches_key-wifi_seed sent given c code (FormKey.ssid b) h = refl
  matches_key-wifi_seed sent given c code (FormKey.key b) h = refl
  matches_key-wifi_seed sent given c code (FormKey.channel b) h = refl
  matches_key-wifi_seed sent given c code (FormKey.txpower b) h = refl
  matches_key-wifi_seed sent given c code (FormKey.encryption b) h = refl
  matches_key-wifi_seed sent given c code (FormKey.hidden b) h = refl
  matches_key-wifi_seed sent given c code (FormKey.htmode b) h = refl
  matches_key-wifi_seed sent given c code (FormKey.radio_disabled b) h = refl
  matches_key-wifi_seed sent given c code FormKey.wifi_onoff h = refl
  matches_key-wifi_seed sent given c code FormKey.wifi6_switch h = refl
  matches_key-wifi_seed sent given c code FormKey.country h =
      ap (λ t. text_eq (upper (c ∷ code)) t) h

  -- Of an answer with all of its keys and a country code, the readback takes a form for saved exactly
  -- where the page would show that form of the answer, for a form whose country is in upper case.
  pub wifi_matches-wifi_seed :
      (sent given : WifiForm) (c : ℕ) (code : Text)
      → upper (sent FormKey.country) ≡ sent FormKey.country
      → (wifi_matches upper sent (full_status given (c ∷ code)) ≡ true)
        ↔ ((k : FormKey) → wifi_seed upper (full_status given (c ∷ code)) k ≡ sent k)
  unfolding wifi_matches
  wifi_matches-wifi_seed sent given c code h = (to, from)
    where
      to :
          wifi_matches upper sent (full_status given (c ∷ code)) ≡ true
          → (k : FormKey) → wifi_seed upper (full_status given (c ∷ code)) k ≡ sent k
      to m k =
          let d = full_status given (c ∷ code) in
          text_eq_sound (wifi_seed upper d k) (sent k) (
            sym (matches_key-wifi_seed sent given c code k h)
            ∙ every_key (λ k. matches_key upper sent d k) m k)

      from :
          ((k : FormKey) → wifi_seed upper (full_status given (c ∷ code)) k ≡ sent k)
          → wifi_matches upper sent (full_status given (c ∷ code)) ≡ true
      from e =
          let d = full_status given (c ∷ code) in
          all_each (λ k. matches_key upper sent d k) form_keys
            (λ k.
              matches_key-wifi_seed sent given c code k h
              ∙ ap (λ t. text_eq t (sent k)) (e k)
              ∙ text_eq_refl (sent k))
