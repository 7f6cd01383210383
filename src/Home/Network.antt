-- ===== src/Home/Network.antt =====
-- The network's number and the LTE anchor of a 5G connection (web/src/lib/home.ts).
use zte_u60_pro_mu5250_manag.Common.{
  not, ◌||◌, Option, none, some, [], ◌∷◌, ◌++◌, if◌then◌else◌, ◌==◌, get_or_else, is_some,
}
use zte_u60_pro_mu5250_manag.Common.Texts.{Text, codes, text_eq, trim, is_digits, pad_two}
use zte_u60_pro_mu5250_manag.Home.Signal.{Numbers, SignalValue, NetworkSignal, num_of}
use zte_u60_pro_mu5250_manag.Home.Carriers.{without_letter}

pub record LteAnchor {ℓ} (N : Type ℓ) : Type ℓ where
  pub band : Option Text
  pub pci : Option N
  pub earfcn : Option N
  pub rsrp : Option N
  pub rsrq : Option N
  pub sinr : Option N
  pub rssi : Option N

-- `band && !/^n/i.test(band) ? band : null`.
abbrev pub lte_band : Text → Option Text
lte_band [] = none
lte_band (c ∷ s) = if (c == 110) || (c == 78) then none else some (c ∷ s)

module _ {ℓ} {N : Type ℓ} (numbers : Numbers N) where
  -- `String(v).trim()`, or an empty text.
  unfoldable pub trimmed_value : Option (SignalValue N) → Text
  unfolding trim
  trimmed_value none = []
  trimmed_value (some (SignalValue.text s)) = trim s
  trimmed_value (some (SignalValue.number n)) = trim (numbers.show n)

  -- `plmn`.
  unfoldable pub plmn_of : Option (NetworkSignal N) → Option Text
  unfolding trimmed_value is_digits text_eq pad_two
  plmn_of none = none
  plmn_of (some sig) =
      let mcc = trimmed_value sig.rmcc in
      let mnc = trimmed_value sig.rmnc in
      if not (is_digits 3 3 mcc) || not (is_digits 1 3 mnc) || text_eq mcc (codes "000")
      then none
      else some (mcc ++ (45 ∷ pad_two mnc))

  -- `lteAnchor`.
  unfoldable pub lte_anchor : Option (NetworkSignal N) → Option (LteAnchor N)
  unfolding num_of text_eq
  lte_anchor none = none
  lte_anchor (some sig) =
      if not (text_eq sig.network_type (codes "NSA")) || not (is_some (num_of numbers sig.lte_rsrp))
      then none
      else some (record {
        band = lte_band (without_letter 98 (get_or_else sig.wan_active_band []));
        pci = num_of numbers sig.lte_pci;
        earfcn = num_of numbers sig.wan_active_channel;
        rsrp = num_of numbers sig.lte_rsrp;
        rsrq = num_of numbers sig.lte_rsrq;
        sinr = num_of numbers sig.lte_snr;
        rssi = num_of numbers sig.lte_rssi;
      })
