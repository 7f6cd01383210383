-- ===== src/Home/Signal.antt =====
-- The numbers and the signal that the home page reads (web/src/lib/home.ts, and the type
-- `NetworkSignal` of web/src/lib/api/schemas/network.ts). JavaScript's numbers are of any type with
-- the operations of `Numbers`.
use zte_u60_pro_mu5250_manag.Common.{
  ℕ, ◌≡◌, ◌↔◌, Bool, true, false, Option, none, some, [], ◌∷◌, if◌then◌else◌,
}
use zte_u60_pro_mu5250_manag.Common.Texts.{Text}

-- `Number` and `parseFloat` where they are finite, `String`, `===`, `<` and `+`.
pub record Numbers {ℓ} (N : Type ℓ) : Type ℓ where
  pub number_of : Text → Option N
  pub parse_float : Text → Option N
  pub show : N → Text
  pub same : N → N → Bool
  pub below : N → N → Bool
  pub plus : N → N → N
  pub zero_value : N
  -- -140, and the levels that words change at.
  pub negative : ℕ → N
  pub positive : ℕ → N
  pub same_iff : (a b : N) → (same a b ≡ true) ↔ (a ≡ b)

-- A value of an answer; a missing one and null are none.
pub data SignalValue {ℓ} (N : Type ℓ) : Type ℓ where
  text : Text → SignalValue N
  number : N → SignalValue N

pub record NetworkSignal {ℓ} (N : Type ℓ) : Type ℓ where
  pub network_type : Text
  pub rssi : Option (SignalValue N)
  pub rmcc : Option (SignalValue N)
  pub rmnc : Option (SignalValue N)
  pub wan_active_band : Option Text
  pub wan_active_channel : Option (SignalValue N)
  pub nr5g_action_band : Option Text
  pub nr5g_action_channel : Option (SignalValue N)
  pub nr5g_bandwidth : Option (SignalValue N)
  pub nr5g_rsrp : Option (SignalValue N)
  pub nr5g_rsrq : Option (SignalValue N)
  pub nr5g_rssi : Option (SignalValue N)
  pub nr5g_snr : Option (SignalValue N)
  pub nr5g_pci : Option (SignalValue N)
  pub nr5g_cell_id : Option (SignalValue N)
  pub lte_rsrp : Option (SignalValue N)
  pub lte_rsrq : Option (SignalValue N)
  pub lte_rssi : Option (SignalValue N)
  pub lte_snr : Option (SignalValue N)
  pub lte_pci : Option (SignalValue N)
  pub lte_cell_id : Option (SignalValue N)
  pub cell_id : Option (SignalValue N)
  pub nrca : Option Text
  pub lteca : Option Text

abbrev pub or_none {ℓ} : {A : Type ℓ} → Option A → Option A → Option A
or_none none b = b
or_none (some a) b = some a

module _ {ℓ} {N : Type ℓ} (numbers : Numbers N) where
  open numbers use {number_of, parse_float, show, same, zero_value}

  -- `num`.
  unfoldable pub num_of : Option (SignalValue N) → Option N
  num_of none = none
  num_of (some (SignalValue.text [])) = none
  num_of (some (SignalValue.text (c ∷ s))) = parse_float (c ∷ s)
  num_of (some (SignalValue.number n)) = some n

  -- `num(v)` as a test: there, and not zero.
  unfoldable pub is_truthy : Option N → Bool
  is_truthy none = false
  is_truthy (some n) = if same n zero_value then false else true

  abbrev pub same_option : Option N → Option N → Bool
  same_option none none = true
  same_option (some a) (some b) = same a b
  same_option _ _ = false
