-- ===== src/Home/Carriers.antt =====
-- The carriers of the signal (web/src/lib/home.ts).
use zte_u60_pro_mu5250_manag.Common.{
  ℕ, ◌+◌, Bool, true, false, ◌&&◌, ◌||◌, Option, none, some, List, [], ◌∷◌, ◌++◌, map, filter,
  length, all, if◌then◌else◌, get_or_else, ◌==◌,
}
use zte_u60_pro_mu5250_manag.Common.Texts.{Text, split, trim}
use zte_u60_pro_mu5250_manag.Home.Signal.{
  Numbers, NetworkSignal, num_of, is_truthy, same_option, or_none,
}

pub data Kind : Type 0 where
  nr lte : Kind

pub record Carrier {ℓ} (N : Type ℓ) : Type ℓ where
  pub kind : Kind
  pub band : Text
  pub pci : Option N
  pub arfcn : Option N
  pub bw : Option N
  pub rsrp : Option N
  pub rsrq : Option N
  pub sinr : Option N
  pub active : Bool
  pub serving : Bool

abbrev pub same_kind : Kind → Kind → Bool
same_kind Kind.nr Kind.nr = true
same_kind Kind.lte Kind.lte = true
same_kind _ _ = false

-- `.replace(/^n/i, "")`, with the lower letter.
abbrev pub without_letter : ℕ → Text → Text
without_letter letter [] = []
without_letter letter (c ∷ s) = if (c == letter) || (c + 32 == letter) then s else c ∷ s

module _ {ℓ} {N : Type ℓ} where
  abbrev pub is_lte : Option (Carrier N) → Bool
  is_lte none = false
  is_lte (some c) = same_kind c.kind Kind.lte

  -- The fields of a record, if all are there.
  unfoldable pub all_some : List (Option N) → Option (List N)
  all_some [] = some []
  all_some (none ∷ os) = none
  all_some (some n ∷ os) = elim (all_some os) [ none ↦ none | some ns ↦ some (n ∷ ns) ]

module _ {ℓ} {N : Type ℓ} (numbers : Numbers N) where
  open numbers use {number_of, show, below, same, negative, plus, zero_value}

  -- A record of `nrca` or `lteca`: 5 fields without a signal, or 11.
  unfoldable pub carrier_of : Kind → List N → List (Carrier N)
  carrier_of kind (pci ∷ band ∷ index ∷ arfcn ∷ bw ∷ []) =
      record {
        kind = kind;
        band = show band;
        pci = some pci;
        arfcn = some arfcn;
        bw = some bw;
        rsrp = none;
        rsrq = none;
        sinr = none;
        active = true;
        serving = false;
      }
      ∷ []
  carrier_of kind (idx ∷ pci ∷ x ∷ band ∷ arfcn ∷ bw ∷ y ∷ rsrp ∷ rsrq ∷ sinr ∷ rssi ∷ []) =
      record {
        kind = kind;
        band = show band;
        pci = some pci;
        arfcn = some arfcn;
        bw = some bw;
        rsrp = some rsrp;
        rsrq = some rsrq;
        sinr = some sinr;
        active = below (negative 140) rsrp;
        serving = false;
      }
      ∷ []
  carrier_of kind _ = []

  abbrev pub carriers_of : Kind → Option (List N) → List (Carrier N)
  carriers_of kind none = []
  carriers_of kind (some fs) = carrier_of kind fs

  unfoldable pub carriers_in : Kind → List Text → List (Carrier N)
  unfolding trim split all_some
  carriers_in kind [] = []
  carriers_in kind (rec ∷ recs) =
      carriers_of kind (all_some (map (λ x. number_of (trim x)) (split 44 rec)))
      ++ carriers_in kind recs

  -- `parseCa`.
  unfoldable pub parse_ca : Option Text → Kind → List (Carrier N)
  unfolding carriers_in split
  parse_ca none kind = []
  parse_ca (some []) kind = []
  parse_ca (some (c ∷ s)) kind = carriers_in kind (split 59 (c ∷ s))

  -- `s.serving && kind, PCI and ARFCN are the same`.
  unfoldable pub is_cell : Carrier N → Carrier N → Bool
  is_cell c o =
      o.serving
      && same_kind o.kind c.kind
      && same_option numbers o.pci c.pci
      && same_option numbers o.arfcn c.arfcn

  -- One record of `carriers`: the first row of the serving cell takes its width, or it is a row.
  unfoldable pub put_carrier : Carrier N → List (Carrier N) → List (Carrier N)
  unfolding is_cell
  put_carrier c [] = c ∷ []
  put_carrier c (o ∷ out) =
      let rest = put_carrier c out in
      if is_cell c o then record o { bw = or_none o.bw c.bw } ∷ out else o ∷ rest

  unfoldable pub put_all : List (Carrier N) → List (Carrier N) → List (Carrier N)
  unfolding put_carrier
  put_all [] out = out
  put_all (c ∷ cs) out = put_all cs (put_carrier c out)

  -- The row of the serving cell.
  unfoldable pub serving_rows : NetworkSignal N → List (Carrier N)
  unfolding num_of is_truthy
  serving_rows sig =
      if is_truthy numbers (num_of numbers sig.nr5g_rsrp)
      then record {
        kind = Kind.nr;
        band = without_letter 110 (get_or_else sig.nr5g_action_band []);
        pci = num_of numbers sig.nr5g_pci;
        arfcn = num_of numbers sig.nr5g_action_channel;
        bw = num_of numbers sig.nr5g_bandwidth;
        rsrp = num_of numbers sig.nr5g_rsrp;
        rsrq = num_of numbers sig.nr5g_rsrq;
        sinr = num_of numbers sig.nr5g_snr;
        active = true;
        serving = true;
      }
        ∷ []
      else if is_truthy numbers (num_of numbers sig.lte_rsrp)
      then record {
        kind = Kind.lte;
        band = without_letter 98 (get_or_else sig.wan_active_band []);
        pci = num_of numbers sig.lte_pci;
        arfcn = num_of numbers sig.wan_active_channel;
        bw = none;
        rsrp = num_of numbers sig.lte_rsrp;
        rsrq = num_of numbers sig.lte_rsrq;
        sinr = num_of numbers sig.lte_snr;
        active = true;
        serving = true;
      }
        ∷ []
      else []

  -- `carriers`.
  unfoldable pub carriers : Option (NetworkSignal N) → List (Carrier N)
  unfolding put_all serving_rows parse_ca
  carriers none = []
  carriers (some sig) =
      put_all (parse_ca sig.nrca Kind.nr ++ parse_ca sig.lteca Kind.lte) (serving_rows sig)

  unfoldable pub sum_of_widths : N → List (Carrier N) → N
  sum_of_widths total [] = total
  sum_of_widths total (c ∷ cs) = sum_of_widths (plus total (get_or_else c.bw zero_value)) cs

  abbrev pub has_no_width : Carrier N → Bool
  has_no_width c = elim c.bw [ none ↦ true | some _ ↦ false ]

  -- `totalBandwidth`.
  unfoldable pub total_bandwidth : List (Carrier N) → Option N
  unfolding sum_of_widths
  total_bandwidth cs = if all has_no_width cs then none else some (sum_of_widths zero_value cs)

  -- `servingCellId`.
  unfoldable pub serving_cell_id : Option (NetworkSignal N) → Option (Carrier N) → Option N
  unfolding num_of
  serving_cell_id none serving = none
  serving_cell_id (some sig) serving =
      let nr_id = num_of numbers sig.nr5g_cell_id in
      let lte_id = or_none (num_of numbers sig.cell_id) (num_of numbers sig.lte_cell_id) in
      if is_lte serving then or_none lte_id nr_id else or_none nr_id lte_id

  -- `servingRssi`.
  unfoldable pub serving_rssi : Option (NetworkSignal N) → Option Kind → Option N
  unfolding num_of
  serving_rssi none kind = none
  serving_rssi (some sig) none = num_of numbers sig.rssi
  serving_rssi (some sig) (some Kind.nr) =
      or_none (num_of numbers sig.nr5g_rssi) (num_of numbers sig.rssi)
  serving_rssi (some sig) (some Kind.lte) =
      or_none (num_of numbers sig.lte_rssi) (num_of numbers sig.rssi)

module _ {ℓ} {N : Type ℓ} where
  -- `carrierCounts`.
  unfoldable pub carrier_counts : List (Carrier N) → ℕ × ℕ
  carrier_counts cs = (
    length (filter (λ c. same_kind c.kind Kind.nr) cs),
    length (filter (λ c. same_kind c.kind Kind.lte) cs),
  )
