-- ===== src/Tests/HomeRuns.antt =====
-- The home page (web/src/lib/home.ts).
use zte_u60_pro_mu5250_manag.Common.{
  ℕ, ◌+◌, ◌-◌, ◌*◌, ◌<◌, ◌≤◌, ◌≡◌, refl, true, some, none, [], ◌∷◌, Option, ltb, ◌==◌, ==_iff,
  length, if◌then◌else◌,
}
use zte_u60_pro_mu5250_manag.Common.Texts.{Text, codes, number, decimal}
use zte_u60_pro_mu5250_manag.Home.Signal.{Numbers, SignalValue, NetworkSignal}
use zte_u60_pro_mu5250_manag.Home.Carriers.{carriers, serving_rows, carrier_of, total_bandwidth}
use zte_u60_pro_mu5250_manag.Home.Network.{plmn_of}
use zte_u60_pro_mu5250_manag.Home.Serving.{listed_rows, records, carriers-listed_rows}
use zte_u60_pro_mu5250_manag.Home.Words.{
  SigState, sig_state, Uptime, uptime_parts, ConnectKind, connect_kind, Enable, data_switch_on,
}
use zte_u60_pro_mu5250_manag.Home.Spells.{uptime_parts_lem}

-- Whole numbers from -500 on, by their distance from it.
abbrev value_of_text : Text → Option ℕ
value_of_text [] = some 500
value_of_text (c ∷ s) = if c == 45 then some (500 - number s) else some (500 + number (c ∷ s))

abbrev whole : Numbers ℕ
whole = record {
  number_of = value_of_text;
  parse_float = value_of_text;
  show = λ n. decimal (n - 500);
  same = λ a b. a == b;
  below = ltb;
  plus = λ a b. (a + b) - 500;
  zero_value = 500;
  negative = λ n. 500 - n;
  positive = λ n. 500 + n;
  same_iff = ==_iff;
}

-- A 5G cell, a record of it with its width, and a second carrier.
abbrev signal : NetworkSignal ℕ
signal = record {
  network_type = codes "SA";
  rssi = none;
  rmcc = none;
  rmnc = none;
  wan_active_band = none;
  wan_active_channel = none;
  nr5g_action_band = some (codes "n78");
  nr5g_action_channel = some (SignalValue.number 900);
  nr5g_bandwidth = none;
  nr5g_rsrp = some (SignalValue.number 410);
  nr5g_rsrq = none;
  nr5g_rssi = none;
  nr5g_snr = none;
  nr5g_pci = some (SignalValue.number 512);
  nr5g_cell_id = none;
  lte_rsrp = none;
  lte_rsrq = none;
  lte_rssi = none;
  lte_snr = none;
  lte_pci = none;
  lte_cell_id = none;
  cell_id = none;
  nrca = some (codes "0,12,0,78,400,100,0,-140,0,0,0;1,13,0,41,300,60,0,-90,-11,9,-60");
  lteca = some (codes "9,9");
}

carrier_runs :
    (length (carriers whole (some signal)) ≡ 2)
    × (total_bandwidth whole (carriers whole (some signal)) ≡ some 660)
    × (plmn_of whole (
          some (record signal {
            rmcc = some (SignalValue.number 966);
            rmnc = some (SignalValue.number 501);
          }))
        ≡ some (codes "466-01"))
unfolding carriers total_bandwidth carrier_of number plmn_of decimal
carrier_runs = (refl, refl, refl)

carriers-listed_rows_example :
    carriers whole (some signal)
    ≡ listed_rows whole (serving_rows whole signal) (records whole signal)
carriers-listed_rows_example = carriers-listed_rows whole signal

word_runs :
    (connect_kind (λ s. s) (some (codes "ipv4_ipv6_connected")) ≡ ConnectKind.connected)
    × (connect_kind (λ s. s) (some (codes "disconnected")) ≡ ConnectKind.disconnected)
    × (data_switch_on (λ s. s) Enable.is_zero (some (codes "ipv4_connected")) ≡ some true)
    × (sig_state whole true true (some (codes "sim_ready")) (some 4) (some 499) ≡ SigState.weak)
unfolding connect_kind data_switch_on sig_state
word_runs = (refl, refl, refl, refl)

abbrev up : Uptime
up = record { days = 1; hours = 2; minutes = 3 }

up_run : uptime_parts (some 93810) ≡ some up
unfolding uptime_parts
up_run = refl

uptime_parts_lem_example :
    (up.hours < 24)
    × (up.minutes < 60)
    × (60 * (60 * (24 * up.days + up.hours) + up.minutes) ≤ 93810)
    × (93810 < 60 * (60 * (24 * up.days + up.hours) + up.minutes) + 60)
uptime_parts_lem_example = uptime_parts_lem 93810 up up_run
